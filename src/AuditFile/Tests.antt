-- ===== src/AuditFile/Tests.antt =====
-- The theorems on the audit log at small logs.
use Prim.Native.String.{String, [], ◌∷◌, count}
use mathlib.Core.List.{List, [], ◌∷◌}
use mandau.Base.{
  ℕ, zero, suc, ◌+◌, ◌-◌, ◌≡◌, refl, ap, sym, ◌∙◌, Bool, ◌==◌, if◌then◌else◌, true, false, Option,
  none, some, All, All-map_of, ok, err, ◌<>◌, keys, get, arith, filter, length, ◌⊎◌, ◌↔◌, ◌≤◌,
  eq_refl,
}
use text.Mathlib.TextLemmas.{length-append, append_assoc}
use mandau.Base.Text.{before, has_prefix, has_prefix_iff, has_suffix, has_suffix-append}
use mandau.Plugin.{text_at, AuditEntry, AuditFilter}
use mandau.AuditFile.{
  Bytes, Disk, FileAuditPlugin, Library, System, new_file_audit, opened, query, path_on,
  matches_filter, should_rotate,
}
use mandau.AuditFile.Files.{Apart, Dated, Sorted}
use mandau.AuditFile.Writing.{Works, Stored}
use mandau.AuditFile.History.{
  Globs, Logged, log_all, served, query-log_all, entries_logged, log_dir_of,
}
use mandau.AuditFile.Rotation.{log_all-size, log_all-lost}
use mandau.AuditFile.Filters.{matches_filter_iff}

-- The text of a day: as many marks.
marks : ℕ → String
marks zero = ""
marks (suc n) = "x" <> marks n

abbrev entry_at : ℕ → AuditEntry
entry_at time = record {
  timestamp = time;
  agent_id = "agent-web";
  identity = none;
  action = "/Apply";
  resource = "";
  result = "success";
  duration = 1;
  metadata = [];
  transcript_hash = "";
}

-- An entry of a time is one byte, above those of line breaks.
abbrev unmarshal_byte : Bytes → Option AuditEntry
unmarshal_byte [] = none
unmarshal_byte (b ∷ bytes) = some (entry_at (b - 20))

-- A pattern of one star: what comes before it, and what comes after.
abbrev front_of : String → String
front_of [] = []
front_of (c ∷ s) = let rest = front_of s in if (c ∷ []) == "*" then [] else c ∷ rest

abbrev back_of : String → String
back_of [] = []
back_of (c ∷ s) = let rest = back_of s in if (c ∷ []) == "*" then s else rest

abbrev star_match : String → String → Bool
star_match pattern file =
    if has_prefix file (front_of pattern) then has_suffix file (back_of pattern) else false

-- Sorting by insertion.
abbrev insert : String → List String → List String
insert p [] = p ∷ []
insert p (q ∷ qs) = let rest = insert p qs in if before p q then p ∷ q ∷ qs else q ∷ rest

abbrev sort : List String → List String
sort [] = []
sort (p ∷ ps) = insert p (sort ps)

abbrev small : Library
small = record {
  join = λ dir name. dir <> "/" <> name;
  date = marks;
  marshal = λ entry. ok ((entry.timestamp + 20) ∷ []);
  unmarshal = unmarshal_byte;
  glob = λ pattern disk. ok (sort (filter (star_match pattern) (keys disk)));
}

abbrev on_day : ℕ → System
on_day day = record {
  day = day;
  mkdir_all = λ dir. ok tt;
  open_file = λ file. ok tt;
  written = λ bytes. bytes;
  read_file = λ file. ok tt;
}

count-marks : (n : ℕ) → count (marks n) ≡ n
unfolding marks
count-marks zero = refl
count-marks (suc n) = omega (arith, length-append "x" (marks n), count-marks n)

small-Apart : (dir : String) → Apart small dir
small-Apart dir d e h = omega (
  arith,
  ap count h,
  length-append dir ("/" <> "audit-" <> marks d <> ".jsonl"),
  length-append dir ("/" <> "audit-" <> marks e <> ".jsonl"),
  length-append "/" ("audit-" <> marks d <> ".jsonl"),
  length-append "/" ("audit-" <> marks e <> ".jsonl"),
  length-append "audit-" (marks d <> ".jsonl"),
  length-append "audit-" (marks e <> ".jsonl"),
  length-append (marks d) ".jsonl",
  length-append (marks e) ".jsonl",
  count-marks d,
  count-marks e,
)

abbrev dir : String
dir = log_dir_of []

small-Dated : Dated small dir 3
unfolding marks text_at get
small-Dated zero zero l k = absurd (omega arith)
small-Dated zero (suc zero) l k = refl
small-Dated zero (suc (suc zero)) l k = refl
small-Dated zero (suc (suc (suc e))) l k = absurd (omega arith)
small-Dated (suc zero) zero l k = absurd (omega arith)
small-Dated (suc zero) (suc zero) l k = absurd (omega arith)
small-Dated (suc zero) (suc (suc zero)) l k = refl
small-Dated (suc zero) (suc (suc (suc e))) l k = absurd (omega arith)
small-Dated (suc (suc d)) e l k = absurd (omega arith)

insert-first :
    (p : String) (ps : List String) → All (λ q. before p q ≡ true) ps → insert p ps ≡ p ∷ ps
insert-first p [] a = refl
insert-first p (q ∷ ps) a = rw (a.0, insert) refl

sort-Sorted : (ps : List String) → Sorted ps → sort ps ≡ ps
sort-Sorted [] h = refl
sort-Sorted (p ∷ ps) h = ap (insert p) (sort-Sorted ps h.1) ∙ insert-first p ps h.0

log_pattern : String
log_pattern = dir <> "/" <> "audit-*.jsonl"

log-front :
    (day : ℕ)
    → "/var/log/mandau/audit-" <> (marks day <> ".jsonl")
      ≡ "/var/log/mandau" <> "/" <> "audit-" <> marks day <> ".jsonl"
log-front day =
    let rest : String = marks day <> ".jsonl" in
    append_assoc "/var/log/mandau/" "audit-" rest
    ∙ append_assoc "/var/log/mandau" "/" ("audit-" <> rest)

log-back :
    (day : ℕ)
    → ("/var/log/mandau" <> "/" <> "audit-" <> marks day) <> ".jsonl"
      ≡ "/var/log/mandau" <> "/" <> "audit-" <> marks day <> ".jsonl"
log-back day =
    append_assoc "/var/log/mandau" ("/" <> "audit-" <> marks day) ".jsonl"
    ∙ ap (λ t. "/var/log/mandau" <> t) (append_assoc "/" ("audit-" <> marks day) ".jsonl")
    ∙ ap (λ t. "/var/log/mandau" <> "/" <> t) (append_assoc "audit-" (marks day) ".jsonl")

log-matches : (day : ℕ) → star_match log_pattern (path_on small dir day) ≡ true
unfolding log_pattern text_at get
log-matches day =
    let file : String = "/var/log/mandau" <> "/" <> "audit-" <> marks day <> ".jsonl" in
    ap (λ b. if b then has_suffix file ".jsonl" else false)
      ((has_prefix_iff file "/var/log/mandau/audit-").1 (marks day <> ".jsonl", log-front day))
    ∙ ap (λ f. has_suffix f ".jsonl") (sym (log-back day))
    ∙ has_suffix-append ("/var/log/mandau" <> "/" <> "audit-" <> marks day) ".jsonl"

filter_same : (p : String → Bool) (xs : List String) → All (λ x. p x ≡ true) xs → filter p xs ≡ xs
filter_same p [] h = refl
filter_same p (x ∷ xs) h = rw (h.0, filter) (ap (λ l. x ∷ l) (filter_same p xs h.1))

small-Globs : Globs small dir
unfolding log_pattern
small-Globs disk sorted logs_only =
    ap (λ fs. ok (sort fs))
      (filter_same (star_match log_pattern) (keys disk) (
        All-map_of _ _ (keys disk) (λ p (day, e). ap (star_match log_pattern) e ∙ log-matches day)
          logs_only))
    ∙ ap ok (sort-Sorted (keys disk) sorted)

small-Works : (day : ℕ) → Works (on_day day)
small-Works day = (λ path. refl, λ b. refl)

-- Two entries of the first day and one of the next.
abbrev three : Logged
three = (on_day 1, entry_at 3) ∷ (on_day 1, entry_at 5) ∷ (on_day 2, entry_at 9) ∷ []

abbrev from_five : AuditFilter
from_five = record {
  agent_id = "agent-web";
  user_id = "nobody";
  action = "";
  start_time = some 5;
  end_time = none;
  limit = 1;
}

small-Stored : (time : ℕ) → Stored small (entry_at time)
small-Stored time =
    ((time + 20) ∷ [], refl, (omega arith, tt), ap (λ t. some (entry_at t)) (back time))
  where
    back : (n : ℕ) → n + 20 - 20 ≡ n
    back n = omega arith

query-log_all_example :
    query small
      (served small [] (on_day 1) three).0
      (on_day 2)
      (served small [] (on_day 1) three).1
      (some from_five)
    ≡ ok (filter (λ e. matches_filter e (some from_five)) (entries_logged three))
query-log_all_example =
    query-log_all small [] (on_day 1) (on_day 2) 3 three (some from_five) (small-Apart dir)
      small-Dated (omega arith) small-Globs refl (small-Works 1)
      (
        omega arith,
        omega arith,
        small-Works 1,
        small-Stored 3,
        (
          omega arith,
          omega arith,
          small-Works 1,
          small-Stored 5,
          (omega arith, omega arith, small-Works 2, small-Stored 9, tt),
        ),
      )
      (λ path. refl)

-- The limit of one entry and the user of the filter are not heeded.
two_from_five :
    filter (λ e. matches_filter e (some from_five)) (entries_logged three)
    ≡ entry_at 5 ∷ entry_at 9 ∷ []
unfolding matches_filter
two_from_five = refl

-- A plugin whose file is at its bound of one byte and more.
abbrev full : FileAuditPlugin
full = record new_file_audit { current_log = opened (path_on small "" 1); rotate_size = 1 }

abbrev full_disk : Disk
full_disk = (path_on small "" 1, 21 ∷ 10 ∷ []) ∷ []

log_all-size_example :
    (disk' : Disk) × (bytes' : Bytes) × (log_all small full full_disk ((on_day 1, entry_at 3) ∷ [])
      ≡ (full, disk'))
    × (get disk' (path_on small "" 1) ≡ some bytes')
    × (◌≡◌ {A = ℕ} (length bytes') 4)
unfolding get new_file_audit
log_all-size_example =
    log_all-size small full (on_day 1) full_disk (21 ∷ 10 ∷ []) ((on_day 1, entry_at 3) ∷ [])
      (refl, rw (eq_refl (path_on small "" 1)) refl) (refl, small-Works 1, tt)

abbrev no_open : System
no_open = record (on_day 1) { open_file = λ path. err "too many open files" }

log_all-lost_example :
    (log_all small full full_disk
      ((no_open, entry_at 3) ∷ (on_day 1, entry_at 4) ∷ (on_day 1, entry_at 5) ∷ [])).1
    ≡ full_disk
unfolding should_rotate get new_file_audit
log_all-lost_example =
    log_all-lost small full no_open full_disk (entry_at 3)
      ((on_day 1, entry_at 4) ∷ (on_day 1, entry_at 5) ∷ []) (path_on small "" 1)
      "too many open files" refl (rw (eq_refl (path_on small "" 1)) refl) refl

matches_filter_iff_example : (matches_filter (entry_at 5) (some from_five) ≡ true) ↔ (
    ((from_five.agent_id ≡ "") ⊎ ((entry_at 5).agent_id ≡ from_five.agent_id))
    × ((from_five.start_time ≡ none)
        ⊎ ((t : ℕ) × (from_five.start_time ≡ some t) × (t ≤ (entry_at 5).timestamp)))
    × ((from_five.end_time ≡ none)
        ⊎ ((t : ℕ) × (from_five.end_time ≡ some t) × ((entry_at 5).timestamp ≤ t))))
matches_filter_iff_example = matches_filter_iff (entry_at 5) from_five
