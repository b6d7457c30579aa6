-- ===== src/AuditFile/History.antt =====
-- Histories of calls of plugins/audit/file/plugin.go: what `Query` finds after any number of `Log`s.
use mandau.Base.{
  ℕ, ◌≤◌, ◌<◌, All, ◌≡◌, refl, sym, ap, subst, ◌∙◌, inl, Bool, true, false, Option, some, List, [],
  ◌∷◌, ◌++◌, append_assoc, append-nil, if◌then◌else◌, arith, filter, keys, Result, ok, String, put,
  get, eq_refl, ◌>>=◌, Map,
}
use mandau.Plugin.{Value, text_at, AuditEntry, AuditFilter}
use mandau.AuditFile.{
  Disk, FileAuditPlugin, Library, System, new_file_audit, matches_filter, kept, query, read_files,
  init_audit, or_default, open_log_file, opened_after, with_file, created, path_on, log, entries_of,
  split_lines,
}
use mandau.AuditFile.Files.{
  Logs, Apart, Ascending-last, Sorted, Dated, IsLog, paths-IsLog, paths-Sorted, read_files_lem,
}
use mandau.AuditFile.Writing.{Works, Stored, Recorded, Recorded-log, Before-later}

-- The calls of `Log`, each with its moment.
abbrev pub Logged : Type 0
Logged = List (System × AuditEntry)

abbrev pub entries_logged : Logged → List AuditEntry
entries_logged [] = []
entries_logged ((os, entry) ∷ calls) = entry ∷ entries_logged calls

unfoldable pub log_all : Library → FileAuditPlugin → Disk → Logged → FileAuditPlugin × Disk
log_all lib p disk [] = (p, disk)
log_all lib p disk ((os, entry) ∷ calls) =
    let (p', disk') = log lib p os disk entry in log_all lib p' disk' calls

-- The clock does not go back to an earlier day and stays below a limit, files open and are written, and
-- JSON reads the entries back.
abbrev Orderly : Library → ℕ → ℕ → Logged → Type 0
Orderly lib limit day [] = Unit {0}
Orderly lib limit day ((os, entry) ∷ calls) =
    (day ≤ os.day) × (os.day < limit) × Works os × Stored lib entry × Orderly lib limit os.day calls

-- `Glob` gives the files that match in the order of their names. So of a disk that has log files alone,
-- and lists them in that order, it gives what is there.
abbrev pub Globs : Library → String → Type 0
Globs lib log_dir =
    (disk : Disk)
    → Sorted (keys disk)
    → All (IsLog lib log_dir) (keys disk)
    → lib.glob (lib.join log_dir "audit-*.jsonl") disk ≡ ok (keys disk)

pick_step :
    (b : Bool) (es rest : List AuditEntry) (entry : AuditEntry)
    → (es ++ (if b then entry ∷ [] else [])) ++ rest
      ≡ es ++ (elim b [ true ↦ entry ∷ rest | false ↦ rest ])
pick_step true es rest entry = append_assoc es (entry ∷ []) rest
pick_step false es rest entry = ap (λ l. l ++ rest) (append-nil es)

filter_step :
    (wanted : Option AuditFilter) (es rest : List AuditEntry) (entry : AuditEntry)
    → (es ++ kept wanted (some entry) []) ++ filter (λ e. matches_filter e wanted) rest
      ≡ es ++ filter (λ e. matches_filter e wanted) (entry ∷ rest)
filter_step wanted es rest entry =
    pick_step (matches_filter entry wanted) es (filter (λ e. matches_filter e wanted) rest) entry

-- The plugin and an empty disk after the log directory is made and the first file is opened.
abbrev started : Library → String → System → FileAuditPlugin × Disk × Result (Unit {0})
started lib log_dir os = open_log_file lib (record new_file_audit { log_dir = log_dir }) os []

module _ (lib : Library) (log_dir : String) (wanted : Option AuditFilter) where
  abbrev select : List AuditEntry → List AuditEntry
  select es = filter (λ e. matches_filter e wanted) es

  Recorded-log_all :
      (p : FileAuditPlugin) (disk : Disk) (limit day last : ℕ) (es : List AuditEntry)
      (calls : Logged)
      → Apart lib log_dir
      → day ≤ last
      → last < limit
      → Orderly lib limit last calls
      → Recorded lib log_dir wanted p disk day es
      → (d : ℕ) × (d < limit)
        × Recorded lib log_dir wanted
            (log_all lib p disk calls).0
            (log_all lib p disk calls).1
            d
            (es ++ select (entries_logged calls))
  unfolding log_all
  Recorded-log_all p disk limit day last es [] a l k o r =
      (day, omega arith, subst (Recorded lib log_dir wanted p disk day) (sym (append-nil es)) r)
  Recorded-log_all p disk limit day last es ((os, entry) ∷ calls) a l k (later, m, w, s, o) r =
      let (d, before, q) =
        Recorded-log lib log_dir wanted p os disk day es entry a w (omega arith) s r in
      let (d', below, r') =
        Recorded-log_all (log lib p os disk entry).0 (log lib p os disk entry).1 limit d os.day
          (es ++ kept wanted (some entry) []) calls a before m o q in
      (
        d',
        below,
        subst
            (Recorded lib log_dir wanted (log_all lib p disk ((os, entry) ∷ calls)).0
              (log_all lib p disk ((os, entry) ∷ calls)).1 d')
            (filter_step wanted es (entries_logged calls) entry) r',
      )

  query_lem :
      (p : FileAuditPlugin) (os : System) (disk : Disk) (limit day : ℕ) (es : List AuditEntry)
      → Globs lib log_dir
      → Dated lib log_dir limit
      → day < limit
      → ((path : String) → os.read_file path ≡ ok tt)
      → Recorded lib log_dir wanted p disk day es
      → query lib p os disk wanted ≡ ok es
  unfolding query
  query_lem p os disk limit day es g o l r q =
      ap (λ d. lib.glob (lib.join d "audit-*.jsonl") disk >>= read) q.dir
      ∙ ap (λ files. files >>= read) (g disk sorted logs_only)
      ∙ ap read q.files
      ∙ ap ok (read_files_lem lib log_dir wanted os disk (q.logs ++ (day, q.bytes) ∷ []) r q.held)
      ∙ ap ok q.entries
    where
      read : List String → Result (List AuditEntry)
      read files = ok (read_files lib os disk files wanted)

      all : Logs
      all = q.logs ++ (day, q.bytes) ∷ []

      sorted : Sorted (keys disk)
      sorted = subst Sorted (sym q.files) (
          paths-Sorted lib log_dir limit all o
            (Before-later lib log_dir wanted q.logs day limit q.bytes l q.before)
            (Ascending-last q.logs day q.bytes q.ascending q.before))

      logs_only : All (IsLog lib log_dir) (keys disk)
      logs_only = subst (All (IsLog lib log_dir)) (sym q.files) (paths-IsLog lib log_dir all)

  Recorded-init :
      (os : System)
      → Works os
      → Recorded lib log_dir wanted (started lib log_dir os).0 (started lib log_dir os).1 os.day []
  unfolding open_log_file created get put entries_of split_lines
  Recorded-init os w =
      subst
        (λ r.
          let s =
            with_file (record new_file_audit { log_dir = log_dir }) [] (path_on lib log_dir os.day)
              r in
          Recorded lib log_dir wanted s.0 s.1 os.day [])
        (sym (w.0 (path_on lib log_dir os.day)))
        (record {
          dir = refl;
          current = refl;
          logs = [];
          bytes = [];
          files = refl;
          held = (rw (eq_refl (path_on lib log_dir os.day)) refl, tt);
          before = tt;
          ascending = tt;
          whole = inl refl;
          entries = refl;
        })

abbrev pub log_dir_of : Map Value → String
log_dir_of config = or_default (text_at config "log_dir")

-- The plugin and the disk after `Init` on an empty disk and the calls of `Log`.
abbrev pub served : Library → Map Value → System → Logged → FileAuditPlugin × Disk
served lib config os calls =
    let (p, disk, r) = init_audit lib new_file_audit config os [] in log_all lib p disk calls

-- The entries that `Log` was called with since an `Init` on an empty directory are those that `Query`
-- gives, each once, in their order, and without those that the filter rejects; whether files were
-- rotated or not. It holds if files open, are written and read, the clock goes back to no earlier
-- day and stays below a day up to which the names of the files rise with their days, the files of
-- different days have different names, `Glob` gives the log files in the order of their names, and JSON
-- puts an entry in one line that it reads back.
pub query-log_all :
    (lib : Library) (config : Map Value) (os later : System) (limit : ℕ) (calls : Logged)
    (wanted : Option AuditFilter)
    → Apart lib (log_dir_of config)
    → Dated lib (log_dir_of config) limit
    → os.day < limit
    → Globs lib (log_dir_of config)
    → os.mkdir_all (log_dir_of config) ≡ ok tt
    → Works os
    → Orderly lib limit os.day calls
    → ((path : String) → later.read_file path ≡ ok tt)
    → query lib (served lib config os calls).0 later (served lib config os calls).1 wanted
      ≡ ok (filter (λ e. matches_filter e wanted) (entries_logged calls))
unfolding init_audit
query-log_all lib config os later limit calls wanted a dated below g m w o r =
    let dir : String = log_dir_of config in
    let s : FileAuditPlugin × Disk × Result (Unit {0}) =
      init_audit lib new_file_audit config os [] in
    let (d, under, q) =
      Recorded-log_all lib dir wanted s.0 s.1 limit os.day os.day [] calls a (omega arith) below o (
        subst
          (λ t.
            let u = opened_after lib (record new_file_audit { log_dir = dir }) os [] t in
            Recorded lib dir wanted u.0 u.1 os.day [])
          (sym m) (Recorded-init lib dir wanted os w)) in
    query_lem lib dir wanted (served lib config os calls).0 later (served lib config os calls).1
      limit d (filter (λ e. matches_filter e wanted) (entries_logged calls)) g dated under r q
