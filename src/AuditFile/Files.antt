-- ===== src/AuditFile/Files.antt =====
-- The files of plugins/audit/file/plugin.go, one of each day, and the entries that they hold.
use mandau.Base.{
  ℕ, ◌<◌, ◌≡◌, ◌≢◌, refl, sym, ap, ◌∙◌, Option, some, List, [], ◌∷◌, ◌++◌, append_assoc, append-nil,
  arith, All, All-append, All-parts, get, put, get-put, get-put_same, ok, String, ne→==-false, true,
}
use mandau.Base.Text.{before}
use mandau.Plugin.{AuditEntry, AuditFilter}
use mandau.AuditFile.{Bytes, Disk, Library, System, read_log_file, read_files, path_on}
use mandau.AuditFile.Lines.{entries_in}

-- The day and the bytes of each file.
abbrev pub Logs : Type 0
Logs = List (ℕ × Bytes)

abbrev pub Before : ℕ → Logs → Type 0
Before day logs = All (λ l. l.0 < day) logs

-- The days of the files rise.
abbrev pub Ascending : Logs → Type 0
Ascending [] = Unit {0}
Ascending ((day, bytes) ∷ logs) = All (λ l. day < l.0) logs × Ascending logs

pub Ascending-last :
    (logs : Logs) (day : ℕ) (bytes : Bytes)
    → Ascending logs
    → Before day logs
    → Ascending (logs ++ (day, bytes) ∷ [])
Ascending-last [] day bytes a b = (tt, tt)
Ascending-last ((d, c) ∷ logs) day bytes a b = (
  All-append (λ l. d < l.0) logs ((day, bytes) ∷ []) a.0 (b.0, tt),
  Ascending-last logs day bytes a.1 b.1,
)

-- Texts in their order.
abbrev pub Sorted : List String → Type 0
Sorted [] = Unit {0}
Sorted (p ∷ ps) = All (λ q. before p q ≡ true) ps × Sorted ps

module _ (lib : Library) (log_dir : String) where
  abbrev pub path : ℕ → String
  path day = path_on lib log_dir day

  abbrev pub paths : Logs → List String
  paths [] = []
  paths ((day, bytes) ∷ logs) = path day ∷ paths logs

  -- The files of different days have different names.
  abbrev pub Apart : Type 0
  Apart = (d e : ℕ) → path d ≡ path e → d ≡ e

  -- Below a day, the names of the files are in the order of the days.
  abbrev pub Dated : ℕ → Type 0
  Dated limit = (d e : ℕ) → d < e → e < limit → before (path d) (path e) ≡ true

  -- The file of some day.
  abbrev pub IsLog : String → Type 0
  IsLog p = (day : ℕ) × (p ≡ path day)

  pub paths-IsLog : (logs : Logs) → All IsLog (paths logs)
  paths-IsLog [] = tt
  paths-IsLog ((day, bytes) ∷ logs) = ((day, refl), paths-IsLog logs)

  before_paths :
      (limit day : ℕ) (logs : Logs)
      → Dated limit
      → Before limit logs
      → All (λ l. day < l.0) logs
      → All (λ q. before (path day) q ≡ true) (paths logs)
  before_paths limit day [] o b a = tt
  before_paths limit day ((d, c) ∷ logs) o b a =
      (o day d a.0 b.0, before_paths limit day logs o b.1 a.1)

  pub paths-Sorted :
      (limit : ℕ) (logs : Logs)
      → Dated limit
      → Before limit logs
      → Ascending logs
      → Sorted (paths logs)
  paths-Sorted limit [] o b a = tt
  paths-Sorted limit ((d, c) ∷ logs) o b a =
      (before_paths limit d logs o b.1 a.0, paths-Sorted limit logs o b.1 a.1)

  -- The disk has these files.
  abbrev pub Holds : Disk → Logs → Type 0
  Holds disk logs = All (λ l. get disk (path l.0) ≡ some l.1) logs

  Holds-put :
      (disk : Disk) (logs : Logs) (day : ℕ) (bytes : Bytes)
      → Apart
      → Before day logs
      → Holds disk logs
      → Holds (put disk (path day) bytes) logs
  Holds-put disk [] day bytes a b h = tt
  Holds-put disk ((d, c) ∷ logs) day bytes a b h = (
    rw
        (
          get-put disk (path day) (path d) bytes,
          ne→==-false (path day) (path d) λ e. omega (arith, a day d e, b.0),
        )
        h.0,
    Holds-put disk logs day bytes a b.1 h.1,
  )

  pub absent :
      (logs : Logs) (day : ℕ) → Apart → Before day logs → All (λ j. j ≢ path day) (paths logs)
  absent [] day a b = tt
  absent ((d, c) ∷ logs) day a b = (λ e. omega (arith, a d day e, b.0), absent logs day a b.1)

  pub paths-append : (logs more : Logs) → paths (logs ++ more) ≡ paths logs ++ paths more
  paths-append [] more = refl
  paths-append (l ∷ logs) more = ap (λ ps. path l.0 ∷ ps) (paths-append logs more)

  pub put_last :
      (disk : Disk) (logs : Logs) (day : ℕ) (bytes : Bytes)
      → Apart
      → Before day logs
      → Holds disk logs
      → Holds (put disk (path day) bytes) (logs ++ (day, bytes) ∷ [])
  put_last disk logs day bytes a b h =
      All-append (λ l. get (put disk (path day) bytes) (path l.0) ≡ some l.1) logs
        ((day, bytes) ∷ []) (Holds-put disk logs day bytes a b h)
        (get-put_same disk (path day) bytes, tt)

  -- The files before the last one, and the last one.
  pub held_parts :
      (disk : Disk) (logs : Logs) (day : ℕ) (bytes : Bytes)
      → Holds disk (logs ++ (day, bytes) ∷ [])
      → Holds disk logs × (get disk (path day) ≡ some bytes)
  held_parts disk logs day bytes h =
      let (f, g) = All-parts (λ l. get disk (path l.0) ≡ some l.1) logs ((day, bytes) ∷ []) h in
      (f, g.0)

module _ (lib : Library) (wanted : Option AuditFilter) where
  abbrev pub entries_of_logs : Logs → List AuditEntry
  entries_of_logs [] = []
  entries_of_logs ((day, bytes) ∷ logs) = entries_in lib wanted bytes ++ entries_of_logs logs

  entries_of_logs-append :
      (logs more : Logs)
      → entries_of_logs (logs ++ more) ≡ entries_of_logs logs ++ entries_of_logs more
  entries_of_logs-append [] more = refl
  entries_of_logs-append ((day, bytes) ∷ logs) more =
      ap (λ es. entries_in lib wanted bytes ++ es) (entries_of_logs-append logs more)
      ∙ sym
          (append_assoc (entries_in lib wanted bytes) (entries_of_logs logs) (entries_of_logs more))

  pub entries_of_logs-last :
      (logs : Logs) (day : ℕ) (bytes : Bytes)
      → entries_of_logs (logs ++ (day, bytes) ∷ [])
        ≡ entries_of_logs logs ++ entries_in lib wanted bytes
  entries_of_logs-last logs day bytes =
      entries_of_logs-append logs ((day, bytes) ∷ [])
      ∙ ap (λ es. entries_of_logs logs ++ es) (append-nil (entries_in lib wanted bytes))

module _ (lib : Library) (log_dir : String) (wanted : Option AuditFilter) where
  pub read_files_lem :
      (os : System) (disk : Disk) (logs : Logs)
      → ((p : String) → os.read_file p ≡ ok tt)
      → Holds lib log_dir disk logs
      → read_files lib os disk (paths lib log_dir logs) wanted ≡ entries_of_logs lib wanted logs
  unfolding read_files read_log_file
  read_files_lem os disk [] r h = refl
  read_files_lem os disk ((d, c) ∷ logs) r h =
      rw (r (path lib log_dir d), h.0)
        (ap (λ es. entries_in lib wanted c ++ es) (read_files_lem os disk logs r h.1))
