-- ===== src/AuditFile.antt =====
-- plugins/audit/file/plugin.go: the audit log, one file of JSON lines for each day. Every method
-- holds the plugin's mutex or reads alone, so a method is a step on the plugin and the disk. A byte is
-- a number, and the disk maps a path to the bytes of the file. What goes to stderr is left out.
pub mod Lines
pub mod Files
pub mod Writing
pub mod History
pub mod Rotation
pub mod Filters
mod Tests
use mandau.Base.{
  ℕ, String, Bool, true, false, not, ◌&&◌, Option, none, some, List, [], ◌∷◌, ◌++◌, Map, get, put,
  ltb, eqb, length, ◌*◌, if◌then◌else◌, ◌==◌, Result, ok, err, ◌>>=◌, ◌<>◌, in_context,
}
use mandau.Plugin.{Value, text_at, AuditEntry, AuditFilter}

abbrev pub Bytes : Type 0
Bytes = List ℕ

abbrev pub Disk : Type 0
Disk = Map Bytes

-- An open file is known by its path. A file that was closed stays in the field.
pub data Handle : Type 0 where
  no_file : Handle
  opened : String → Handle
  closed : String → Handle

pub record FileAuditPlugin : Type 0 where
  pub name : String
  pub version : String
  pub log_dir : String
  pub current_log : Handle
  pub rotate_size : ℕ

unfoldable pub new_file_audit : FileAuditPlugin
new_file_audit = record {
  name = "file-audit";
  version = "1.0.0";
  log_dir = "";
  current_log = no_file;
  rotate_size = 100 * 1024 * 1024;
}

-- What Go's library computes: `filepath.Join`, the date of a day, JSON, and `filepath.Glob` on a disk.
pub record Library : Type 0 where
  pub join : String → String → String
  pub date : ℕ → String
  pub marshal : AuditEntry → Result Bytes
  pub unmarshal : Bytes → Option AuditEntry
  pub glob : String → Disk → Result (List String)

-- What the operating system does in a call: the day of the clock, how its calls end, and the bytes
-- that a write leaves in the file.
pub record System : Type 0 where
  pub day : ℕ
  pub mkdir_all : String → Result (Unit {0})
  pub open_file : String → Result (Unit {0})
  pub written : Bytes → Bytes
  pub read_file : String → Result (Unit {0})

abbrev pub or_empty : Option Bytes → Bytes
or_empty none = []
or_empty (some b) = b

-- `O_CREATE`: a file that is not there is made.
unfoldable pub created : Disk → String → Disk
created disk path = elim (get disk path) [ none ↦ put disk path [] | some b ↦ disk ]

unfoldable pub newline : ℕ
newline = 10

-- `bytes.Split(data, "\n")`
abbrev on_first : ℕ → List Bytes → List Bytes
on_first b [] = (b ∷ []) ∷ []
on_first b (line ∷ lines) = (b ∷ line) ∷ lines

unfoldable pub split_lines : Bytes → List Bytes
unfolding newline
split_lines [] = [] ∷ []
split_lines (b ∷ bytes) =
    let rest = split_lines bytes in if eqb b newline then [] ∷ rest else on_first b rest

abbrev pub not_before : Option ℕ → ℕ → Bool
not_before none time = true
not_before (some start) time = not (ltb time start)

abbrev pub not_after : Option ℕ → ℕ → Bool
not_after none time = true
not_after (some end) time = not (ltb end time)

unfoldable pub matches_filter : AuditEntry → Option AuditFilter → Bool
matches_filter entry none = true
matches_filter entry (some filter) =
    if not (filter.agent_id == "") && not (entry.agent_id == filter.agent_id)
    then false
    else not_before filter.start_time entry.timestamp && not_after filter.end_time entry.timestamp

-- An entry of a line, if the line has one that matches, before those of the lines after it.
abbrev pub kept : Option AuditFilter → Option AuditEntry → List AuditEntry → List AuditEntry
kept filter none rest = rest
kept filter (some entry) rest = if matches_filter entry filter then entry ∷ rest else rest

abbrev before_rest : Result (List AuditEntry) → List AuditEntry → List AuditEntry
before_rest (err e) rest = rest
before_rest (ok entries) rest = entries ++ rest

abbrev pub with_file :
    FileAuditPlugin → Disk → String → Result (Unit {0}) → FileAuditPlugin × Disk × Result (Unit {0})
with_file p disk path (err e) = (p, disk, err e)
with_file p disk path (ok u) = (record p { current_log = opened path }, created disk path, ok tt)

abbrev pub or_default : Option String → String
or_default none = "/var/log/mandau"
or_default (some dir) = dir

abbrev size_over : ℕ → Option Bytes → Bool
size_over limit none = false
size_over limit (some bytes) = ltb limit (length bytes)

-- `Stat` fails on a file that is not open.
abbrev pub should_rotate_at : Disk → ℕ → Handle → Bool
should_rotate_at disk limit (opened path) = size_over limit (get disk path)
should_rotate_at disk limit no_file = false
should_rotate_at disk limit (closed path) = false

unfoldable pub should_rotate : FileAuditPlugin → Disk → Bool
should_rotate p disk = should_rotate_at disk p.rotate_size p.current_log

abbrev pub close_handle : Handle → Handle
close_handle (opened path) = closed path
close_handle no_file = no_file
close_handle (closed path) = closed path

-- A write to a file that is not open fails.
abbrev pub write_to : Handle → System → Disk → Bytes → Disk
write_to (opened path) os disk bytes = put disk path (or_empty (get disk path) ++ os.written bytes)
write_to no_file os disk bytes = disk
write_to (closed path) os disk bytes = disk

abbrev pub write_line : FileAuditPlugin × Disk → System → Result Bytes → FileAuditPlugin × Disk
write_line (p, disk) os (err e) = (p, disk)
write_line (p, disk) os (ok bytes) = (p, write_to p.current_log os disk (bytes ++ newline ∷ []))

-- `Close` fails on a file that is closed already.
abbrev closed_file : FileAuditPlugin → Handle → FileAuditPlugin × Result (Unit {0})
closed_file p no_file = (p, ok tt)
closed_file p (opened path) = (record p { current_log = closed path }, ok tt)
closed_file p (closed path) = (p, err "file already closed")

unfoldable shutdown_audit : FileAuditPlugin → FileAuditPlugin × Result (Unit {0})
shutdown_audit p = closed_file p p.current_log

module _ (lib : Library) where
  -- An empty line is passed over.
  abbrev pub parse_line : Bytes → Option AuditEntry
  parse_line [] = none
  parse_line (b ∷ line) = lib.unmarshal (b ∷ line)

  unfoldable pub entries_of : Option AuditFilter → List Bytes → List AuditEntry
  entries_of filter [] = []
  entries_of filter (line ∷ lines) = kept filter (parse_line line) (entries_of filter lines)

  abbrev read_entries : Option AuditFilter → Option Bytes → Result (List AuditEntry)
  read_entries filter none = err "no such file or directory"
  read_entries filter (some bytes) = ok (entries_of filter (split_lines bytes))

  unfoldable pub read_log_file :
      System → Disk → String → Option AuditFilter → Result (List AuditEntry)
  unfolding entries_of split_lines
  read_log_file os disk path filter = os.read_file path >>= λ _. read_entries filter (get disk path)

  -- The loop of `Query`; a file that cannot be read is passed over.
  unfoldable pub read_files : System → Disk → List String → Option AuditFilter → List AuditEntry
  unfolding read_log_file
  read_files os disk [] filter = []
  read_files os disk (path ∷ paths) filter =
      before_rest (read_log_file os disk path filter) (read_files os disk paths filter)

  unfoldable pub query :
      FileAuditPlugin → System → Disk → Option AuditFilter → Result (List AuditEntry)
  unfolding read_files
  query p os disk filter = lib.glob (lib.join p.log_dir "audit-*.jsonl") disk >>= λ files.
      ok (read_files os disk files filter)

  abbrev pub path_on : String → ℕ → String
  path_on log_dir day = lib.join log_dir ("audit-" <> lib.date day <> ".jsonl")

  unfoldable pub open_log_file :
      FileAuditPlugin → System → Disk → FileAuditPlugin × Disk × Result (Unit {0})
  unfolding created
  open_log_file p os disk =
      let path : String = path_on p.log_dir os.day in with_file p disk path (os.open_file path)

  abbrev opened_after :
      FileAuditPlugin
      → System
      → Disk
      → Result (Unit {0})
      → FileAuditPlugin × Disk × Result (Unit {0})
  opened_after p os disk (err e) = (p, disk, err ("create log dir: " <> e))
  opened_after p os disk (ok u) = open_log_file p os disk

  unfoldable pub init_audit :
      FileAuditPlugin → Map Value → System → Disk → FileAuditPlugin × Disk × Result (Unit {0})
  unfolding text_at open_log_file
  init_audit p config os disk =
      let log_dir : String = or_default (text_at config "log_dir") in
      opened_after (record p { log_dir = log_dir }) os disk (os.mkdir_all log_dir)

  -- The error of `openLogFile` is dropped.
  unfoldable pub rotate : FileAuditPlugin → System → Disk → FileAuditPlugin × Disk
  unfolding open_log_file
  rotate p os disk =
      let (p', disk', r) =
        open_log_file (record p { current_log = close_handle p.current_log }) os disk in
      (p', disk')

  abbrev pub rotated : Bool → FileAuditPlugin → System → Disk → FileAuditPlugin × Disk
  rotated true p os disk = rotate p os disk
  rotated false p os disk = (p, disk)

  unfoldable pub log : FileAuditPlugin → System → Disk → AuditEntry → FileAuditPlugin × Disk
  unfolding should_rotate rotate newline
  log p os disk entry = write_line (rotated (should_rotate p disk) p os disk) os (lib.marshal entry)
