-- ===== src/AuditFile/Writing.antt =====
-- What `Log` of plugins/audit/file/plugin.go leaves in the files, and what `Query` reads back.
use mandau.Base.{
  ℕ, ◌≤◌, ◌<◌, ◌≡◌, ◌≢◌, refl, sym, ap, subst, ◌∙◌, inl, inr, Bool, true, false, Option, none, some,
  List, [], ◌∷◌, ◌++◌, append_assoc, append-nil, Bool-cases, arith, ltb, All, All-append,
  All-map_of, get, put, keys, get_of_absent, keys-put_new, keys-put_old, Result, ok, String,
}
use mandau.Plugin.{AuditEntry, AuditFilter}
use mandau.AuditFile.{
  Bytes, Disk, opened, FileAuditPlugin, Library, System, created, kept, parse_line, entries_of,
  split_lines, path_on, open_log_file, should_rotate, rotate, log, rotated, with_file, close_handle,
  write_line, write_to, newline,
}
use mandau.AuditFile.Files.{
  Ascending, Ascending-last, Logs, Before, Apart, path, paths, Holds, absent, paths-append,
  put_last, held_parts, entries_of_logs, entries_of_logs-last,
}
use mandau.AuditFile.Lines.{OneLine, Complete, entries_in, entries_in-line}

-- Files open, and writes leave all bytes.
abbrev pub Works : System → Type 0
Works os = ((path : String) → os.open_file path ≡ ok tt) × ((b : Bytes) → os.written b ≡ b)

-- JSON writes the entry in one line, and reads it back.
abbrev pub Stored : Library → AuditEntry → Type 0
Stored lib entry =
    (line : Bytes) × (lib.marshal entry ≡ ok line)
    × OneLine line
    × (parse_line lib line ≡ some entry)

module _ (lib : Library) (log_dir : String) (wanted : Option AuditFilter) where
  -- The plugin writes to the file of a day, the last of the files, and they hold these entries.
  pub record Recorded (p : FileAuditPlugin) (disk : Disk) (day : ℕ) (es : List AuditEntry)
      : Type 0 where
    pub dir : p.log_dir ≡ log_dir
    pub current : p.current_log ≡ opened (path lib log_dir day)
    pub logs : Logs
    pub bytes : Bytes
    pub files : keys disk ≡ paths lib log_dir (logs ++ (day, bytes) ∷ [])
    pub held : Holds lib log_dir disk (logs ++ (day, bytes) ∷ [])
    pub before : Before day logs
    pub ascending : Ascending logs
    pub whole : Complete bytes
    pub entries : entries_of_logs lib wanted (logs ++ (day, bytes) ∷ []) ≡ es

  pub Before-later :
      (logs : Logs) (day later : ℕ) (bytes : Bytes)
      → day < later
      → Before day logs
      → Before later (logs ++ (day, bytes) ∷ [])
  Before-later logs day later bytes l b =
      All-append (λ f. f.0 < later) logs ((day, bytes) ∷ [])
        (All-map_of (λ f. f.0 < day) (λ f. f.0 < later) logs (λ f h. omega arith) b) (l, tt)

  Recorded-free :
      (p : FileAuditPlugin) (disk : Disk) (day later : ℕ) (es : List AuditEntry)
      → Apart lib log_dir
      → day < later
      → Recorded p disk day es
      → get disk (path lib log_dir later) ≡ none
  Recorded-free p disk day later es a l r = get_of_absent disk (path lib log_dir later) (
      subst (All (λ j. j ≢ path lib log_dir later)) (sym r.files) (
        absent lib log_dir (r.logs ++ (day, r.bytes) ∷ []) later a
          (Before-later r.logs day later r.bytes l r.before)))

  -- The last file goes, so that a new one may come after it.
  Recorded-next :
      (p : FileAuditPlugin) (disk : Disk) (day later : ℕ) (es : List AuditEntry)
      → Apart lib log_dir
      → day < later
      → Recorded p disk day es
      → Recorded
          (record p { current_log = opened (path lib log_dir later) })
          (put disk (path lib log_dir later) [])
          later
          es
  unfolding entries_of split_lines
  Recorded-next p disk day later es a l r =
      let all : Logs = r.logs ++ (day, r.bytes) ∷ [] in
      let earlier : Before later all = Before-later r.logs day later r.bytes l r.before in
      let free : get disk (path lib log_dir later) ≡ none =
        Recorded-free p disk day later es a l r in
      record {
        dir = r.dir;
        current = refl;
        logs = all;
        bytes = [];
        files =
            keys-put_new disk (path lib log_dir later) [] free
            ∙ ap (λ ks. ks ++ path lib log_dir later ∷ []) r.files
            ∙ sym (paths-append lib log_dir all ((later, []) ∷ []));
        held = put_last lib log_dir disk all later [] a earlier r.held;
        before = earlier;
        ascending = Ascending-last r.logs day r.bytes r.ascending r.before;
        whole = inl refl;
        entries =
            entries_of_logs-last lib wanted all later []
            ∙ append-nil (entries_of_logs lib wanted all)
            ∙ r.entries;
      }

  Recorded-write :
      (p : FileAuditPlugin) (disk : Disk) (day : ℕ) (es : List AuditEntry) (line : Bytes)
      (entry : AuditEntry)
      → Apart lib log_dir
      → OneLine line
      → parse_line lib line ≡ some entry
      → (r : Recorded p disk day es)
      → Recorded p
          (put disk (path lib log_dir day) (r.bytes ++ (line ++ 10 ∷ [])))
          day
          (es ++ kept wanted (some entry) [])
  Recorded-write p disk day es line entry a o e r =
      let old : Bytes = r.bytes in
      let new : Bytes = old ++ (line ++ 10 ∷ []) in
      let (others, mine) = held_parts lib log_dir disk r.logs day old r.held in
      let before_it : List AuditEntry = entries_of_logs lib wanted r.logs in
      let more : List AuditEntry = kept wanted (some entry) [] in
      record {
        dir = r.dir;
        current = r.current;
        logs = r.logs;
        bytes = new;
        files =
            keys-put_old disk (path lib log_dir day) new old mine
            ∙ r.files
            ∙ paths-append lib log_dir r.logs ((day, old) ∷ [])
            ∙ sym (paths-append lib log_dir r.logs ((day, new) ∷ []));
        held = put_last lib log_dir disk r.logs day new a r.before others;
        before = r.before;
        ascending = r.ascending;
        whole = inr (old ++ line, sym (append_assoc old line (10 ∷ [])));
        entries =
            entries_of_logs-last lib wanted r.logs day new
            ∙ ap (λ es. before_it ++ es) (entries_in-line lib wanted old line entry r.whole o e)
            ∙ sym (append_assoc before_it (entries_in lib wanted old) more)
            ∙ ap (λ es. es ++ more)
                (sym (entries_of_logs-last lib wanted r.logs day old) ∙ r.entries);
      }

  rotate_lem :
      (p : FileAuditPlugin) (os : System) (disk : Disk)
      → p.log_dir ≡ log_dir
      → Works os
      → rotate lib p os disk ≡ (
        record p { current_log = opened (path lib log_dir os.day) },
        created disk (path lib log_dir os.day),
      )
  unfolding rotate open_log_file
  rotate_lem p os disk e w =
      ap (λ d. after (path_on lib d os.day) (os.open_file (path_on lib d os.day))) e
      ∙ ap (after (path lib log_dir os.day)) (w.0 (path lib log_dir os.day))
    where
      after : String → Result (Unit {0}) → FileAuditPlugin × Disk
      after file r =
          let (p', disk', e) =
            with_file (record p { current_log = close_handle p.current_log }) disk file r in
          (p', disk')

  Recorded-created :
      (p : FileAuditPlugin) (disk : Disk) (day later : ℕ) (es : List AuditEntry)
      → Apart lib log_dir
      → day ≤ later
      → Recorded p disk day es
      → Recorded
          (record p { current_log = opened (path lib log_dir later) })
          (created disk (path lib log_dir later))
          later
          es
  unfolding created
  Recorded-created p disk day later es a l r = elim (Bool-cases (ltb day later)) [
    | inl e ↦
        let after : day < later = ground arith in
        rw (Recorded-free p disk day later es a after r, created)
          (Recorded-next p disk day later es a after r)
    | inr e ↦
        let same : day ≡ later = ground arith in
        let (others, mine) = held_parts lib log_dir disk r.logs day r.bytes r.held in
        subst
          (λ d.
            Recorded (record p { current_log = opened (path lib log_dir d) })
              (created disk (path lib log_dir d)) d es)
          same
          (rw (mine, created)
            (record {
              dir = r.dir;
              current = refl;
              logs = r.logs;
              bytes = r.bytes;
              files = r.files;
              held = r.held;
              before = r.before;
              ascending = r.ascending;
              whole = r.whole;
              entries = r.entries;
            }))
  ]

  Recorded-rotated :
      (b : Bool) (p : FileAuditPlugin) (os : System) (disk : Disk) (day : ℕ) (es : List AuditEntry)
      → Apart lib log_dir
      → Works os
      → day ≤ os.day
      → Recorded p disk day es
      → (d : ℕ) × (d ≤ os.day)
        × Recorded (rotated lib b p os disk).0 (rotated lib b p os disk).1 d es
  Recorded-rotated false p os disk day es a w l r = (day, l, r)
  Recorded-rotated true p os disk day es a w l r = (
    os.day,
    omega arith,
    subst (λ s. Recorded s.0 s.1 os.day es) (sym (rotate_lem p os disk r.dir w))
        (Recorded-created p disk day os.day es a l r),
  )

  write_line_lem :
      (p : FileAuditPlugin) (os : System) (disk : Disk) (file : String) (bytes line : Bytes)
      → Works os
      → p.current_log ≡ opened file
      → get disk file ≡ some bytes
      → write_line (p, disk) os (ok line) ≡ (p, put disk file (bytes ++ (line ++ 10 ∷ [])))
  unfolding newline
  write_line_lem p os disk file bytes line w e g =
      ap (λ h. (p, write_to h os disk (line ++ 10 ∷ []))) e ∙ rw (g, w.1 (line ++ 10 ∷ [])) refl

  pub Recorded-log :
      (p : FileAuditPlugin) (os : System) (disk : Disk) (day : ℕ) (es : List AuditEntry)
      (entry : AuditEntry)
      → Apart lib log_dir
      → Works os
      → day ≤ os.day
      → Stored lib entry
      → Recorded p disk day es
      → (d : ℕ) × (d ≤ os.day)
        × Recorded
            (log lib p os disk entry).0
            (log lib p os disk entry).1
            d
            (es ++ kept wanted (some entry) [])
  unfolding log
  Recorded-log p os disk day es entry a w l (line, m, o, e) r =
      let (d, before, q) = Recorded-rotated (should_rotate p disk) p os disk day es a w l r in
      let s : FileAuditPlugin × Disk = rotated lib (should_rotate p disk) p os disk in
      let (others, mine) = held_parts lib log_dir s.1 q.logs d q.bytes q.held in
      (
        d,
        before,
        subst (λ t. Recorded t.0 t.1 d (es ++ kept wanted (some entry) []))
            (sym (
              ap (write_line s os) m
              ∙ write_line_lem s.0 os s.1 (path lib log_dir d) q.bytes line w q.current mine))
            (Recorded-write s.0 s.1 d es line entry a o e q),
      )
