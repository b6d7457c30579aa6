-- ===== src/AuditFile/Rotation.antt =====
-- What `Log` of plugins/audit/file/plugin.go does when the file has grown too large.
use mandau.Base.{
  ℕ, ◌+◌, ◌≡◌, refl, sym, ap, subst, ◌∙◌, Bool, true, false, some, [], ◌∷◌, ◌++◌, arith, Result, ok,
  err, String, get, put, get-put_same, length, length-append,
}
use mandau.Plugin.{AuditEntry}
use mandau.AuditFile.{
  Bytes, Disk, FileAuditPlugin, Library, System, opened, closed, path_on, open_log_file, rotate,
  rotated, with_file, created, should_rotate, log, write_line, write_to, newline, close_handle,
  should_rotate_at,
}
use mandau.AuditFile.Writing.{Works}
use mandau.AuditFile.History.{Logged, log_all}

module _ (lib : Library) where
  -- The plugin writes to the file of the day, which holds these bytes.
  abbrev WritesTo : FileAuditPlugin → System → Disk → Bytes → Type 0
  WritesTo p os disk bytes =
      (p.current_log ≡ opened (path_on lib p.log_dir os.day))
      × (get disk (path_on lib p.log_dir os.day) ≡ some bytes)

  rotate-same_day :
      (p : FileAuditPlugin) (os : System) (disk : Disk) (bytes : Bytes)
      → Works os
      → WritesTo p os disk bytes
      → rotate lib p os disk ≡ (p, disk)
  unfolding rotate open_log_file created
  rotate-same_day p os disk bytes w (c, g) =
      ap
        (λ r.
          let s =
            with_file (record p { current_log = close_handle p.current_log }) disk
              (path_on lib p.log_dir os.day) r in
          (s.0, s.1))
        (w.0 (path_on lib p.log_dir os.day))
      ∙ rw (g, created) (ap (λ h. (record p { current_log = h }, disk)) (sym c))

  -- The bytes that an entry adds.
  abbrev size_of_line : Result Bytes → ℕ
  size_of_line (ok line) = length line + 1
  size_of_line (err e) = 0

  abbrev size_logged : Logged → ℕ
  size_logged [] = 0
  size_logged ((os, entry) ∷ calls) = size_of_line (lib.marshal entry) + size_logged calls

  abbrev OnDay : ℕ → Logged → Type 0
  OnDay day [] = Unit {0}
  OnDay day ((os, entry) ∷ calls) = (os.day ≡ day) × Works os × OnDay day calls

  rotated-same_day :
      (b : Bool) (p : FileAuditPlugin) (os : System) (disk : Disk) (bytes : Bytes)
      → Works os
      → WritesTo p os disk bytes
      → rotated lib b p os disk ≡ (p, disk)
  rotated-same_day true p os disk bytes w g = rotate-same_day p os disk bytes w g
  rotated-same_day false p os disk bytes w g = refl

  write_line-size :
      (p : FileAuditPlugin) (os : System) (disk : Disk) (bytes : Bytes) (r : Result Bytes)
      → Works os
      → WritesTo p os disk bytes
      → (disk' : Disk) × (bytes' : Bytes) × (write_line (p, disk) os r ≡ (p, disk'))
        × WritesTo p os disk' bytes'
        × (length bytes' ≡ length bytes + size_of_line r)
  write_line-size p os disk bytes (err e) w (c, g) = (disk, bytes, refl, (c, g), omega arith)
  write_line-size p os disk bytes (ok line) w (c, g) =
      let file : String = path_on lib p.log_dir os.day in
      let more : Bytes = line ++ newline ∷ [] in
      (
        put disk file (bytes ++ more),
        bytes ++ more,
        ap (λ h. (p, write_to h os disk more)) c ∙ rw (g, w.1 more) refl,
        (c, get-put_same disk file (bytes ++ more)),
        length-append bytes more ∙ ap (λ n. length bytes + n) (length-append line (newline ∷ [])),
      )

  log-size :
      (p : FileAuditPlugin) (os : System) (disk : Disk) (bytes : Bytes) (entry : AuditEntry)
      → Works os
      → WritesTo p os disk bytes
      → (disk' : Disk) × (bytes' : Bytes) × (log lib p os disk entry ≡ (p, disk'))
        × WritesTo p os disk' bytes'
        × (length bytes' ≡ length bytes + size_of_line (lib.marshal entry))
  unfolding log
  log-size p os disk bytes entry w g =
      let (disk', bytes', e, h, l) = write_line-size p os disk bytes (lib.marshal entry) w g in
      (
        disk',
        bytes',
        ap (λ s. write_line s os (lib.marshal entry))
              (rotated-same_day (should_rotate p disk) p os disk bytes w g)
            ∙ e,
        h,
        l,
      )

  -- On the day of the open file rotation has no effect: whatever the size of the file is, any entries
  -- logged on that day go to that file, which grows by all of their lines, past every bound.
  pub log_all-size :
      (p : FileAuditPlugin) (os : System) (disk : Disk) (bytes : Bytes) (calls : Logged)
      → WritesTo p os disk bytes
      → OnDay os.day calls
      → (disk' : Disk) × (bytes' : Bytes) × (log_all lib p disk calls ≡ (p, disk'))
        × (get disk' (path_on lib p.log_dir os.day) ≡ some bytes')
        × (length bytes' ≡ length bytes + size_logged calls)
  unfolding log_all
  log_all-size p os disk bytes [] g o = (disk, bytes, refl, g.1, omega arith)
  log_all-size p os disk bytes ((os', entry) ∷ calls) g (d, w, o) =
      let (disk1, bytes1, e, h, l) = log-size p os' disk bytes entry w (
        subst
          (λ n.
            (p.current_log ≡ opened (path_on lib p.log_dir n))
            × (get disk (path_on lib p.log_dir n) ≡ some bytes))
          (sym d) g) in
      let (disk2, bytes2, f, k, m) =
        log_all-size p os disk1 bytes1 calls
          (subst
            (λ n.
              (p.current_log ≡ opened (path_on lib p.log_dir n))
              × (get disk1 (path_on lib p.log_dir n) ≡ some bytes1))
            d h)
          o in
      (disk2, bytes2, ap (λ s. log_all lib s.0 s.1 calls) e ∙ f, k, omega arith)

  write_line-closed :
      (p : FileAuditPlugin) (os : System) (disk : Disk) (file : String) (r : Result Bytes)
      → p.current_log ≡ closed file
      → write_line (p, disk) os r ≡ (p, disk)
  write_line-closed p os disk file (ok line) c =
      ap (λ h. (p, write_to h os disk (line ++ newline ∷ []))) c
  write_line-closed p os disk file (err e) c = refl

  log-closed :
      (p : FileAuditPlugin) (os : System) (disk : Disk) (entry : AuditEntry) (file : String)
      → p.current_log ≡ closed file
      → log lib p os disk entry ≡ (p, disk)
  unfolding log should_rotate
  log-closed p os disk entry file c =
      ap
        (λ h.
          write_line (rotated lib (should_rotate_at disk p.rotate_size h) p os disk) os
            (lib.marshal entry))
        c
      ∙ write_line-closed p os disk file (lib.marshal entry) c

  log_all-closed :
      (p : FileAuditPlugin) (disk : Disk) (file : String) (calls : Logged)
      → p.current_log ≡ closed file
      → log_all lib p disk calls ≡ (p, disk)
  unfolding log_all
  log_all-closed p disk file [] c = refl
  log_all-closed p disk file ((os, entry) ∷ calls) c =
      ap (λ s. log_all lib s.0 s.1 calls) (log-closed p os disk entry file c)
      ∙ log_all-closed p disk file calls c

  log-failed :
      (p : FileAuditPlugin) (os : System) (disk : Disk) (entry : AuditEntry) (file e : String)
      → p.current_log ≡ opened file
      → should_rotate p disk ≡ true
      → os.open_file (path_on lib p.log_dir os.day) ≡ err e
      → log lib p os disk entry ≡ (record p { current_log = closed file }, disk)
  unfolding log rotate open_log_file
  log-failed p os disk entry file e c s f =
      let p' : FileAuditPlugin = record p { current_log = closed file } in
      ap (λ b. write_line (rotated lib b p os disk) os (lib.marshal entry)) s
      ∙ ap
          (λ r.
            let t =
              with_file (record p { current_log = close_handle p.current_log }) disk
                (path_on lib p.log_dir os.day) r in
            write_line (t.0, t.1) os (lib.marshal entry))
          f
      ∙ ap
          (λ h. write_line (record p { current_log = close_handle h }, disk) os (lib.marshal entry))
          c
      ∙ write_line-closed p' os disk file (lib.marshal entry) refl

  -- Once a rotation cannot open the new file, no entry is written any more: neither the one being
  -- logged nor any later one, even if files can be opened and written again.
  pub log_all-lost :
      (p : FileAuditPlugin) (os : System) (disk : Disk) (entry : AuditEntry) (calls : Logged)
      (file e : String)
      → p.current_log ≡ opened file
      → should_rotate p disk ≡ true
      → os.open_file (path_on lib p.log_dir os.day) ≡ err e
      → (log_all lib p disk ((os, entry) ∷ calls)).1 ≡ disk
  unfolding log_all
  log_all-lost p os disk entry calls file e c s f =
      let p' : FileAuditPlugin = record p { current_log = closed file } in
      ap (λ t. (log_all lib t.0 t.1 calls).1) (log-failed p os disk entry file e c s f)
      ∙ ap (λ t. t.1) (log_all-closed p' disk file calls refl)
