-- ===== src/AuditFile/Lines.antt =====
-- The lines of a log file of plugins/audit/file/plugin.go, and the entries read from them.
use mandau.Base.{
  ℕ, ◌≡◌, ◌≢◌, refl, sym, ap, ◌∙◌, ◌⊎◌, inl, inr, false, Option, none, some, List, [], ◌∷◌, ◌++◌,
  append_assoc, append-nil, eqb, if◌then◌else◌, Bool-cases, arith, All,
}
use mandau.Plugin.{AuditEntry, AuditFilter}
use mandau.AuditFile.{
  Bytes, Library, newline, split_lines, on_first, matches_filter, kept, parse_line, entries_of,
}

-- Bytes without a line break.
abbrev pub OneLine : Bytes → Type 0
OneLine line = All (λ b. b ≢ 10) line

-- Bytes that are nothing, or end with a line break.
abbrev pub Complete : Bytes → Type 0
Complete bytes = (bytes ≡ []) ⊎ ((front : Bytes) × (bytes ≡ front ++ 10 ∷ []))

on_first-append :
    (b : ℕ) (ls ms : List Bytes) → ls ≢ [] → on_first b ls ++ ms ≡ on_first b (ls ++ ms)
on_first-append b [] ms h = absurd (h refl)
on_first-append b (l ∷ ls) ms h = refl

on_first-ne : (b : ℕ) (ls : List Bytes) → on_first b ls ≢ []
on_first-ne b [] h = cc h
on_first-ne b (l ∷ ls) h = cc h

split_lines-ne : (bytes : Bytes) → split_lines bytes ≢ []
unfolding split_lines newline
split_lines-ne [] h = cc h
split_lines-ne (b ∷ bytes) h = elim (Bool-cases (eqb b 10)) [
  | inl e ↦ cc h
  | inr e ↦
      on_first-ne b (split_lines bytes)
        (sym (ap (λ t. if t then [] ∷ split_lines bytes else on_first b (split_lines bytes)) e) ∙ h)
]

-- What stands before a line break and what stands after it are split apart.
split_lines-append :
    (front back : Bytes) → split_lines (front ++ 10 ∷ back) ≡ split_lines front ++ split_lines back
unfolding split_lines newline
split_lines-append [] back = refl
split_lines-append (b ∷ front) back = elim (Bool-cases (eqb b 10)) [
  | inl e ↦ rw e (ap (λ ls. [] ∷ ls) (split_lines-append front back))
  | inr e ↦ rw e (
      ap (on_first b) (split_lines-append front back)
      ∙ sym (on_first-append b (split_lines front) (split_lines back) (split_lines-ne front)))
]

split_lines_of_one : (line : Bytes) → OneLine line → split_lines line ≡ line ∷ []
unfolding split_lines newline
split_lines_of_one [] h = refl
split_lines_of_one (b ∷ line) h =
    let other : eqb b 10 ≡ false = ground (arith, h.0) in
    rw (other, split_lines_of_one line h.1) refl

module _ (lib : Library) (wanted : Option AuditFilter) where
  kept-append :
      (o : Option AuditEntry) (xs ys : List AuditEntry)
      → kept wanted o xs ++ ys ≡ kept wanted o (xs ++ ys)
  kept-append none xs ys = refl
  kept-append (some entry) xs ys = elim (Bool-cases (matches_filter entry wanted)) [
    | inl e ↦ rw e refl
    | inr e ↦ rw e refl
  ]

  entries_of-append :
      (ls ms : List Bytes)
      → entries_of lib wanted (ls ++ ms) ≡ entries_of lib wanted ls ++ entries_of lib wanted ms
  unfolding entries_of
  entries_of-append [] ms = refl
  entries_of-append (l ∷ ls) ms =
      ap (kept wanted (parse_line lib l)) (entries_of-append ls ms)
      ∙ sym (kept-append (parse_line lib l) (entries_of lib wanted ls) (entries_of lib wanted ms))

  -- The entries in the bytes of a file.
  abbrev pub entries_in : Bytes → List AuditEntry
  entries_in bytes = entries_of lib wanted (split_lines bytes)

  entries_in-break :
      (front back : Bytes) → entries_in (front ++ 10 ∷ back) ≡ entries_in front ++ entries_in back
  entries_in-break front back =
      ap (entries_of lib wanted) (split_lines-append front back)
      ∙ entries_of-append (split_lines front) (split_lines back)

  entries_in_of_line :
      (line : Bytes) (entry : AuditEntry)
      → OneLine line
      → parse_line lib line ≡ some entry
      → entries_in (line ++ 10 ∷ []) ≡ kept wanted (some entry) []
  unfolding entries_of split_lines
  entries_in_of_line line entry l e =
      entries_in-break line []
      ∙ append-nil (entries_in line)
      ∙ ap (entries_of lib wanted) (split_lines_of_one line l)
      ∙ ap (λ o. kept wanted o []) e

  -- A line after whole lines adds its entry at the end, if it is wanted.
  pub entries_in-line :
      (bytes line : Bytes) (entry : AuditEntry)
      → Complete bytes
      → OneLine line
      → parse_line lib line ≡ some entry
      → entries_in (bytes ++ (line ++ 10 ∷ [])) ≡ entries_in bytes ++ kept wanted (some entry) []
  unfolding entries_of split_lines
  entries_in-line bytes line entry (inl c) l e = rw c (entries_in_of_line line entry l e)
  entries_in-line bytes line entry (inr (front, c)) l e =
      rw
        (
          c,
          append_assoc front (10 ∷ []) (line ++ 10 ∷ []),
          entries_in-break front (line ++ 10 ∷ []),
        )
        (rw
          (
            entries_in-break front [],
            append-nil (entries_in front),
            entries_in_of_line line entry l e,
          )
          refl)
