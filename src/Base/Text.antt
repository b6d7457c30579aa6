-- ===== src/Base/Text.antt =====
-- The functions of Go's `strings` that the program calls, over native texts.
use Prim.Native.String.{String, [], ◌∷◌, count}
use Prim.Native.Char.{Char, code}
use mandau.Base.{
  ◌≡◌, ◌≢◌, ne→==-false, eq_refl, refl, sym, ap, ◌∙◌, ◌↔◌, inl, inr, Bool, true, false, ◌||◌, arith,
  eq_iff, ◌==◌, ltb, eqb, if◌then◌else◌, ◌<>◌, Bool-cases, Option, none, some,
}
use text.Mathlib.Text.{starts_with}
use text.Mathlib.TextEquality.{starts_with_iff}
use text.Mathlib.TextLemmas.{nil-append, cons-append, length-append, length-cons}

-- The order of texts by their characters, which is Go's for `<`.
abbrev pub before : String → String → Bool
before [] [] = false
before [] (d ∷ t) = true
before (c ∷ s) [] = false
before (c ∷ s) (d ∷ t) =
    let rest = before s t in
    if ltb (code c) (code d) then true else if eqb (code c) (code d) then rest else false

-- strings.HasPrefix
abbrev pub has_prefix : String → String → Bool
has_prefix = starts_with

-- strings.HasSuffix
unfoldable pub has_suffix : String → String → Bool
has_suffix [] t = [] == t
has_suffix (c ∷ s) t = (c ∷ s) == t || has_suffix s t

-- strings.Contains
unfoldable pub contains : String → String → Bool
contains [] t = [] == t
contains (c ∷ s) t = has_prefix (c ∷ s) t || contains s t

-- strings.TrimSuffix
unfoldable pub trim_suffix : String → String → String
trim_suffix [] t = []
trim_suffix (c ∷ s) t = if (c ∷ s) == t then [] else c ∷ trim_suffix s t

-- strings.CutPrefix: what is left after a prefix, if the text has it.
unfoldable cut_prefix : String → String → Option String
cut_prefix s [] = some s
cut_prefix [] (d ∷ t) = none
cut_prefix (c ∷ s) (d ∷ t) =
    let rest = cut_prefix s t in if (c ∷ []) == (d ∷ []) then rest else none

abbrev left_or : Option String → String → String
left_or none s = s
left_or (some rest) s = rest

-- strings.TrimPrefix
unfoldable pub trim_prefix : String → String → String
unfolding cut_prefix
trim_prefix s t = left_or (cut_prefix s t) s

cut_prefix-append : (s t : String) → cut_prefix (s <> t) s ≡ some t
unfolding cut_prefix
cut_prefix-append [] t = ap some (nil-append t)
cut_prefix-append (c ∷ s) t = rw (cons-append c s t, eq_refl (c ∷ [])) (cut_prefix-append s t)

pub trim_prefix-append : (s t : String) → trim_prefix (s <> t) s ≡ t
unfolding trim_prefix
trim_prefix-append s t = ap (λ o. left_or o (s <> t)) (cut_prefix-append s t)

-- What is trimmed off is the suffix.
pub trim_suffix-append : (s t : String) → has_suffix s t ≡ true → trim_suffix s t <> t ≡ s
unfolding has_suffix trim_suffix
trim_suffix-append [] t h = let e : [] ≡ t = (eq_iff [] t).0 h in nil-append t ∙ sym e
trim_suffix-append (c ∷ s) t h = elim (Bool-cases ((c ∷ s) == t)) [
  | inl e ↦ rw e (nil-append t ∙ sym ((eq_iff (c ∷ s) t).0 e))
  | inr e ↦ rw e (cons-append c _ t ∙ ap (λ r. c ∷ r) (trim_suffix-append s t (ground arith)))
]

pub has_suffix-append : (s t : String) → has_suffix (s <> t) t ≡ true
unfolding has_suffix
has_suffix-append [] [] = refl
has_suffix-append [] (c ∷ t) = rw nil-append (ground (arith, eq_iff (c ∷ t) (c ∷ t)))
has_suffix-append (c ∷ s) t = rw cons-append (ground (arith, has_suffix-append s t))

-- A text is no longer tail of itself.
cons-append-ne : (c : Char) (s t : String) → (c ∷ (s <> t)) == t ≡ false
cons-append-ne c s t =
    ne→==-false (c ∷ (s <> t)) t
      λ e. omega (arith, ap count e, length-cons c (s <> t), length-append s t)

pub trim_suffix_of_append : (s t : String) → t ≢ [] → trim_suffix (s <> t) t ≡ s
unfolding trim_suffix
trim_suffix_of_append [] [] h = absurd (h refl)
trim_suffix_of_append [] (c ∷ t) h = rw nil-append (rw (eq_refl (c ∷ t)))
trim_suffix_of_append (c ∷ s) t h =
    rw cons-append (rw (cons-append-ne c s t) (ap (λ r. c ∷ r) (trim_suffix_of_append s t h)))

-- `HasPrefix` says that the text is the prefix and something more.
pub has_prefix_iff : (s t : String) → (has_prefix s t ≡ true) ↔ ((u : String) × (t <> u ≡ s))
has_prefix_iff s t = starts_with_iff s t

-- Two texts that differ at a place that both have.
abbrev clash : String → String → Bool
clash [] t = false
clash (c ∷ s) [] = false
clash (c ∷ s) (d ∷ t) = let rest = clash s t in if (c ∷ []) == (d ∷ []) then rest else true

clash_lem : (s t u v : String) → clash s t ≡ true → t <> u ≡ s <> v → ⊥
clash_lem [] t u v h e = cc h
clash_lem (c ∷ s) [] u v h e = cc h
clash_lem (c ∷ s) (d ∷ t) u v h e =
    let whole : d ∷ (t <> u) ≡ c ∷ (s <> v) = sym (cons-append d t u) ∙ e ∙ cons-append c s v in
    let heads : (c ∷ []) == (d ∷ []) ≡ true = (eq_iff (c ∷ []) (d ∷ [])).1 (cc whole) in
    clash_lem s t u v (sym (ap (λ b. if b then clash s t else true) heads) ∙ h) (cc whole)

has_prefix-clash : (s t v : String) → clash s t ≡ true → has_prefix (s <> v) t ≡ false
has_prefix-clash s t v h = elim (Bool-cases (has_prefix (s <> v) t)) [
  | inl e ↦ let (u, f) = (has_prefix_iff (s <> v) t).0 e in absurd (clash_lem s t u v h f)
  | inr e ↦ e
]

-- At no place of the first text can the second one begin.
unfoldable pub clashes : String → String → Bool
clashes [] t = true
clashes (c ∷ s) t = let rest = clashes s t in if clash (c ∷ s) t then rest else false

-- A text is found behind such a front only if it is found in what comes after.
pub contains-clashes : (s t v : String) → clashes s t ≡ true → contains (s <> v) t ≡ contains v t
unfolding contains clashes
contains-clashes [] t v h = ap (λ x. contains x t) (nil-append v)
contains-clashes (c ∷ s) t v h = elim (Bool-cases (clash (c ∷ s) t)) [
  | inl e ↦
      let none_here : has_prefix (c ∷ (s <> v)) t ≡ false =
        ap (λ x. has_prefix x t) (sym (cons-append c s v)) ∙ has_prefix-clash (c ∷ s) t v e in
      rw (cons-append c s v, none_here)
        (contains-clashes s t v (sym (ap (λ b. if b then clashes s t else false) e) ∙ h))
  | inr e ↦ cc (sym (ap (λ b. if b then clashes s t else false) e) ∙ h)
]
