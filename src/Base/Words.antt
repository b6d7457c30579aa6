-- ===== src/Base/Words.antt =====
-- Go's `strings.Fields`, `strings.Join` with a space and `strings.Split` at line breaks.
use Prim.Native.Char.{Char, code}
use Prim.Native.String.{String, [], ◌∷◌}
use mathlib.Core.List.{List, [], ◌∷◌}
use text.Mathlib.TextLemmas.{nil-append, cons-append, append-nil}
use mandau.Base.{
  ℕ, ◌≡◌, ◌≢◌, refl, ap, ◌∙◌, Bool, false, ◌||◌, ◌&&◌, leb, eqb, All, if◌then◌else◌, ◌<>◌,
}

abbrev between : ℕ → ℕ → ℕ → Bool
between low high n = leb low n && leb n high

-- unicode.IsSpace
abbrev pub is_space : Char → Bool
is_space c =
    eqb (code c) 32
    || between 9 13 (code c)
    || eqb (code c) 133
    || eqb (code c) 160
    || eqb (code c) 5760
    || between 8192 8202 (code c)
    || between 8232 8233 (code c)
    || eqb (code c) 8239
    || eqb (code c) 8287
    || eqb (code c) 12288

abbrev push : String → List String → List String
push [] ws = ws
push (c ∷ w) ws = (c ∷ w) ∷ ws

-- The word that a text begins with, and the words after it.
unfoldable first_field : String → String × List String
first_field [] = ([], [])
first_field (c ∷ s) =
    let (w, ws) = first_field s in if is_space c then ([], push w ws) else (c ∷ w, ws)

-- strings.Fields
unfoldable pub fields : String → List String
unfolding first_field
fields s = let (w, ws) = first_field s in push w ws

-- strings.Join(words, " ")
unfoldable pub join_space : List String → String
join_space [] = []
join_space (w ∷ []) = w
join_space (w ∷ v ∷ ws) = w <> " " <> join_space (v ∷ ws)

abbrev on_first : Char → List String → List String
on_first c [] = (c ∷ []) ∷ []
on_first c (p ∷ ps) = (c ∷ p) ∷ ps

-- strings.Split(s, "\n")
unfoldable pub split_newline : String → List String
split_newline [] = [] ∷ []
split_newline (c ∷ s) =
    let rest = split_newline s in if eqb (code c) b'\n' then [] ∷ rest else on_first c rest

-- No character of a text is a space.
abbrev pub Spaceless : String → Type 0
Spaceless [] = Unit {0}
Spaceless (c ∷ s) = (is_space c ≡ false) × Spaceless s

abbrev pub Word : String → Type 0
Word w = (w ≢ []) × Spaceless w

-- No character of a text is a line break.
abbrev pub OnOneLine : String → Type 0
OnOneLine [] = Unit {0}
OnOneLine (c ∷ s) = (eqb (code c) b'\n' ≡ false) × OnOneLine s

first_field-append :
    (w s : String)
    → Spaceless w
    → first_field (w <> s) ≡ (w <> (first_field s).0, (first_field s).1)
unfolding first_field
first_field-append [] s h = rw (nil-append s, nil-append (first_field s).0) refl
first_field-append (c ∷ w) s h =
    rw (cons-append c w s, first_field-append w s h.1, h.0, cons-append c w (first_field s).0) refl

push-word : (w : String) (ws : List String) → w ≢ [] → push w ws ≡ w ∷ ws
push-word [] ws h = absurd (h refl)
push-word (c ∷ w) ws h = refl

first_field-space : (s : String) → first_field (" " <> s) ≡ ([], fields s)
unfolding first_field fields
first_field-space s = rw (cons-append " " [] s, nil-append s) refl

first_field_of_word : (w : String) → Spaceless w → first_field w ≡ (w, [])
unfolding first_field
first_field_of_word [] h = refl
first_field_of_word (c ∷ w) h = rw (first_field_of_word w h.1, h.0) refl

abbrev pushed : String × List String → List String
pushed r = push r.0 r.1

pub fields-join : (ws : List String) → All Word ws → fields (join_space ws) ≡ ws
unfolding fields join_space
fields-join [] h = refl
fields-join (w ∷ []) h = ap (λ r. pushed r) (first_field_of_word w h.0.1) ∙ push-word w [] h.0.0
fields-join (w ∷ v ∷ ws) h =
    let rest : String = join_space (v ∷ ws) in
    ap pushed (first_field-append w (" " <> rest) h.0.1)
    ∙ ap (λ r. pushed (w <> r.0, r.1)) (first_field-space rest)
    ∙ ap (λ u. push u (fields rest)) (append-nil w)
    ∙ push-word w (fields rest) h.0.0
    ∙ ap (λ l. w ∷ l) (fields-join (v ∷ ws) h.1)

pub split_newline-append :
    (s t : String) → OnOneLine s → split_newline (s <> "\n" <> t) ≡ s ∷ split_newline t
unfolding split_newline
split_newline-append [] t h = rw (nil-append ("\n" <> t), cons-append "\n" [] t, nil-append t) refl
split_newline-append (c ∷ s) t h =
    rw (cons-append c s ("\n" <> t), split_newline-append s t h.1, h.0) refl
