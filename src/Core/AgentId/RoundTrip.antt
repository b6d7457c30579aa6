-- ===== src/Core/AgentId/RoundTrip.antt =====
-- The host name in a generated ID is read back.
use Prim.Native.Char.{Char, code}
use Prim.Native.String.{String, [], ◌∷◌}
use mathlib.Core.List.{List, [], ◌∷◌, ◌++◌}
use text.Mathlib.TextLemmas.{nil-append, cons-append, append_assoc}
use text.Mathlib.TextEquality.{Char-path}
use mandau.Base.{
  ℕ, zero, suc, ◌/◌, ◌%◌, ◌<◌, ◌≡◌, ◌≢◌, refl, sym, ap, ◌∙◌, inl, inr, Bool, true, not, ◌&&◌, arith,
  ltb, eqb_iff, if◌then◌else◌, ◌<>◌, Bool-cases,
}
use mandau.Core.AgentId.{
  digit_text, decimal_within, decimal, generate_agent_id, is_dash, cons_first, split_dash,
  join_dash, drop_last, hostname_of_parts, hostname_of_id,
}

-- More fuel than the number is enough.
decimal_within_enough : (f g n : ℕ) → n < f → n < g → decimal_within f n ≡ decimal_within g n
unfolding decimal_within
decimal_within_enough zero g n h k = elim h [ ]
decimal_within_enough (suc f) zero n h k = elim k [ ]
decimal_within_enough (suc f) (suc g) n h k = elim (Bool-cases (ltb n 10)) [
  | inl e ↦ rw e
  | inr e ↦ rw e (
      ap (λ s. s <> digit_text (n % 10))
        (decimal_within_enough f g (n / 10) (ground arith) (ground arith)))
]

-- The digits of a number are those of its tenth, and then its last one.
decimal_lem :
    (n : ℕ)
    → decimal n ≡ (if ltb n 10 then digit_text n else decimal (n / 10) <> digit_text (n % 10))
unfolding decimal
decimal_lem n = elim (Bool-cases (ltb n 10)) [
  | inl e ↦ rw e
  | inr e ↦ rw e (
      ap (λ s. s <> digit_text (n % 10))
        (decimal_within_enough n (suc (n / 10)) (n / 10) (ground arith) (omega arith)))
]

abbrev dash : Char
dash = "-"

abbrev lacks_dash : String → Bool
lacks_dash [] = true
lacks_dash (c ∷ s) = not (is_dash c) && lacks_dash s

lacks_dash-append :
    (s t : String) → lacks_dash s ≡ true → lacks_dash t ≡ true → lacks_dash (s <> t) ≡ true
lacks_dash-append [] t h k = rw nil-append k
lacks_dash-append (c ∷ s) t h k = rw cons-append (ground (arith, lacks_dash-append s t))

lacks_dash-digit : (n : ℕ) → lacks_dash (digit_text n) ≡ true
lacks_dash-digit zero = refl
lacks_dash-digit (suc zero) = refl
lacks_dash-digit (suc (suc zero)) = refl
lacks_dash-digit (suc (suc (suc zero))) = refl
lacks_dash-digit (suc (suc (suc (suc zero)))) = refl
lacks_dash-digit (suc (suc (suc (suc (suc zero))))) = refl
lacks_dash-digit (suc (suc (suc (suc (suc (suc zero)))))) = refl
lacks_dash-digit (suc (suc (suc (suc (suc (suc (suc zero))))))) = refl
lacks_dash-digit (suc (suc (suc (suc (suc (suc (suc (suc zero)))))))) = refl
lacks_dash-digit (suc (suc (suc (suc (suc (suc (suc (suc (suc n))))))))) = refl

lacks_dash-decimal : (f n : ℕ) → lacks_dash (decimal_within f n) ≡ true
unfolding decimal_within
lacks_dash-decimal zero n = refl
lacks_dash-decimal (suc f) n = elim (Bool-cases (ltb n 10)) [
  | inl e ↦ rw e (lacks_dash-digit n)
  | inr e ↦ rw e (
      lacks_dash-append (decimal_within f (n / 10)) (digit_text (n % 10))
        (lacks_dash-decimal f (n / 10)) (lacks_dash-digit (n % 10)))
]

cons_first-ne : (c : Char) (ps : List String) → cons_first c ps ≢ []
cons_first-ne c [] e = cc
cons_first-ne c (p ∷ ps) e = cc

split_dash-ne : (s : String) → split_dash s ≢ []
unfolding split_dash
split_dash-ne [] e = cc
split_dash-ne (c ∷ s) e = elim (Bool-cases (is_dash c)) [
  | inl h ↦ cc (sym (ap (λ b. if b then [] ∷ split_dash s else cons_first c (split_dash s)) h) ∙ e)
  | inr h ↦
      cons_first-ne c (split_dash s)
        (sym (ap (λ b. if b then [] ∷ split_dash s else cons_first c (split_dash s)) h) ∙ e)
]

-- A text with no dash is one part.
split_dash-lacks : (s : String) → lacks_dash s ≡ true → split_dash s ≡ s ∷ []
unfolding split_dash
split_dash-lacks [] h = refl
split_dash-lacks (c ∷ s) h = ground (arith, split_dash-lacks s)

cons_first-append :
    (c : Char) (ps qs : List String) → ps ≢ [] → cons_first c (ps ++ qs) ≡ cons_first c ps ++ qs
cons_first-append c [] qs h = absurd (h refl)
cons_first-append c (p ∷ ps) qs h = refl

-- A dash between two texts splits them.
split_dash-append :
    (s : String) (d : Char) (t : String)
    → is_dash d ≡ true
    → split_dash (s <> (d ∷ t)) ≡ split_dash s ++ split_dash t
unfolding split_dash
split_dash-append [] d t h = rw nil-append (rw h refl)
split_dash-append (c ∷ s) d t h = rw cons-append elim (Bool-cases (is_dash c)) [
  | inl e ↦ rw e (ap (λ ps. [] ∷ ps) (split_dash-append s d t h))
  | inr e ↦ rw e (
      ap (cons_first c) (split_dash-append s d t h)
      ∙ cons_first-append c (split_dash s) (split_dash t) (split_dash-ne s))
]

join_dash-first :
    (c : Char) (ps : List String) → ps ≢ [] → join_dash (cons_first c ps) ≡ c ∷ join_dash ps
unfolding join_dash
join_dash-first c [] h = absurd (h refl)
join_dash-first c (p ∷ []) h = refl
join_dash-first c (p ∷ q ∷ ps) h = cons-append c p ("-" <> join_dash (q ∷ ps))

join_dash-nil : (ps : List String) → ps ≢ [] → join_dash ([] ∷ ps) ≡ "-" <> join_dash ps
unfolding join_dash
join_dash-nil [] h = absurd (h refl)
join_dash-nil (p ∷ ps) h = nil-append ("-" <> join_dash (p ∷ ps))

-- Joining what was split gives the text.
join_dash-split : (s : String) → join_dash (split_dash s) ≡ s
unfolding split_dash join_dash
join_dash-split [] = refl
join_dash-split (c ∷ s) = elim (Bool-cases (is_dash c)) [
  | inl e ↦ rw e (
      join_dash-nil (split_dash s) (split_dash-ne s)
      ∙ ap (λ r. "-" <> r) (join_dash-split s)
      ∙ cons-append dash "" s
      ∙ ap (λ r. dash ∷ r) (nil-append s)
      ∙ ap (λ d. d ∷ s) (Char-path dash c (sym ((eqb_iff (code c) b'-').0 e))))
  | inr e ↦
      rw e
        (join_dash-first c (split_dash s) (split_dash-ne s) ∙ ap (λ r. c ∷ r) (join_dash-split s))
]

drop_last-snoc : (ps : List String) (q : String) → drop_last (ps ++ q ∷ []) ≡ ps
drop_last-snoc [] q = refl
drop_last-snoc (p ∷ []) q = refl
drop_last-snoc (p ∷ r ∷ ps) q = ap (λ l. p ∷ l) (drop_last-snoc (r ∷ ps) q)

hostname_of_parts-snoc :
    (p : String) (ps : List String) (q : String)
    → ps ≢ []
    → hostname_of_parts (p ∷ ps ++ q ∷ []) ≡ join_dash ps
hostname_of_parts-snoc p [] q h = absurd (h refl)
hostname_of_parts-snoc p (r ∷ []) q h = ap join_dash (drop_last-snoc (r ∷ []) q)
hostname_of_parts-snoc p (r ∷ t ∷ ps) q h = ap join_dash (drop_last-snoc (r ∷ t ∷ ps) q)

parts_of_id :
    (h d : String)
    → lacks_dash d ≡ true
    → split_dash ("agent" <> "-" <> h <> "-" <> d) ≡ "agent" ∷ split_dash h ++ d ∷ []
unfolding split_dash
parts_of_id h d e =
    ap split_dash (cut "agent" (h <> "-" <> d))
    ∙ split_dash-append "agent" dash (h <> "-" <> d) refl
    ∙ ap (λ ps. "agent" ∷ ps)
        (ap split_dash (cut h d)
          ∙ split_dash-append h dash d refl
          ∙ ap (λ ps. split_dash h ++ ps) (split_dash-lacks d e))
  where
    cut : (s t : String) → s <> "-" <> t ≡ s <> (dash ∷ t)
    cut s t = ap (λ r. s <> r) (cons-append dash "" t ∙ ap (λ r. dash ∷ r) (nil-append t))

-- The host name that `getAgentConnection` reads off a generated ID is the one the ID was made of,
-- for every host name, dashes included.
pub hostname-generate :
    (hostname : String) (now : ℕ) → hostname_of_id (generate_agent_id hostname now) ≡ hostname
unfolding hostname_of_id generate_agent_id decimal
hostname-generate h now =
    ap (λ s. hostname_of_parts (split_dash s)) (append_assoc "agent" "-" (h <> "-" <> decimal now))
    ∙ ap hostname_of_parts (parts_of_id h (decimal now) (lacks_dash-decimal (suc now) now))
    ∙ hostname_of_parts-snoc "agent" (split_dash h) (decimal now) (split_dash-ne h)
    ∙ join_dash-split h
