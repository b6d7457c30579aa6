-- ===== src/Base/Lists.antt =====
-- Lists measured by native numbers, under the library's names, and predicates by recursion.
use Prim.Native.Nat.{ℕ, zero, suc, ◌+◌, ◌≤◌}
use mathlib.Core.Path.{◌≡◌, refl, ap}
use mathlib.Core.Logic.{◌⊎◌, inl, inr, ◌↔◌}
use mathlib.Core.Bool.{Bool, true, false, ◌||◌}
use mathlib.Core.List.{List, [], ◌∷◌, ◌++◌}
use native.Mathlib.Omega.{arith}

module _ {ℓ} {A : Type ℓ} where
  abbrev pub length : List A → ℕ
  length [] = 0
  length (x ∷ xs) = suc (length xs)

  abbrev pub take : ℕ → List A → List A
  take zero xs = []
  take (suc n) [] = []
  take (suc n) (x ∷ xs) = x ∷ take n xs

  pub length-append : (xs ys : List A) → length (xs ++ ys) ≡ length xs + length ys
  length-append [] ys = omega arith
  length-append (x ∷ xs) ys = omega (arith, length-append xs ys)

  pub take-nil : (n : ℕ) → take n [] ≡ []
  take-nil zero = refl
  take-nil (suc n) = refl

  pub take_all : (n : ℕ) (xs : List A) → length xs ≤ n → take n xs ≡ xs
  take_all zero [] h = refl
  take_all zero (x ∷ xs) h = absurd (omega arith)
  take_all (suc n) [] h = refl
  take_all (suc n) (x ∷ xs) h = ground (arith, take_all n xs)

  pub take-append_take : (n : ℕ) (xs ys : List A) → take n (take n xs ++ ys) ≡ take n (xs ++ ys)
  take-append_take zero xs ys = refl
  take-append_take (suc n) [] ys = refl
  take-append_take (suc n) (x ∷ xs) ys = ap (λ l. x ∷ l) (take-append_take n xs ys)

  abbrev pub filter : (A → Bool) → List A → List A
  filter p [] = []
  filter p (x ∷ xs) = let rest = filter p xs in elim (p x) [ true ↦ x ∷ rest | false ↦ rest ]

true_of_or : (a b : Bool) → (a || b) ≡ true → (a ≡ true) ⊎ (b ≡ true)
true_of_or true b h = inl refl
true_of_or false b h = inr h

module _ {ℓ} {A : Type ℓ} where
  -- `exists p xs`: some member passes.
  abbrev pub exists : (A → Bool) → List A → Bool
  exists p [] = false
  exists p (x ∷ xs) = p x || exists p xs

module _ {ℓ κ} {A : Type ℓ} where
  abbrev pub All : (A → Type κ) → List A → Type κ
  All P [] = Unit
  All P (x ∷ xs) = P x × All P xs

  pub All-append :
      (P : A → Type κ) (front back : List A) → All P front → All P back → All P (front ++ back)
  All-append P [] back f b = b
  All-append P (a ∷ front) back (p, f) b = (p, All-append P front back f b)

  pub All-parts :
      (P : A → Type κ) (front back : List A) → All P (front ++ back) → All P front × All P back
  All-parts P [] back h = (tt, h)
  All-parts P (a ∷ front) back h = let (f, b) = All-parts P front back h.1 in ((h.0, f), b)

  pub All-map_of : (P Q : A → Type κ) (xs : List A) → ((a : A) → P a → Q a) → All P xs → All Q xs
  All-map_of P Q [] f h = tt
  All-map_of P Q (x ∷ xs) f h = (f x h.0, All-map_of P Q xs f h.1)

module _ {ℓ} {A : Type ℓ} where
  -- Some member has the property, and this is where.
  abbrev pub Any : (A → Type 0) → List A → Type 0
  Any P [] = ⊥
  Any P (x ∷ xs) = P x ⊎ Any P xs

  pub Any-map_of : (P Q : A → Type 0) (xs : List A) → ((a : A) → P a → Q a) → Any P xs → Any Q xs
  Any-map_of P Q [] f h = h
  Any-map_of P Q (x ∷ xs) f (inl h) = inl (f x h)
  Any-map_of P Q (x ∷ xs) f (inr h) = inr (Any-map_of P Q xs f h)

  Any-exists :
      (p : A → Bool) (P : A → Type 0) (xs : List A)
      → ((a : A) → p a ≡ true → P a)
      → exists p xs ≡ true
      → Any P xs
  Any-exists p P [] f h = cc
  Any-exists p P (x ∷ xs) f h = elim (true_of_or (p x) (exists p xs) h) [
    | inl e ↦ inl (f x e)
    | inr e ↦ inr (Any-exists p P xs f e)
  ]

  exists_of_Any :
      (p : A → Bool) (P : A → Type 0) (xs : List A)
      → ((a : A) → P a → p a ≡ true)
      → Any P xs
      → exists p xs ≡ true
  exists_of_Any p P [] f h = elim h [ ]
  exists_of_Any p P (x ∷ xs) f (inl h) = rw (f x h)
  exists_of_Any p P (x ∷ xs) f (inr h) = ground (arith, exists_of_Any p P xs f h)

  -- A Boolean search against a description of what it looks for.
  pub exists_iff :
      (p : A → Bool) (P : A → Type 0) (xs : List A)
      → ((a : A) → (p a ≡ true) ↔ P a)
      → (exists p xs ≡ true) ↔ Any P xs
  exists_iff p P xs f = (Any-exists p P xs (λ a. (f a).0), exists_of_Any p P xs (λ a. (f a).1))
