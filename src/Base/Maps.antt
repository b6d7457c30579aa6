-- ===== src/Base/Maps.antt =====
-- A Go map with text keys: an association list. Its order stands for the order in which one
-- `range` over the map happens to go; what is proved holds for every such order.
use Prim.Native.String.{String}
use mathlib.Core.Path.{◌≡◌, refl, subst, sym, ap, ◌∙◌}
use mathlib.Core.Logic.{◌⊎◌, ◌≢◌, inl, inr}
use mathlib.Core.Option.{Option, none, some}
use mathlib.Core.List.{List, [], ◌∷◌, ◌++◌}
use native.Mathlib.Omega.{arith}
use text.Mathlib.Text.{◌==◌}
use text.Mathlib.TextEquality.{eq_iff}
use text.Mathlib.TextPositions.{eq_refl}
use mandau.Base.Lists.{All}
use mandau.Base.Tests.{if◌then◌else◌, Bool-cases, ne→==-false}

abbrev pub Map {ℓ} : Type ℓ → Type ℓ
Map V = List (String × V)

module _ {ℓ} {V : Type ℓ} where
  -- `v, exists := m[k]`
  unfoldable pub get : Map V → String → Option V
  get [] k = none
  get ((j, v) ∷ m) k = if j == k then some v else get m k

  -- `m[k] = v`
  unfoldable pub put : Map V → String → V → Map V
  put [] k v = (k, v) ∷ []
  put ((j, w) ∷ m) k v = if j == k then (j, v) ∷ m else (j, w) ∷ put m k v

  -- `delete(m, k)`
  unfoldable pub delete : Map V → String → Map V
  delete [] k = []
  delete ((j, v) ∷ m) k = let rest = delete m k in if j == k then rest else (j, v) ∷ rest

  abbrev pub values : Map V → List V
  values [] = []
  values ((k, v) ∷ m) = v ∷ values m

  abbrev pub keys : Map V → List String
  keys [] = []
  keys ((k, v) ∷ m) = k ∷ keys m

  -- No key stands twice, as in every Go map.
  abbrev pub Unique : Map V → Type 0
  Unique [] = Unit {0}
  Unique ((k, v) ∷ m) = All (λ j. j ≢ k) (keys m) × Unique m

  pub get-put :
      (m : Map V) (k j : String) (v : V) → get (put m k v) j ≡ (if k == j then some v else get m j)
  unfolding get put
  get-put [] k j v = refl
  get-put ((i, w) ∷ m) k j v = ground (arith, get-put m k j v, eq_iff i k, eq_iff i j, eq_iff k j)

  pub get-put_same : (m : Map V) (k : String) (v : V) → get (put m k v) k ≡ some v
  get-put_same m k v = rw (get-put m k k v, eq_refl k) refl

  get-put_cases :
      (m : Map V) (k j : String) (v w : V)
      → get (put m k v) j ≡ some w
      → ((k ≡ j) × (v ≡ w)) ⊎ (get m j ≡ some w)
  get-put_cases m k j v w h = ground (arith, get-put m k j v, eq_iff k j)

  -- A property of every entry.
  abbrev pub Each {κ} : (String → V → Type κ) → Map V → Type (ℓ ⊔ κ)
  Each P m = (k : String) (v : V) → get m k ≡ some v → P k v

  pub Each-put {κ} :
      (P : String → V → Type κ) (m : Map V) (k : String) (v : V)
      → P k v
      → Each P m
      → Each P (put m k v)
  Each-put P m k v p h j w e = elim (get-put_cases m k j v w e) [
    | inl (q, r) ↦ subst (λ i. P i w) q (subst (P k) r p)
    | inr g ↦ h j w g
  ]

  -- A key that no entry has.
  pub get_of_absent : (m : Map V) (k : String) → All (λ j. j ≢ k) (keys m) → get m k ≡ none
  unfolding get
  get_of_absent [] k h = refl
  get_of_absent ((j, v) ∷ m) k h = rw (ne→==-false j k h.0) (get_of_absent m k h.1)

  -- A new key goes to the end, and an old one keeps its place.
  pub keys-put_new :
      (m : Map V) (k : String) (v : V) → get m k ≡ none → keys (put m k v) ≡ keys m ++ k ∷ []
  unfolding get put
  keys-put_new [] k v h = refl
  keys-put_new ((j, w) ∷ m) k v h = elim (Bool-cases (j == k)) [
    | inl e ↦ cc (sym (ap (λ t. if t then some w else get m k) e) ∙ h)
    | inr e ↦ rw e (
        ap (λ ks. j ∷ ks)
          (keys-put_new m k v (sym (ap (λ t. if t then some w else get m k) e) ∙ h)))
  ]

  pub keys-put_old :
      (m : Map V) (k : String) (v w : V) → get m k ≡ some w → keys (put m k v) ≡ keys m
  unfolding get put
  keys-put_old [] k v w h = cc
  keys-put_old ((j, u) ∷ m) k v w h = elim (Bool-cases (j == k)) [
    | inl e ↦ rw e refl
    | inr e ↦ rw e (
        ap (λ ks. j ∷ ks)
          (keys-put_old m k v w (sym (ap (λ t. if t then some u else get m k) e) ∙ h)))
  ]

  -- Taking a new key away again.
  pub delete-put_new : (m : Map V) (k : String) (v : V) → get m k ≡ none → delete (put m k v) k ≡ m
  unfolding get put delete
  delete-put_new [] k v h = rw (eq_refl k) refl
  delete-put_new ((j, w) ∷ m) k v h = elim (Bool-cases (j == k)) [
    | inl e ↦ cc (sym (ap (λ t. if t then some w else get m k) e) ∙ h)
    | inr e ↦ rw e (
        rw e (
          ap (λ r. (j, w) ∷ r)
            (delete-put_new m k v (sym (ap (λ t. if t then some w else get m k) e) ∙ h))))
  ]

  -- A new entry goes to the end.
  pub put_new : (m : Map V) (k : String) (v : V) → get m k ≡ none → put m k v ≡ m ++ (k, v) ∷ []
  unfolding get put
  put_new [] k v h = refl
  put_new ((j, w) ∷ m) k v h = elim (Bool-cases (j == k)) [
    | inl e ↦ cc (sym (ap (λ t. if t then some w else get m k) e) ∙ h)
    | inr e ↦
        rw e (
          ap (λ r. (j, w) ∷ r)
            (put_new m k v (sym (ap (λ t. if t then some w else get m k) e) ∙ h)))
  ]

  -- Deleting a key leaves the others.
  pub get-delete :
      (m : Map V) (k j : String) → get (delete m k) j ≡ (if k == j then none else get m j)
  unfolding get delete
  get-delete [] k j = elim (Bool-cases (k == j)) [ inl e ↦ rw e refl | inr e ↦ rw e refl ]
  get-delete ((i, w) ∷ m) k j = ground (arith, get-delete m k j, eq_iff i k, eq_iff i j, eq_iff k j)
