-- ===== src/Base/Errors.antt =====
-- Go's pair of a value and an `error`: a failed call gives the error's text alone.
use Prim.Native.String.{String}
use mathlib.Core.Path.{◌≡◌, refl}
use mathlib.Core.Logic.{◌⊎◌, inl, inr}

pub data Result {ℓ} (A : Type ℓ) : Type ℓ where
  ok : A → Result A
  err : String → Result A

infixl 5 ◌>>=◌
abbrev pub ◌>>=◌ {ℓ κ} : {A : Type ℓ} {B : Type κ} → Result A → (A → Result B) → Result B
ok a >>= f = f a
err e >>= f = err e

infixr 65 ◌<>◌
-- Concatenation of texts.
abbrev pub ◌<>◌ : String → String → String
s <> t = Prim.Native.String.◌++◌ s t

-- `fmt.Errorf("prefix%w", err)` on the error of a call.
abbrev pub in_context {ℓ} : {A : Type ℓ} → String → Result A → Result A
in_context p (ok a) = ok a
in_context p (err e) = err (p <> e)

pub Result-cases {ℓ} :
    {A : Type ℓ} (r : Result A) → ((e : String) × (r ≡ err e)) ⊎ ((a : A) × (r ≡ ok a))
Result-cases (ok a) = inr (a, refl)
Result-cases (err e) = inl (e, refl)

module _ {ℓ κ} {A : Type ℓ} {B : Type κ} where
  -- A chain that ends well had a first step that ended well.
  pub bind-ok :
      (r : Result A) (f : A → Result B) (b : B)
      → (r >>= f) ≡ ok b
      → (a : A) × (r ≡ ok a) × (f a ≡ ok b)
  bind-ok (ok a) f b h = (a, refl, h)
  bind-ok (err e) f b h = cc h

pub in_context-ok {ℓ} :
    {A : Type ℓ} (p : String) (r : Result A) (a : A) → in_context p r ≡ ok a → r ≡ ok a
in_context-ok p (ok b) a h = h
in_context-ok p (err e) a h = cc h
