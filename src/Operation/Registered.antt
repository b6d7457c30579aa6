-- ===== src/Operation/Registered.antt =====
-- Lists of channels as `listeners` holds them: membership, removal, and no number twice.
use mandau.Base.{
  ℕ, ◌≤◌, ◌<◌, ◌≡◌, ◌≢◌, refl, inl, inr, String, true, false, List, [], ◌∷◌, ◌++◌, ◌||◌, arith, eqb,
  eqb_iff, if◌then◌else◌, ◌==◌, Map, get, put, get-put, All, Bool-cases,
}
use mandau.Operation.{Channel, or_empty}
use mandau.Operation.Listeners.{contains, without}

abbrev pub Distinct : List ℕ → Type 0
Distinct [] = Unit {0}
Distinct (i ∷ is) = (contains i is ≡ false) × Distinct is

abbrev pub Live : (ℕ → Channel) → ℕ → ℕ → Type 0
Live h n i = (i < n) × ((h i).is_closed ≡ false)

pub or_empty-put :
    (ls : Map (List ℕ)) (k j : String) (is : List ℕ)
    → or_empty (get (put ls k is) j) ≡ (if k == j then is else or_empty (get ls j))
or_empty-put ls k j is = rw get-put (ground arith)

pub contains-append :
    (i n : ℕ) (is : List ℕ) → contains i (is ++ n ∷ []) ≡ (contains i is || eqb i n)
contains-append i n [] = ground arith
contains-append i n (j ∷ js) = ground (arith, contains-append i n js)

-- A number that all listeners stay below is none of them.
pub contains_fresh :
    (h : ℕ → Channel) (n i : ℕ) (is : List ℕ) → All (Live h n) is → n ≤ i → contains i is ≡ false
contains_fresh h n i [] a l = refl
contains_fresh h n i (j ∷ js) a l = ground (arith, contains_fresh h n i js a.1)

pub Distinct-append :
    (n : ℕ) (is : List ℕ) → contains n is ≡ false → Distinct is → Distinct (is ++ n ∷ [])
Distinct-append n [] f d = (refl, tt)
Distinct-append n (j ∷ js) f d = (
  ground (arith, contains-append j n js, eqb_iff n j, eqb_iff j n),
  Distinct-append n js (ground arith) d.1,
)

pub contains-without :
    (i j : ℕ) (is : List ℕ) → contains i (without j is) ≡ true → contains i is ≡ true
contains-without i j [] h = h
contains-without i j (k ∷ is) h = ground (arith, contains-without i j is)

pub Distinct-without : (j : ℕ) (is : List ℕ) → Distinct is → Distinct (without j is)
Distinct-without j [] d = d
Distinct-without j (k ∷ is) d = elim (Bool-cases (eqb j k)) [
  | inl e ↦ rw e d.1
  | inr e ↦ rw e (ground (arith, contains-without k j is), Distinct-without j is d.1)
]

-- A listener that is removed is no longer there.
pub contains-without_self : (j : ℕ) (is : List ℕ) → Distinct is → contains j (without j is) ≡ false
contains-without_self j [] d = refl
contains-without_self j (k ∷ is) d = ground (arith, contains-without_self j is d.1, eqb_iff j k)

pub All-without {κ} : (P : ℕ → Type κ) (j : ℕ) (is : List ℕ) → All P is → All P (without j is)
All-without P j [] a = a
All-without P j (k ∷ is) a = elim (Bool-cases (eqb j k)) [
  | inl e ↦ rw e a.1
  | inr e ↦ rw e (a.0, All-without P j is a.1)
]

-- A property of all but one member holds of the members of a list that lacks that one.
pub All-ne {κ κ'} :
    (P : ℕ → Type κ) (Q : ℕ → Type κ') (j : ℕ) (is : List ℕ)
    → ((i : ℕ) → i ≢ j → P i → Q i)
    → contains j is ≡ false
    → All P is
    → All Q is
All-ne P Q j [] f c a = tt
All-ne P Q j (k ∷ is) f c a =
    (f k (λ e. ground (arith, eqb_iff j k)) a.0, All-ne P Q j is f (ground arith) a.1)
