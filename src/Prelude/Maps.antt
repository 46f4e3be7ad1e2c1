-- ===== src/Prelude/Maps.antt =====
-- Total maps from numbers, updated at one place, and finite sets of numbers kept as lists.
use Prim.Native.Nat.{ℕ, zero, suc, ◌<◌}
use mathlib.Core.Path.{◌≡◌, refl, sym}
use mathlib.Core.Bool.{Bool, true, false, ◌||◌, false≢true}
use mathlib.Core.List.{List, [], ◌∷◌, ◌++◌, map}
use mathlib.Core.Logic.{inl, inr}
use native.Mathlib.Omega.{arith}
use httplb.Prelude.Tests.{if◌then◌else◌, ◌==◌, Bool-cases, ==→eq}
use httplb.Prelude.Lists.{length, get_or}

abbrev pub update {ℓ} : {A : Type ℓ} → (ℕ → A) → ℕ → A → ℕ → A
update f i a j = if i == j then a else f j

abbrev pub contains : List ℕ → ℕ → Bool
contains [] a = false
contains (x ∷ xs) a = x == a || contains xs a

-- no element occurs twice
abbrev pub IsNodup : List ℕ → Type 0
IsNodup [] = Unit
IsNodup (x ∷ xs) = (contains xs x ≡ false) × IsNodup xs

pub contains-append :
    (xs ys : List ℕ) (a : ℕ) → contains (xs ++ ys) a ≡ (contains xs a || contains ys a)
contains-append [] ys a = refl
contains-append (x ∷ xs) ys a = ground (arith, contains-append xs ys a)

-- Two sets with the same elements
abbrev pub SameSet : List ℕ → List ℕ → Type 0
SameSet xs ys = (a : ℕ) → contains xs a ≡ contains ys a

-- membership by position
pub contains-map-of_get :
    (f : ℕ → ℕ) (xs : List ℕ) (i : ℕ)
    → i < length xs
    → contains (map f xs) (f (get_or xs i 0)) ≡ true
contains-map-of_get f [] i h = absurd (omega arith)
contains-map-of_get f (x ∷ xs) zero h = ground arith
contains-map-of_get f (x ∷ xs) (suc i) h = ground (arith, contains-map-of_get f xs i)

pub get_of_contains-map :
    (f : ℕ → ℕ) (xs : List ℕ) (a : ℕ)
    → contains (map f xs) a ≡ true
    → (i : ℕ) × (i < length xs) × (f (get_or xs i 0) ≡ a)
get_of_contains-map f [] a h = absurd (false≢true h)
get_of_contains-map f (x ∷ xs) a h = elim (Bool-cases (f x == a)) [
  | inl e ↦ (0, omega arith, ==→eq _ _ e)
  | inr e ↦ let (i, p, q) = get_of_contains-map f xs a (ground arith) in (suc i, omega arith, q)
]

-- Boolean equality from implications both ways
pub Bool-ext : (a b : Bool) → (a ≡ true → b ≡ true) → (b ≡ true → a ≡ true) → a ≡ b
Bool-ext true b f g = sym (f refl)
Bool-ext false true f g = g refl
Bool-ext false false f g = refl

pub get_of_contains :
    (xs : List ℕ) (a : ℕ) → contains xs a ≡ true → (i : ℕ) × (i < length xs) × (get_or xs i 0 ≡ a)
get_of_contains [] a h = absurd (false≢true h)
get_of_contains (x ∷ xs) a h = elim (Bool-cases (x == a)) [
  | inl e ↦ (0, omega arith, ==→eq _ _ e)
  | inr e ↦ let (i, p, q) = get_of_contains xs a (ground arith) in (suc i, omega arith, q)
]

pub contains-of_get : (xs : List ℕ) (i : ℕ) → i < length xs → contains xs (get_or xs i 0) ≡ true
contains-of_get [] i h = absurd (omega arith)
contains-of_get (x ∷ xs) zero h = ground arith
contains-of_get (x ∷ xs) (suc i) h = ground (arith, contains-of_get xs i)
