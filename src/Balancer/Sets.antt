-- ===== src/Balancer/Sets.antt =====
-- conns.go, Set: equality of two sets is having the same elements.
use httplb.Prelude.{
  ℕ, ◌≤◌, ◌<◌, ◌≡◌, refl, sym, ap, ap₂, ◌∙◌, subst, inl, inr, true, false, not, ◌&&◌, ◌||◌, List,
  [], ◌∷◌, arith, ◌==◌, ==→eq, ==-refl, Bool-cases, length, keep, contains, IsNodup, SameSet,
  Bool-ext,
}
use mathlib.Core.Bool.{false≢true}
use httplb.Balancer.{subset, set_equals, set_from_slice}

abbrev without : ℕ → List ℕ → List ℕ
without x = keep (λ c. not (c == x))

contains-without :
    (x a : ℕ) (xs : List ℕ) → contains (without x xs) a ≡ (contains xs a && not (a == x))
contains-without x a [] = refl
contains-without x a (y ∷ ys) = grind (arith, contains-without x a ys)

length-without-le : (x : ℕ) (xs : List ℕ) → length (without x xs) ≤ length xs
length-without-le x [] = omega arith
length-without-le x (y ∷ ys) = ground (arith, length-without-le x ys)

length-without : (x : ℕ) (xs : List ℕ) → contains xs x ≡ true → length (without x xs) < length xs
length-without x [] h = absurd (grind (arith, h))
length-without x (y ∷ ys) h = grind (arith, length-without x ys, length-without-le x ys)

distinct_member :
    (xs : List ℕ) (x a : ℕ) → contains xs x ≡ false → contains xs a ≡ true → (a == x) ≡ false
distinct_member xs x a h p = elim (Bool-cases (a == x)) [
  | inl e ↦ absurd (false≢true (sym h ∙ ap (contains xs) (sym (==→eq a x e)) ∙ p))
  | inr e ↦ e
]

-- a list without repetition is not longer than one that has all its elements
length-nodup :
    (xs ys : List ℕ)
    → IsNodup xs
    → ((a : ℕ) → contains xs a ≡ true → contains ys a ≡ true)
    → length xs ≤ length ys
length-nodup [] ys n h = omega arith
length-nodup (x ∷ xs) ys n h =
    let inside : contains ys x ≡ true = h x (ground (arith, ==-refl x)) in
    let rest : length xs ≤ length (without x ys) = length-nodup xs (without x ys) n.1 (λ a p.
      contains-without x a ys
      ∙ ap₂ (λ s t. s && not t) (h a (ground (arith, p))) (distinct_member xs x a n.0 p)) in
    let shorter = length-without x ys inside in omega arith

subset-contains :
    (xs ys : List ℕ) (a : ℕ) → subset xs ys ≡ true → contains xs a ≡ true → contains ys a ≡ true
unfolding subset
subset-contains [] ys a s h = absurd (grind (arith, h))
subset-contains (x ∷ xs) ys a s h = grind (arith, subset-contains xs ys a)

contains-subset :
    (xs ys : List ℕ) → ((a : ℕ) → contains xs a ≡ true → contains ys a ≡ true) → subset xs ys ≡ true
unfolding subset
contains-subset [] ys h = refl
contains-subset (x ∷ xs) ys h =
    let inside : contains ys x ≡ true = h x (ground (arith, ==-refl x)) in
    let rest = contains-subset xs ys (λ a p. h a (ground (arith, p))) in ground arith

-- as long as it, and with all of it: no more than it
no_more :
    (xs ys : List ℕ) (a : ℕ)
    → IsNodup xs
    → length xs ≡ length ys
    → subset xs ys ≡ true
    → contains ys a ≡ true
    → contains xs a ≡ true
no_more xs ys a n l s h = elim (Bool-cases (contains xs a)) [
  | inl e ↦ e
  | inr e ↦
      let tail : (c : ℕ) → contains (a ∷ xs) c ≡ true → contains ys c ≡ true = λ c p.
        elim (Bool-cases (a == c)) [
          | inl q ↦ subst (λ t. contains ys t ≡ true) (==→eq a c q) h
          | inr q ↦ subset-contains xs ys c s (grind (arith, p, q))
        ] in
      let longer = length-nodup (a ∷ xs) ys (e, n) tail in absurd (omega arith)
]

-- For two sets without repetition, `Equals` answers true exactly if every connection is in both or in neither.
pub set_equals_correct :
    (xs ys : List ℕ)
    → IsNodup xs
    → IsNodup ys
    → ((set_equals xs ys ≡ true → SameSet xs ys) × (SameSet xs ys → set_equals xs ys ≡ true))
unfolding set_equals
set_equals_correct xs ys nx ny = (
  λ e a.
      let l : length xs ≡ length ys = ==→eq _ _ (grind (arith, e)) in
      let s : subset xs ys ≡ true = grind (arith, e) in
      Bool-ext _ _ (subset-contains xs ys a s) (no_more xs ys a nx l s),
  λ same.
      let le = length-nodup xs ys nx (λ a p. sym (same a) ∙ p) in
      let ge = length-nodup ys xs ny (λ a p. same a ∙ p) in
      let s = contains-subset xs ys (λ a p. sym (same a) ∙ p) in
      let l : length xs ≡ length ys = omega arith in grind arith,
)

set_from_slice_old :
    (x : ℕ) (xs : List ℕ)
    → contains (set_from_slice xs) x ≡ true
    → set_from_slice (x ∷ xs) ≡ set_from_slice xs
unfolding set_from_slice
set_from_slice_old x xs e = ground arith

set_from_slice_new :
    (x : ℕ) (xs : List ℕ)
    → contains (set_from_slice xs) x ≡ false
    → set_from_slice (x ∷ xs) ≡ x ∷ set_from_slice xs
unfolding set_from_slice
set_from_slice_new x xs e = ground arith

set_from_slice_member :
    (x : ℕ) (xs : List ℕ) (a : ℕ)
    → contains (set_from_slice xs) x ≡ true
    → contains (set_from_slice xs) a ≡ contains xs a
    → contains (set_from_slice (x ∷ xs)) a ≡ (x == a || contains xs a)
set_from_slice_member x xs a e h = elim (Bool-cases (x == a)) [
  | inl p ↦
      let there : contains (set_from_slice xs) a ≡ true =
        subst (λ t. contains (set_from_slice xs) t ≡ true) (==→eq x a p) e in
      ap (λ t. contains t a) (set_from_slice_old x xs e)
      ∙ there
      ∙ sym (ap (λ t. t || contains xs a) p)
  | inr p ↦
      ap (λ t. contains t a) (set_from_slice_old x xs e) ∙ h ∙ sym (ap (λ t. t || contains xs a) p)
]

pub contains-set_from_slice : (xs : List ℕ) (a : ℕ) → contains (set_from_slice xs) a ≡ contains xs a
unfolding set_from_slice
contains-set_from_slice [] a = refl
contains-set_from_slice (x ∷ xs) a = elim (Bool-cases (contains (set_from_slice xs) x)) [
  | inl e ↦ set_from_slice_member x xs a e (contains-set_from_slice xs a)
  | inr e ↦
      ap (λ t. contains t a) (set_from_slice_new x xs e)
      ∙ ap (λ t. x == a || t) (contains-set_from_slice xs a)
]

pub set_from_slice-IsNodup : (xs : List ℕ) → IsNodup (set_from_slice xs)
unfolding set_from_slice
set_from_slice-IsNodup [] = tt
set_from_slice-IsNodup (x ∷ xs) = elim (Bool-cases (contains (set_from_slice xs) x)) [
  | inl e ↦ subst IsNodup (sym (set_from_slice_old x xs e)) (set_from_slice-IsNodup xs)
  | inr e ↦ subst IsNodup (sym (set_from_slice_new x xs e)) (e, set_from_slice-IsNodup xs)
]
