-- ===== src/Transport/Main/Table.antt =====
-- Facts on tables of pools and on lists with an element left out.
use httplb.Prelude.{
  ℕ, zero, suc, ◌+◌, ◌≡◌, refl, ◌∙◌, subst, inl, inr, Bool, false, not, none, some, List, [], ◌∷◌,
  arith, if◌then◌else◌, Bool-cases, length, get_elem?, keep, All,
}
use httplb.Transport.Target.{Target, same, same_iff}
use httplb.Transport.Main.{Entry, Table, find, delete, warm_pools, without}

-- no target occurs twice
abbrev pub Unique : Table → Type 0
Unique [] = Unit
Unique ((d, e) ∷ table) = (find d table ≡ none) × Unique table

pub find-delete :
    (a d : Target) (table : Table)
    → find a (delete d table) ≡ (if same a d then none else find a table)
unfolding find delete
find-delete a d [] = ground arith
find-delete a d ((k, e) ∷ table) = ground (arith, find-delete a d table)

delete_absent : (d : Target) (table : Table) → find d table ≡ none → delete d table ≡ table
unfolding find delete
delete_absent d [] h = refl
delete_absent d ((k, e) ∷ table) h = elim (Bool-cases (same k d)) [
  | inl e' ↦ absurd (ground (arith, e', h))
  | inr e' ↦ ground (arith, e', h, delete_absent d table)
]

pub length-delete :
    (d : Target) (table : Table) (e : Entry)
    → Unique table
    → find d table ≡ some e
    → length (delete d table) + 1 ≡ length table
unfolding find delete
length-delete d [] e u h = absurd (ground arith)
length-delete d ((k, f) ∷ table) e u h = elim (Bool-cases (same k d)) [
  | inl e' ↦
      let eq : k ≡ d = (same_iff k d).0 e' in
      let gone : find d table ≡ none = subst (λ x. find x table ≡ none) eq u.0 in
      ground (arith, e', delete_absent d table gone)
  | inr e' ↦ ground (arith, e', h, length-delete d table e u.1)
]

pub All-keep {ℓ} :
    {A : Type 0} (P : A → Type ℓ) (p : A → Bool) (xs : List A) → All P xs → All P (keep p xs)
All-keep P p [] h = tt
All-keep P p (x ∷ xs) h = elim (Bool-cases (p x)) [
  | inl e ↦ let both : P x × All P (keep p xs) = (h.0, All-keep P p xs h.1) in rw e both
  | inr e ↦ rw e (All-keep P p xs h.1)
]

pub find-keep-none :
    (a : Target) (p : Target × Entry → Bool) (table : Table)
    → find a table ≡ none
    → find a (keep p table) ≡ none
unfolding find
find-keep-none a p [] h = refl
find-keep-none a p ((k, e) ∷ table) h = elim (Bool-cases (same k a)) [
  | inl e' ↦ absurd (ground (arith, e', h))
  | inr e' ↦ elim (Bool-cases (p (k, e))) [
    | inl s ↦ ground (arith, e', s, h, find-keep-none a p table)
    | inr s ↦ ground (arith, e', s, h, find-keep-none a p table)
  ]
]

pub Unique-keep : (p : Target × Entry → Bool) (table : Table) → Unique table → Unique (keep p table)
Unique-keep p [] u = tt
Unique-keep p ((k, e) ∷ table) u = elim (Bool-cases (p (k, e))) [
  | inl s ↦
      let both : (find k (keep p table) ≡ none) × Unique (keep p table) =
        (find-keep-none k p table u.0, Unique-keep p table u.1) in
      rw s both
  | inr s ↦ rw s (Unique-keep p table u.1)
]

pub Unique-delete : (d : Target) (table : Table) → Unique table → Unique (delete d table)
unfolding delete
Unique-delete d table u = Unique-keep _ table u

-- the pools that are not kept warm stay
pub find-keep_cold :
    (a : Target) (table : Table) (e : Entry)
    → find a table ≡ some e
    → e.keep_warm ≡ false
    → find a (keep (λ entry. not (entry.1.keep_warm)) table) ≡ some e
unfolding find
find-keep_cold a [] e h c = h
find-keep_cold a ((k, e') ∷ table) e h c = ground (arith, find-keep_cold a table e, h, c)

pub length-warm :
    (table : Table)
    → length (keep (λ entry. not (entry.1.keep_warm)) table) + length (warm_pools table)
      ≡ length table
unfolding warm_pools
length-warm [] = refl
length-warm ((k, e) ∷ table) = ground (arith, length-warm table)

-- goroutines that watch different targets
abbrev pub UniqueKeys : List (Target × ℕ) → Type 0
UniqueKeys [] = Unit
UniqueKeys (w ∷ ws) = All (λ v. same (v.0) (w.0) ≡ false) ws × UniqueKeys ws

pub All-without {ℓ} :
    {A : Type 0} (P : A → Type ℓ) (xs : List A) (i : ℕ) → All P xs → All P (without xs i)
unfolding without
All-without P [] i h = tt
All-without P (x ∷ xs) zero h = h.1
All-without P (x ∷ xs) (suc i) h = (h.0, All-without P xs i h.1)

pub UniqueKeys-without :
    (ws : List (Target × ℕ)) (i : ℕ) → UniqueKeys ws → UniqueKeys (without ws i)
unfolding without
UniqueKeys-without [] i u = tt
UniqueKeys-without (w ∷ ws) zero u = u.1
UniqueKeys-without (w ∷ ws) (suc i) u =
    (All-without (λ v. same (v.0) (w.0) ≡ false) ws i u.0, UniqueKeys-without ws i u.1)

pub All_of_get {ℓ} :
    {A : Type 0} (P : A → Type ℓ) (xs : List A) (i : ℕ) (x : A)
    → All P xs
    → get_elem? xs i ≡ some x
    → P x
All_of_get P [] i x h g = absurd (ground (arith, g))
All_of_get P (y ∷ xs) zero x h g = subst P (cc g) h.0
All_of_get P (y ∷ xs) (suc i) x h g = All_of_get P xs i x h.1 g

same_sym : (a b : Target) → same a b ≡ same b a
same_sym a b = ground arith

-- the other goroutines watch other targets
pub others_differ :
    (ws : List (Target × ℕ)) (i : ℕ) (w : Target × ℕ)
    → UniqueKeys ws
    → get_elem? ws i ≡ some w
    → All (λ v. same (v.0) (w.0) ≡ false) (without ws i)
unfolding without
others_differ [] i w u g = tt
others_differ (x ∷ ws) zero w u g =
    let eq : x ≡ w = cc g in
    subst (λ (y : Target × ℕ). All (λ v. same (v.0) (y.0) ≡ false) ws) eq u.0
others_differ (x ∷ ws) (suc i) w u g = (
  same_sym x.0 w.0 ∙ All_of_get (λ v. same (v.0) (x.0) ≡ false) ws i w u.0 g,
  others_differ ws i w u.1 g,
)

pub length-without :
    {A : Type 0} (xs : List A) (i : ℕ) (x : A)
    → get_elem? xs i ≡ some x
    → length (without xs i) + 1 ≡ length xs
unfolding without
length-without [] i x g = absurd (ground (arith, g))
length-without (y ∷ xs) zero x g = omega arith
length-without (y ∷ xs) (suc i) x g = omega (arith, length-without xs i x g)
