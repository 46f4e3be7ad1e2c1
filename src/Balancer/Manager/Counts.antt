-- ===== src/Balancer/Manager/Counts.antt =====
-- balancer.go, connManager: how many connections there are for each host and port.
use httplb.Prelude.{
  ℕ, zero, suc, ◌≤◌, ◌≡◌, refl, sym, ap, ◌∙◌, subst, inl, inr, Bool, true, false, List, [], ◌∷◌,
  ◌++◌, append-nil, append_assoc, arith, ltb, ◌==◌, if◌then◌else◌, ==→eq, Bool-cases, length, take,
  drop, keep,
}
use httplb.Balancer.Manager.{
  sync, Address, Groups, lookup, has_key, append_at, group, Plan, reconcile_known,
  reconcile_addresses,
}

-- each key once
abbrev pub IsMap {ℓ} : {A : Type ℓ} → Groups A → Type 0
IsMap [] = Unit
IsMap ((k, xs) ∷ m) = (has_key m k ≡ false) × IsMap m

abbrev pub at_host : ℕ → List Address → List Address
at_host h = keep (λ a. a.host_port == h)

pub append_at-here {ℓ} :
    {A : Type ℓ} (m : Groups A) (k' k : ℕ) (xs : List A) (a : A)
    → (k' == k) ≡ true
    → append_at ((k', xs) ∷ m) k a ≡ (k', xs ++ a ∷ []) ∷ m
unfolding append_at
append_at-here m k' k xs a e =
    ap (λ t. if t then (k', xs ++ a ∷ []) ∷ m else (k', xs) ∷ append_at m k a) e

pub append_at-there {ℓ} :
    {A : Type ℓ} (m : Groups A) (k' k : ℕ) (xs : List A) (a : A)
    → (k' == k) ≡ false
    → append_at ((k', xs) ∷ m) k a ≡ (k', xs) ∷ append_at m k a
unfolding append_at
append_at-there m k' k xs a e =
    ap (λ t. if t then (k', xs ++ a ∷ []) ∷ m else (k', xs) ∷ append_at m k a) e

abbrev just_at {ℓ} : {A : Type ℓ} → ℕ → ℕ → A → List A
just_at k h a = if k == h then a ∷ [] else []

lookup_here {ℓ} :
    {A : Type ℓ} (k' k h : ℕ) (xs ys : List A) (a : A)
    → (k' == k) ≡ true
    → (if k' == h then xs ++ a ∷ [] else ys) ≡ (if k' == h then xs else ys) ++ just_at k h a
lookup_here k' k h xs ys a e =
    let same : (k == h) ≡ (k' == h) = ap (λ t. t == h) (sym (==→eq k' k e)) in
    elim (k' == h)
      as (λ t.
        (if t then xs ++ a ∷ [] else ys) ≡ (if t then xs else ys) ++ (if t then a ∷ [] else [])) [
          | true ↦ refl
          | false ↦ sym (append-nil ys)
        ]
    ∙ ap (λ t. (if k' == h then xs else ys) ++ (if t then a ∷ [] else [])) (sym same)

lookup_there {ℓ} :
    {A : Type ℓ} (k' k h : ℕ) (xs ys : List A) (a : A)
    → (k' == k) ≡ false
    → (if k' == h then xs else ys ++ just_at k h a) ≡ (if k' == h then xs else ys) ++ just_at k h a
lookup_there k' k h xs ys a e = elim (Bool-cases (k' == h)) [
  | inl q ↦
      let other : (k == h) ≡ false = ground (arith, e, q) in
      ap (λ t. if t then xs else ys ++ just_at k h a) q
      ∙ sym (append-nil xs)
      ∙ ap (λ t. xs ++ (if t then a ∷ [] else [])) (sym other)
      ∙ ap (λ t. (if t then xs else ys) ++ just_at k h a) (sym q)
  | inr q ↦
      ap (λ t. if t then xs else ys ++ just_at k h a) q
      ∙ ap (λ t. (if t then xs else ys) ++ just_at k h a) (sym q)
]

just_at_keep {ℓ} :
    {A : Type ℓ} (t : Bool) (a : A) (rest : List A)
    → (if t then a ∷ [] else []) ++ rest ≡ (if t then a ∷ rest else rest)
just_at_keep true a rest = refl
just_at_keep false a rest = refl

lookup-append_at {ℓ} :
    {A : Type ℓ} (m : Groups A) (k h : ℕ) (a : A)
    → lookup (append_at m k a) h ≡ lookup m h ++ just_at k h a
unfolding append_at
lookup-append_at [] k h a = refl
lookup-append_at ((k', xs) ∷ m) k h a = elim (Bool-cases (k' == k)) [
  | inl e ↦
      ap (λ t. lookup t h) (append_at-here m k' k xs a e) ∙ lookup_here k' k h xs (lookup m h) a e
  | inr e ↦
      ap (λ t. lookup t h) (append_at-there m k' k xs a e)
      ∙ ap (λ t. if k' == h then xs else t) (lookup-append_at m k h a)
      ∙ lookup_there k' k h xs (lookup m h) a e
]

pub lookup-group {ℓ} :
    {A : Type ℓ} (key : A → ℕ) (items : List A) (m : Groups A) (h : ℕ)
    → lookup (group key items m) h ≡ lookup m h ++ keep (λ a. key a == h) items
unfolding group
lookup-group key [] m h = sym (append-nil _)
lookup-group key (a ∷ items) m h =
    lookup-group key items (append_at m (key a) a) h
    ∙ ap (λ t. t ++ keep (λ b. key b == h) items) (lookup-append_at m (key a) h a)
    ∙ append_assoc (lookup m h) (just_at (key a) h a) (keep (λ b. key b == h) items)
    ∙ ap (λ t. lookup m h ++ t) (just_at_keep (key a == h) a (keep (λ b. key b == h) items))

take_nil : (n : ℕ) → take {A = ℕ} n [] ≡ []
take_nil zero = refl
take_nil (suc n) = refl

take_all : (n : ℕ) (xs : List ℕ) → length xs ≤ n → take n xs ≡ xs
take_all zero [] h = refl
take_all zero (x ∷ xs) h = absurd (omega arith)
take_all (suc n) [] h = refl
take_all (suc n) (x ∷ xs) h = ap (λ t. x ∷ t) (take_all n xs (omega arith))

drop_all {ℓ} : {A : Type ℓ} (n : ℕ) (xs : List A) → length xs ≤ n → drop n xs ≡ []
drop_all zero [] h = refl
drop_all zero (x ∷ xs) h = absurd (omega arith)
drop_all (suc n) [] h = refl
drop_all (suc n) (x ∷ xs) h = drop_all n xs (omega arith)

-- both branches of the first loop, in one form
abbrev Uniform : Groups Address → ℕ → List ℕ → Groups ℕ → Plan → Type 0
Uniform desired k got m p =
    (p.remaining
      ≡ (k, take (length (lookup desired k)) got) ∷ (reconcile_known desired m).remaining)
    × (p.new_addrs ≡ drop (length got) (lookup desired k) ++ (reconcile_known desired m).new_addrs)
    × (p.to_remove ≡ drop (length (lookup desired k)) got ++ (reconcile_known desired m).to_remove)

abbrev more_plan : ℕ → List ℕ → List Address → Plan → Plan
more_plan k got want p = record {
  remaining = (k, got) ∷ p.remaining;
  new_addrs = drop (length got) want ++ p.new_addrs;
  to_remove = p.to_remove;
  synced = sync got want ++ p.synced;
}

abbrev fewer_plan : ℕ → List ℕ → List Address → Plan → Plan
fewer_plan k got want p = record {
  remaining = (k, take (length want) got) ∷ p.remaining;
  new_addrs = p.new_addrs;
  to_remove = drop (length want) got ++ p.to_remove;
  synced = sync got want ++ p.synced;
}

pub reconcile_known-Uniform :
    (desired : Groups Address) (k : ℕ) (got : List ℕ) (m : Groups ℕ)
    → Uniform desired k got m (reconcile_known desired ((k, got) ∷ m))
unfolding reconcile_known
reconcile_known-Uniform desired k got m =
    let want = lookup desired k in
    let p = reconcile_known desired m in
    elim (Bool-cases (ltb (length got) (length want))) [
      | inl e ↦
          subst (Uniform desired k got m)
            (sym (ap (λ t. if t then more_plan k got want p else fewer_plan k got want p) e))
            (
              ap (λ t. (k, t) ∷ p.remaining) (sym (take_all (length want) got (ground (arith, e)))),
              refl,
              ap (λ t. t ++ p.to_remove) (sym (drop_all (length want) got (ground (arith, e)))),
            )
      | inr e ↦
          subst (Uniform desired k got m)
            (sym (ap (λ t. if t then more_plan k got want p else fewer_plan k got want p) e))
            (
              refl,
              ap (λ t. t ++ p.new_addrs) (sym (drop_all (length got) want (ground (arith, e)))),
              refl,
            )
    ]

lookup-remaining_nil :
    (desired : Groups Address) (h : ℕ)
    → lookup (reconcile_known desired []).remaining h ≡ take (length (lookup desired h)) []
unfolding reconcile_known
lookup-remaining_nil desired h = sym (take_nil (length (lookup desired h)))

lookup-remaining :
    (desired : Groups Address) (m : Groups ℕ) (h : ℕ)
    → lookup (reconcile_known desired m).remaining h ≡ take (length (lookup desired h)) (lookup m h)
lookup-remaining desired [] h = lookup-remaining_nil desired h
lookup-remaining desired ((k, got) ∷ m) h =
    ap (λ t. lookup t h) (reconcile_known-Uniform desired k got m).0 ∙ elim (Bool-cases (k == h)) [
      | inl e ↦
          ap
            (λ t.
              if t
              then take (length (lookup desired k)) got
              else lookup (reconcile_known desired m).remaining h)
            e
          ∙ ap (λ j. take (length (lookup desired j)) got) (==→eq k h e)
          ∙ ap (λ t. take (length (lookup desired h)) (if t then got else lookup m h)) (sym e)
      | inr e ↦
          ap
            (λ t.
              if t
              then take (length (lookup desired k)) got
              else lookup (reconcile_known desired m).remaining h)
            e
          ∙ lookup-remaining desired m h
          ∙ ap (λ t. take (length (lookup desired h)) (if t then got else lookup m h)) (sym e)
    ]

-- The connections that stay for a host and port are the first of those it has, as many as it has addresses.
pub reconcile_keeps :
    (addrs : List Address) (conns_by_addr : Groups ℕ) (h : ℕ)
    → lookup (reconcile_addresses addrs conns_by_addr).remaining h
      ≡ take (length (at_host h addrs)) (lookup conns_by_addr h)
unfolding reconcile_addresses
reconcile_keeps addrs conns_by_addr h =
    lookup-remaining (group (λ a. a.host_port) addrs []) conns_by_addr h
    ∙ ap (λ t. take (length t) (lookup conns_by_addr h))
        (lookup-group (λ a. a.host_port) addrs [] h)
