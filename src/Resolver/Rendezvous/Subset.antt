-- ===== src/Resolver/Rendezvous/Subset.antt =====
-- resolver/rendezvous.go, computeSubset: what is selected.
use httplb.Prelude.{
  ℕ, zero, suc, ◌+◌, ◌≤◌, ◌<◌, ◌≡◌, refl, sym, ap, ◌∙◌, subst, inl, inr, true, false, if_cases,
  Option, none, some, List, [], ◌∷◌, ◌++◌, map, arith, leb, if◌then◌else◌, Bool-cases, length,
  get_or, take, drop, All, take-append-drop, length-take, length-map, All-map,
}
use httplb.Prelude.Int.{ℤ, pos, negsuc, eq_ℤ}
use httplb.Prelude.Sums.{sum_by}
use httplb.Heap.Order.{root_least, Swapped-IsValid}
use httplb.Heap.Restore.{init-Sifted}
use httplb.Picker.RoundRobin.{occurrences}
use httplb.Resolver.Rendezvous.{
  Hash32, RendezvousConfig, Subsetter, Created, failed, created, rendezvous_hash_subsetter,
  make_subsetter, num_backends_must_be_set, random_failed, rank_of, on_resolve_subset, AddressHeap,
  ops, new_address_heap, select, top_k, compute_subset,
}
use httplb.Resolver.Rendezvous.Laws.{key, IsRanked, laws, Swapped-occurrences}
use httplb.Resolver.Rendezvous.Loop.{Top, select-Kept}

All-of_get :
    (P : ℕ → Type 0) (xs : List ℕ) → ((i : ℕ) → i < length xs → P (get_or xs i 0)) → All P xs
All-of_get P [] f = tt
All-of_get P (x ∷ xs) f = (f 0 (omega arith), All-of_get P xs (λ i p. f (suc i) (omega arith)))

get_or-map :
    (f : ℕ → ℕ) (xs : List ℕ) (i : ℕ) → i < length xs → get_or (map f xs) i 0 ≡ f (get_or xs i 0)
get_or-map f [] i p = absurd (omega arith)
get_or-map f (x ∷ xs) zero p = refl
get_or-map f (x ∷ xs) (suc i) p = get_or-map f xs i (omega arith)

occurrences-append :
    (a : ℕ) (xs ys : List ℕ) → occurrences a (xs ++ ys) ≡ occurrences a xs + occurrences a ys
unfolding sum_by
occurrences-append a [] ys = omega arith
occurrences-append a (x ∷ xs) ys = omega (arith, occurrences-append a xs ys)

add_nothing : (a : ℕ) (xs : List ℕ) → occurrences a xs + occurrences a [] ≡ occurrences a xs
unfolding sum_by
add_nothing a xs = omega arith

split :
    (a k : ℕ) (xs : List ℕ)
    → (occurrences a (take k xs) + occurrences a []) + occurrences a (drop k xs) ≡ occurrences a xs
unfolding sum_by
split a k xs = omega (
  arith,
  occurrences-append a (take k xs) (drop k xs),
  ap (occurrences a) (take-append-drop k xs),
)

module _ (rank : ℕ → ℕ) where
  -- What is selected of the addresses, with those that are left out.
  pub record Selected (k : ℕ) (addrs result : List ℕ) : Type 0 where
    pub left : List ℕ
    pub size : length result ≡ (if leb (length addrs) k then length addrs else k)
    pub all_there : (a : ℕ) → occurrences a result + occurrences a left ≡ occurrences a addrs
    pub highest : All (λ x. All (λ y. rank x ≤ rank y) result) left

  new_address_heap-Top :
      (addrs : List ℕ)
      → Top rank (new_address_heap rank addrs) []
        × (length (new_address_heap rank addrs).addrs ≡ length addrs)
        × ((a : ℕ) → occurrences a (new_address_heap rank addrs).addrs ≡ occurrences a addrs)
  unfolding new_address_heap
  new_address_heap-Top addrs =
      let h : AddressHeap = record { addrs = addrs; ranks = map rank addrs } in
      let v : IsRanked rank h = record {
        sizes = length-map addrs rank;
        ranked = λ i p. get_or-map rank addrs i p;
      } in
      let s = init-Sifted ops (laws rank) h v in
      (
        record { ranked = s.valid; heap = λ c a q. s.heap c a q (omega arith); bound = tt },
        (Swapped-IsValid ops (laws rank) v s.by_swaps).1,
        λ a. Swapped-occurrences rank a v s.by_swaps,
      )

  Top-highest :
      (h : AddressHeap) (left : List ℕ)
      → Top rank h left
      → All (λ x. All (λ y. rank x ≤ rank y) h.addrs) left
  Top-highest h left t =
      All-map (λ x. rank x ≤ key h 0) _ left
        (λ x p.
          All-of_get (λ y. rank x ≤ rank y) h.addrs
            (λ i q. omega (arith, p, root_least ops (laws rank) h i t.heap q, t.ranked.ranked i q)))
        t.bound

  module _ (k : ℕ) (addrs : List ℕ) where
    abbrev selection : AddressHeap
    selection = select rank (new_address_heap rank (take k addrs)) (drop k addrs)

    top_k_few : leb (length addrs) k ≡ true → top_k rank k addrs ≡ addrs
    unfolding top_k
    top_k_few e = ap (λ t. if t then addrs else selection.addrs) e

    top_k_many : leb (length addrs) k ≡ false → top_k rank k addrs ≡ selection.addrs
    unfolding top_k
    top_k_many e = ap (λ t. if t then addrs else selection.addrs) e

  -- Of the addresses, k are selected, or all if there are no more: none is invented or taken twice, and none that is left out has a higher rank than one that is selected.
  pub top_k_correct : (k : ℕ) (addrs : List ℕ) → 0 < k → Selected k addrs (top_k rank k addrs)
  top_k_correct k addrs p = elim (Bool-cases (leb (length addrs) k)) [
    | inl e ↦ subst (Selected k addrs) (sym (top_k_few k addrs e)) (record {
      left = [];
      size = sym (ap (λ t. if t then length addrs else k) e);
      all_there = λ a. add_nothing a addrs;
      highest = tt;
    })
    | inr e ↦
        let (top, size, count) = new_address_heap-Top (take k addrs) in
        let more : k < length addrs = ground (arith, e) in
        let first : length (take k addrs) ≡ k = omega (arith, length-take k addrs) in
        let (left, kept) =
          select-Kept rank (drop k addrs) _ [] top (omega (arith, size, first, p)) in
        subst (Selected k addrs) (sym (top_k_many k addrs e)) (record {
          left = left;
          size = kept.size ∙ size ∙ first ∙ sym (ap (λ t. if t then length addrs else k) e);
          all_there = λ a.
              kept.count a
              ∙ ap (λ n. (n + occurrences a []) + occurrences a (drop k addrs)) (count a)
              ∙ split a k addrs;
          highest = Top-highest (selection k addrs) left kept.top;
        })
  ]

-- a subsetter that could be made knows how many it is to select, and was asked for some number but 0
abbrev Asked : ℤ → Created → Type 0
Asked n (failed e) = Unit
Asked n (created s) = (s.k ≡ n) × (eq_ℤ n (pos 0) ≡ false)

make_subsetter-Asked :
    (murmur : Hash32) (options : RendezvousConfig) (key : List ℕ)
    → Asked options.num_backends (make_subsetter murmur options key)
unfolding make_subsetter
make_subsetter-Asked murmur options key =
    if_cases (Asked options.num_backends) (eq_ℤ options.num_backends (pos 0))
      (failed num_backends_must_be_set)
      (created (record {
        key = key;
        k = options.num_backends;
        hash = elim options.hash [ none ↦ murmur | some hash ↦ hash ];
      }))
      (λ e. tt) (λ e. (refl, e))

subsetter-Asked :
    (murmur : Hash32) (random_key : Option (List ℕ)) (options : RendezvousConfig)
    → Asked options.num_backends (rendezvous_hash_subsetter murmur random_key options)
unfolding rendezvous_hash_subsetter
subsetter-Asked murmur random_key options =
    elim options.selection_key
      as (λ key. Asked options.num_backends (elim key [
        | [] ↦ elim random_key [
          | none ↦ failed random_failed
          | some key ↦ make_subsetter murmur options key
        ]
        | b ∷ bs ↦ make_subsetter murmur options (b ∷ bs)
      ])) [
        | [] ↦
            elim random_key
              as (λ r. Asked options.num_backends (elim r [
                | none ↦ failed random_failed
                | some key ↦ make_subsetter murmur options key
              ])) [ none ↦ tt | some key ↦ make_subsetter-Asked murmur options key ]
        | b ∷ bs ↦ make_subsetter-Asked murmur options (b ∷ bs)
      ]

-- What is passed on if `n` addresses are asked for: a selection, or nothing, as for a negative `n`.
abbrev pub PassedOn : (ℕ → ℕ) → ℤ → List ℕ → Option (List ℕ) → Type 0
PassedOn rank (pos n) addrs o =
    (0 < n) × (result : List ℕ) × (o ≡ some result) × Selected rank n addrs result
PassedOn rank (negsuc n) addrs o = o ≡ none

compute_subset-PassedOn :
    (rank : ℕ → ℕ) (n : ℤ) (addrs : List ℕ)
    → eq_ℤ n (pos 0) ≡ false
    → PassedOn rank n addrs (compute_subset rank n addrs)
unfolding compute_subset
compute_subset-PassedOn rank (pos n) addrs e =
    let some_n : 0 < n = ground (arith, e) in
    (some_n, top_k rank n addrs, refl, top_k_correct rank n addrs some_n)
compute_subset-PassedOn rank (negsuc n) addrs e = refl

-- Whatever resolver a subsetter could be made with, the number of addresses asked for is not 0. If it is positive, then of all addresses that it is given it passes on as many as were asked for, or all if there are no more: none is invented or taken twice, and none that is left out has a higher rank by the hash of the key and its host and port than one that is passed on. If it is negative, then it panics, whatever it is given.
pub on_resolve_subset_correct :
    (murmur : Hash32) (random_key : Option (List ℕ)) (options : RendezvousConfig) (s : Subsetter)
    (host_port : ℕ → List ℕ) (addrs : List ℕ)
    → rendezvous_hash_subsetter murmur random_key options ≡ created s
    → PassedOn
        (λ a. rank_of s.hash s.key (host_port a))
        options.num_backends
        addrs
        (on_resolve_subset s host_port addrs)
unfolding on_resolve_subset
on_resolve_subset_correct murmur random_key options s host_port addrs e =
    let rank : ℕ → ℕ = λ a. rank_of s.hash s.key (host_port a) in
    let (same, some_k) =
      subst (Asked options.num_backends) e (subsetter-Asked murmur random_key options) in
    subst (λ k. PassedOn rank options.num_backends addrs (compute_subset rank k addrs)) (sym same)
      (compute_subset-PassedOn rank options.num_backends addrs some_k)
