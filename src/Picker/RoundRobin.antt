-- ===== src/Picker/RoundRobin.antt =====
-- picker/roundrobin.go, picker/random.go and ErrorPicker of picker/picker.go. A connection is known by
-- its identity. What math/rand/v2 draws is an argument.
use httplb.Prelude.{
  two_64, ℕ, zero, suc, ◌+◌, ◌-◌, ◌*◌, ◌%◌, ◌≤◌, ◌<◌, ◌≡◌, refl, sym, ap, ap₂, ◌∙◌, subst, ◌⊎◌, inl,
  inr, false, Option, none, some, List, [], ◌∷◌, map, arith, ◌==◌, if◌then◌else◌, length, get_elem?,
  get_or, set, take, drop, All, length-set, get_or-set,
}
use httplb.Prelude.Sums.{sum_by, sum_by-set}

-- roundRobin; `counter` is the bit pattern of an int64
pub record RoundRobin : Type 0 where
  pub conns : List ℕ
  pub counter : ℕ

-- the function that `rand.Shuffle` calls to swap two elements
abbrev pub swap_at : List ℕ → ℕ × ℕ → List ℕ
swap_at xs (i, j) = set (set xs i (get_or xs j 0)) j (get_or xs i 0)

abbrev pub shuffle : List (ℕ × ℕ) → List ℕ → List ℕ
shuffle [] xs = xs
shuffle (s ∷ ss) xs = shuffle ss (swap_at xs s)

-- NewRoundRobin, with the swaps that `rand.Shuffle` makes; `counter.Store(-1)`
pub new_round_robin : List (ℕ × ℕ) → List ℕ → RoundRobin
new_round_robin swaps all_conns = record { conns = shuffle swaps all_conns; counter = two_64 - 1 }

-- Pick; `none` is the panic of a division by zero when there are no connections
pub pick : RoundRobin → Option ℕ × RoundRobin
pick r =
    let counter = (r.counter + 1) % two_64 in
    (
      if length r.conns == 0 then none else get_elem? r.conns (counter % length r.conns),
      record r { counter = counter },
    )

-- the results of `m` calls of Pick in a row
pub picks : ℕ → RoundRobin → List (Option ℕ)
picks zero r = []
picks (suc m) r = (pick r).0 ∷ picks m (pick r).1

-- NewRandom's Pick; `n` is what `rand.IntN(Len())` returns
pub random_pick : List ℕ → ℕ → Option ℕ
random_pick conns n = if length conns == 0 then none else get_elem? conns n

pick-drop :
    (xs : List ℕ) (i m : ℕ)
    → i < length xs
    → map some (take (suc m) (drop i xs)) ≡ get_elem? xs i ∷ map some (take m (drop (suc i) xs))
pick-drop [] i m h = absurd (omega arith)
pick-drop (x ∷ xs) zero m h = refl
pick-drop (x ∷ xs) (suc i) m h = pick-drop xs i m (omega arith)

below-round : (k n i : ℕ) → i < n → (k * n + i) % n ≡ i
below-round k n i h = grind arith

pick_at :
    (k i : ℕ) (r : RoundRobin)
    → (r.counter + 1) % two_64 ≡ k * length r.conns + i
    → i < length r.conns
    → (pick r).0 ≡ get_elem? r.conns i
unfolding pick
pick_at k i r e p =
    let some_conn : (length r.conns == 0) ≡ false = ground arith in
    rw (e, some_conn) (ap (get_elem? r.conns) (below-round k (length r.conns) i p))

picks_round :
    (m k i : ℕ) (r : RoundRobin)
    → (r.counter + 1) % two_64 ≡ k * length r.conns + i
    → i + m ≤ length r.conns
    → k * length r.conns + length r.conns ≤ two_64
    → picks m r ≡ map some (take m (drop i r.conns))
unfolding picks pick
picks_round zero k i r e p q = refl
picks_round (suc m) k i r e p q =
    let n = length r.conns in
    let first : (pick r).0 ≡ get_elem? r.conns i = pick_at k i r e (omega arith) in
    let counted : (pick r).1.counter ≡ k * n + i = e in
    let last : (m ≡ 0) ⊎ (0 < m) = omega arith in
    elim last [
      | inl finished ↦
          rw finished (ap (λ x. x ∷ []) first ∙ sym (pick-drop r.conns i 0 (omega arith)))
      | inr more ↦
          let next : ((pick r).1.counter + 1) % two_64 ≡ k * n + suc i = rw e (omega arith) in
          ap₂ ◌∷◌ first (picks_round m k (suc i) (pick r).1 next (omega arith) q)
          ∙ sym (pick-drop r.conns i m (omega arith))
    ]

drop-zero : (xs : List ℕ) → take (length xs) xs ≡ xs
drop-zero [] = refl
drop-zero (x ∷ xs) = ap (◌∷◌ x) (drop-zero xs)

-- Where the counter is about to be a multiple of the number n of connections, and does not wrap before
-- the next multiple, the next n picks take each place of the slice once, in order.
pub picks_in_order :
    (k : ℕ) (r : RoundRobin)
    → (r.counter + 1) % two_64 ≡ k * length r.conns
    → k * length r.conns + length r.conns ≤ two_64
    → picks (length r.conns) r ≡ map some r.conns
picks_in_order k r e q =
    picks_round (length r.conns) k 0 r (omega (arith, e)) (omega arith) q
    ∙ ap (map some) (drop-zero r.conns)

abbrev pub hit : ℕ → ℕ → ℕ
hit a x = if x == a then 1 else 0

-- how often `a` occurs
abbrev pub occurrences : ℕ → List ℕ → ℕ
occurrences a = sum_by (hit a)

-- both places of a swap are in the list
abbrev pub InRange : ℕ → ℕ × ℕ → Type 0
InRange n (i, j) = (i < n) × (j < n)

pub get_elem?-get_or : (xs : List ℕ) (i : ℕ) → i < length xs → get_elem? xs i ≡ some (get_or xs i 0)
get_elem?-get_or [] i h = absurd (omega arith)
get_elem?-get_or (x ∷ xs) zero h = refl
get_elem?-get_or (x ∷ xs) (suc i) h = get_elem?-get_or xs i (omega arith)

pub swap_at-occurrences :
    (a : ℕ) (xs : List ℕ) (s : ℕ × ℕ)
    → InRange (length xs) s
    → (occurrences a (swap_at xs s) ≡ occurrences a xs) × (length (swap_at xs s) ≡ length xs)
swap_at-occurrences a xs (i, j) (p, q) =
    let x = get_or xs i 0 in
    let y = get_or xs j 0 in
    let ys = set xs i y in
    let size = length-set xs i y in
    let first = sum_by-set (hit a) xs i x y (get_elem?-get_or xs i p) in
    let at_j : get_or ys j 0 ≡ y = ground (arith, get_or-set xs i j y 0) in
    let second = sum_by-set (hit a) ys j y x (get_elem?-get_or ys j (omega arith) ∙ ap some at_j) in
    (omega arith, length-set ys j x ∙ size)

shuffle-occurrences :
    (a : ℕ) (ss : List (ℕ × ℕ)) (xs : List ℕ)
    → All (InRange (length xs)) ss
    → (occurrences a (shuffle ss xs) ≡ occurrences a xs) × (length (shuffle ss xs) ≡ length xs)
shuffle-occurrences a [] xs h = (refl, refl)
shuffle-occurrences a (s ∷ ss) xs h =
    let (same, size) = swap_at-occurrences a xs s h.0 in
    let rest =
      shuffle-occurrences a ss (swap_at xs s) (subst (λ n. All (InRange n) ss) (sym size) h.1) in
    (rest.0 ∙ same, rest.1 ∙ size)

-- The first n picks of a new picker, n being the number of connections, take each connection as often
-- as it was given, whatever the shuffle.
pub first_round :
    (swaps : List (ℕ × ℕ)) (all_conns : List ℕ) (a : ℕ)
    → All (InRange (length all_conns)) swaps
    → length all_conns ≤ two_64
    → (taken : List ℕ) × (picks (length all_conns) (new_round_robin swaps all_conns)
        ≡ map some taken)
      × (occurrences a taken ≡ occurrences a all_conns)
unfolding new_round_robin
first_round swaps all_conns a h small =
    let (same, size) = shuffle-occurrences a swaps all_conns h in
    let r = new_round_robin swaps all_conns in
    (r.conns, ap (λ n. picks n r) (sym size) ∙ picks_in_order 0 r (omega arith) (omega arith), same)
