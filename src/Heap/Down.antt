-- ===== src/Heap/Down.antt =====
-- Go's `container/heap`: `down`.
use httplb.Prelude.{
  ℕ, zero, suc, ◌+◌, ◌*◌, ◌≤◌, ◌<◌, ◌≡◌, ◌⊎◌, inl, inr, refl, arith, ltb, Bool-cases, ltb→lt,
  ltb→le, sym, subst, ◌∙◌, le_trans, dec_lt,
}
use httplb.Heap.{
  HeapInterface, HeapLaws, parent, Swapped, same, swapped, smaller_child, down_loop, down,
}
use httplb.Heap.Order.{Loose, OrderedBelow, OrderedAbove, IsHeapFrom, Swapped-trans}

module _ {S : Type 0} (h : HeapInterface S) (l : HeapLaws h) where
  open h use {len, less, swap}
  open l use {key, IsValid, less_key, swap-IsValid, len-swap, key-swap}

  -- `m` is the child of `i` with the lesser key
  record IsLesserChild (s : S) (i m : ℕ) : Type 0 where
    inside : m < len s
    child : (m ≡ 2 * i + 1) ⊎ (m ≡ 2 * i + 2)
    least : (c : ℕ) → 0 < c → c < len s → parent c ≡ i → key s m ≤ key s c

  smaller_child-IsLesserChild :
      (s : S) (i n : ℕ)
      → IsValid s
      → n ≡ len s
      → 2 * i + 1 < n
      → IsLesserChild s i (smaller_child h s i n)
  unfolding smaller_child
  smaller_child-IsLesserChild s i n v e p = grind (arith, less_key s (2 * i + 1 + 1) (2 * i + 1) v)

  -- after a swap with the lesser child only the edges below the child may be out of order
  sink-Loose :
      (lo : ℕ) (s : S) (i m : ℕ)
      → Loose h l lo s i
      → IsLesserChild s i m
      → key s m < key s i
      → Loose h l lo (swap s i m) m × OrderedAbove h l lo (swap s i m) m
  sink-Loose lo s i m v c below =
      let size = len-swap s i m v.valid (omega (arith, c.inside)) c.inside in
      let at = λ (x : ℕ). key-swap s i m x v.valid (omega (arith, c.inside)) c.inside in
      (
        record {
          valid = swap-IsValid s i m v.valid (omega arith) c.inside;
          others = λ x p q r t u.
              ground (arith, at x, at (parent x), v.others x, v.bridged m, v.bridged x, c.least x);
          bridged = λ x p q r t u. ground (arith, at x, at (parent m), v.others x);
        },
        λ p q r. ground (arith, at m, at (parent m)),
      )

  pub settled :
      (lo : ℕ) (s : S) (i : ℕ)
      → Loose h l lo s i
      → OrderedBelow h l s i
      → OrderedAbove h l lo s i
      → IsHeapFrom h l lo s
  settled lo s i v below above = λ c p q r. grind (arith, v.others c, below c)

  -- how `down` from `i` ends, in state `t` at `j`
  pub record Sunk (lo : ℕ) (s : S) (i : ℕ) (t : S) (j : ℕ) : Type 0 where
    pub valid : IsValid t
    pub by_swaps : Swapped h s t
    pub onward : i ≤ j
    pub moved : i < j → IsHeapFrom h l lo t
    pub stayed : j ≡ i → (t ≡ s) × OrderedBelow h l s i

  resting : (lo : ℕ) (s : S) (i : ℕ) → Loose h l lo s i → OrderedBelow h l s i → Sunk lo s i s i
  resting lo s i v below = record {
    valid = v.valid;
    by_swaps = same;
    onward = omega arith;
    moved = λ p. absurd (omega arith);
    stayed = λ _. (refl, below);
  }

  -- one swap, and then the rest of the loop
  sinking :
      (lo : ℕ) (s : S) (i m : ℕ) (t : S) (j : ℕ)
      → Loose h l lo s i
      → IsLesserChild s i m
      → key s m < key s i
      → Sunk lo (swap s i m) m t j
      → Sunk lo s i t j
  sinking lo s i m t j v c below r =
      let (loose, above) = sink-Loose lo s i m v c below in
      record {
        valid = r.valid;
        by_swaps = Swapped-trans h (swapped same i m (omega (arith, c.inside)) c.inside) r.by_swaps;
        onward = omega (arith, r.onward);
        moved = λ _. elim (dec_lt m j) [
          | yes p ↦ r.moved p
          | no p ↦
              let (e, done) = r.stayed (omega (arith, r.onward)) in
              subst (λ u. IsHeapFrom h l lo u) (sym e) (settled lo (swap s i m) m loose done above)
        ];
        stayed = λ e. absurd (omega (arith, r.onward));
      }

  down_loop-Sunk :
      (k lo : ℕ) (s : S) (i n : ℕ)
      → n ≡ len s
      → n < k + i
      → Loose h l lo s i
      → Sunk lo s i (down_loop h k s i n).0 (down_loop h k s i n).1
  unfolding down_loop
  down_loop-Sunk zero lo s i n e f v = resting lo s i v (λ c p q r. absurd (omega arith))
  down_loop-Sunk (suc k) lo s i n e f v = elim (Bool-cases (ltb (2 * i + 1) n)) [
    | inr leaf ↦ rw leaf (resting lo s i v (λ c p q r. absurd (ground arith)))
    | inl inner ↦
        let m = smaller_child h s i n in
        let c = smaller_child-IsLesserChild s i n v.valid e (ltb→lt _ _ inner) in
        let inside : i < len s = omega (arith, c.inside) in
        let compared = less_key s m i v.valid c.inside inside in
        elim (Bool-cases (less s m i)) [
          | inr done ↦
              let order : key s i ≤ key s m = ltb→le _ _ (sym compared ∙ done) in
              rw (inner, done) (resting lo s i v (λ x p q r. le_trans order (c.least x p q r)))
          | inl more ↦
              let below = ltb→lt _ _ (sym compared ∙ more) in
              let size = len-swap s i m v.valid inside c.inside in
              rw (inner, more)
                (sinking lo s i m _ _ v c below (
                  down_loop-Sunk k lo (swap s i m) m n (omega arith) (omega (arith, c.child))
                    (sink-Loose lo s i m v c below).0))
        ]
  ]

  pub down-Sunk :
      (lo : ℕ) (s : S) (i : ℕ)
      → Loose h l lo s i
      → (j : ℕ) × Sunk lo s i (down h s i (len s)).0 j × ((down h s i (len s)).1 ≡ ltb i j)
  unfolding down
  down-Sunk lo s i v = (
    (down_loop h (suc (len s)) s i (len s)).1,
    down_loop-Sunk (suc (len s)) lo s i (len s) refl (omega arith) v,
    refl,
  )
