-- ===== src/Heap/Up.antt =====
-- Go's `container/heap`: `up`.
use httplb.Prelude.{ℕ, zero, suc, ◌<◌, ◌∙◌, sym, inl, inr, arith, ◌==◌, Bool-cases, ltb→lt, ltb→le}
use httplb.Heap.{HeapInterface, HeapLaws, parent, same, swapped, up_loop, up}
use httplb.Heap.Order.{Loose, OrderedBelow, OrderedAbove, Sifted, Swapped-trans}
use httplb.Heap.Down.{settled}

module _ {S : Type 0} (h : HeapInterface S) (l : HeapLaws h) where
  open h use {len, less, swap}
  open l use {key, IsValid, less_key, swap-IsValid, len-swap, key-swap}

  -- after a swap with the parent only the edge above the parent may be out of order
  rise-Loose :
      (s : S) (i : ℕ)
      → Loose h l 0 s i
      → OrderedBelow h l s i
      → i < len s
      → 0 < i
      → key s i < key s (parent i)
      → Loose h l 0 (swap s (parent i) i) (parent i)
        × OrderedBelow h l (swap s (parent i) i) (parent i)
  rise-Loose s i v below inside pos above =
      let size = len-swap s (parent i) i v.valid (omega arith) inside in
      let at = λ (x : ℕ). key-swap s (parent i) i x v.valid (omega arith) inside in
      (
        record {
          valid = swap-IsValid s (parent i) i v.valid (omega arith) inside;
          others =
              λ x p q r t u. ground (arith, at x, at (parent x), v.others x, v.bridged x, below x);
          bridged = λ x p q r t u. ground (
            arith,
            at x,
            at (parent (parent i)),
            v.others x,
            v.others (parent i),
            below x,
            v.bridged x,
          );
        },
        λ x p q r. ground (arith, at x, at (parent i), v.others x, v.bridged x, below x),
      )

  stopped :
      (s : S) (i : ℕ)
      → Loose h l 0 s i
      → OrderedBelow h l s i
      → OrderedAbove h l 0 s i
      → Sifted h l 0 s s
  stopped s i v below above = record {
    valid = v.valid;
    heap = settled h l 0 s i v below above;
    by_swaps = same;
  }

  up_loop-Sifted :
      (k : ℕ) (s : S) (i : ℕ)
      → i < k
      → i < len s
      → Loose h l 0 s i
      → OrderedBelow h l s i
      → Sifted h l 0 s (up_loop h k s i)
  unfolding up_loop
  up_loop-Sifted zero s i f inside v below = absurd (omega arith)
  up_loop-Sifted (suc k) s i f inside v below = elim (Bool-cases (parent i == i)) [
    | inl root ↦ rw root (stopped s i v below (λ p q r. absurd (ground arith)))
    | inr child ↦
        let pos : 0 < i = ground arith in
        let compared = less_key s i (parent i) v.valid inside (omega arith) in
        elim (Bool-cases (less s i (parent i))) [
          | inr done ↦
              rw (child, done) (stopped s i v below (λ p q r. ltb→le _ _ (sym compared ∙ done)))
          | inl more ↦
              let above : key s i < key s (parent i) = ltb→lt _ _ (sym compared ∙ more) in
              let size = len-swap s (parent i) i v.valid (omega arith) inside in
              let (loose, below') = rise-Loose s i v below inside pos above in
              let ih =
                up_loop-Sifted k (swap s (parent i) i) (parent i) (omega arith) (omega arith) loose
                  below' in
              rw (child, more)
                (record {
                  valid = ih.valid;
                  heap = ih.heap;
                  by_swaps =
                      Swapped-trans h (swapped same (parent i) i (omega arith) inside) ih.by_swaps;
                })
        ]
  ]

  pub up-Sifted :
      (s : S) (i : ℕ)
      → i < len s
      → Loose h l 0 s i
      → OrderedBelow h l s i
      → Sifted h l 0 s (up h s i)
  unfolding up
  up-Sifted s i inside v below = up_loop-Sifted (suc i) s i (omega arith) inside v below
