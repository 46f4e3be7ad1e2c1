-- ===== src/Heap/Restore.antt =====
-- Go's `container/heap`: Init and Fix.
use httplb.Prelude.{
  ℕ, zero, suc, ◌/◌, ◌<◌, ◌≡◌, ◌∙◌, refl, sym, subst, inl, inr, arith, ltb, Bool-cases, ltb→lt,
  ltb→le, dec_lt,
}
use httplb.Heap.{HeapInterface, HeapLaws, same, down, init_loop, init, fix}
use httplb.Heap.Order.{Loose, IsHeapFrom, Sifted, Swapped-trans, Swapped-IsValid}
use httplb.Heap.Down.{settled, down-Sunk}
use httplb.Heap.Up.{up-Sifted}

module _ {S : Type 0} (h : HeapInterface S) (l : HeapLaws h) where
  open h use {len}
  open l use {IsValid}

  -- `down` from an entry that is in order with its parent
  down-Sifted :
      (lo : ℕ) (s : S)
      → IsValid s
      → IsHeapFrom h l (suc lo) s
      → Sifted h l lo s (down h s lo (len s)).0
  down-Sifted lo s v o =
      let loose : Loose h l lo s lo = record {
        valid = v;
        others = λ c p q r t u. o c p q (omega arith);
        bridged = λ c p q r t u. absurd (omega arith);
      } in
      let (j, sunk, _) = down-Sunk h l lo s lo loose in
      record {
        valid = sunk.valid;
        by_swaps = sunk.by_swaps;
        heap = elim (dec_lt lo j) [
          | yes p ↦ sunk.moved p
          | no p ↦
              let (e, below) = sunk.stayed (omega (arith, sunk.onward)) in
              subst (λ u. IsHeapFrom h l lo u) (sym e)
                (settled h l lo s lo loose below (λ p q r. absurd (omega arith)))
        ];
      }

  init_loop-Sifted :
      (i : ℕ) (s : S) (n : ℕ)
      → n ≡ len s
      → IsValid s
      → IsHeapFrom h l i s
      → Sifted h l 0 s (init_loop h i s n)
  unfolding init_loop
  init_loop-Sifted zero s n e v o = record { valid = v; heap = o; by_swaps = same }
  init_loop-Sifted (suc i) s n e v o =
      let step : Sifted h l i s (down h s i n).0 = rw e (down-Sifted i s v o) in
      let size = (Swapped-IsValid h l v step.by_swaps).1 in
      let rest = init_loop-Sifted i (down h s i n).0 n (e ∙ sym size) step.valid step.heap in
      record {
        valid = rest.valid;
        heap = rest.heap;
        by_swaps = Swapped-trans h step.by_swaps rest.by_swaps;
      }

  -- Init orders any valid state, by swaps alone.
  pub init-Sifted : (s : S) → IsValid s → Sifted h l 0 s (init h s)
  unfolding init
  init-Sifted s v = init_loop-Sifted (len s / 2) s (len s) refl v (λ c p q r. absurd (omega arith))

  -- Fix restores the order after one entry has been given another key.
  pub fix-Sifted : (s : S) (i : ℕ) → i < len s → Loose h l 0 s i → Sifted h l 0 s (fix h s i)
  unfolding fix
  fix-Sifted s i inside v =
      let (j, sunk, e) = down-Sunk h l 0 s i v in
      elim (Bool-cases (ltb i j)) [
        | inl p ↦
            rw (e, p)
              (record {
                valid = sunk.valid;
                heap = sunk.moved (ltb→lt _ _ p);
                by_swaps = sunk.by_swaps;
              })
        | inr p ↦
            let (stay, below) = sunk.stayed (omega (arith, sunk.onward, ltb→le i j p)) in
            rw (e, p, stay) (up-Sifted h l s i inside v below)
      ]
