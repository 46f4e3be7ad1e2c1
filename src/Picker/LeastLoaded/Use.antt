-- ===== src/Picker/LeastLoaded/Use.antt =====
-- picker/leastloaded.go: acquire and release.
use httplb.Prelude.{two_64, ℕ, ◌<◌, ◌≡◌, ◌≢◌, ap, arith, length, update}
use httplb.Prelude.Int.{pos}
use httplb.Heap.{parent, fix}
use httplb.Heap.Order.{Loose, IsHeap}
use httplb.Heap.Restore.{fix-Sifted}
use httplb.Picker.LeastLoaded.{Item, ConnHeap, at, item, len, ops}
use httplb.Picker.LeastLoaded.Laws.{IsIndexed, laws, at-injective}
use httplb.Picker.LeastLoaded.Rearranged.{Rearranged, Swapped-Rearranged}

-- In the heap order of loads, and of tie breaks among equal loads.
abbrev pub IsOrdered : ConnHeap → Type 0
IsOrdered h = IsHeap ops laws h

-- what the picker keeps between two calls
pub record IsSound (h : ConnHeap) : Type 0 where
  pub indexed : IsIndexed h
  pub ordered : IsOrdered h

-- the item that `entry` points to is replaced by `x`
abbrev pub replaced : ConnHeap → ℕ → Item → ConnHeap
replaced h entry x = record h { items = update h.items entry x }

module _ (h : ConnHeap) (i : ℕ) (x : Item) (v : IsSound h) (p : i < length h.slice)
    (place : x.index ≡ pos i) (tie : x.tie_break < two_64) where
  abbrev changed : ConnHeap
  changed = replaced h (at h i) x

  changed-IsIndexed : IsIndexed changed
  changed-IsIndexed = record {
    placed = λ c q. ground (arith, v.indexed.placed c q, at-injective h v.indexed i c p q, ap pos);
    ties = λ y. ground (arith, v.indexed.ties y);
  }

  elsewhere : (c : ℕ) → c < length h.slice → c ≢ i → item changed c ≡ item h c
  elsewhere c q apart = ground (arith, at-injective h v.indexed i c p q)

  changed-Loose : Loose ops laws 0 changed i
  unfolding len
  changed-Loose = record {
    valid = changed-IsIndexed;
    others = λ c a q r s t.
        ground (arith, v.ordered c, elsewhere c q s, elsewhere (parent c) (omega arith) t);
    bridged = λ c a q e r s.
        ground (arith, v.ordered c, v.ordered i, elsewhere c q, elsewhere (parent i) (omega arith));
  }

  -- Fix at the item's own index makes the heap sound again.
  pub fix-IsSound : IsSound (fix ops changed i) × Rearranged changed (fix ops changed i)
  unfolding len
  fix-IsSound =
      let r = fix-Sifted ops laws changed i p changed-Loose in
      (
        record { indexed = r.valid; ordered = λ c a q. r.heap c a q (omega arith) },
        Swapped-Rearranged changed-IsIndexed r.by_swaps,
      )
