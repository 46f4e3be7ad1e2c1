-- ===== src/Picker/LeastLoaded/Laws.antt =====
-- picker/leastloaded.go: Len, Less and Swap meet the laws of a heap.
use httplb.Prelude.{
  two_64, ℕ, ◌+◌, ◌*◌, ◌<◌, ◌≡◌, sym, ◌∙◌, ap, arith, ltb, ◌==◌, if◌then◌else◌, length, length-set,
  get_or-set, set,
}
use httplb.Prelude.Int.{pos}
use httplb.Heap.{HeapLaws}
use httplb.Picker.LeastLoaded.{Item, ConnHeap, at, item, len, less, swap, ops}

-- Each item of the slice knows its place, and tie breaks fit a uint64.
pub record IsIndexed (h : ConnHeap) : Type 0 where
  pub placed : (i : ℕ) → i < length h.slice → (item h i).index ≡ pos i
  pub ties : (p : ℕ) → (h.items p).tie_break < two_64

-- load first, then tie break
abbrev pub rank : Item → ℕ
rank x = x.load * two_64 + x.tie_break

-- no item stands at two places of the slice
pub at-injective :
    (h : ConnHeap)
    → IsIndexed h
    → (i j : ℕ) → i < length h.slice
    → j < length h.slice
    → at h i ≡ at h j
    → i ≡ j
at-injective h v i j p q e =
    let same_item : pos i ≡ pos j =
      sym (v.placed i p) ∙ ap (λ x. (h.items x).index) e ∙ v.placed j q in
    cc

pub less_rank :
    (h : ConnHeap) (i j : ℕ)
    → IsIndexed h
    → i < len h
    → j < len h
    → less h i j ≡ ltb (rank (item h i)) (rank (item h j))
unfolding len less
less_rank h i j v p q = ground (arith, v.ties (at h i), v.ties (at h j))

module _ (h : ConnHeap) (i j : ℕ) (v : IsIndexed h) (p : i < length h.slice)
    (q : j < length h.slice) where
  pub length-swap : length (swap h i j).slice ≡ length h.slice
  unfolding swap
  length-swap = length-set (set h.slice i (at h j)) j (at h i) ∙ length-set h.slice i (at h j)

  -- the pointers after a swap
  pub at-swap :
      (c : ℕ) → at (swap h i j) c ≡ (if i == c then at h j else if j == c then at h i else at h c)
  unfolding swap
  at-swap c = ground (
    arith,
    get_or-set (set h.slice i (at h j)) j c (at h i) 0,
    length-set h.slice i (at h j),
    get_or-set h.slice i c (at h j) 0,
  )

  -- Swap changes indices alone, and those only of the two items.
  pub items-swap :
      (x : ℕ)
      → (swap h i j).items x ≡ record (h.items x) {
        index = if x == at h i then pos j else if x == at h j then pos i else (h.items x).index;
      }
  unfolding swap
  items-swap x = ground (
    arith,
    get_or-set (set h.slice i (at h j)) j i (at h i) 0,
    get_or-set (set h.slice i (at h j)) j j (at h i) 0,
    length-set h.slice i (at h j),
    get_or-set h.slice i i (at h j) 0,
    get_or-set h.slice i j (at h j) 0,
  )

  pub swap-IsIndexed : IsIndexed (swap h i j)
  swap-IsIndexed = record {
    placed = λ c r.
        let r' : c < length h.slice = rw length-swap at r in
        ground (
          arith,
          at-swap c,
          items-swap (at (swap h i j) c),
          v.placed c r',
          at-injective h v c i r' p,
          at-injective h v c j r' q,
          at-injective h v i j p q,
        );
    ties = λ x. ground (arith, items-swap x, v.ties x);
  }

  pub rank-swap :
      (c : ℕ)
      → rank (item (swap h i j) c)
        ≡ (if i == c then rank (item h j) else if j == c then rank (item h i) else rank (item h c))
  rank-swap c = ground (arith, at-swap c, items-swap (at (swap h i j) c))

abbrev pub laws : HeapLaws ops
unfolding len
laws = record {
  IsValid = IsIndexed;
  key = λ h i. rank (item h i);
  less_key = λ h i j v p q. less_rank h i j v p q;
  swap-IsValid = λ h i j v p q. swap-IsIndexed h i j v p q;
  len-swap = λ h i j v p q. length-swap h i j v p q;
  key-swap = λ h i j c v p q. rank-swap h i j v p q c;
}
