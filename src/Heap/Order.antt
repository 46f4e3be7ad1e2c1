-- ===== src/Heap/Order.antt =====
-- Go's `container/heap`: the heap order.
use httplb.Prelude.{ℕ, zero, suc, ◌≤◌, ◌<◌, ◌≡◌, ◌≢◌, refl, ◌∙◌, arith}
use httplb.Heap.{HeapInterface, HeapLaws, parent, Swapped, same, swapped}

module _ {S : Type 0} (h : HeapInterface S) (l : HeapLaws h) where
  open h use {len}
  open l use {key, IsValid}

  -- every edge whose upper end is at `lo` or later, and not `i`, and whose lower end is not `i`
  abbrev pub OrderedBut : ℕ → S → ℕ → Type 0
  OrderedBut lo s i =
      (c : ℕ)
      → 0 < c
      → c < len s
      → lo ≤ parent c
      → c ≢ i
      → parent c ≢ i
      → key s (parent c) ≤ key s c

  -- the children of `i` are in order with the parent of `i`
  abbrev pub Bridged : ℕ → S → ℕ → Type 0
  Bridged lo s i =
      (c : ℕ)
      → 0 < c
      → c < len s
      → parent c ≡ i
      → 0 < i
      → lo ≤ parent i
      → key s (parent i) ≤ key s c

  -- the children of `i` are in order with `i`
  abbrev pub OrderedBelow : S → ℕ → Type 0
  OrderedBelow s i = (c : ℕ) → 0 < c → c < len s → parent c ≡ i → key s i ≤ key s c

  -- `i` is in order with its parent
  abbrev pub OrderedAbove : ℕ → S → ℕ → Type 0
  OrderedAbove lo s i = 0 < i → i < len s → lo ≤ parent i → key s (parent i) ≤ key s i

  -- the entry at `i` may be out of order, in either direction
  pub record Loose (lo : ℕ) (s : S) (i : ℕ) : Type 0 where
    pub valid : IsValid s
    pub others : OrderedBut lo s i
    pub bridged : Bridged lo s i

  abbrev pub IsHeapFrom : ℕ → S → Type 0
  IsHeapFrom lo s = (c : ℕ) → 0 < c → c < len s → lo ≤ parent c → key s (parent c) ≤ key s c

  -- No entry is less than its parent.
  abbrev pub IsHeap : S → Type 0
  IsHeap s = (c : ℕ) → 0 < c → c < len s → key s (parent c) ≤ key s c

  -- `t` is in order from `lo`, and comes from `s` by swaps
  pub record Sifted (lo : ℕ) (s t : S) : Type 0 where
    pub valid : IsValid t
    pub heap : IsHeapFrom lo t
    pub by_swaps : Swapped h s t

  root_least_below : (k : ℕ) (s : S) (i : ℕ) → IsHeap s → i < k → i < len s → key s 0 ≤ key s i
  root_least_below zero s i o f p = absurd (omega arith)
  root_least_below (suc k) s i o f p = ground (arith, o i, root_least_below k s (parent i) o)

  -- The root of a heap has the least key.
  pub root_least : (s : S) (i : ℕ) → IsHeap s → i < len s → key s 0 ≤ key s i
  root_least s i o p = root_least_below (suc i) s i o (omega arith) p

-- `swaps` compose
pub Swapped-trans :
    {S : Type 0} (h : HeapInterface S) {s t u : S} → Swapped h s t → Swapped h t u → Swapped h s u
Swapped-trans h p same = p
Swapped-trans h p (swapped q i j hi hj) = swapped (Swapped-trans h p q) i j hi hj

pub Swapped-IsValid :
    {S : Type 0} (h : HeapInterface S) (l : HeapLaws h) {s t : S}
    → l.IsValid s
    → Swapped h s t
    → l.IsValid t × (h.len t ≡ h.len s)
Swapped-IsValid h l v same = (v, refl)
Swapped-IsValid h l v (swapped {t = t} p i j hi hj) =
    let (w, e) = Swapped-IsValid h l v p in
    (l.swap-IsValid t i j w hi hj, l.len-swap t i j w hi hj ∙ e)
