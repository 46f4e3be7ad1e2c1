-- ===== src/Resolver/Rendezvous/Laws.antt =====
-- resolver/rendezvous.go: Len, Less and Swap meet the laws of a heap.
use httplb.Prelude.{
  ℕ, ◌≤◌, ◌<◌, ◌≡◌, refl, sym, ◌∙◌, List, arith, ◌==◌, if◌then◌else◌, length, get_or, set,
  length-set, get_or-set,
}
use httplb.Heap.{HeapLaws, Swapped, same, swapped}
use httplb.Heap.Order.{Swapped-IsValid}
use httplb.Picker.RoundRobin.{swap_at, occurrences, swap_at-occurrences}
use httplb.Resolver.Rendezvous.{AddressHeap, swap, ops}

abbrev pub key : AddressHeap → ℕ → ℕ
key h i = get_or h.ranks i 0

pub get_or-swap_at :
    (xs : List ℕ) (i j c : ℕ)
    → i < length xs
    → j < length xs
    → get_or (swap_at xs (i, j)) c 0
      ≡ (if i == c then get_or xs j 0 else if j == c then get_or xs i 0 else get_or xs c 0)
get_or-swap_at xs i j c p q = ground (
  arith,
  get_or-set (set xs i (get_or xs j 0)) j c (get_or xs i 0) 0,
  length-set xs i (get_or xs j 0),
  get_or-set xs i c (get_or xs j 0) 0,
)

pub length-swap_at : (xs : List ℕ) (i j : ℕ) → length (swap_at xs (i, j)) ≡ length xs
length-swap_at xs i j =
    length-set (set xs i (get_or xs j 0)) j (get_or xs i 0) ∙ length-set xs i (get_or xs j 0)

module _ (rank : ℕ → ℕ) where
  -- each address has its rank beside it
  pub record IsRanked (h : AddressHeap) : Type 0 where
    pub sizes : length h.ranks ≡ length h.addrs
    pub ranked : (i : ℕ) → i < length h.addrs → get_or h.ranks i 0 ≡ rank (get_or h.addrs i 0)

  pub swap-IsRanked :
      (h : AddressHeap) (i j : ℕ)
      → IsRanked h
      → i < length h.addrs
      → j < length h.addrs
      → IsRanked (swap h i j)
  swap-IsRanked h i j v p q = record {
    sizes = length-swap_at h.ranks i j ∙ v.sizes ∙ sym (length-swap_at h.addrs i j);
    ranked = λ c r. ground (
      arith,
      get_or-swap_at h.ranks i j c (omega (arith, v.sizes)) (omega (arith, v.sizes)),
      get_or-swap_at h.addrs i j c p q,
      length-swap_at h.addrs i j,
      v.ranked i p,
      v.ranked j q,
      v.ranked c,
    );
  }

  abbrev pub laws : HeapLaws ops
  laws = record {
    IsValid = IsRanked;
    key = key;
    less_key = λ s i j v p q. refl;
    swap-IsValid = λ s i j v p q. swap-IsRanked s i j v p q;
    len-swap = λ s i j v p q. length-swap_at s.addrs i j;
    key-swap = λ s i j c v p q.
        get_or-swap_at s.ranks i j c (omega (arith, v.sizes)) (omega (arith, v.sizes));
  }

  -- swaps keep the addresses and their number
  pub Swapped-occurrences :
      {s t : AddressHeap} (a : ℕ)
      → IsRanked s
      → Swapped ops s t
      → occurrences a t.addrs ≡ occurrences a s.addrs
  Swapped-occurrences a v same = refl
  Swapped-occurrences a v (swapped {t = t} r i j p q) =
      (swap_at-occurrences a t.addrs (i, j) (p, q)).0 ∙ Swapped-occurrences a v r

  -- and a lower bound of the ranks
  pub Swapped-least :
      {s t : AddressHeap} (m : ℕ)
      → IsRanked s
      → Swapped ops s t
      → ((i : ℕ) → i < length s.addrs → m ≤ key s i)
      → (i : ℕ) → i < length t.addrs
      → m ≤ key t i
  Swapped-least m v same b i p = b i p
  Swapped-least m v (swapped {t = t} r i j p q) b c w =
      let valid = (Swapped-IsValid ops laws v r).0 in
      let before = Swapped-least m v r b in
      ground (
        arith,
        get_or-swap_at t.ranks i j c (omega (arith, valid.sizes)) (omega (arith, valid.sizes)),
        length-swap_at t.addrs i j,
        before i p,
        before j q,
        before c,
      )
