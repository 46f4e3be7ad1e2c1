-- ===== src/Picker/LeastLoaded/Rearranged.antt =====
-- picker/leastloaded.go: what swaps leave alone.
use httplb.Prelude.{ℕ, ◌<◌, ◌≡◌, ◌≢◌, refl, ◌∙◌, arith, ◌==◌, if◌then◌else◌, length}
use httplb.Heap.{Swapped, same, swapped}
use httplb.Heap.Order.{Swapped-IsValid}
use httplb.Picker.LeastLoaded.{ConnHeap, at, len, swap, ops}
use httplb.Picker.LeastLoaded.Laws.{IsIndexed, laws, length-swap, at-swap, items-swap}

-- `t` holds the items of `s`, in any order, and differs else only in their indices.
pub record Rearranged (s t : ConnHeap) : Type 0 where
  pub size : length t.slice ≡ length s.slice
  pub from : (j : ℕ) → j < length t.slice → (i : ℕ) × (i < length s.slice) × (at s i ≡ at t j)
  pub onto : (i : ℕ) → i < length s.slice → (j : ℕ) × (j < length t.slice) × (at t j ≡ at s i)
  pub conns : (x : ℕ) → (t.items x).conn ≡ (s.items x).conn
  pub loads : (x : ℕ) → (t.items x).load ≡ (s.items x).load
  pub tie_breaks : (x : ℕ) → (t.items x).tie_break ≡ (s.items x).tie_break
  pub fresh : t.next ≡ s.next
  pub outside :
      (x : ℕ) → ((i : ℕ) → i < length s.slice → at s i ≢ x) → (t.items x).index ≡ (s.items x).index

pub Rearranged-refl : (s : ConnHeap) → Rearranged s s
Rearranged-refl s = record {
  size = refl;
  from = λ j p. (j, p, refl);
  onto = λ i p. (i, p, refl);
  conns = λ x. refl;
  loads = λ x. refl;
  tie_breaks = λ x. refl;
  fresh = refl;
  outside = λ x out. refl;
}

pub Rearranged-trans : {s t u : ConnHeap} → Rearranged s t → Rearranged t u → Rearranged s u
Rearranged-trans a b = record {
  size = b.size ∙ a.size;
  from = λ j p. let (k, q, e) = b.from j p in let (i, r, f) = a.from k q in (i, r, f ∙ e);
  onto = λ i p. let (k, q, e) = a.onto i p in let (j, r, f) = b.onto k q in (j, r, f ∙ e);
  conns = λ x. b.conns x ∙ a.conns x;
  loads = λ x. b.loads x ∙ a.loads x;
  tie_breaks = λ x. b.tie_breaks x ∙ a.tie_breaks x;
  fresh = b.fresh ∙ a.fresh;
  outside = λ x out.
      b.outside x (λ j p e. let (i, r, f) = a.from j p in out i r (f ∙ e)) ∙ a.outside x out;
}

-- where the item at place `c` goes when `i` and `j` are exchanged
other : ℕ → ℕ → ℕ → ℕ
other i j c = if i == c then j else if j == c then i else c

swap-Rearranged :
    (h : ConnHeap) (i j : ℕ)
    → IsIndexed h
    → i < length h.slice
    → j < length h.slice
    → Rearranged h (swap h i j)
unfolding swap other
swap-Rearranged h i j v p q = record {
  size = length-swap h i j v p q;
  from = λ c r.
      (other i j c, ground (arith, length-swap h i j v p q), ground (arith, at-swap h i j v p q c));
  onto = λ c r. (
    other i j c,
    ground (arith, length-swap h i j v p q),
    ground (arith, at-swap h i j v p q (other i j c)),
  );
  conns = λ x. ground (arith, items-swap h i j v p q x);
  loads = λ x. ground (arith, items-swap h i j v p q x);
  tie_breaks = λ x. ground (arith, items-swap h i j v p q x);
  fresh = refl;
  outside = λ x out. ground (arith, items-swap h i j v p q x, out i p, out j q);
}

-- Swaps only rearrange.
pub Swapped-Rearranged : {s t : ConnHeap} → IsIndexed s → Swapped ops s t → Rearranged s t
unfolding len
Swapped-Rearranged {s} v same = Rearranged-refl s
Swapped-Rearranged v (swapped {t = t} r i j p q) =
    let w = (Swapped-IsValid ops laws v r).0 in
    Rearranged-trans (Swapped-Rearranged v r) (swap-Rearranged t i j w p q)
