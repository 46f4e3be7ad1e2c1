-- ===== src/Resolver/Rendezvous/Loop.antt =====
-- resolver/rendezvous.go, computeSubset: what the loop keeps.
use httplb.Prelude.{
  ℕ, ◌+◌, ◌≤◌, ◌<◌, ◌≡◌, refl, sym, ◌∙◌, subst, inl, inr, List, [], ◌∷◌, arith, le_trans, ltb, ◌==◌,
  if◌then◌else◌, ltb→lt, ltb→le, Bool-cases, length, get_or, set, All, length-set, get_or-set,
  All-map,
}
use httplb.Prelude.Sums.{sum_by, sum_by-set}
use httplb.Heap.{fix, parent}
use httplb.Heap.Order.{IsHeap, Loose, Sifted, root_least, Swapped-IsValid}
use httplb.Heap.Restore.{fix-Sifted}
use httplb.Picker.RoundRobin.{occurrences, hit, get_elem?-get_or}
use httplb.Resolver.Rendezvous.{AddressHeap, ops, select}
use httplb.Resolver.Rendezvous.Laws.{key, IsRanked, laws, Swapped-occurrences, Swapped-least}

module _ (rank : ℕ → ℕ) where
  -- The heap holds addresses that rank no lower than those left out.
  pub record Top (h : AddressHeap) (left : List ℕ) : Type 0 where
    pub ranked : IsRanked rank h
    pub heap : IsHeap ops (laws rank) h
    pub bound : All (λ x. rank x ≤ key h 0) left

  abbrev replaced : AddressHeap → ℕ → AddressHeap
  replaced h addr = record { addrs = set h.addrs 0 addr; ranks = set h.ranks 0 (rank addr) }

  module _ (h : AddressHeap) (addr : ℕ) (v : IsRanked rank h) (p : 0 < length h.addrs) where
    replaced-IsRanked : IsRanked rank (replaced h addr)
    replaced-IsRanked = record {
      sizes = length-set h.ranks 0 (rank addr) ∙ v.sizes ∙ sym (length-set h.addrs 0 addr);
      ranked = λ i q. ground (
        arith,
        get_or-set h.ranks 0 i (rank addr) 0,
        get_or-set h.addrs 0 i addr 0,
        length-set h.addrs 0 addr,
        v.sizes,
        v.ranked i,
      );
    }

    key-replaced : (i : ℕ) → key (replaced h addr) i ≡ (if 0 == i then rank addr else key h i)
    key-replaced i = get_or-set h.ranks 0 i (rank addr) 0 (omega (arith, v.sizes))

    replaced-Loose : IsHeap ops (laws rank) h → Loose ops (laws rank) 0 (replaced h addr) 0
    replaced-Loose o = record {
      valid = replaced-IsRanked;
      others = λ c a q r s t.
          ground (arith, o c, key-replaced c, key-replaced (parent c), length-set h.addrs 0 addr);
      bridged = λ c a q e r s. absurd (omega arith);
    }

  IsHeap-of : {h t : AddressHeap} → Sifted ops (laws rank) 0 h t → IsHeap ops (laws rank) t
  IsHeap-of s c a q = s.heap c a q (omega arith)

  -- the step that replaces the root
  replace-Top :
      (h : AddressHeap) (left : List ℕ) (addr : ℕ)
      → Top h left
      → 0 < length h.addrs
      → key h 0 < rank addr
      → Top (fix ops (replaced h addr) 0) (get_or h.addrs 0 0 ∷ left)
  replace-Top h left addr t p more =
      let size = length-set h.addrs 0 addr in
      let inside : 0 < length (replaced h addr).addrs = omega (arith, size) in
      let s =
        fix-Sifted ops (laws rank) (replaced h addr) 0 inside
          (replaced-Loose h addr t.ranked p t.heap) in
      let valid =
        Swapped-IsValid ops (laws rank) (replaced-IsRanked h addr t.ranked p) s.by_swaps in
      let least : key h 0 ≤ key (fix ops (replaced h addr) 0) 0 =
        Swapped-least rank (key h 0) (replaced-IsRanked h addr t.ranked p) s.by_swaps
          (λ i q.
            ground (
              arith,
              key-replaced h addr t.ranked p i,
              root_least ops (laws rank) h i t.heap,
              size,
            ))
          0 (omega (arith, valid.1)) in
      record {
        ranked = s.valid;
        heap = IsHeap-of s;
        bound = (
          omega (arith, t.ranked.ranked 0 p, least),
          All-map (λ x. rank x ≤ key h 0) _ left (λ x q. le_trans q least) t.bound,
        );
      }

  -- one address more, and the addresses that it leaves out
  abbrev step : AddressHeap → ℕ → AddressHeap
  step h addr = if ltb (key h 0) (rank addr) then fix ops (replaced h addr) 0 else h

  abbrev loser : AddressHeap → ℕ → ℕ
  loser h addr = if ltb (key h 0) (rank addr) then get_or h.addrs 0 0 else addr

  pub record Kept (h t : AddressHeap) (seen left left' : List ℕ) : Type 0 where
    pub top : Top t left'
    pub size : length t.addrs ≡ length h.addrs
    pub count :
        (a : ℕ)
        → occurrences a t.addrs + occurrences a left'
          ≡ (occurrences a h.addrs + occurrences a left) + occurrences a seen

  step-Kept :
      (h : AddressHeap) (left : List ℕ) (addr : ℕ)
      → Top h left
      → 0 < length h.addrs
      → Kept h (step h addr) (addr ∷ []) left (loser h addr ∷ left)
  unfolding sum_by
  step-Kept h left addr t p = elim (Bool-cases (ltb (key h 0) (rank addr))) [
    | inl e ↦
        let more : key h 0 < rank addr = ltb→lt _ _ e in
        let u = fix ops (replaced h addr) 0 in
        let s =
          fix-Sifted ops (laws rank) (replaced h addr) 0
            (omega (arith, length-set h.addrs 0 addr, p))
            (replaced-Loose h addr t.ranked p t.heap) in
        let v = replaced-IsRanked h addr t.ranked p in
        subst
          (λ m.
            Kept h (if m then u else h) (addr ∷ []) left
              ((if m then get_or h.addrs 0 0 else addr) ∷ left))
          (sym e)
          (record {
            top = replace-Top h left addr t p more;
            size = (Swapped-IsValid ops (laws rank) v s.by_swaps).1 ∙ length-set h.addrs 0 addr;
            count = λ a. omega (
              arith,
              Swapped-occurrences rank a v s.by_swaps,
              sum_by-set (hit a) h.addrs 0 (get_or h.addrs 0 0) addr (get_elem?-get_or h.addrs 0 p),
            );
          })
    | inr e ↦
        subst
          (λ m.
            Kept h (if m then fix ops (replaced h addr) 0 else h) (addr ∷ []) left
              ((if m then get_or h.addrs 0 0 else addr) ∷ left))
          (sym e)
          (record {
            top = record { ranked = t.ranked; heap = t.heap; bound = (ltb→le _ _ e, t.bound) };
            size = refl;
            count = λ a. omega arith;
          })
  ]

  pub select-Kept :
      (addrs : List ℕ) (h : AddressHeap) (left : List ℕ)
      → Top h left
      → 0 < length h.addrs
      → (left' : List ℕ) × Kept h (select rank h addrs) addrs left left'
  unfolding select sum_by
  select-Kept [] h left t p = (left, record { top = t; size = refl; count = λ a. omega arith })
  select-Kept (addr ∷ addrs) h left t p =
      let one = step-Kept h left addr t p in
      let (left', rest) =
        select-Kept addrs (step h addr) (loser h addr ∷ left) one.top
          (omega (arith, one.size, p)) in
      (
        left',
        record {
          top = rest.top;
          size = rest.size ∙ one.size;
          count = λ a. omega (arith, one.count a, rest.count a);
        },
      )
