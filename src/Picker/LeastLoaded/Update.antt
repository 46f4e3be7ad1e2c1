-- ===== src/Picker/LeastLoaded/Update.antt =====
-- picker/leastloaded.go: `update` and `newConnHeap`.
use httplb.Prelude.{
  ℕ, zero, suc, ◌<◌, ◌≡◌, refl, sym, ap, ◌∙◌, subst, ◌⊎◌, inl, inr, true, false, ◌||◌, some, List,
  [], ◌∷◌, ◌++◌, arith, length, get_or, All, contains, contains-append, IsNodup, SameSet,
  contains-map-of_get, get_of_contains-map, Bool-ext,
}
use mathlib.Core.Bool.{false≢true}
use httplb.Prelude.Int.{pos, negsuc}
use httplb.Heap.{init}
use httplb.Heap.Restore.{init-Sifted}
use httplb.Picker.LeastLoaded.{
  Item, ConnHeap, at, item, len, ops, append_new, new_conn_heap, to_set, compact, Compacted,
  update_conns,
}
use httplb.Picker.LeastLoaded.Laws.{laws}
use httplb.Picker.LeastLoaded.Rearranged.{Rearranged, Swapped-Rearranged}
use httplb.Picker.LeastLoaded.Compact.{
  SameBut, conn_of, compact-SameBut, compact-conns, compact-All, compact-PlacedFrom,
  compact-evicted,
}
use httplb.Picker.LeastLoaded.Append.{
  conns, IsStored, push_new-append_new, append_new-IsStored, append_new-else, conns-append_new,
}
use httplb.Picker.LeastLoaded.Single.{
  IsApart, IsNodup-to_set, compact-IsNodup, IsNodup-reorder, IsApart-of_nodup, Rearranged-IsApart,
}
use httplb.Picker.LeastLoaded.Use.{IsOrdered}

-- `range` over a map visits each key once.
pub record Visits (visit : List ℕ → List ℕ) : Type 0 where
  pub each : (m : List ℕ) (a : ℕ) → contains (visit m) a ≡ contains m a
  pub once : (m : List ℕ) → length (visit m) ≡ length m
  pub distinct : (m : List ℕ) → IsNodup m → IsNodup (visit m)

pub contains-to_set :
    (cns m : List ℕ) (a : ℕ) → contains (to_set cns m) a ≡ (contains cns a || contains m a)
unfolding to_set
contains-to_set [] m a = refl
contains-to_set (cn ∷ cns) m a = ground (
  arith,
  contains-to_set cns m a,
  contains-to_set cns (m ++ cn ∷ []) a,
  contains-append m (cn ∷ []) a,
)

All-of_get :
    (n : ℕ) (xs : List ℕ) → ((i : ℕ) → i < length xs → get_or xs i 0 < n) → All (λ p. p < n) xs
All-of_get n [] h = tt
All-of_get n (x ∷ xs) h = (h 0 (omega arith), All-of_get n xs (λ i q. h (suc i) (omega arith)))

pub get_of-All :
    (n : ℕ) (xs : List ℕ) (i : ℕ) → All (λ p. p < n) xs → i < length xs → get_or xs i 0 < n
get_of-All n [] i h q = absurd (omega arith)
get_of-All n (x ∷ xs) zero h q = h.0
get_of-All n (x ∷ xs) (suc i) h q = get_of-All n xs i h.1 (omega arith)

Rearranged-conns : (s t : ConnHeap) → Rearranged s t → SameSet (conns t) (conns s)
Rearranged-conns s t r a =
    Bool-ext _ _
      (λ e.
        let (j, p, q) = get_of_contains-map (conn_of t.items) t.slice a e in
        let (i, p', q') = r.from j p in
        let found = contains-map-of_get (conn_of s.items) s.slice i p' in
        let same : conn_of s.items (at s i) ≡ a =
          ap (conn_of s.items) q' ∙ sym (r.conns (at t j)) ∙ q in
        subst (λ x. contains (conns s) x ≡ true) same found)
      (λ e.
        let (i, p, q) = get_of_contains-map (conn_of s.items) s.slice a e in
        let (j, p', q') = r.onto i p in
        let found = contains-map-of_get (conn_of t.items) t.slice j p' in
        let same : conn_of t.items (at t j) ≡ a = ap (conn_of t.items) q' ∙ r.conns (at s i) ∙ q in
        subst (λ x. contains (conns t) x ≡ true) same found)

-- what Init makes of a stored heap
pub init-IsStored :
    (s : ConnHeap)
    → IsStored s
    → IsStored (init ops s) × IsOrdered (init ops s) × Rearranged s (init ops s)
unfolding len
init-IsStored s v =
    let r = init-Sifted ops laws s v.indexed in
    let moved = Swapped-Rearranged v.indexed r.by_swaps in
    let t = init ops s in
    (
      record {
        indexed = r.valid;
        below = All-of_get t.next t.slice (λ j p.
            let (i, q, e) = moved.from j p in
            subst (λ x. x < t.next) e
              (subst (λ n. at s i < n) (sym moved.fresh) (get_of-All s.next s.slice i v.below q)));
      },
      λ c p q. r.heap c p q (omega arith),
      moved,
    )

-- a heap whose store is sound and whose slice is empty
abbrev pub emptied : ConnHeap → ConnHeap
emptied h = record h { slice = [] }

pub emptied-IsStored : (h : ConnHeap) → IsStored h → IsStored (emptied h)
emptied-IsStored h v = record {
  indexed = record { placed = λ i q. absurd (omega arith); ties = v.indexed.ties };
  below = tt;
}

-- newConnHeap makes a heap in order of exactly the given connections.
pub new_conn_heap_correct :
    (h : ConnHeap) (all_conns : List ℕ)
    → IsStored h
    → IsStored (new_conn_heap h all_conns)
      × IsOrdered (new_conn_heap h all_conns)
      × SameSet (conns (new_conn_heap h all_conns)) all_conns
unfolding new_conn_heap
new_conn_heap_correct h all_conns v =
    let empty = emptied-IsStored h v in
    let s = append_new (emptied h) all_conns in
    let (stored, ordered, moved) =
      init-IsStored s (append_new-IsStored (emptied h) all_conns empty) in
    (
      stored,
      ordered,
      λ a.
          Rearranged-conns s (init ops s) moved a
          ∙ ap (λ xs. contains xs a) (conns-append_new (emptied h) all_conns empty),
    )

-- what `update` makes of `h`, whichever way it goes
pub record Updated (h : ConnHeap) (all_conns : List ℕ) (t : ConnHeap) : Type 0 where
  pub stored : IsStored t
  pub members : SameSet (conns t) all_conns
  pub single : IsApart t
  pub items : (x : ℕ) → x < h.next → SameBut (t.items x) (h.items x)
  pub evicted :
      (c : ℕ)
      → c < length h.slice
      → contains all_conns (item h c).conn ≡ false
      → (t.items (at h c)).index ≡ negsuc 0

module _ (visit : List ℕ → List ℕ) (h : ConnHeap) (all_conns : List ℕ) (each : Visits visit)
    (v : IsStored h) where
  abbrev pub result : Compacted
  result = compact h.items (to_set all_conns []) h.slice 0 0

  -- the heap after the first loop
  abbrev pub compacted : ConnHeap
  compacted = record h { items = result.items; slice = result.kept }

  abbrev pub grown : ConnHeap
  grown = append_new compacted (visit result.new_map)

  compacted-IsStored : IsStored compacted
  compacted-IsStored = record {
    indexed = record {
      placed = λ i q.
          compact-PlacedFrom h.items (to_set all_conns []) h.slice 0 0
            (λ c r. v.indexed.placed c r ∙ ap pos (omega arith)) i q
          ∙ ap pos (omega arith);
      ties = λ p.
          let same = compact-SameBut h.items (to_set all_conns []) h.slice 0 0 p in
          rw same.tie_break (v.indexed.ties p);
    };
    below = compact-All (λ p. p < h.next) h.items (to_set all_conns []) h.slice 0 0 v.below;
  }

  grown-members : SameSet (conns grown) all_conns
  grown-members a =
      let left = result.new_map in
      let f = conn_of result.items in
      ap (λ xs. contains xs a) (conns-append_new compacted (visit left) compacted-IsStored)
      ∙ contains-append (conns compacted) (visit left) a
      ∙ ap (λ b. contains (conns compacted) a || b) (each.each left a)
      ∙ compact-conns f h.items (to_set all_conns []) h.slice 0 0 a
          (λ q. (compact-SameBut h.items (to_set all_conns []) h.slice 0 0 q).conn)
      ∙ contains-to_set all_conns [] a
      ∙ ground arith

  grown-IsApart : IsApart grown
  grown-IsApart =
      let left = result.new_map in
      let f = conn_of result.items in
      let split : IsNodup (conns compacted ++ left) =
        compact-IsNodup f h.items (to_set all_conns []) h.slice 0 0
          (λ q. (compact-SameBut h.items (to_set all_conns []) h.slice 0 0 q).conn)
          (IsNodup-to_set all_conns [] tt) in
      IsApart-of_nodup grown (
        subst IsNodup (sym (conns-append_new compacted (visit left) compacted-IsStored)) (
          IsNodup-reorder (conns compacted) left (visit left) split (each.each left)
            (each.distinct left)))

  grown-items : (x : ℕ) → x < h.next → grown.items x ≡ result.items x
  grown-items x q = append_new-else compacted (visit result.new_map) x q

  pub grown-Updated : Updated h all_conns grown
  grown-Updated = record {
    stored = append_new-IsStored compacted (visit result.new_map) compacted-IsStored;
    members = grown-members;
    single = grown-IsApart;
    items =
        λ x q. rw (grown-items x q) (compact-SameBut h.items (to_set all_conns []) h.slice 0 0 x);
    evicted = λ c q out.
        ap (λ (x : Item). x.index) (grown-items (at h c) (get_of-All h.next h.slice c v.below q))
        ∙ compact-evicted h.items (to_set all_conns []) h.slice 0 0 c
            (λ d r. v.indexed.placed d r ∙ ap pos (omega arith)) q
            (contains-to_set all_conns [] (item h c).conn ∙ ground arith);
  }

  -- the heap on the way through Init
  abbrev pub rebuilt : ConnHeap
  rebuilt = init ops grown

  pub rebuilt-Updated : Updated h all_conns rebuilt × IsOrdered rebuilt
  rebuilt-Updated =
      let u = grown-Updated in
      let (stored, ordered, moved) = init-IsStored grown u.stored in
      (
        record {
          stored = stored;
          members = λ a. Rearranged-conns grown rebuilt moved a ∙ u.members a;
          single = Rearranged-IsApart grown rebuilt moved stored.indexed u.single;
          items = λ x q.
              let old = u.items x q in
              record {
                conn = moved.conns x ∙ old.conn;
                load = moved.loads x ∙ old.load;
                tie_break = moved.tie_breaks x ∙ old.tie_break;
              };
          evicted = λ c q out.
              moved.outside (at h c) (λ i r e.
                let found = contains-map-of_get (conn_of grown.items) grown.slice i r in
                let conn = (u.items (at h c) (get_of-All h.next h.slice c v.below q)).conn in
                false≢true (
                  sym out
                  ∙ sym (u.members (item h c).conn)
                  ∙ ap (λ x. contains (conns grown) x) (sym conn ∙ ap (conn_of grown.items) (sym e))
                  ∙ found))
              ∙ u.evicted c q out;
        },
        ordered,
      )

  -- the two ways in which `update` can end without a panic
  pub update_ends :
      {t : ConnHeap}
      → update_conns visit h all_conns ≡ some t
      → ((t ≡ grown) × (length result.kept ≡ length h.slice)) ⊎ (t ≡ rebuilt)
  unfolding update_conns
  update_ends e = ground (arith, push_new-append_new compacted (visit result.new_map))

  -- Whichever way `update` goes, the heap then holds exactly the given connections, each by one
  -- item only, also if it is given twice or had two items before; the load and the
  -- tie break of an item that stays are kept; and an item whose connection is not given any more is
  -- marked with the index -1.
  pub update_correct :
      (t : ConnHeap) → update_conns visit h all_conns ≡ some t → Updated h all_conns t
  update_correct t e = elim (update_ends e) [
    | inl (pushed, _) ↦ subst (Updated h all_conns) (sym pushed) grown-Updated
    | inr initialised ↦ subst (Updated h all_conns) (sym initialised) rebuilt-Updated.0
  ]
