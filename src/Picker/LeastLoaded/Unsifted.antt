-- ===== src/Picker/LeastLoaded/Unsifted.antt =====
-- picker/leastloaded.go: `update` with a few new connections and none removed. It calls the heap's
-- own Push, which only appends, and not `heap.Push`, which would also move the item up.
use httplb.Prelude.{
  two_64, ℕ, ◌+◌, ◌/◌, ◌%◌, ◌≤◌, ◌<◌, ◌≡◌, refl, sym, ap, ◌∙◌, not, keep, true, false, some, List,
  [], ◌∷◌, ◌++◌, map, append-nil, append_assoc, arith, leb, ◌==◌, ==-refl, length, update, contains,
  IsNodup, contains-append,
}
use httplb.Picker.LeastLoaded.{
  Item, ConnHeap, at, item, delete, append_new, to_set, compact, acquire, bits_len, update_conns,
  fix_at,
}
use httplb.Picker.LeastLoaded.Compact.{conn_of, contains-delete}
use httplb.Picker.LeastLoaded.Append.{
  conns, IsStored, push_new-append_new, append_new-else, append_new-zero, length-append_new,
  at-append_new, conns-append_new, slice-append_new,
}
use httplb.Picker.LeastLoaded.Pick.{IsLeast}
use httplb.Picker.LeastLoaded.Update.{Visits, get_of-All}
use httplb.Picker.LeastLoaded.Branches.{bits_len-pos}

-- the connections of a nodup list enter the map in their order
to_set-IsNodup :
    (cns m : List ℕ)
    → IsNodup cns
    → ((a : ℕ) → contains cns a ≡ true → contains m a ≡ false)
    → to_set cns m ≡ m ++ cns
unfolding to_set
to_set-IsNodup [] m d out = sym (append-nil m)
to_set-IsNodup (cn ∷ cns) m d out =
    let fresh : contains m cn ≡ false = out cn (ground arith) in
    rw fresh (
      to_set-IsNodup cns (m ++ cn ∷ []) d.1
        (λ a e. ground (arith, contains-append m (cn ∷ []) a, out a, d.0))
      ∙ append_assoc m (cn ∷ []) cns)

-- the given connections without those of some list
abbrev pub others : List ℕ → List ℕ → List ℕ
others old = keep (λ a. not (contains old a))

others-nil : (m : List ℕ) → others [] m ≡ m
others-nil [] = refl
others-nil (k ∷ m) = ap (λ l. k ∷ l) (others-nil m)

others-delete : (c : ℕ) (old m : List ℕ) → others old (delete c m) ≡ others (c ∷ old) m
unfolding delete
others-delete c old [] = refl
others-delete c old (k ∷ m) = ground (arith, others-delete c old m)

-- What the loop over the slice does if every item is kept: it moves nothing.
compact-all :
    (items : ℕ → Item) (ps m : List ℕ) (i : ℕ)
    → IsNodup (map (conn_of items) ps)
    → ((a : ℕ) → contains (map (conn_of items) ps) a ≡ true → contains m a ≡ true)
    → compact items m ps i i
      ≡ record { items = items; new_map = others (map (conn_of items) ps) m; kept = ps }
unfolding compact
compact-all items [] m i d there =
    ap (λ l. record { items = items; new_map = l; kept = [] }) (sym (others-nil m))
compact-all items (p ∷ ps) m i d there =
    let cn = (items p).conn in
    let old = map (conn_of items) ps in
    let here : contains m cn ≡ true = there cn (ground arith) in
    let ih =
      compact-all items ps (delete cn m) (i + 1) d.1
        (λ a q. ground (arith, contains-delete cn m a, there a, d.0)) in
    rw (here, ==-refl i, ih, others-delete cn old m) refl

-- `acquire` always takes the root
acquire_first :
    (t : ConnHeap) (tie : ℕ)
    → 0 < length t.slice
    → (u : ConnHeap) × (acquire t tie ≡ some (at t 0, u))
unfolding acquire
acquire_first t tie p = go t.slice refl
  where
    go : (xs : List ℕ) → t.slice ≡ xs → (u : ConnHeap) × (acquire t tie ≡ some (at t 0, u))
    go [] e = absurd (ground arith)
    go (x ∷ xs) e =
        let y = t.items x in
        let bumped = record y { load = (y.load + 1) % two_64; tie_break = tie } in
        (
          fix_at (record t { items = update t.items x bumped; slice = x ∷ xs }) y.index,
          ground arith,
        )

module _ (visit : List ℕ → List ℕ) (h : ConnHeap) (all_conns : List ℕ) where
  -- the connections that are new
  abbrev pub extra : List ℕ
  extra = others (conns h) all_conns

  -- the case in which `update` pushes
  update_pushes :
      IsNodup all_conns
      → IsNodup (conns h)
      → ((a : ℕ) → contains (conns h) a ≡ true → contains all_conns a ≡ true)
      → 0 < length extra
      → length extra ≤ (length h.slice + length extra) / bits_len (length h.slice + length extra)
      → update_conns visit h all_conns ≡ some (append_new h (visit extra))
  unfolding update_conns
  update_pushes d old there some_new few =
      let n = length h.slice + length extra in
      let ordered : to_set all_conns [] ≡ all_conns = to_set-IsNodup all_conns [] d (λ a e. refl) in
      let bits = bits_len-pos n (omega arith) in
      let some_bits : (bits_len n == 0) ≡ false = ground arith in
      let below : leb (length extra) (n / bits_len n) ≡ true = ground arith in
      rw
        (
          ordered,
          compact-all h.items h.slice all_conns 0 old there,
          ==-refl (length h.slice),
          some_bits,
          below,
        )
        (ap some (push_new-append_new h (visit extra)))

  -- If every connection of the heap is given, none is given twice or has two items, and there are
  -- some, but at most n / log n, new ones (n being the new size), and if the item at the root has
  -- requests in flight, then `update` leaves every item at its place and puts the new connections
  -- behind them; the root is then not the least loaded item, and `acquire`
  -- still picks it.
  pub update_misplaces :
      (tie : ℕ)
      → Visits visit
      → IsStored h
      → IsNodup all_conns
      → IsNodup (conns h)
      → ((a : ℕ) → contains (conns h) a ≡ true → contains all_conns a ≡ true)
      → 0 < length extra
      → length extra ≤ (length h.slice + length extra) / bits_len (length h.slice + length extra)
      → 0 < length h.slice
      → 0 < (item h 0).load
      → (t u : ConnHeap) × (update_conns visit h all_conns ≡ some t)
        × ((new : List ℕ) × (t.slice ≡ h.slice ++ new))
        × (conns t ≡ conns h ++ visit extra)
        × (acquire t tie ≡ some (at h 0, u))
        × ¬ IsLeast t (at h 0)
  update_misplaces tie each v d old there some_new few some_old busy =
      let t = append_new h (visit extra) in
      let size : length t.slice ≡ length h.slice + length extra =
        length-append_new h (visit extra) ∙ ap (λ k. length h.slice + k) (each.once extra) in
      let root : at t 0 ≡ at h 0 = at-append_new h (visit extra) 0 some_old in
      let (u, first) = acquire_first t tie (omega arith) in
      let old_load : (t.items (at h 0)).load ≡ (item h 0).load =
        ap (λ (x : Item). x.load)
          (append_new-else h (visit extra) (at h 0)
            (get_of-All h.next h.slice 0 v.below some_old)) in
      let new_load : (item t (length h.slice)).load ≡ 0 =
        append_new-zero h (visit extra) (length h.slice) v (omega arith)
          (omega (arith, each.once extra)) in
      (
        t,
        u,
        update_pushes d old there some_new few,
        slice-append_new h (visit extra),
        conns-append_new h (visit extra) v,
        first ∙ ap (λ x. some (x, u)) root,
        λ l. absurd (omega (arith, l.least (length h.slice) (omega arith))),
      )
