-- ===== src/Picker/LeastLoaded/Branches.antt =====
-- picker/leastloaded.go: when `update` panics, when it sorts the heap again, and what it leaves when
-- it only pushes.
use httplb.Prelude.{
  ℕ, zero, suc, ◌+◌, ◌≤◌, ◌<◌, ◌≡◌, refl, sym, ◌∙◌, subst, inl, inr, false, some, List, [], ◌∷◌,
  arith, ◌==◌, if◌then◌else◌, Option-cases, length, get_or, contains,
}
use httplb.Prelude.Int.{pos, negsuc}
use httplb.Picker.LeastLoaded.{
  Item, ConnHeap, item, put_index, delete, to_set, compact, bits_len, bits_len_loop, update_conns,
}
use httplb.Picker.LeastLoaded.Compact.{conn_of, compact-conns, contains-delete}
use httplb.Picker.LeastLoaded.Append.{IsStored}
use httplb.Picker.LeastLoaded.Use.{IsOrdered}
use httplb.Picker.LeastLoaded.Update.{
  Visits, Updated, update_ends, update_correct, rebuilt-Updated, contains-to_set,
}

pub bits_len-pos : (n : ℕ) → 0 < n → 0 < bits_len n
unfolding bits_len bits_len_loop
bits_len-pos zero h = absurd (omega arith)
bits_len-pos (suc n) h = ground arith

compact-length-le :
    (items : ℕ → Item) (m ps : List ℕ) (i j : ℕ) → length (compact items m ps i j).kept ≤ length ps
unfolding compact
compact-length-le items m [] i j = omega arith
compact-length-le items m (p ∷ ps) i j =
    let cn = (items p).conn in
    let moved = if i == j then items else put_index items p (pos j) in
    let stay = compact-length-le moved (delete cn m) ps (i + 1) (j + 1) in
    let leave = compact-length-le (put_index items p (negsuc 0)) m ps (i + 1) j in ground arith

-- if a connection is given, something is kept or is new
compact-nonempty :
    (h : ConnHeap) (all_conns : List ℕ)
    → 0 < length all_conns
    → let c = compact h.items (to_set all_conns []) h.slice 0 0 in
      0 < length c.kept + length c.new_map
compact-nonempty h [] p = absurd (omega arith)
compact-nonempty h (cn ∷ cns) p =
    let c = compact h.items (to_set (cn ∷ cns) []) h.slice 0 0 in
    let known =
      compact-conns (conn_of h.items) h.items (to_set (cn ∷ cns) []) h.slice 0 0 cn (λ q. refl) in
    let given = contains-to_set (cn ∷ cns) [] cn in grind arith

-- `update` ends without a panic whenever a connection is given or was there before, with the heap
-- that `Updated` describes.
pub update_total :
    (visit : List ℕ → List ℕ) (h : ConnHeap) (all_conns : List ℕ)
    → Visits visit
    → IsStored h
    → 0 < length h.slice + length all_conns
    → (t : ConnHeap) × (update_conns visit h all_conns ≡ some t) × Updated h all_conns t
unfolding update_conns
update_total visit h all_conns each v some_conn =
    elim (Option-cases (update_conns visit h all_conns)) [
      | inr (t, e) ↦ (t, e, update_correct visit h all_conns each v t e)
      | inl e ↦
          let c = compact h.items (to_set all_conns []) h.slice 0 0 in
          let some_bits = bits_len-pos (length c.kept + length c.new_map) in
          let nonempty = compact-nonempty h all_conns in absurd (ground arith)
    ]

-- the loop keeps fewer items if one of them has a connection that is not given
compact-length-lt :
    (items : ℕ → Item) (m ps : List ℕ) (i j c : ℕ)
    → c < length ps
    → contains m (items (get_or ps c 0)).conn ≡ false
    → length (compact items m ps i j).kept < length ps
unfolding compact
compact-length-lt items m [] i j c q out = absurd (omega arith)
compact-length-lt items m (p ∷ ps) i j zero q out =
    let leave = compact-length-le (put_index items p (negsuc 0)) m ps (i + 1) j in
    rw out (omega arith)
compact-length-lt items m (p ∷ ps) i j (suc c) q out =
    let cn = (items p).conn in
    let x = get_or ps c 0 in
    let moved = if i == j then items else put_index items p (pos j) in
    let conn_moved : (moved x).conn ≡ (items x).conn = ground arith in
    let conn_put : (put_index items p (negsuc 0) x).conn ≡ (items x).conn = ground arith in
    let stay =
      compact-length-lt moved (delete cn m) ps (i + 1) (j + 1) c (omega arith)
        (rw (conn_moved, contains-delete cn m (items x).conn, out) (ground arith)) in
    let leave =
      compact-length-lt (put_index items p (negsuc 0)) m ps (i + 1) j c (omega arith)
        (rw conn_put out) in
    ground arith

-- If a connection of the heap is not given any more, `update` leaves a heap in order, whatever order
-- it was in.
pub update-IsOrdered :
    (visit : List ℕ → List ℕ) (h : ConnHeap) (all_conns : List ℕ) (c : ℕ) (t : ConnHeap)
    → Visits visit
    → IsStored h
    → c < length h.slice
    → contains all_conns (item h c).conn ≡ false
    → update_conns visit h all_conns ≡ some t
    → IsOrdered t
update-IsOrdered visit h all_conns c t each v q out e =
    elim (update_ends visit h all_conns each v e) [
      | inr initialised ↦
          subst IsOrdered (sym initialised) (rebuilt-Updated visit h all_conns each v).1
      | inl (_, all_kept) ↦
          let fewer =
            compact-length-lt h.items (to_set all_conns []) h.slice 0 0 c q
              (contains-to_set all_conns [] (item h c).conn ∙ ground arith) in
          absurd (omega arith)
    ]
