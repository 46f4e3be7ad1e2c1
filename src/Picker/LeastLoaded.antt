-- ===== src/Picker/LeastLoaded.antt =====
-- picker/leastloaded.go: a heap of connections by load. The items are shared by pointer between the
-- slice and the closures that `Pick` hands out, so they stand in a store, and a pointer is a number.
pub mod Laws
pub mod Rearranged
pub mod Use
pub mod Compact
pub mod Append
pub mod Single
pub mod Update
pub mod Branches
pub mod Unsifted
pub mod Pickers
mod Tests
pub mod Pick
use httplb.Prelude.{
  two_64, ℕ, zero, suc, ◌+◌, ◌-◌, ◌/◌, ◌%◌, ◌<◌, Bool, true, false, not, ◌&&◌, List, [], ◌∷◌, ◌++◌,
  Option, none, some, ltb, leb, ◌==◌, if◌then◌else◌, length, get_or, set, take, update, contains,
  keep,
}
use httplb.Prelude.Int.{ℤ, pos, negsuc, eq_ℤ}
use httplb.Heap.{HeapInterface, init, fix}

-- leastLoadedConnItem; a connection is known by its identity
pub record Item : Type 0 where
  pub conn : ℕ
  pub load : ℕ
  pub tie_break : ℕ
  pub index : ℤ

-- leastLoadedConnHeap, with the store of all items ever made and the pointer of the next one
pub record ConnHeap : Type 0 where
  pub items : ℕ → Item
  pub next : ℕ
  pub slice : List ℕ

-- the pointer `h[i]`, and the item it points to; the callers keep `i` within the slice
abbrev pub at : ConnHeap → ℕ → ℕ
at h i = get_or h.slice i 0

abbrev pub item : ConnHeap → ℕ → Item
item h i = h.items (at h i)

-- `p.index = i`
abbrev pub put_index : (ℕ → Item) → ℕ → ℤ → ℕ → Item
put_index items p i = update items p (record (items p) { index = i })

-- Len, Less and Swap
pub len : ConnHeap → ℕ
len h = length h.slice

pub less : ConnHeap → ℕ → ℕ → Bool
less h i j =
    if (item h i).load == (item h j).load
    then ltb (item h i).tie_break (item h j).tie_break
    else ltb (item h i).load (item h j).load

pub swap : ConnHeap → ℕ → ℕ → ConnHeap
swap h i j =
    let slice = set (set h.slice i (at h j)) j (at h i) in
    let items = put_index h.items (get_or slice i 0) (pos i) in
    record h { slice = slice; items = put_index items (get_or slice j 0) (pos j) }

abbrev pub ops : HeapInterface ConnHeap
ops = record { len = len; less = less; swap = swap }

-- `heap.Fix(h, i)`; at a negative index it compares nothing and swaps nothing
pub fix_at : ConnHeap → ℤ → ConnHeap
fix_at h (pos i) = fix ops h i
fix_at h (negsuc i) = h

-- Push: the item goes to the end of the slice.
pub push : ConnHeap → ℕ → ConnHeap
push h p = record h {
  items = put_index h.items p (pos (length h.slice));
  slice = h.slice ++ p ∷ [];
}

-- `&leastLoadedConnItem{conn: cn, index: i}`
pub alloc : ConnHeap → ℕ → ℤ → ConnHeap
alloc h cn i = record h {
  items = update h.items h.next (record { conn = cn; load = 0; tie_break = 0; index = i });
  next = suc h.next;
}

-- new items for the connections, appended to the slice with their index
pub append_new : ConnHeap → List ℕ → ConnHeap
append_new h [] = h
append_new h (cn ∷ cns) =
    let fresh = alloc h cn (pos (length h.slice)) in
    append_new (record fresh { slice = h.slice ++ h.next ∷ [] }) cns

-- newConnHeap, in a store that may hold older items
pub new_conn_heap : ConnHeap → List ℕ → ConnHeap
new_conn_heap h all_conns = init ops (append_new (record h { slice = [] }) all_conns)

-- acquire; `none` is the panic of `(*h)[0]` on an empty slice
pub acquire : ConnHeap → ℕ → Option (ℕ × ConnHeap)
acquire h next_tie_break = elim h.slice [
  | [] ↦ none
  | entry ∷ _ ↦
      let e = h.items entry in
      let bumped = record e { load = (e.load + 1) % two_64; tie_break = next_tie_break } in
      some (entry, fix_at (record h { items = update h.items entry bumped }) e.index)
]

-- release
pub release : ConnHeap → ℕ → ConnHeap
release h entry =
    let e = h.items entry in
    let lowered = record e { load = (e.load + two_64 - 1) % two_64 } in
    let h' = record h { items = update h.items entry lowered } in
    if eq_ℤ e.index (negsuc 0) then h' else fix_at h' e.index

-- The keys of the map `newMap`; the order in which `range` visits them is the parameter `visit`.
pub to_set : List ℕ → List ℕ → List ℕ
to_set [] m = m
to_set (cn ∷ cns) m = to_set cns (if contains m cn then m else m ++ cn ∷ [])

pub delete : ℕ → List ℕ → List ℕ
delete cn m = keep (λ k. not (k == cn)) m

-- what the first loop of `update` leaves
pub record Compacted : Type 0 where
  pub items : ℕ → Item
  pub new_map : List ℕ
  pub kept : List ℕ

-- The loop over the slice, at position `i` with `j` items kept: the others are marked as evicted.
pub compact : (ℕ → Item) → List ℕ → List ℕ → ℕ → ℕ → Compacted
compact items m [] i j = record { items = items; new_map = m; kept = [] }
compact items m (p ∷ ps) i j =
    let moved = if i == j then items else put_index items p (pos j) in
    let stay = compact moved (delete (items p).conn m) ps (i + 1) (j + 1) in
    let leave = compact (put_index items p (negsuc 0)) m ps (i + 1) j in
    if contains m (items p).conn then record stay { kept = p ∷ stay.kept } else leave

-- `bits.Len`
pub bits_len_loop : ℕ → ℕ → ℕ
bits_len_loop zero n = 0
bits_len_loop (suc k) n = if n == 0 then 0 else suc (bits_len_loop k (n / 2))

pub bits_len : ℕ → ℕ
bits_len n = bits_len_loop n n

-- `h.Push(&leastLoadedConnItem{conn: cn})` for each new connection
pub push_new : ConnHeap → List ℕ → ConnHeap
push_new h [] = h
push_new h (cn ∷ cns) = push_new (push (alloc h cn (pos 0)) h.next) cns

-- update; `none` is the panic of a division by zero
pub update_conns : (List ℕ → List ℕ) → ConnHeap → List ℕ → Option ConnHeap
update_conns visit h all_conns =
    let c = compact h.items (to_set all_conns []) h.slice 0 0 in
    let new_len = length c.kept + length c.new_map in
    let compacted = record h { items = c.items; slice = c.kept } in
    let pushed = push_new compacted (visit c.new_map) in
    let rebuilt = init ops (append_new compacted (visit c.new_map)) in
    if length c.kept == length h.slice
    then if bits_len new_len == 0
      then none
      else if leb (length c.new_map) (new_len / bits_len new_len)
      then some pushed
      else some rebuilt
    else some rebuilt
