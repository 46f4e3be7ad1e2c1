-- ===== src/Picker/LeastLoaded/Pickers.antt =====
-- picker/leastloaded.go: the two pickers over the heap. Their mutex makes each call one step.
use httplb.Prelude.{
  ℕ, ◌+◌, ◌%◌, ◌<◌, ◌≡◌, refl, ap, Option, none, some, List, arith, length, two_64,
}
use httplb.Picker.LeastLoaded.{ConnHeap, acquire, new_conn_heap, update_conns}
use httplb.Picker.LeastLoaded.Use.{IsSound}
use httplb.Picker.LeastLoaded.Pick.{Acquired, acquire_least}

-- leastLoadedRoundRobin; leastLoadedRandom has the heap alone
pub record LeastLoadedRoundRobin : Type 0 where
  pub conns : ConnHeap
  pub counter : ℕ

-- NewLeastLoadedRoundRobin; `prev` is none for a picker of another type
unfoldable pub new_least_loaded_round_robin :
    (List ℕ → List ℕ)
    → ConnHeap
    → Option LeastLoadedRoundRobin
    → List ℕ
    → Option LeastLoadedRoundRobin
new_least_loaded_round_robin visit store none all_conns =
    some (record { conns = new_conn_heap store all_conns; counter = 0 })
new_least_loaded_round_robin visit store (some prev) all_conns =
    elim (update_conns visit prev.conns all_conns) [
      | none ↦ none
      | some conns ↦ some (record prev { conns = conns })
    ]

-- NewLeastLoadedRandom
unfoldable pub new_least_loaded_random :
    (List ℕ → List ℕ) → ConnHeap → Option ConnHeap → List ℕ → Option ConnHeap
new_least_loaded_random visit store none all_conns = some (new_conn_heap store all_conns)
new_least_loaded_random visit store (some prev) all_conns = update_conns visit prev all_conns

-- what a call of Pick gives: the connection, the item that whenDone releases, and the picker
pub record Picked (P : Type 0) : Type 0 where
  pub conn : ℕ
  pub entry : ℕ
  pub after : P

-- pickLocked, by what acquire gave
abbrev picked_entry : Option (ℕ × ConnHeap) → Option (Picked ConnHeap)
picked_entry none = none
picked_entry (some (entry, after)) =
    some (record { conn = (after.items entry).conn; entry = entry; after = after })

unfoldable pub pick_locked : ConnHeap → ℕ → Option (Picked ConnHeap)
pick_locked conns next_tie_break = picked_entry (acquire conns next_tie_break)

-- leastLoadedRoundRobin.Pick, with the count that it has come to
abbrev with_counter : ℕ → Option (Picked ConnHeap) → Option (Picked LeastLoadedRoundRobin)
with_counter counter none = none
with_counter counter (some r) = some (record {
  conn = r.conn;
  entry = r.entry;
  after = record { conns = r.after; counter = counter };
})

unfoldable pub pick_round_robin : LeastLoadedRoundRobin → Option (Picked LeastLoadedRoundRobin)
pick_round_robin p =
    let counter = (p.counter + 1) % two_64 in with_counter counter (pick_locked p.conns counter)

-- leastLoadedRandom.Pick; `n` is what rand.Uint64() returns
unfoldable pub pick_random : ConnHeap → ℕ → Option (Picked ConnHeap)
pick_random conns n = pick_locked conns n

-- With a connection at hand and a sound heap, Pick returns the connection of an item of least load, and the picker that it leaves has counted the request on that item alone, stamped it with the count that follows the picker's, keeps that count for the next call, and is sound again.
pub pick_round_robin_least :
    (p : LeastLoadedRoundRobin)
    → IsSound p.conns
    → 0 < length p.conns.slice
    → (r : Picked LeastLoadedRoundRobin) × (pick_round_robin p ≡ some r)
      × (r.conn ≡ (r.after.conns.items r.entry).conn)
      × (r.after.counter ≡ (p.counter + 1) % two_64)
      × Acquired p.conns ((p.counter + 1) % two_64) r.entry r.after.conns
unfolding pick_round_robin pick_locked
pick_round_robin_least p v h =
    let counter = (p.counter + 1) % two_64 in
    let (entry, t, e, a) = acquire_least p.conns counter v (omega arith) h in
    (
      record {
        conn = (t.items entry).conn;
        entry = entry;
        after = record { conns = t; counter = counter };
      },
      ap (λ o. with_counter counter (picked_entry o)) e,
      refl,
      refl,
      a,
    )
