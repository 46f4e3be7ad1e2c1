-- ===== src/Picker/LeastLoaded/Tests.antt =====
-- picker/leastloaded.go: runs on a few connections, and the theorems at them.
use httplb.Prelude.{ℕ, ◌≡◌, refl, List, [], ◌∷◌, some, arith, SameSet, ap, if◌then◌else◌, ◌==◌}
use httplb.Prelude.Int.{pos, negsuc}
use httplb.Heap.{init}
use httplb.Picker.LeastLoaded.Pickers.{
  Picked, LeastLoadedRoundRobin, pick_round_robin, pick_round_robin_least,
}
use httplb.Picker.LeastLoaded.{
  ops, ConnHeap, len, less, swap, fix_at, alloc, append_new, new_conn_heap, acquire, to_set,
  compact, bits_len, bits_len_loop, update_conns,
}
use httplb.Picker.LeastLoaded.Append.{conns, IsStored}
use httplb.Picker.LeastLoaded.Use.{IsOrdered, IsSound}
use httplb.Picker.LeastLoaded.Pick.{IsLeast, Acquired, acquire_least}
use httplb.Picker.LeastLoaded.Update.{Visits, Updated, new_conn_heap_correct, update_correct}
use httplb.Picker.LeastLoaded.Unsifted.{update_misplaces}

abbrev blank : ConnHeap
blank = record {
  items = λ _. record { conn = 0; load = 0; tie_break = 0; index = negsuc 0 };
  next = 0;
  slice = [];
}

blank-IsStored : IsStored blank
blank-IsStored = record {
  indexed = record { placed = λ i q. absurd (omega arith); ties = λ p. omega arith };
  below = tt;
}

-- connections 10, 20 and 30
abbrev three : List ℕ
three = 10 ∷ 20 ∷ 30 ∷ []

abbrev sample : ConnHeap
sample = new_conn_heap blank three

sample-IsSound : IsSound sample
sample-IsSound =
    let (stored, ordered, _) = new_conn_heap_correct blank three blank-IsStored in
    record { indexed = stored.indexed; ordered = ordered }

sample-IsStored : IsStored sample
sample-IsStored = (new_conn_heap_correct blank three blank-IsStored).0

-- the visits of a map in the order of insertion
in_order-Visits : Visits (λ m. m)
in_order-Visits = record { each = λ m a. refl; once = λ m. refl; distinct = λ m d. d }

new_conn_heap_correct_example : IsStored sample × IsOrdered sample × SameSet (conns sample) three
new_conn_heap_correct_example = new_conn_heap_correct blank three blank-IsStored

acquire_least_example :
    (entry : ℕ) × (t : ConnHeap) × (acquire sample 7 ≡ some (entry, t)) × Acquired sample 7 entry t
unfolding new_conn_heap append_new alloc init len less swap
acquire_least_example = acquire_least sample 7 sample-IsSound (omega arith) (omega arith)

pick_round_robin_least_example :
    (r : Picked LeastLoadedRoundRobin) × (pick_round_robin (record { conns = sample; counter = 6 })
      ≡ some r)
    × (r.conn ≡ (r.after.conns.items r.entry).conn)
    × (r.after.counter ≡ 7)
    × Acquired sample 7 r.entry r.after.conns
unfolding new_conn_heap append_new alloc init len less swap
pick_round_robin_least_example =
    pick_round_robin_least (record { conns = sample; counter = 6 }) sample-IsSound (omega arith)

-- a heap with one item, of connection 10, that has a request
abbrev busy : ConnHeap
busy = record {
  items = λ _. record { conn = 10; load = 1; tie_break = 1; index = pos 0 };
  next = 1;
  slice = 0 ∷ [];
}

busy-IsStored : IsStored busy
busy-IsStored = record {
  indexed = record { placed = λ i q. ap pos (omega arith); ties = λ p. omega arith };
  below = (omega arith, tt);
}

-- the heap after the only item has been acquired again
abbrev busier : ConnHeap
busier =
    fix_at
      (record busy {
        items = λ x.
            if 0 == x
            then record { conn = 10; load = 2; tie_break = 9; index = pos 0 }
            else busy.items x;
      })
      (pos 0)

-- `update` from connection 10 to connection 20
abbrev moved_on : ConnHeap
moved_on = init (ops) (
    append_new
      (record busy {
        items = λ x.
            if 0 == x
            then record { conn = 10; load = 1; tie_break = 1; index = negsuc 0 }
            else busy.items x;
        slice = [];
      })
      (20 ∷ []))

update_correct_example : Updated busy (20 ∷ []) moved_on
unfolding update_conns to_set compact
update_correct_example =
    update_correct (λ m. m) busy (20 ∷ []) in_order-Visits busy-IsStored moved_on refl

update_misplaces_example :
    (t u : ConnHeap) × (update_conns (λ m. m) busy (20 ∷ 10 ∷ []) ≡ some t)
    × ((new : List ℕ) × (t.slice ≡ 0 ∷ new))
    × (conns t ≡ 10 ∷ 20 ∷ [])
    × (acquire t 2 ≡ some (0, u))
    × ¬ IsLeast t 0
unfolding bits_len bits_len_loop
update_misplaces_example =
    update_misplaces (λ m. m) busy (20 ∷ 10 ∷ []) 2 in_order-Visits busy-IsStored (refl, (refl, tt))
      (refl, tt) (λ a e. ground (arith, e)) (omega arith) (omega arith) (omega arith) (omega arith)
