-- ===== src/Transport/Connection.antt =====
-- The request counter of a `connection` in transport.go, and the threads that use it: `startRequest`
-- and `endRequest` around each request, and `close`.
pub mod Invariant
pub mod Stuck
pub mod Return
mod Tests
use httplb.Prelude.{
  two_63, two_64, ℕ, suc, ◌+◌, ◌-◌, ◌%◌, ◌^◌, ◌≤◌, ◌<◌, ◌≡◌, Bool, true, false, List, [], ◌∷◌,
  Option, none, some, ltb, leb, ◌==◌, if◌then◌else◌, length, get_elem?, set,
}

-- `math.MinInt64`
abbrev pub min_int64 : ℕ
min_int64 = two_63

abbrev pub is_negative : ℕ → Bool
is_negative w = leb two_63 w

-- `Add(1)`
abbrev pub add_one : ℕ → ℕ
add_one w = (w + 1) % two_64

-- `Add(-1)`
abbrev pub sub_one : ℕ → ℕ
sub_one w = (w + two_64 - 1) % two_64

-- The fields of `connection` that the threads share. `closed` counts the calls of `close(c.closed)`
-- (a second one panics) and `released` those of `doClose`.
pub record Connection : Type 0 where
  pub outstanding_requests : ℕ
  pub closed : ℕ
  pub released : ℕ

-- Where a thread stands, between two accesses to the shared fields, with its local variable.
pub data Pc : Type 0 where
  idle : Pc  -- before `startRequest`
  added : (result : ℕ) → Pc  -- in `startRequest`, after `Add(1)`
  refused : Pc  -- `startRequest` returned false
  active : Pc  -- `startRequest` returned true, `endRequest` not yet called
  ended : (result : ℕ) → Pc  -- in `endRequest`, after `Add(-1)`
  finished : Pc
  closing : Pc  -- head of the loop in `close`
  loaded : (reqs : ℕ) → Pc  -- in `close`, after `Load`
  marked : (value : ℕ) → Pc  -- in `close`, after a successful `CompareAndSwap`
  waiting : Pc  -- in `close`, before `<-c.closed`
  gone : Pc  -- `close` has returned

-- startRequest
pub start_add : Connection → Connection × Pc
start_add c =
    let result = add_one c.outstanding_requests in
    (record c { outstanding_requests = result }, added result)

pub start_check : Connection → ℕ → Connection × Pc
start_check c result =
    if is_negative result
    then (record c { outstanding_requests = sub_one c.outstanding_requests }, refused)
    else (c, active)

-- endRequest
pub end_sub : Connection → Connection × Pc
end_sub c =
    let result = sub_one c.outstanding_requests in
    (record c { outstanding_requests = result }, ended result)

pub end_check : Connection → ℕ → Connection × Pc
end_check c result =
    if result == min_int64 then (record c { closed = c.closed + 1 }, finished) else (c, finished)

-- close: one round of the loop after `Load`, with `reqs - math.MinInt64` in int64
pub close_mark : Connection → ℕ → Connection × Pc
close_mark c reqs =
    if is_negative reqs
    then (c, waiting)
    else let value = (reqs + two_64 - min_int64) % two_64 in
      if c.outstanding_requests == reqs
      then (record c { outstanding_requests = value }, marked value)
      else (c, closing)

pub close_check : Connection → ℕ → Connection × Pc
close_check c value =
    if value == min_int64 then (record c { closed = c.closed + 1 }, waiting) else (c, waiting)

-- `<-c.closed` blocks until the channel is closed; then `doClose` runs.
pub close_wait : Connection → Connection × Pc
close_wait c =
    if ltb 0 c.closed then (record c { released = c.released + 1 }, gone) else (c, waiting)

-- the next access of a thread
pub move : Connection → Pc → Connection × Pc
unfolding start_add start_check end_sub end_check close_mark close_check close_wait
move c idle = start_add c
move c (added result) = start_check c result
move c refused = (c, refused)
move c active = end_sub c
move c (ended result) = end_check c result
move c finished = (c, finished)
move c closing = (c, loaded c.outstanding_requests)
move c (loaded reqs) = close_mark c reqs
move c (marked value) = close_check c value
move c waiting = close_wait c
move c gone = (c, gone)

-- Any number of threads over one connection.
pub record System : Type 0 where
  pub conn : Connection
  pub threads : List Pc

-- Thread `i` takes its next step; an index past the end picks no thread.
pub step : System → ℕ → System
step s i = elim (get_elem? s.threads i) [
  | none ↦ s
  | some p ↦ let (c, p') = move s.conn p in record { conn = c; threads = set s.threads i p' }
]

-- A schedule is the order in which the threads are picked.
pub run : System → List ℕ → System
run s [] = s
run s (i ∷ is) = run (step s i) is

-- A new connection: each thread is about to send a request, or to close it.
abbrev pub fresh : Connection
fresh = record { outstanding_requests = 0; closed = 0; released = 0 }
