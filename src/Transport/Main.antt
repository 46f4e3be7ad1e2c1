-- ===== src/Transport/Main.antt =====
-- transport.go, mainTransport: a pool for each target. Each part that holds m.mu is one function, and
-- the goroutines closeWhenIdle are listed; a run is any sequence of such parts.
pub mod Table
pub mod Cases
pub mod Invariant
pub mod Safety
pub mod Kept
pub mod Retry
pub mod Served
mod Tests
use httplb.Prelude.{
  ℕ, zero, suc, ◌+◌, ◌-◌, ◌≡◌, Bool, true, false, not, ◌&&◌, Option, none, some, List, [], ◌∷◌,
  ◌++◌, ◌==◌, if◌then◌else◌, keep, update, get_elem?,
}
use httplb.Transport.Target.{Target, same}
use httplb.Client.{ClientOptions, Transport, lookup}

-- transportPoolEntry: the pool's number and whether it is kept warm, with no channel for activity
pub record Entry : Type 0 where
  pub pool : ℕ
  pub keep_warm : Bool

abbrev pub Table : Type 0
Table = List (Target × Entry)

-- mainTransport. `activity p` tells whether the channel of pool p holds a value, `watchers` are the
-- goroutines closeWhenIdle, and `closing` are the pools whose `close` has been called and not returned.
pub record MainTransport : Type 0 where
  pub client_options : ClientOptions
  pub pools : Table
  pub closed : Bool
  pub cancelled : Bool
  pub running_pools : ℕ
  pub next_pool : ℕ
  pub activity : ℕ → Bool
  pub watchers : List (Target × ℕ)
  pub closing : List ℕ

-- newTransport
unfoldable pub new_transport : ClientOptions → MainTransport
new_transport opts = record {
  client_options = opts;
  pools = [];
  closed = false;
  cancelled = false;
  running_pools = 0;
  next_pool = 0;
  activity = λ p. false;
  watchers = [];
  closing = [];
}

-- m.pools[dest]
unfoldable pub find : Target → Table → Option Entry
find dest [] = none
find dest ((d, e) ∷ table) = if same d dest then some e else find dest table

-- delete(m.pools, dest)
unfoldable pub delete : Target → Table → Table
delete dest table = keep (λ entry. not (same (entry.0) dest)) table

-- getPoolLocked
unfoldable pub get_pool_locked : MainTransport → Target → Option ℕ × MainTransport
get_pool_locked m dest = elim (find dest m.pools) [
  | none ↦ (none, m)
  | some entry ↦ (
    some entry.pool,
    if entry.keep_warm then m else record m { activity = update m.activity entry.pool true },
  )
]

pub data Error : Type 0 where
  transport_is_closed : Error
  unsupported_scheme : ℕ → Error
  target_not_allowed : Target → Target → Error

pub data Got : Type 0 where
  failed : Error → Got
  got : ℕ → Got

-- the end of getOrCreatePool: the new pool, and its watcher unless it is kept warm
unfoldable pub add_pool : MainTransport → Target → Bool → MainTransport
add_pool m dest keep_warm = record m {
  running_pools = m.running_pools + 1;
  next_pool = m.next_pool + 1;
  activity = update m.activity m.next_pool false;
  watchers = if keep_warm then m.watchers else (dest, m.next_pool) ∷ m.watchers;
  pools = (dest, record { pool = m.next_pool; keep_warm = keep_warm }) ∷ m.pools;
}

-- the checks before a pool is made
unfoldable pub check_target : ClientOptions → Target → Option Error
check_target opts dest =
    let transport : Option Transport = elim opts.schemes [
      | none ↦ none
      | some schemes ↦ lookup dest.scheme schemes
    ] in
    elim transport [
      | none ↦ some (unsupported_scheme dest.scheme)
      | some _ ↦ elim opts.allowed_target [
        | none ↦ none
        | some allowed ↦ if same allowed dest then none else some (target_not_allowed dest allowed)
      ]
    ]

-- opts.KeepWarm
unfoldable pub is_kept_warm : ClientOptions → Bool
is_kept_warm opts = elim opts.allowed_target [ none ↦ false | some _ ↦ true ]

unfoldable pub make_pool : MainTransport → Target → Got × MainTransport
make_pool m dest = elim (check_target m.client_options dest) [
  | some e ↦ (failed e, m)
  | none ↦ (got m.next_pool, add_pool m dest (is_kept_warm m.client_options))
]

-- the part of getOrCreatePool that holds the lock for writing
unfoldable pub create_pool : MainTransport → Target → Got × MainTransport
create_pool m dest =
    let (pool, m') = get_pool_locked m dest in
    if m.closed
    then (failed transport_is_closed, m)
    else elim pool [ none ↦ make_pool m' dest | some p ↦ (got p, m') ]

-- getOrCreatePool; `others` is what other goroutines do while no lock is held
unfoldable pub get_or_create_pool :
    (MainTransport → MainTransport) → MainTransport → Target → Got × MainTransport
get_or_create_pool others m dest =
    let (pool, m') = get_pool_locked m dest in
    if m.closed
    then (failed transport_is_closed, m')
    else elim pool [ none ↦ create_pool (others m') dest | some p ↦ (got p, m') ]

-- tryRemovePool, for the watcher of pool p
unfoldable pub try_remove_pool : MainTransport → Target → ℕ → Bool × MainTransport
try_remove_pool m dest p =
    if m.activity p
    then (false, record m { activity = update m.activity p false })
    else (true, record m { pools = delete dest m.pools })

-- removePool
unfoldable pub remove_pool : MainTransport → Target → MainTransport
remove_pool m dest = record m { pools = delete dest m.pools }

-- a list without its i-th element
unfoldable pub without : {A : Type 0} → List A → ℕ → List A
without [] i = []
without (x ∷ xs) zero = xs
without (x ∷ xs) (suc i) = x ∷ without xs i

-- the i-th watcher closes its pool and returns
unfoldable pub end_watcher : MainTransport → ℕ → ℕ → MainTransport
end_watcher m i p = record m { watchers = without m.watchers i; closing = p ∷ m.closing }

-- the cases of the select of closeWhenIdle
pub data Wake : Type 0 where
  timer : Wake
  done : Wake
  active : Wake

unfoldable pub close_when_idle : MainTransport → ℕ → Target → ℕ → Wake → MainTransport
close_when_idle m i dest p timer =
    let (removed, m') = try_remove_pool m dest p in if removed then end_watcher m' i p else m'
close_when_idle m i dest p done = if m.cancelled then end_watcher (remove_pool m dest) i p else m
close_when_idle m i dest p active = record m { activity = update m.activity p false }

-- `close`, up to its unlocking
unfoldable pub close_begin : MainTransport → MainTransport
close_begin m = record m { closed = true; cancelled = true }

-- closeKeepWarmPools: the pools that it collects, and the others
unfoldable pub warm_pools : Table → List ℕ
warm_pools [] = []
warm_pools ((d, e) ∷ table) =
    let pools = warm_pools table in if e.keep_warm then e.pool ∷ pools else pools

unfoldable pub close_keep_warm_pools : MainTransport → MainTransport
close_keep_warm_pools m = record m {
  closing = warm_pools m.pools ++ m.closing;
  pools = keep (λ entry. not (entry.1.keep_warm)) m.pools;
}

-- runningPools.Done, when the i-th close of a pool returns
unfoldable pub pool_closed : MainTransport → ℕ → MainTransport
pool_closed m i = record m { closing = without m.closing i; running_pools = m.running_pools - 1 }

-- What may happen next. Closing the warm pools follows close_begin; the context may end by itself.
pub data Event : Type 0 where
  get : Target → Event
  create : Target → Event
  wake : (i : ℕ) → Wake → Event
  root_done : Event
  close_called : Event
  closed_warm : Event
  pool_done : (i : ℕ) → Event

unfoldable pub step : MainTransport → Event → MainTransport
step m (get dest) = (get_pool_locked m dest).1
step m (create dest) = (create_pool m dest).1
step m (wake i w) = elim (get_elem? m.watchers i) [
  | none ↦ m
  | some (dest, p) ↦ close_when_idle m i dest p w
]
step m root_done = record m { cancelled = true }
step m close_called = close_begin m
step m closed_warm = if m.closed then close_keep_warm_pools m else m
step m (pool_done i) = elim (get_elem? m.closing i) [ none ↦ m | some p ↦ pool_closed m i ]

unfoldable pub run : MainTransport → List Event → MainTransport
run m [] = m
run m (e ∷ events) = run (step m e) events
