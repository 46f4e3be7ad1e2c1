-- ===== src/Health/Polling.antt =====
-- health/polling.go: how a polling health check turns the results of its probes into a state, and
-- what it tells the balancer.
use httplb.Prelude.{
  ℕ, zero, suc, ◌+◌, ◌-◌, ◌*◌, ◌/◌, ◌%◌, ◌^◌, ◌≤◌, ◌<◌, ◌≡◌, refl, sym, ap, ap₂, ◌∙◌, subst, ◌≢◌,
  ◌↔◌, ◌⊎◌, inl, inr, Bool, true, false, not, ◌&&◌, ◌||◌, Option, none, some, List, [], ◌∷◌, ◌++◌,
  map, append-nil, append_assoc, map-append, arith, le_trans, le_refl, add_comm, add_assoc,
  mul_comm, dec_lt, dec_le, ℕ_discrete, ltb, leb, ◌==◌, if◌then◌else◌, ltb→lt, lt→ltb, ltb→le,
  le→ltb, ==→eq, ==-refl, ==→ne, ==_iff, Bool-cases, Option-cases, tests, length, get_elem?, get_or,
  set, take, drop, keep, All, length-append, length-set, two_63, two_64, two_32, get_or-set,
  take-append-drop, length-take, length-drop, length-map, length-keep-le, All-append, All-map,
  get_elem?-set_self, get_elem?-set_ne, update, contains, IsNodup, contains-append, SameSet,
  contains-map-of_get, get_of_contains-map, get_of_contains, contains-of_get, Bool-ext,
}
pub mod Run
pub mod Thresholds
mod Tests
use httplb.Prelude.Int.{eq_ℤ}
use httplb.Health.State.{State, healthy, unknown, degraded, unhealthy}

-- the thresholds of pollingChecker; a duration is a number of nanoseconds
pub record Checker : Type 0 where
  pub interval : ℕ
  pub timeout : ℕ
  pub healthy_threshold : ℕ
  pub unhealthy_threshold : ℕ

-- PollingCheckerConfig, without the jitter
pub record Config : Type 0 where
  pub polling_interval : ℕ
  pub timeout : ℕ
  pub healthy_threshold : ℕ
  pub unhealthy_threshold : ℕ

-- NewPollingChecker: a field that is zero has its default
unfoldable pub new_polling_checker : Config → Checker
new_polling_checker config =
    let interval =
      if config.polling_interval == 0 then 15 * 1000000000 else config.polling_interval in
    record {
      interval = interval;
      timeout = if config.timeout == 0 then interval else config.timeout;
      healthy_threshold = if config.healthy_threshold == 0 then 1 else config.healthy_threshold;
      unhealthy_threshold =
          if config.unhealthy_threshold == 0 then 1 else config.unhealthy_threshold;
    }

-- the variables of the goroutine, and the states that the tracker has been told, in order
pub record Task : Type 0 where
  pub state : State
  pub counter : ℕ
  pub told : List State

unfoldable pub start : Checker → Task
start r = record { state = unknown; counter = r.healthy_threshold; told = [] }

-- a state that a first good result can better
unfoldable pub is_bad : State → Bool
is_bad s = eq_ℤ s unhealthy || (eq_ℤ s degraded || eq_ℤ s unknown)

-- a step of the counter towards a threshold
unfoldable pub count_to : ℕ → Task → State → Task
count_to threshold t result =
    let n = t.counter + 1 in
    if leb threshold n then record t { state = result; counter = 0 } else record t { counter = n }

-- the switch over the result and the state
unfoldable pub judge : Checker → Task → State → Task
judge r t result =
    if eq_ℤ result healthy && is_bad t.state
    then count_to r.healthy_threshold t result
    else if eq_ℤ t.state healthy && is_bad result
    then count_to r.unhealthy_threshold t result
    else record t { state = result; counter = 0 }

-- the body of the loop: a change of the state is told to the tracker
unfoldable pub probe : Checker → Task → State → Task
probe r t result =
    let t' = judge r t result in
    if not (eq_ℤ t.state t'.state) then record t' { told = t.told ++ result ∷ [] } else t'

unfoldable pub probes : Checker → Task → List State → Task
probes r t [] = t
probes r t (s ∷ ss) = probes r (probe r t s) ss

-- NewSimpleProber: no request, no response, or the status of a response
pub data Reply : Type 0 where
  no_request : Reply
  no_response : Reply
  status : ℕ → Reply

unfoldable pub simple_probe : Reply → State
simple_probe no_request = unknown
simple_probe no_response = unhealthy
simple_probe (status code) = if ltb code 200 || leb 300 code then unhealthy else healthy
