-- ===== src/Balancer/Tests.antt =====
-- Runs of the balancer on small inputs.
use httplb.Prelude.{
  ℕ, zero, suc, ◌+◌, ◌<◌, ◌≡◌, refl, sym, ap, subst, Bool, true, false, not, Option, none, some,
  List, [], ◌∷◌, ◌++◌, map, arith, length, keep, All, update, contains,
}
use httplb.Health.State.{healthy, unknown, unhealthy}
use httplb.Balancer.{
  Balancer, ConnInfo, Call, Served, usable_conns, min_conns, in_state, compute_usable_conns,
  is_warm, update_picker, picker, error_picker, no_healthy_connections,
  resolver_returned_no_addresses, resolve_now, close_checker, remove_conn, cancel, new_checker,
  new_picker_locked, must_resolve, set_error_picker, serve_error,
}
use httplb.Balancer.Serve.{serve_usable_correct, serve_error_correct}
use httplb.Balancer.Refresh.{MadeFor, Current}
use httplb.Balancer.Usable.{UsesLevel, usable_correct}
use httplb.Balancer.Invariant.{Good}
use httplb.Balancer.Manager.{Address}
use httplb.Balancer.Loop.{
  Loop, Event, resolved, health, expired, update_case, recycle_case, done_case, loop_run,
}
use httplb.Balancer.Loop.Running.{Running, loop_run-Running}
use httplb.Balancer.Connections.{make_conns, update_batch}
use httplb.Balancer.Logs.{OfPicker}
use httplb.Balancer.Batch.{update_batch_correct}

-- the factory numbers the pickers that it makes
abbrev make : Option ℕ → List ℕ → ℕ
make none cs = 100
make (some p) cs = p + 1

abbrev info : ℕ → Option ConnInfo
info =
    update
      (update (update (λ c. none) 1 (some (record { state = healthy; warm = true }))) 2
        (some (record { state = unhealthy; warm = false })))
      3 (some (record { state = unknown; warm = false }))

abbrev three : Balancer ℕ
three = record {
  latest_addrs = none;
  latest_err = none;
  latest_picker = none;
  latest_usable_conns = [];
  conns = 1 ∷ 2 ∷ 3 ∷ [];
  conn_info = info;
  conns_to_recycle = [];
  log = [];
}

abbrev sick : Balancer ℕ
sick = record three { conns = 2 ∷ [] }

three-Good : Good make three
three-Good = ((tt, refl), λ c. ground arith)

three-usable : usable_conns three ≡ 1 ∷ 3 ∷ []
unfolding usable_conns in_state min_conns
three-usable = refl

sick-usable : usable_conns sick ≡ []
unfolding usable_conns in_state min_conns
sick-usable = refl

usable_correct_example : (level : ℕ) × UsesLevel three (usable_conns three) level
usable_correct_example = usable_correct three

serve_usable_correct_example :
    (p : ℕ) × (MadeFor make (usable_conns three) p)
    × ((new_picker_locked make three).log
        ≡ (compute_usable_conns three).1.log
          ++ update_picker (picker p) (is_warm three (usable_conns three)) ∷ [])
    × Current make (new_picker_locked make three)
serve_usable_correct_example =
    serve_usable_correct make three three-Good.0
      (subst (λ us. 0 < length us) (sym three-usable) (omega arith))

serve_error_correct_example :
    ((new_picker_locked make sick).latest_picker ≡ none)
    × ((new_picker_locked make sick).latest_usable_conns ≡ [])
    × ((first_calls : List (Call ℕ)) × ((new_picker_locked make sick).log
          ≡ first_calls ++ update_picker (error_picker no_healthy_connections) false ∷ []))
serve_error_correct_example = serve_error_correct make sick (ap length sick-usable)

-- the pool makes connection a + 10 for the address a, and none for 0
abbrev pool : ℕ → Option ℕ
pool zero = none
pool (suc a) = some (suc a + 10)

update_batch_correct_example :
    let b' = (update_batch make pool three (5 ∷ 0 ∷ []) (2 ∷ 7 ∷ [])).1 in
    Good make b'
    × (b'.conns
        ≡ keep (λ c. not (contains (2 ∷ 7 ∷ []) c)) (1 ∷ 2 ∷ 3 ∷ [])
          ++ make_conns pool (5 ∷ 0 ∷ []))
    × ((during : List (Call ℕ)) × (served : Served ℕ) × (warm : Bool) × All OfPicker during
        × (b'.log
            ≡ ((((([] ++ map cancel (keep (contains (2 ∷ 7 ∷ [])) (1 ∷ 2 ∷ 3 ∷ [])))
                      ++ map new_checker (make_conns pool (5 ∷ 0 ∷ [])))
                    ++ during)
                  ++ update_picker served warm ∷ [])
                ++ map close_checker (keep (contains (2 ∷ 7 ∷ [])) (1 ∷ 2 ∷ 3 ∷ [])))
              ++ map remove_conn (2 ∷ 7 ∷ [])))
update_batch_correct_example =
    update_batch_correct make pool three (5 ∷ 0 ∷ []) (2 ∷ 7 ∷ []) three-Good

-- no address was resolved, but the last error says that no connection is healthy
sick_log :
    (new_picker_locked make sick).log
    ≡ resolve_now
      ∷ update_picker (error_picker resolver_returned_no_addresses) false
      ∷ update_picker (error_picker no_healthy_connections) false
      ∷ []
unfolding new_picker_locked compute_usable_conns must_resolve usable_conns in_state min_conns
    serve_error set_error_picker
sick_log = refl

abbrev before_events : Loop ℕ
before_events = record {
  balancer = three;
  conns_by_addr = (1, 1 ∷ 2 ∷ []) ∷ (2, 3 ∷ []) ∷ [];
  resolver_updates = false;
  recycle_signal = false;
  done = false;
}

abbrev host : ℕ → Address
host a = record { host_port = a; attributes = 0 }

abbrev some_events : List Event
some_events =
    resolved (1 ∷ 4 ∷ [])
    ∷ health 2 healthy
    ∷ expired 1
    ∷ update_case (λ i. some (i + 20))
    ∷ recycle_case (λ i. none)
    ∷ done_case
    ∷ []

before_events-Running : Running make (λ c. c) host before_events
before_events-Running = record { good = λ _. three-Good; is_map = (refl, (refl, tt)) }

loop_run-Running_example :
    Running make (λ c. c) host (loop_run make (λ c. c) host before_events some_events)
loop_run-Running_example =
    loop_run-Running make (λ c. c) host before_events some_events before_events-Running
