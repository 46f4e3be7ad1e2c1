-- ===== src/Balancer/Loop.antt =====
-- balancer.go, receiveAddrs: the goroutine that gives the manager what the resolver and the timers
-- ask for, and the other goroutines that change the balancer's state in between. An address is known by
-- a number; `describe` is what is behind it, and `address` gives the HostPort of a connection.
pub mod Running
use httplb.Prelude.{
  ℕ, zero, suc, ◌+◌, ◌-◌, ◌*◌, ◌/◌, ◌%◌, ◌^◌, ◌≤◌, ◌<◌, ◌≡◌, refl, sym, ap, ap₂, ◌∙◌, subst, ◌≢◌,
  ◌↔◌, ◌⊎◌, inl, inr, Bool, true, false, not, ◌&&◌, ◌||◌, Option, none, some, List, [], ◌∷◌, ◌++◌,
  map, append-nil, append_assoc, map-append, arith, le_trans, le_refl, add_comm, add_assoc,
  mul_comm, dec_lt, dec_le, ℕ_discrete, ltb, leb, ◌==◌, if◌then◌else◌, ltb→lt, lt→ltb, ltb→le,
  le→ltb, ==→eq, ==-refl, ==→ne, ==_iff, Bool-cases, if_cases, Option-cases, tests, length,
  get_elem?, get_or, set, take, drop, keep, All, length-append, length-set, two_63, two_64, two_32,
  get_or-set, take-append-drop, length-take, length-drop, length-map, length-keep-le, All-append,
  All-map, get_elem?-set_self, get_elem?-set_ne, update, contains, IsNodup, contains-append,
  SameSet, contains-map-of_get, get_of_contains-map, get_of_contains, contains-of_get, Bool-ext,
}
use httplb.Health.State.{State}
use httplb.Balancer.{
  Balancer, resolve_failed, set_error_picker, update_health_state, warmed_up, add_call, cancel,
  close_checker, Call,
}
use httplb.Balancer.Connections.{update_batch, on_resolve, on_resolve_error, recycle, add_calls}
use httplb.Balancer.Batch.{update_batch_correct}
use httplb.Balancer.Invariant.{Good, update_health_state-Good, warmed_up-Good}
use httplb.Balancer.Manager.{Address, Groups, reconcile_addresses, do_update}
use httplb.Balancer.Manager.Counts.{IsMap}
use httplb.Balancer.Manager.Update.{group-IsMap, remaining-IsMap, unfold_remaining}
use httplb.Balancer.Manager.Recycle.{recycle_conns, recycle_conns-IsMap}

-- The balancer with its manager; the channels hold one value at most, and `done` tells that the loop has
-- returned.
pub record Loop (P : Type 0) : Type 0 where
  pub balancer : Balancer P
  pub conns_by_addr : Groups ℕ
  pub resolver_updates : Bool
  pub recycle_signal : Bool
  pub done : Bool

-- What happens: calls of the balancer's methods, and the cases of the select. The pool's answers to the
-- calls of NewConn in a batch are given by their positions.
pub data Event : Type 0 where
  resolved : List ℕ → Event
  resolve_error : ℕ → Event
  health : ℕ → State → Event
  warm : ℕ → Event
  expired : ℕ → Event
  recycle_case : (pool : ℕ → Option ℕ) → Event
  update_case : (pool : ℕ → Option ℕ) → Event
  done_case : Event

unfoldable pub positions : ℕ → List ℕ → List ℕ
positions i [] = []
positions i (a ∷ addrs) = i ∷ positions (i + 1) addrs

-- the deferred function: every connection is forgotten and cancelled, and its health check closed
unfoldable pub shut_down : {P : Type 0} → Balancer P → Balancer P
shut_down b = record b {
  conn_info = λ c. none;
  log = (b.log ++ map cancel b.conns) ++ map close_checker b.conns;
}

module _ {P : Type 0} (new_picker : Option P → List ℕ → P) (address : ℕ → ℕ)
    (describe : ℕ → Address) where
  -- updateConns as the manager calls it
  unfoldable pub update_func : (ℕ → Option ℕ) → List ℕ → List ℕ → Balancer P → List ℕ × Balancer P
  update_func pool new_addrs remove b =
      update_batch new_picker pool b (positions 0 new_addrs) remove

  unfoldable pub recycle_step : (ℕ → Option ℕ) → Loop P → Loop P
  recycle_step pool l =
      let conns = l.balancer.conns_to_recycle in
      let b : Balancer P = record (l.balancer) { conns_to_recycle = [] } in
      let r : Groups ℕ × Balancer P =
        if length conns == 0
        then (l.conns_by_addr, b)
        else recycle_conns address (update_func pool) l.conns_by_addr conns b in
      record l { balancer = r.1; conns_by_addr = r.0; recycle_signal = false }

  -- reconcileAddresses with its doUpdate
  unfoldable pub reconcile_step :
      (ℕ → Option ℕ) → List ℕ → Groups ℕ → Balancer P → Groups ℕ × Balancer P
  reconcile_step pool addrs m b =
      let plan = reconcile_addresses (map describe addrs) m in
      let (made, b') = update_func pool (map (λ a. a.host_port) plan.new_addrs) plan.to_remove b in
      (do_update address made plan.remaining, b')

  -- the balancer's part of a resolver update without addresses: the error is reported once
  unfoldable pub error_step : Balancer P → Balancer P
  error_step b = elim b.latest_err [
    | none ↦ b
    | some e ↦ set_error_picker (record b { latest_err = none }) (resolve_failed e)
  ]

  unfoldable pub update_step : (ℕ → Option ℕ) → Loop P → Loop P
  update_step pool l =
      let r : Groups ℕ × Balancer P = elim l.balancer.latest_addrs [
        | none ↦ (l.conns_by_addr, error_step l.balancer)
        | some addrs ↦
            if length addrs == 0
            then (l.conns_by_addr, l.balancer)
            else reconcile_step pool addrs l.conns_by_addr l.balancer
      ] in
      record l { balancer = r.1; conns_by_addr = r.0; resolver_updates = false }

  unfoldable pub loop_step : Loop P → Event → Loop P
  loop_step l (resolved addrs) = record l {
    balancer = on_resolve l.balancer addrs;
    resolver_updates = true;
  }
  loop_step l (resolve_error e) = record l {
    balancer = on_resolve_error l.balancer e;
    resolver_updates = true;
  }
  loop_step l (health c s) = record l { balancer = update_health_state new_picker l.balancer c s }
  loop_step l (warm c) = record l { balancer = warmed_up new_picker l.balancer c }
  loop_step l (expired c) = record l { balancer = recycle l.balancer c; recycle_signal = true }
  loop_step l (recycle_case pool) =
      if l.recycle_signal && not l.done then recycle_step pool l else l
  loop_step l (update_case pool) =
      if l.resolver_updates && not l.done then update_step pool l else l
  loop_step l done_case =
      if l.done then l else record l { balancer = shut_down l.balancer; done = true }

  unfoldable pub loop_run : Loop P → List Event → Loop P
  loop_run l [] = l
  loop_run l (e ∷ events) = loop_run (loop_step l e) events
