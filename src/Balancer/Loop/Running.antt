-- ===== src/Balancer/Loop/Running.antt =====
-- balancer.go, receiveAddrs: what holds of the balancer and its manager while the loop goes on.
use httplb.Prelude.{
  ℕ, ◌≡◌, sym, subst, true, false, not, ◌&&◌, Option, none, some, List, [], ◌∷◌, map, arith, ◌==◌,
  if◌then◌else◌, if_cases, length,
}
use httplb.Balancer.{Balancer, resolve_failed, set_error_picker}
use httplb.Balancer.Connections.{on_resolve, on_resolve_error, recycle}
use httplb.Balancer.Batch.{update_batch_correct}
use httplb.Balancer.Invariant.{Good, update_health_state-Good, warmed_up-Good}
use httplb.Balancer.Manager.{Address, Groups, reconcile_addresses, do_update}
use httplb.Balancer.Manager.Counts.{IsMap}
use httplb.Balancer.Manager.Update.{group-IsMap, remaining-IsMap, unfold_remaining}
use httplb.Balancer.Manager.Recycle.{recycle_conns, recycle_conns-IsMap}
use httplb.Balancer.Loop.{
  Loop, Event, resolved, resolve_error, health, warm, expired, recycle_case, update_case, done_case,
  positions, shut_down, update_func, recycle_step, reconcile_step, error_step, update_step,
  loop_step, loop_run,
}

module _ {P : Type 0} (new_picker : Option P → List ℕ → P) (address : ℕ → ℕ)
    (describe : ℕ → Address) where
  -- What holds as long as the loop goes on: the balancer's state is as it should be, and the manager's
  -- map has each key once.
  pub record Running (l : Loop P) : Type 0 where
    pub good : l.done ≡ false → Good new_picker l.balancer
    pub is_map : IsMap l.conns_by_addr

  update_func-Good :
      (pool : ℕ → Option ℕ) (addrs removed : List ℕ) (b : Balancer P)
      → Good new_picker b
      → Good new_picker (update_func new_picker address describe pool addrs removed b).1
  unfolding update_func
  update_func-Good pool addrs removed b g =
      (update_batch_correct new_picker pool b (positions 0 addrs) removed g).0

  recycle_step-Good :
      (pool : ℕ → Option ℕ) (l : Loop P)
      → Good new_picker l.balancer
      → IsMap l.conns_by_addr
      → Good new_picker (recycle_step new_picker address describe pool l).balancer
        × IsMap (recycle_step new_picker address describe pool l).conns_by_addr
  unfolding recycle_step
  recycle_step-Good pool l g i =
      let b : Balancer P = record (l.balancer) { conns_to_recycle = [] } in
      if_cases (λ (r : Groups ℕ × Balancer P). Good new_picker r.1 × IsMap r.0)
        (length l.balancer.conns_to_recycle == 0) (l.conns_by_addr, b)
        (recycle_conns address (update_func new_picker address describe pool) l.conns_by_addr
          l.balancer.conns_to_recycle b)
        (λ _. (g, i))
        (λ _.
          let r =
            recycle_conns-IsMap address (Good new_picker)
              (update_func new_picker address describe pool) l.conns_by_addr
              l.balancer.conns_to_recycle b
              (λ addrs removed. update_func-Good pool addrs removed b g) g i in
          (r.1, r.0))

  reconcile_step-Good :
      (pool : ℕ → Option ℕ) (addrs : List ℕ) (m : Groups ℕ) (b : Balancer P)
      → Good new_picker b
      → IsMap m
      → Good new_picker (reconcile_step new_picker address describe pool addrs m b).1
        × IsMap (reconcile_step new_picker address describe pool addrs m b).0
  unfolding reconcile_step do_update
  reconcile_step-Good pool addrs m b g i =
      let plan = reconcile_addresses (map describe addrs) m in
      let made =
        (update_func new_picker address describe pool
          (map (λ (a : Address). a.host_port) plan.new_addrs) plan.to_remove b).0 in
      (
        update_func-Good pool (map (λ a. a.host_port) plan.new_addrs) plan.to_remove b g,
        group-IsMap address made plan.remaining
            (subst IsMap (sym (unfold_remaining (map describe addrs) m)) (remaining-IsMap _ m i)),
      )

  error_step-Good :
      (b : Balancer P)
      → Good new_picker b
      → Good new_picker (error_step new_picker address describe b)
  unfolding error_step set_error_picker
  error_step-Good b g =
      elim b.latest_err
        as (λ o. Good new_picker (elim o [
          | none ↦ b
          | some e ↦ set_error_picker (record b { latest_err = none }) (resolve_failed e)
        ])) [ none ↦ g | some e ↦ g ]

  update_step-Good :
      (pool : ℕ → Option ℕ) (l : Loop P)
      → Good new_picker l.balancer
      → IsMap l.conns_by_addr
      → Good new_picker (update_step new_picker address describe pool l).balancer
        × IsMap (update_step new_picker address describe pool l).conns_by_addr
  unfolding update_step
  update_step-Good pool l g i =
      elim l.balancer.latest_addrs
        as (λ o.
          (let r : Groups ℕ × Balancer P = elim o [
            | none ↦ (l.conns_by_addr, error_step new_picker address describe l.balancer)
            | some addrs ↦
                if length addrs == 0
                then (l.conns_by_addr, l.balancer)
                else reconcile_step new_picker address describe pool addrs l.conns_by_addr
                    l.balancer
          ] in
            Good new_picker r.1 × IsMap r.0)) [
              | none ↦ (error_step-Good l.balancer g, i)
              | some addrs ↦
                  if_cases (λ (r : Groups ℕ × Balancer P). Good new_picker r.1 × IsMap r.0)
                    (length addrs == 0) (l.conns_by_addr, l.balancer)
                    (reconcile_step new_picker address describe pool addrs l.conns_by_addr
                      l.balancer)
                    (λ _. (g, i))
                    (λ _. reconcile_step-Good pool addrs l.conns_by_addr l.balancer g i)
            ]

  loop_step-Running :
      (l : Loop P) (e : Event) → Running l → Running (loop_step new_picker address describe l e)
  unfolding loop_step on_resolve on_resolve_error recycle recycle_step update_step
  loop_step-Running l (resolved addrs) r = record { good = r.good; is_map = r.is_map }
  loop_step-Running l (resolve_error e) r = record { good = r.good; is_map = r.is_map }
  loop_step-Running l (health c s) r = record {
    good = λ going. update_health_state-Good new_picker l.balancer c s (r.good going);
    is_map = r.is_map;
  }
  loop_step-Running l (warm c) r = record {
    good = λ going. warmed_up-Good new_picker l.balancer c (r.good going);
    is_map = r.is_map;
  }
  loop_step-Running l (expired c) r = record { good = r.good; is_map = r.is_map }
  loop_step-Running l (recycle_case pool) r =
      if_cases Running (l.recycle_signal && not l.done)
        (recycle_step new_picker address describe pool l) l
        (λ e.
          let after = recycle_step-Good pool l (r.good (ground (arith, e))) r.is_map in
          record { good = λ _. after.0; is_map = after.1 })
        (λ _. r)
  loop_step-Running l (update_case pool) r =
      if_cases Running (l.resolver_updates && not l.done)
        (update_step new_picker address describe pool l) l
        (λ e.
          let after = update_step-Good pool l (r.good (ground (arith, e))) r.is_map in
          record { good = λ _. after.0; is_map = after.1 })
        (λ _. r)
  loop_step-Running l done_case r =
      if_cases Running l.done l (record l { balancer = shut_down l.balancer; done = true }) (λ _. r)
        (λ _. record { good = λ going. absurd (ground (arith, going)); is_map = r.is_map })

  -- Through any sequence of resolver results, health and warming updates, expired connections, batches and the final shutdown, whatever the pool answers, the balancer's state stays as it should be until the loop returns, and the manager's map has each key once.
  pub loop_run-Running :
      (l : Loop P) (events : List Event)
      → Running l
      → Running (loop_run new_picker address describe l events)
  unfolding loop_run
  loop_run-Running l [] r = r
  loop_run-Running l (e ∷ events) r =
      loop_run-Running (loop_step new_picker address describe l e) events (loop_step-Running l e r)
