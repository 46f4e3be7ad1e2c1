-- ===== src/Balancer/Batch.antt =====
-- balancer.go, updateConns: the batch as a whole.
use httplb.Prelude.{
  ℕ, ◌≡◌, sym, ap, ◌∙◌, subst, Bool, not, ◌&&◌, ◌||◌, Option, List, [], ◌∷◌, ◌++◌, map, arith, keep,
  All, contains, IsNodup, contains-append,
}
use httplb.Balancer.{
  Balancer, Call, Served, update_picker, close_checker, remove_conn, cancel, new_checker,
}
use httplb.Balancer.Refresh.{Current, MadeOrNone}
use httplb.Balancer.Invariant.{Registered, Good, new_picker-Good, new_picker_conns}
use httplb.Balancer.Logs.{OfPicker, sort_conns_log, init_conn_info_log, new_picker-Chosen}
use httplb.Balancer.Connections.{Sorted, make_conns, sort_conns, init_conn_info, update_batch}
use httplb.Balancer.Sorting.{
  contains-kept, sort_conns_kept, sort_conns_closers, sort_conns_same, sort_conns_info,
  init_conn_info_correct, init_conn_info_same,
}

registered_batch :
    (is_add is_conn is_removed : Bool)
    → (is_add || (is_conn && not (is_removed && is_conn))) ≡ ((is_conn && not is_removed) || is_add)
registered_batch a c r = ground arith

module _ {P : Type 0} (new_picker : Option P → List ℕ → P) (new_conn : ℕ → Option ℕ) where
  -- the balancer just before the new picker
  abbrev batch : Balancer P → List ℕ → List ℕ → Balancer P
  batch b new_addrs remove =
      let start : Sorted P = record { new_conns = []; check_closers = []; rest = b } in
      let s = sort_conns remove start b.conns in
      record (init_conn_info s.rest (make_conns new_conn new_addrs)) {
        conns = s.new_conns ++ make_conns new_conn new_addrs;
      }

  abbrev start_of : Balancer P → Sorted P
  start_of b = record { new_conns = []; check_closers = []; rest = b }

  batch-Registered :
      (b : Balancer P) (new_addrs remove : List ℕ)
      → Registered b
      → Registered (batch b new_addrs remove)
  batch-Registered b new_addrs remove r a =
      let add = make_conns new_conn new_addrs in
      let s = sort_conns remove (start_of b) b.conns in
      init_conn_info_correct add s.rest a
      ∙ ap (λ t. contains add a || t) (sort_conns_info remove b.conns (start_of b) a)
      ∙ ap (λ t. contains add a || (t && not (contains remove a && contains b.conns a))) (r a)
      ∙ registered_batch (contains add a) (contains b.conns a) (contains remove a)
      ∙ sym (
          ap (λ t. t || contains add a)
            (ap (λ t. contains t a) (sort_conns_kept remove b.conns (start_of b))
              ∙ contains-kept remove b.conns a))
      ∙ sym (contains-append s.new_conns add a)

  batch-Current :
      (b : Balancer P) (new_addrs remove : List ℕ)
      → Current new_picker b
      → Current new_picker (batch b new_addrs remove)
  batch-Current b new_addrs remove c =
      let add = make_conns new_conn new_addrs in
      let s = sort_conns remove (start_of b) b.conns in
      let (p, u) = sort_conns_same remove b.conns (start_of b) in
      let (p', u') = init_conn_info_same add s.rest in
      (
        subst IsNodup (sym (u' ∙ u)) c.0,
        subst (λ us. MadeOrNone new_picker us (batch b new_addrs remove).latest_picker)
            (sym (u' ∙ u)) (subst (MadeOrNone new_picker b.latest_usable_conns) (sym (p' ∙ p)) c.1),
      )

  -- A batch keeps the state as it should be. Afterwards the connections are the old ones that were not to be removed, in their order, and the ones that the pool could make. The calls that it makes are, in this order and no others: the contexts of the removed connections are cancelled; a health check is made for each new connection; a picker is chosen, with requests to resolve and picker updates only, the last of which is a picker update; the health checks of the removed connections are closed, in the order of the connections; and the pool is told to remove what was to be removed.
  pub update_batch_correct :
      (b : Balancer P) (new_addrs remove : List ℕ)
      → Good new_picker b
      → let b' = (update_batch new_picker new_conn b new_addrs remove).1 in
        Good new_picker b'
        × (b'.conns ≡ keep (λ c. not (contains remove c)) b.conns ++ make_conns new_conn new_addrs)
        × ((during : List (Call P)) × (served : Served P) × (warm : Bool) × All OfPicker during
            × (b'.log
                ≡ (((((b.log ++ map cancel (keep (contains remove) b.conns))
                          ++ map new_checker (make_conns new_conn new_addrs))
                        ++ during)
                      ++ update_picker served warm ∷ [])
                    ++ map close_checker (keep (contains remove) b.conns))
                  ++ map remove_conn remove))
  unfolding update_batch
  update_batch_correct b new_addrs remove (c, r) =
      let b1 = batch b new_addrs remove in
      let good1 : Good new_picker b1 =
        (batch-Current b new_addrs remove c, batch-Registered b new_addrs remove r) in
      let (during, served, warm, quiet, logged) = new_picker-Chosen new_picker b1 good1.0 in
      let closers = sort_conns_closers remove b.conns (start_of b) in
      let add = make_conns new_conn new_addrs in
      let first : b1.log
          ≡ (b.log ++ map cancel (keep (contains remove) b.conns)) ++ map new_checker add =
        init_conn_info_log add (sort_conns remove (start_of b) b.conns).rest
        ∙ ap (λ l. l ++ map new_checker add) (sort_conns_log remove b.conns (start_of b)) in
      (
        new_picker-Good new_picker b1 good1,
        (new_picker_conns new_picker b1).0
            ∙ ap (λ t. t ++ make_conns new_conn new_addrs)
                (sort_conns_kept remove b.conns (start_of b)),
        (
          during,
          served,
          warm,
          quiet,
          ap
                (λ t.
                  (t ++ map close_checker (sort_conns remove (start_of b) b.conns).check_closers)
                  ++ map remove_conn remove)
                logged
              ∙ ap
                  (λ t.
                    (((b1.log ++ during) ++ update_picker served warm ∷ []) ++ map close_checker t)
                    ++ map remove_conn remove)
                  closers
              ∙ ap
                  (λ l.
                    (((l ++ during) ++ update_picker served warm ∷ [])
                      ++ map close_checker (keep (contains remove) b.conns))
                    ++ map remove_conn remove)
                  first,
        ),
      )
