-- ===== src/Balancer/Serve.antt =====
-- balancer.go, newPickerLocked: what the pool is given to serve requests with.
use httplb.Prelude.{
  ℕ, ◌<◌, ◌≡◌, refl, sym, ap, ◌∙◌, subst, Bool, true, false, Option, none, some, List, [], ◌∷◌,
  ◌++◌, arith, ◌==◌, if◌then◌else◌, length, IsNodup,
}
use httplb.Balancer.{
  Balancer, Call, picker, error_picker, update_picker, resolve_now, no_healthy_connections,
  resolver_returned_no_addresses, add_call, usable_conns, must_resolve, compute_usable_conns,
  is_warm, set_error_picker, serve_error, serve_usable, new_picker_locked,
}
use httplb.Balancer.Refresh.{MadeFor, MadeOrNone, Current, serves, is_warm_info}

module _ {P : Type 0} (new_picker : Option P → List ℕ → P) where
  pub compute_keeps :
      (b : Balancer P)
      → ((compute_usable_conns b).1.latest_picker ≡ b.latest_picker)
        × ((compute_usable_conns b).1.latest_usable_conns ≡ b.latest_usable_conns)
        × ((compute_usable_conns b).1.conn_info ≡ b.conn_info)
  unfolding compute_usable_conns
  compute_keeps b =
      elim (must_resolve b)
        as (λ m.
          ((if m then add_call b resolve_now else b).latest_picker ≡ b.latest_picker)
          × ((if m then add_call b resolve_now else b).latest_usable_conns ≡ b.latest_usable_conns)
          × ((if m then add_call b resolve_now else b).conn_info ≡ b.conn_info)) [
            | true ↦ (refl, refl, refl)
            | false ↦ (refl, refl, refl)
          ]

  pub compute-Current :
      (b : Balancer P) → Current new_picker b → Current new_picker (compute_usable_conns b).1
  compute-Current b c =
      let (p, u, i) = compute_keeps b in
      (
        subst IsNodup (sym u) c.0,
        subst (λ us. MadeOrNone new_picker us (compute_usable_conns b).1.latest_picker) (sym u)
            (subst (MadeOrNone new_picker b.latest_usable_conns) (sym p) c.1),
      )

  pub new_picker_some :
      (b : Balancer P)
      → 0 < length (usable_conns b)
      → new_picker_locked new_picker b
        ≡ serve_usable new_picker (compute_usable_conns b).1 (usable_conns b)
  unfolding new_picker_locked compute_usable_conns
  new_picker_some b h =
      let e : (length (usable_conns b) == 0) ≡ false = ground arith in
      ap
        (λ t.
          if t
          then serve_error (compute_usable_conns b).1
          else serve_usable new_picker (compute_usable_conns b).1 (usable_conns b))
        e

  pub new_picker_none :
      (b : Balancer P)
      → length (usable_conns b) ≡ 0
      → new_picker_locked new_picker b ≡ serve_error (compute_usable_conns b).1
  unfolding new_picker_locked compute_usable_conns
  new_picker_none b h =
      let e : (length (usable_conns b) == 0) ≡ true = ground arith in
      ap
        (λ t.
          if t
          then serve_error (compute_usable_conns b).1
          else serve_usable new_picker (compute_usable_conns b).1 (usable_conns b))
        e

  abbrev no_addrs_or : Balancer P → Bool → Balancer P
  no_addrs_or b m = if m then set_error_picker b resolver_returned_no_addresses else b

  pub no_addrs_keeps :
      (b : Balancer P) (m : Bool)
      → ((no_addrs_or b m).latest_picker ≡ b.latest_picker)
        × ((no_addrs_or b m).latest_usable_conns ≡ b.latest_usable_conns)
  unfolding set_error_picker
  no_addrs_keeps b true = (refl, refl)
  no_addrs_keeps b false = (refl, refl)

  pub serve_error_keeps :
      (b : Balancer P)
      → ((serve_error b).latest_picker ≡ b.latest_picker)
        × ((serve_error b).latest_usable_conns ≡ b.latest_usable_conns)
        × ((first_calls : List (Call P)) × ((serve_error b).log
              ≡ first_calls ++ update_picker (error_picker no_healthy_connections) false ∷ []))
  unfolding serve_error set_error_picker
  serve_error_keeps b =
      let m : Bool = elim b.latest_addrs [ none ↦ true | some addrs ↦ length addrs == 0 ] in
      ((no_addrs_keeps b m).0, (no_addrs_keeps b m).1, ((no_addrs_or b m).log, refl))

  -- For some usable connections, whichever of its branches `newPickerLocked` takes, the pool gets one new picker and nothing else besides a request to resolve: a picker that the factory made for exactly the usable connections, as warm as they are; and the latest picker goes on being made for the set that is kept beside it.
  pub serve_usable_correct :
      (b : Balancer P)
      → Current new_picker b
      → 0 < length (usable_conns b)
      → (p : P) × (MadeFor new_picker (usable_conns b) p)
        × ((new_picker_locked new_picker b).log
            ≡ (compute_usable_conns b).1.log
              ++ update_picker (picker p) (is_warm b (usable_conns b)) ∷ [])
        × Current new_picker (new_picker_locked new_picker b)
  serve_usable_correct b c h =
      let (p, made, logged, now) =
        serves new_picker (compute_usable_conns b).1 (usable_conns b) (compute-Current b c) h in
      let e = new_picker_some b h in
      (
        p,
        made,
        ap (λ t. t.log) e
            ∙ logged
            ∙ ap (λ w. (compute_usable_conns b).1.log ++ update_picker (picker p) w ∷ [])
                (is_warm_info new_picker (compute_usable_conns b).1 b (usable_conns b)
                  (compute_keeps b).2),
        subst (Current new_picker) (sym e) now,
      )

  -- Without a usable connection, the last that the pool hears is an error picker for no healthy connections, whatever addresses the resolver gave or did not give; the latest picker and its set are left as they were.
  pub serve_error_correct :
      (b : Balancer P)
      → length (usable_conns b) ≡ 0
      → ((new_picker_locked new_picker b).latest_picker ≡ b.latest_picker)
        × ((new_picker_locked new_picker b).latest_usable_conns ≡ b.latest_usable_conns)
        × ((first_calls : List (Call P)) × ((new_picker_locked new_picker b).log
              ≡ first_calls ++ update_picker (error_picker no_healthy_connections) false ∷ []))
  serve_error_correct b h =
      let e = new_picker_none b h in
      let (p, u, (calls, l)) = serve_error_keeps (compute_usable_conns b).1 in
      (
        ap (λ t. t.latest_picker) e ∙ p ∙ (compute_keeps b).0,
        ap (λ t. t.latest_usable_conns) e ∙ u ∙ (compute_keeps b).1,
        (calls, ap (λ t. t.log) e ∙ l),
      )
