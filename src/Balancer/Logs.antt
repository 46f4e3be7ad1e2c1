-- ===== src/Balancer/Logs.antt =====
-- balancer.go, updateConns and newPickerLocked: which calls they make, in their order.
use httplb.Prelude.{
  ℕ, ◌≡◌, refl, sym, ap, ◌∙◌, inl, inr, Bool, true, false, Option, none, some, List, [], ◌∷◌, ◌++◌,
  map, append-nil, append_assoc, arith, ◌==◌, if◌then◌else◌, ==→eq, Bool-cases, length, keep, All,
  update, contains,
}
use httplb.Health.State.{unknown}
use httplb.Balancer.{
  Balancer, Call, Served, picker, error_picker, update_picker, resolve_now, remove_conn, cancel,
  close_checker, new_checker, no_healthy_connections, resolver_returned_no_addresses, add_call,
  usable_conns, must_resolve, compute_usable_conns, is_warm, set_error_picker, serve_error,
  new_picker_locked,
}
use httplb.Balancer.Refresh.{Current}
use httplb.Balancer.Serve.{new_picker_none, serve_usable_correct}
use httplb.Balancer.Connections.{Sorted, sort_conn, sort_conns, init_conn_info}
use httplb.Balancer.Sorting.{sort_conn_removed, sort_conn_kept}

-- a call that is made while a picker is chosen: nothing is closed, cancelled or removed by it
abbrev pub OfPicker : {P : Type 0} → Call P → Type 0
OfPicker (update_picker served warm) = Unit
OfPicker resolve_now = Unit
OfPicker (remove_conn c) = ⊥
OfPicker (cancel c) = ⊥
OfPicker (close_checker c) = ⊥
OfPicker (new_checker c) = ⊥

module _ {P : Type 0} where
  log_step :
      (remove : List ℕ) (s : Sorted P) (c : ℕ) (cs : List ℕ)
      → (sort_conn remove s c).rest.log ++ map cancel cs
        ≡ s.rest.log ++ map cancel (if contains remove c then c ∷ cs else cs)
  log_step remove s c cs = elim (Bool-cases (contains remove c)) [
    | inl e ↦
        ap (λ t. t.rest.log ++ map cancel cs) (sort_conn_removed remove s c e)
        ∙ append_assoc s.rest.log (cancel c ∷ []) (map cancel cs)
        ∙ ap (λ m. s.rest.log ++ map cancel (if m then c ∷ cs else cs)) (sym e)
    | inr e ↦
        ap (λ t. t.rest.log ++ map cancel cs) (sort_conn_kept remove s c e)
        ∙ ap (λ m. s.rest.log ++ map cancel (if m then c ∷ cs else cs)) (sym e)
  ]

  -- The contexts of the removed connections are cancelled, in their order.
  pub sort_conns_log :
      (remove : List ℕ) (cs : List ℕ) (s : Sorted P)
      → (sort_conns remove s cs).rest.log ≡ s.rest.log ++ map cancel (keep (contains remove) cs)
  unfolding sort_conns
  sort_conns_log remove [] s = sym (append-nil _)
  sort_conns_log remove (c ∷ cs) s =
      sort_conns_log remove cs (sort_conn remove s c) ∙ log_step remove s c _

  -- Each new connection gets a health check, in their order.
  pub init_conn_info_log :
      (cs : List ℕ) (b : Balancer P) → (init_conn_info b cs).log ≡ b.log ++ map new_checker cs
  unfolding init_conn_info
  init_conn_info_log [] b = sym (append-nil _)
  init_conn_info_log (c ∷ cs) b =
      init_conn_info_log cs (record (add_call b (new_checker c)) {
        conn_info = update b.conn_info c (some (record { state = unknown; warm = false }));
      })
      ∙ append_assoc b.log (new_checker c ∷ []) (map new_checker cs)

  -- What the pool hears: some calls of the picker's choice, and then a picker as the last.
  abbrev pub Chosen : List (Call P) → List (Call P) → Type 0
  Chosen before after =
      (during : List (Call P)) × (served : Served P) × (warm : Bool) × All OfPicker during
      × (after ≡ (before ++ during) ++ update_picker served warm ∷ [])

  compute_log :
      (b : Balancer P)
      → (during : List (Call P)) × All OfPicker during
        × ((compute_usable_conns b).1.log ≡ b.log ++ during)
  unfolding compute_usable_conns
  compute_log b =
      elim (must_resolve b)
        as (λ m.
          (during : List (Call P)) × All OfPicker during
          × ((if m then add_call b resolve_now else b).log ≡ b.log ++ during)) [
            | true ↦ (resolve_now ∷ [], (tt, tt), refl)
            | false ↦ ([], tt, sym (append-nil b.log))
          ]

  serve_error_log : (b : Balancer P) → Chosen b.log (serve_error b).log
  unfolding serve_error set_error_picker
  serve_error_log b =
      let no_addrs : Bool = elim b.latest_addrs [ none ↦ true | some addrs ↦ length addrs == 0 ] in
      elim no_addrs
        as (λ m. Chosen b.log (
          (if m then set_error_picker b resolver_returned_no_addresses else b).log
          ++ update_picker (error_picker no_healthy_connections) false ∷ [])) [
            | true ↦ (
              update_picker (error_picker resolver_returned_no_addresses) false ∷ [],
              error_picker no_healthy_connections,
              false,
              (tt, tt),
              refl,
            )
            | false ↦ (
              [],
              error_picker no_healthy_connections,
              false,
              tt,
              ap (λ l. l ++ update_picker (error_picker no_healthy_connections) false ∷ [])
                  (sym (append-nil b.log)),
            )
          ]

All-join :
    {P : Type 0} (xs ys : List (Call P))
    → All OfPicker xs
    → All OfPicker ys
    → All OfPicker (xs ++ ys)
All-join [] ys h k = k
All-join (x ∷ xs) ys h k = (h.0, All-join xs ys h.1 k)

pub new_picker-Chosen :
    {P : Type 0} (new_picker : Option P → List ℕ → P) (b : Balancer P)
    → Current new_picker b
    → Chosen b.log (new_picker_locked new_picker b).log
new_picker-Chosen new_picker b c =
    let (first, quiet, logged) = compute_log b in
    elim (Bool-cases (length (usable_conns b) == 0)) [
      | inl e ↦
          let (during, served, warm, calm, ends) = serve_error_log (compute_usable_conns b).1 in
          (
            first ++ during,
            served,
            warm,
            All-join first during quiet calm,
            ap (λ t. t.log) (new_picker_none new_picker b (==→eq _ _ e))
                ∙ ends
                ∙ ap (λ l. (l ++ during) ++ update_picker served warm ∷ []) logged
                ∙ ap (λ l. l ++ update_picker served warm ∷ []) (append_assoc b.log first during),
          )
      | inr e ↦
          let (p, made, ends, now) = serve_usable_correct new_picker b c (ground (arith, e)) in
          let warm = is_warm b (usable_conns b) in
          (
            first,
            picker p,
            warm,
            quiet,
            ends ∙ ap (λ l. l ++ update_picker (picker p) warm ∷ []) logged,
          )
    ]
