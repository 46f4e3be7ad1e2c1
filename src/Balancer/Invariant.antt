-- ===== src/Balancer/Invariant.antt =====
-- balancer.go: what holds of the balancer's state between the calls of its methods.
use httplb.Prelude.{
  ℕ, ◌≡◌, refl, sym, ap, ◌∙◌, subst, inl, inr, Bool, true, false, Option, none, some, List, arith,
  ◌==◌, if◌then◌else◌, ==→eq, Bool-cases, length, update, contains, IsNodup,
}
use httplb.Health.State.{State}
use httplb.Prelude.Int.{eq_ℤ}
use httplb.Balancer.{
  Balancer, ConnInfo, resolver_returned_no_addresses, add_call, usable_conns, must_resolve,
  resolve_now, compute_usable_conns, set_equals, set_from_slice, serve_error, serve_usable,
  set_error_picker, new_picker_locked, update_health_state, warmed_up,
}
use httplb.Balancer.Serve.{
  serve_usable_correct, serve_error_correct, new_picker_some, new_picker_none,
}
use httplb.Balancer.Refresh.{Current, MadeOrNone}

abbrev pub is_some : Option ConnInfo → Bool
is_some none = false
is_some (some info) = true

-- the connections are the keys of connInfo
abbrev pub Registered : {P : Type 0} → Balancer P → Type 0
Registered b = (c : ℕ) → is_some (b.conn_info c) ≡ contains b.conns c

abbrev SameConns : {P : Type 0} → Balancer P → Balancer P → Type 0
SameConns b b' = (b'.conns ≡ b.conns) × (b'.conn_info ≡ b.conn_info)

compute_conns : {P : Type 0} (b : Balancer P) → SameConns b (compute_usable_conns b).1
unfolding compute_usable_conns
compute_conns b =
    elim (must_resolve b) as (λ m. SameConns b (if m then add_call b resolve_now else b)) [
      | true ↦ (refl, refl)
      | false ↦ (refl, refl)
    ]

no_addrs_conns :
    {P : Type 0} (b : Balancer P) (m : Bool)
    → SameConns b (if m then set_error_picker b resolver_returned_no_addresses else b)
unfolding set_error_picker
no_addrs_conns b true = (refl, refl)
no_addrs_conns b false = (refl, refl)

serve_error_conns : {P : Type 0} (b : Balancer P) → SameConns b (serve_error b)
unfolding serve_error set_error_picker
serve_error_conns b =
    no_addrs_conns b (elim b.latest_addrs [ none ↦ true | some addrs ↦ length addrs == 0 ])

module _ {P : Type 0} (new_picker : Option P → List ℕ → P) where
  serve_usable_conns :
      (b : Balancer P) (usable : List ℕ) → SameConns b (serve_usable new_picker b usable)
  unfolding serve_usable
  serve_usable_conns b usable =
      elim (set_equals (set_from_slice usable) b.latest_usable_conns)
        as (λ m. SameConns b (
          if m then b else record b {
            latest_picker = some (new_picker b.latest_picker usable);
            latest_usable_conns = set_from_slice usable;
          })) [ true ↦ (refl, refl) | false ↦ (refl, refl) ]

  pub new_picker_conns : (b : Balancer P) → SameConns b (new_picker_locked new_picker b)
  new_picker_conns b =
      let k = compute_conns b in
      elim (Bool-cases (length (usable_conns b) == 0)) [
        | inl e ↦
            let q = new_picker_none new_picker b (==→eq _ _ e) in
            let s = serve_error_conns (compute_usable_conns b).1 in
            (ap (λ t. t.conns) q ∙ s.0 ∙ k.0, ap (λ t. t.conn_info) q ∙ s.1 ∙ k.1)
        | inr e ↦
            let q = new_picker_some new_picker b (ground (arith, e)) in
            let s = serve_usable_conns (compute_usable_conns b).1 (usable_conns b) in
            (ap (λ t. t.conns) q ∙ s.0 ∙ k.0, ap (λ t. t.conn_info) q ∙ s.1 ∙ k.1)
      ]

  pub new_picker-Current :
      (b : Balancer P) → Current new_picker b → Current new_picker (new_picker_locked new_picker b)
  new_picker-Current b c = elim (Bool-cases (length (usable_conns b) == 0)) [
    | inl e ↦
        let (p, u, rest) = serve_error_correct new_picker b (==→eq _ _ e) in
        (
          subst IsNodup (sym u) c.0,
          subst (λ us. MadeOrNone new_picker us (new_picker_locked new_picker b).latest_picker)
              (sym u) (subst (MadeOrNone new_picker b.latest_usable_conns) (sym p) c.1),
        )
    | inr e ↦ (serve_usable_correct new_picker b c (ground (arith, e))).3
  ]

  -- The state is as it should be: the latest picker was made for the set kept beside it, and the connections are the keys of connInfo.
  abbrev pub Good : Balancer P → Type 0
  Good b = Current new_picker b × Registered b

  pub new_picker-Good : (b : Balancer P) → Good b → Good (new_picker_locked new_picker b)
  new_picker-Good b (c, r) =
      let (s, i) = new_picker_conns b in
      (
        new_picker-Current b c,
        λ a. ap (λ f. is_some (f a)) i ∙ r a ∙ ap (λ cs. contains cs a) (sym s),
      )

  relabel-Registered :
      (b : Balancer P) (c : ℕ) (old new : ConnInfo)
      → b.conn_info c ≡ some old
      → Registered b
      → Registered (record b { conn_info = update b.conn_info c (some new) })
  relabel-Registered b c old new e r a = elim (Bool-cases (c == a)) [
    | inl q ↦
        ap (λ t. is_some (if t then some new else b.conn_info a)) q
        ∙ sym (ap is_some (ap b.conn_info (sym (==→eq c a q)) ∙ e))
        ∙ r a
    | inr q ↦ ap (λ t. is_some (if t then some new else b.conn_info a)) q ∙ r a
  ]

  relabel-Good :
      (b : Balancer P) (c : ℕ) (old new : ConnInfo)
      → b.conn_info c ≡ some old
      → Good b
      → Good
          (new_picker_locked new_picker (record b { conn_info = update b.conn_info c (some new) }))
  relabel-Good b c old new e (now, r) =
      new_picker-Good (record b { conn_info = update b.conn_info c (some new) })
        (now, relabel-Registered b c old new e r)

  -- the two handlers, by what they find
  abbrev on_health : Balancer P → ℕ → State → Option ConnInfo → Balancer P
  on_health b c s o = elim o [
    | none ↦ b
    | some info ↦
        if eq_ℤ info.state s
        then b
        else new_picker_locked new_picker
            (record b { conn_info = update b.conn_info c (some (record info { state = s })) })
  ]

  on_health-Good :
      (b : Balancer P) (c : ℕ) (s : State) (o : Option ConnInfo)
      → b.conn_info c ≡ o
      → Good b
      → Good (on_health b c s o)
  on_health-Good b c s none e g = g
  on_health-Good b c s (some info) e g =
      elim (eq_ℤ info.state s)
        as (λ m. Good (
          if m
          then b
          else new_picker_locked new_picker
              (record b { conn_info = update b.conn_info c (some (record info { state = s })) }))) [
                | true ↦ g
                | false ↦ relabel-Good b c info _ e g
              ]

  abbrev on_warm : Balancer P → ℕ → Option ConnInfo → Balancer P
  on_warm b c o = elim o [
    | none ↦ b
    | some info ↦
        new_picker_locked new_picker
          (record b { conn_info = update b.conn_info c (some (record info { warm = true })) })
  ]

  on_warm-Good :
      (b : Balancer P) (c : ℕ) (o : Option ConnInfo)
      → b.conn_info c ≡ o
      → Good b
      → Good (on_warm b c o)
  on_warm-Good b c none e g = g
  on_warm-Good b c (some info) e g = relabel-Good b c info _ e g

  -- A state is kept as it should be by an update of a connection's health, whether the connection is known, gone or in that state already.
  pub update_health_state-Good :
      (b : Balancer P) (c : ℕ) (s : State) → Good b → Good (update_health_state new_picker b c s)
  unfolding update_health_state
  update_health_state-Good b c s g = on_health-Good b c s (b.conn_info c) refl g

  -- The same holds when a connection has become warm.
  pub warmed_up-Good : (b : Balancer P) (c : ℕ) → Good b → Good (warmed_up new_picker b c)
  unfolding warmed_up
  warmed_up-Good b c g = on_warm-Good b c (b.conn_info c) refl g
