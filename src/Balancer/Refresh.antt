-- ===== src/Balancer/Refresh.antt =====
-- balancer.go, newPickerLocked, its branch for some usable connections: the picker that is served.
use httplb.Prelude.{
  ℕ, ◌<◌, ◌≡◌, refl, sym, ap, ap₂, ◌∙◌, subst, inl, inr, true, false, ◌&&◌, ◌||◌, Option, none,
  some, List, [], ◌∷◌, ◌++◌, arith, ==-refl, Bool-cases, length, contains, IsNodup, SameSet,
}
use mathlib.Core.Bool.{false≢true}
use httplb.Prelude.Int.{eq_ℤ}
use httplb.Health.State.{healthy, unknown}
use httplb.Balancer.{
  ConnInfo, Balancer, Served, picker, nil_picker, update_picker, add_call, is_warm, set_equals,
  set_from_slice, serve_usable,
}
use httplb.Balancer.Sets.{set_equals_correct, contains-set_from_slice, set_from_slice-IsNodup}

module _ {P : Type 0} (new_picker : Option P → List ℕ → P) where
  -- `p` was made by the factory for the connections of the set
  abbrev pub MadeFor : List ℕ → P → Type 0
  MadeFor us p = (prev : Option P) × (cs : List ℕ) × (p ≡ new_picker prev cs) × SameSet cs us

  abbrev pub MadeOrNone : List ℕ → Option P → Type 0
  MadeOrNone us none = us ≡ []
  MadeOrNone us (some p) = MadeFor us p

  -- the latest picker was made for the set that is kept beside it
  abbrev pub Current : Balancer P → Type 0
  Current b = IsNodup b.latest_usable_conns × MadeOrNone b.latest_usable_conns b.latest_picker

  the_picker :
      (us usable : List ℕ) (o : Option P)
      → SameSet us usable
      → 0 < length usable
      → MadeOrNone us o
      → (p : P) × (o ≡ some p) × MadeFor us p
  the_picker us [] o s h m = absurd (omega arith)
  the_picker us (c ∷ cs) none s h m =
      absurd (false≢true (sym (ap (λ t. contains t c) m) ∙ s c ∙ ground (arith, ==-refl c)))
  the_picker us (c ∷ cs) (some p) s h m = (p, refl, m)

  abbrev info_from : Option ConnInfo → ConnInfo
  info_from o = elim o [ some info ↦ info | none ↦ record { state = unknown; warm = false } ]

  abbrev renew : Balancer P → List ℕ → Balancer P
  renew b usable = record b {
    latest_picker = some (new_picker b.latest_picker usable);
    latest_usable_conns = set_from_slice usable;
  }

  abbrev served_by : Option P → Served P
  served_by (some p) = picker p
  served_by none = nil_picker

  pub is_warm_info :
      (b b' : Balancer P) (cs : List ℕ) → b.conn_info ≡ b'.conn_info → is_warm b cs ≡ is_warm b' cs
  unfolding is_warm
  is_warm_info b b' [] e = refl
  is_warm_info b b' (c ∷ cs) e =
      ap₂ (λ s t. s || t)
        (ap (λ f. (info_from (f c)).warm && eq_ℤ (info_from (f c)).state healthy) e)
        (is_warm_info b b' cs e)

  serve_new :
      (b : Balancer P) (usable : List ℕ)
      → set_equals (set_from_slice usable) b.latest_usable_conns ≡ false
      → serve_usable new_picker b usable
        ≡ add_call (renew b usable) (
            update_picker
              (picker (new_picker b.latest_picker usable))
              (is_warm (renew b usable) usable))
  unfolding serve_usable
  serve_new b usable e = ground (arith, e)

  serve_same :
      (b : Balancer P) (usable : List ℕ)
      → set_equals (set_from_slice usable) b.latest_usable_conns ≡ true
      → serve_usable new_picker b usable
        ≡ add_call b (update_picker (served_by b.latest_picker) (is_warm b usable))
  unfolding serve_usable
  serve_same b usable e = ground (arith, e)

  -- what serve_usable leaves
  abbrev pub Serves : Balancer P → List ℕ → Type 0
  Serves b usable =
      (p : P) × (MadeFor usable p)
      × ((serve_usable new_picker b usable).log
          ≡ b.log ++ update_picker (picker p) (is_warm b usable) ∷ [])
      × Current (serve_usable new_picker b usable)

  renewed :
      (b : Balancer P) (usable : List ℕ)
      → set_equals (set_from_slice usable) b.latest_usable_conns ≡ false
      → Serves b usable
  renewed b usable e =
      let p = new_picker b.latest_picker usable in
      (
        p,
        (b.latest_picker, usable, refl, λ a. refl),
        ap (λ t. t.log) (serve_new b usable e)
            ∙ ap (λ w. b.log ++ update_picker (picker p) w ∷ [])
                (is_warm_info (renew b usable) b usable refl),
        subst Current (sym (serve_new b usable e)) (
          set_from_slice-IsNodup usable,
          (b.latest_picker, usable, refl, λ a. sym (contains-set_from_slice usable a)),
        ),
      )

  kept :
      (b : Balancer P) (usable : List ℕ)
      → set_equals (set_from_slice usable) b.latest_usable_conns ≡ true
      → Current b
      → 0 < length usable
      → Serves b usable
  kept b usable e c h =
      let same : SameSet b.latest_usable_conns usable = λ a.
        sym ((set_equals_correct _ _ (set_from_slice-IsNodup usable) c.0).0 e a)
        ∙ contains-set_from_slice usable a in
      let (p, is_p, (prev, cs, made, cs_same)) =
        the_picker b.latest_usable_conns usable b.latest_picker same h c.1 in
      (
        p,
        (prev, cs, made, λ a. cs_same a ∙ same a),
        ap (λ t. t.log) (serve_same b usable e)
            ∙ ap (λ o. b.log ++ update_picker (served_by o) (is_warm b usable) ∷ []) is_p,
        subst Current (sym (serve_same b usable e)) c,
      )

  pub serves : (b : Balancer P) (usable : List ℕ) → Current b → 0 < length usable → Serves b usable
  serves b usable c h =
      elim (Bool-cases (set_equals (set_from_slice usable) b.latest_usable_conns)) [
        | inl e ↦ kept b usable e c h
        | inr e ↦ renewed b usable e
      ]
