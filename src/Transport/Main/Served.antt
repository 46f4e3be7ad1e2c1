-- ===== src/Transport/Main/Served.antt =====
-- Which targets a client serves, and what getOrCreatePool answers.
use httplb.Prelude.{
  ℕ, ◌≡◌, refl, sym, ap, ap₂, ◌∙◌, ◌⊎◌, inl, inr, true, false, Option, none, some, List, [], map,
  arith, if◌then◌else◌, if_cases, Option-cases,
}
use httplb.Transport.Target.{Target, same, same_iff}
use httplb.Client.{ClientOptions, Transport, Known, lookup}
use httplb.Client.Options.{new_client_options}
use httplb.Client.Last.{Choice, option_of, last, given, transport_in, target_in}
use httplb.Client.Configured.{new_client_correct}
use httplb.Client.Defaults.{scheme_transport, default_transport, or_else}
use httplb.Transport.Main.{
  Entry, MainTransport, find, get_pool_locked, add_pool, check_target, is_kept_warm, make_pool,
  create_pool, get_or_create_pool, Error, failed, got, Got, transport_is_closed, unsupported_scheme,
  target_not_allowed,
}
use httplb.Transport.Main.Cases.{
  get_pool_locked_lem, get_pool_locked_found, not_found, option_clash,
}

-- what a client with these options says of a target
abbrev pub verdict : List Choice → Target → Option Error
verdict cs dest =
    elim (or_else (given (last (transport_in dest.scheme) cs) none)
      (default_transport dest.scheme)) [
        | none ↦ some (unsupported_scheme dest.scheme)
        | some _ ↦ elim (given (last target_in cs) none) [
          | none ↦ none
          | some allowed ↦
              if same allowed dest then none else some (target_not_allowed dest allowed)
        ]
      ]

check_by :
    (opts : ClientOptions) (dest : Target)
    → check_target opts dest ≡ (elim (scheme_transport dest.scheme opts) [
      | none ↦ some (unsupported_scheme dest.scheme)
      | some _ ↦ elim opts.allowed_target [
        | none ↦ none
        | some allowed ↦ if same allowed dest then none else some (target_not_allowed dest allowed)
      ]
    ])
unfolding check_target lookup
check_by opts dest =
    elim opts.schemes
      as (λ s.
        (let e : Option Error =
            let transport : Option Transport = elim s [
              | none ↦ none
              | some schemes ↦ lookup dest.scheme schemes
            ] in
            elim transport [
              | none ↦ some (unsupported_scheme dest.scheme)
              | some _ ↦ elim opts.allowed_target [
                | none ↦ none
                | some allowed ↦
                    if same allowed dest then none else some (target_not_allowed dest allowed)
              ]
            ] in
          e)
        ≡ (elim (lookup dest.scheme (elim s [ none ↦ [] | some m ↦ m ])) [
          | none ↦ some (unsupported_scheme dest.scheme)
          | some _ ↦ elim opts.allowed_target [
            | none ↦ none
            | some allowed ↦
                if same allowed dest then none else some (target_not_allowed dest allowed)
          ]
        ])) [ none ↦ refl | some m ↦ refl ]

check_verdict :
    (k : Known) (cs : List Choice) (dest : Target)
    → check_target (new_client_options k (map (option_of k) cs)) dest ≡ verdict cs dest
check_verdict k cs dest =
    let configured = new_client_correct k cs in
    check_by (new_client_options k (map (option_of k) cs)) dest
    ∙ ap₂
        (λ (t : Option Transport) (a : Option Target).
          let e : Option Error = elim t [
            | none ↦ some (unsupported_scheme dest.scheme)
            | some _ ↦ elim a [
              | none ↦ none
              | some allowed ↦
                  if same allowed dest then none else some (target_not_allowed dest allowed)
            ]
          ] in
          e)
        (configured.transports dest.scheme) configured.target

-- An answer in the state `m'`, that a transport which may be closed gives: a pool is the one stored for
-- the target; an error other than being closed is the verdict, for a target with no pool, and nothing is stored.
abbrev pub Answer : Type 0 → MainTransport → List Choice → Target → Got → MainTransport → Type 0
Answer Closed m' cs dest (got p) after =
    (e : Entry) × (find dest after.pools ≡ some e) × (e.pool ≡ p)
Answer Closed m' cs dest (failed e) after =
    ((e ≡ transport_is_closed) × Closed)
    ⊎ ((verdict cs dest ≡ some e) × (find dest m'.pools ≡ none) × (after.pools ≡ m'.pools))

-- the pool that getPoolLocked finds is the one stored
found-Answer :
    (Closed : Type 0) (m' m : MainTransport) (cs : List Choice) (dest : Target) (p : ℕ)
    → (get_pool_locked m dest).0 ≡ some p
    → Answer Closed m' cs dest (got p) (get_pool_locked m dest).1
found-Answer Closed m' m cs dest p e = elim (Option-cases (find dest m.pools)) [
  | inl absent ↦
      let nothing : (get_pool_locked m dest).0 ≡ none =
        get_pool_locked_found m dest
        ∙ ap
            (λ (o : Option Entry).
              let r : Option ℕ = elim o [ none ↦ none | some e ↦ some e.pool ] in r)
            absent in
      absurd (option_clash nothing e)
  | inr (entry, here) ↦
      let found : (get_pool_locked m dest).0 ≡ some entry.pool =
        get_pool_locked_found m dest
        ∙ ap
            (λ (o : Option Entry).
              let r : Option ℕ = elim o [ none ↦ none | some e ↦ some e.pool ] in r)
            here in
      (entry, rw (get_pool_locked_lem m dest) here, ground (arith, found, e))
]

make-Answer :
    (Closed : Type 0) (m' m : MainTransport) (cs : List Choice) (dest : Target)
    → m.pools ≡ m'.pools
    → check_target m.client_options dest ≡ verdict cs dest
    → find dest m.pools ≡ none
    → Answer Closed m' cs dest (make_pool m dest).0 (make_pool m dest).1
unfolding make_pool add_pool find
make-Answer Closed m' m cs dest same_pools check absent =
    elim (check_target m.client_options dest)
        as (λ c.
          c ≡ verdict cs dest
          → (let r : Got × MainTransport = elim c [
            | some e ↦ (failed e, m)
            | none ↦ (got m.next_pool, add_pool m dest (is_kept_warm m.client_options))
          ] in
              Answer Closed m' cs dest r.0 r.1)) [
                | none ↦ λ _. (
                  record { pool = m.next_pool; keep_warm = is_kept_warm m.client_options },
                  ap
                      (λ b.
                        if b
                        then some (record {
                          pool = m.next_pool;
                          keep_warm = is_kept_warm m.client_options;
                        })
                        else find dest m.pools)
                      ((same_iff dest dest).1 refl),
                  refl,
                )
                | some e ↦ λ v. inr (sym v, ap (find dest) (sym same_pools) ∙ absent, same_pools)
              ]
      check

-- how the branches of getOrCreatePool and of its locked part fit together
branches :
    (Closed : Type 0) (m' m : MainTransport) (cs : List Choice) (dest : Target)
    (on_closed : MainTransport) (rest : Got × MainTransport)
    → (m.closed ≡ true → Closed)
    → ((get_pool_locked m dest).0 ≡ none
        → m.closed ≡ false
        → Answer Closed m' cs dest rest.0 rest.1)
    → (let r : Got × MainTransport =
          if m.closed
          then (failed transport_is_closed, on_closed)
          else elim (get_pool_locked m dest).0 [
            | none ↦ rest
            | some p ↦ (got p, (get_pool_locked m dest).1)
          ] in
        Answer Closed m' cs dest r.0 r.1)
branches Closed m' m cs dest on_closed rest closed go =
    if_cases (λ (r : Got × MainTransport). Answer Closed m' cs dest r.0 r.1) m.closed
      (failed transport_is_closed, on_closed)
      (elim (get_pool_locked m dest).0 [
        | none ↦ rest
        | some p ↦ (got p, (get_pool_locked m dest).1)
      ])
      (λ c. inl (refl, closed c))
      (λ c.
        elim (get_pool_locked m dest).0
            as (λ o.
              (get_pool_locked m dest).0 ≡ o
              → (let r : Got × MainTransport = elim o [
                | none ↦ rest
                | some p ↦ (got p, (get_pool_locked m dest).1)
              ] in
                  Answer Closed m' cs dest r.0 r.1)) [
                    | none ↦ λ e. go e c
                    | some p ↦ λ e. found-Answer Closed m' m cs dest p e
                  ]
          refl)

create-Answer :
    (Closed : Type 0) (m : MainTransport) (k : Known) (cs : List Choice) (dest : Target)
    → m.client_options ≡ new_client_options k (map (option_of k) cs)
    → (m.closed ≡ true → Closed)
    → Answer Closed m cs dest (create_pool m dest).0 (create_pool m dest).1
unfolding create_pool
create-Answer Closed m k cs dest opts closed =
    branches Closed m m cs dest m (make_pool (get_pool_locked m dest).1 dest) closed (λ e c.
      make-Answer Closed m (get_pool_locked m dest).1 cs dest
        (ap (λ (x : MainTransport). x.pools) (get_pool_locked_lem m dest))
        (ap (λ (x : MainTransport). check_target x.client_options dest) (get_pool_locked_lem m dest)
          ∙ ap (λ o. check_target o dest) opts
          ∙ check_verdict k cs dest)
        (ap (λ (x : MainTransport). find dest x.pools) (get_pool_locked_lem m dest)
          ∙ not_found m dest e))

-- Whatever other goroutines do between the two times that getOrCreatePool holds the lock, it either returns the pool that is then stored for the target, or the error that the transport is closed, which it then is, or the verdict on the target: its scheme has no transport by the options of the client, or the client allows requests to another target only; in that case no pool is stored.
pub get_or_create_correct :
    (others : MainTransport → MainTransport) (m : MainTransport) (k : Known) (cs : List Choice)
    (dest : Target)
    → (others (get_pool_locked m dest).1).client_options
      ≡ new_client_options k (map (option_of k) cs)
    → let m' : MainTransport = others (get_pool_locked m dest).1 in
      let r : Got × MainTransport = get_or_create_pool others m dest in
      Answer ((m.closed ≡ true) ⊎ (m'.closed ≡ true)) m' cs dest r.0 r.1
unfolding get_or_create_pool
get_or_create_correct others m k cs dest opts =
    let m' : MainTransport = others (get_pool_locked m dest).1 in
    branches ((m.closed ≡ true) ⊎ (m'.closed ≡ true)) m' m cs dest (get_pool_locked m dest).1
      (create_pool m' dest) inl
      (λ e c. create-Answer ((m.closed ≡ true) ⊎ (m'.closed ≡ true)) m' k cs dest opts inr)
