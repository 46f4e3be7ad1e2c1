-- ===== src/Transport/Main/Kept.antt =====
-- A pool that has been handed out stays stored until its goroutine has looked at it.
use httplb.Prelude.{
  ℕ, ◌<◌, ◌≡◌, refl, sym, ap, ◌∙◌, subst, inl, inr, Bool, true, false, Option, none, some, List, [],
  ◌∷◌, arith, ◌==◌, if◌then◌else◌, ==-refl, Bool-cases, if_cases, get_elem?, update,
}
use httplb.Transport.Target.{Target, same, same_iff}
use httplb.Transport.Main.{
  Entry, MainTransport, find, delete, get_pool_locked, add_pool, check_target, is_kept_warm,
  make_pool, failed, got, Got, try_remove_pool, remove_pool, end_watcher, timer, close_when_idle,
  close_begin, close_keep_warm_pools, pool_closed, Event, get, create, wake, root_done,
  close_called, closed_warm, pool_done, step, run,
}
use httplb.Transport.Main.Table.{find-delete, All_of_get, find-keep_cold}
use httplb.Transport.Main.Invariant.{cold, Good, step-Good}
use httplb.Transport.Main.Cases.{
  touched, get_pool_locked_lem, close_when_idle_cases, create_pool_cases, option_clash,
}

-- whether an event is the goroutine of pool p looking at its channels
abbrev pub is_look : MainTransport → ℕ → Event → Bool
is_look m p (wake i w) = elim (get_elem? m.watchers i) [ none ↦ false | some (dest, q) ↦ q == p ]
is_look m p _ = false

abbrev pub Unlooked : MainTransport → ℕ → List Event → Type 0
Unlooked m p [] = Unit
Unlooked m p (e ∷ events) = (is_look m p e ≡ false) × Unlooked (step m e) p events

-- stored for its target, with a value in its channel
pub record Kept (dest : Target) (p : ℕ) (m : MainTransport) : Type 0 where
  pub stored : find dest m.pools ≡ some (cold p)
  pub seen : m.activity p ≡ true
  pub made : p < m.next_pool

touched_seen :
    (m : MainTransport) (dest : Target) (p : ℕ) → m.activity p ≡ true → touched m dest p ≡ true
unfolding touched
touched_seen m dest p h =
    elim (find dest m.pools)
      as (λ o.
        (let f : ℕ → Bool = elim o [
          | none ↦ m.activity
          | some e ↦ if e.keep_warm then m.activity else update m.activity e.pool true
        ] in
          f p)
        ≡ true) [
          | none ↦ h
          | some e ↦
              if_cases (λ (f : ℕ → Bool). f p ≡ true) e.keep_warm m.activity
                (update m.activity e.pool true) (λ _. h) (λ _. ground (arith, h))
        ]

get-Kept :
    (m : MainTransport) (d dest : Target) (p : ℕ)
    → Kept dest p m
    → Kept dest p (get_pool_locked m d).1
get-Kept m d dest p k =
    rw (get_pool_locked_lem m d)
      (record { stored = k.stored; seen = touched_seen m d p k.seen; made = k.made })

different :
    (m : MainTransport) (d dest : Target) (e : Entry)
    → find d m.pools ≡ none
    → find dest m.pools ≡ some e
    → same d dest ≡ false
different m d dest e absent here = elim (Bool-cases (same d dest)) [
  | inl s ↦
      absurd (option_clash (subst (λ x. find x m.pools ≡ none) ((same_iff d dest).0 s) absent) here)
  | inr s ↦ s
]

taken :
    (m : MainTransport) (dest : Target) (p : ℕ)
    → find dest m.pools ≡ some (cold p)
    → p < m.next_pool
    → Kept dest p (step m (get dest))
unfolding step touched
taken m dest p here made = rw (get_pool_locked_lem m dest) (record {
  stored = here;
  seen =
      ap
        (λ (o : Option Entry).
          let f : ℕ → Bool = elim o [
            | none ↦ m.activity
            | some e ↦ if e.keep_warm then m.activity else update m.activity e.pool true
          ] in
          f p)
        here
      ∙ ap (λ b. if b then true else m.activity p) (==-refl p);
  made = made;
})

make-Kept :
    (m : MainTransport) (d dest : Target) (p : ℕ)
    → find d m.pools ≡ none
    → Kept dest p m
    → Kept dest p (make_pool m d).1
unfolding make_pool add_pool find
make-Kept m d dest p absent k =
    elim (check_target m.client_options d)
      as (λ c. Kept dest p (
        let r : Got × MainTransport = elim c [
          | some e ↦ (failed e, m)
          | none ↦ (got m.next_pool, add_pool m d (is_kept_warm m.client_options))
        ] in
        r.1)) [
          | none ↦ record {
            stored =
                ap
                  (λ b.
                    if b
                    then some
                        (record { pool = m.next_pool; keep_warm = is_kept_warm m.client_options })
                    else find dest m.pools)
                  (different m d dest (cold p) absent k.stored)
                ∙ k.stored;
            seen = ground (arith, k.seen, k.made);
            made = omega (arith, k.made);
          }
          | some e ↦ k
        ]

end-Kept :
    (m : MainTransport) (i : ℕ) (d dest : Target) (p q : ℕ)
    → find d m.pools ≡ some (cold q)
    → (q == p) ≡ false
    → Kept dest p m
    → Kept dest p (end_watcher (remove_pool m d) i q)
unfolding end_watcher remove_pool
end-Kept m i d dest p q here other k =
    let elsewhere : same dest d ≡ false = elim (Bool-cases (same dest d)) [
      | inl s ↦
          let both : some (cold q) ≡ some (cold p) =
            sym here
            ∙ subst (λ x. find x m.pools ≡ some (cold p)) ((same_iff dest d).0 s) k.stored in
          absurd (ground (arith, both, other))
      | inr s ↦ s
    ] in
    record {
      stored =
          find-delete dest d m.pools
          ∙ ap (λ b. if b then none else find dest m.pools) elsewhere
          ∙ k.stored;
      seen = k.seen;
      made = k.made;
    }

step-Kept :
    (m : MainTransport) (e : Event) (dest : Target) (p : ℕ)
    → Good m
    → is_look m p e ≡ false
    → Kept dest p m
    → Kept dest p (step m e)
unfolding step close_begin close_keep_warm_pools pool_closed
step-Kept m (get d) dest p g look k = get-Kept m d dest p k
step-Kept m (create d) dest p g look k =
    create_pool_cases (Kept dest p) m d k (get-Kept m d dest p k) (λ absent.
      make-Kept (get_pool_locked m d).1 d dest p (rw (get_pool_locked_lem m d) absent)
        (get-Kept m d dest p k))
step-Kept m (wake i w) dest p g look k =
    elim (get_elem? m.watchers i)
        as (λ o.
          get_elem? m.watchers i ≡ o
          → elim o [ none ↦ false | some (d, q) ↦ q == p ] ≡ false
          → Kept dest p (elim o [ none ↦ m | some (d, q) ↦ close_when_idle m i d q w ])) [
            | none ↦ λ _ _. k
            | some (d, q) ↦ λ e other.
                let here : find d m.pools ≡ some (cold q) =
                  All_of_get (λ w. find (w.0) m.pools ≡ some (cold (w.1))) m.watchers i (d, q)
                    g.watched e in
                let ended : Kept dest p (end_watcher (remove_pool m d) i q) =
                  end-Kept m i d dest p q here other k in
                close_when_idle_cases (Kept dest p) m i d q w k
                  (record {
                    stored = k.stored;
                    seen = ground (arith, other, k.seen);
                    made = k.made;
                  })
                  (λ _ _. ended) (λ _ _. ended)
          ]
      refl look
step-Kept m root_done dest p g look k = record { stored = k.stored; seen = k.seen; made = k.made }
step-Kept m close_called dest p g look k = record {
  stored = k.stored;
  seen = k.seen;
  made = k.made;
}
step-Kept m closed_warm dest p g look k =
    if_cases (Kept dest p) m.closed (close_keep_warm_pools m) m
      (λ e. record {
        stored = find-keep_cold dest m.pools (cold p) k.stored refl;
        seen = k.seen;
        made = k.made;
      })
      (λ e. k)
step-Kept m (pool_done i) dest p g look k =
    elim (get_elem? m.closing i)
      as (λ o. Kept dest p (elim o [ none ↦ m | some q ↦ pool_closed m i ])) [
        | none ↦ k
        | some q ↦ record { stored = k.stored; seen = k.seen; made = k.made }
      ]

run-Kept :
    (m : MainTransport) (events : List Event) (dest : Target) (p : ℕ)
    → Good m
    → Unlooked m p events
    → Kept dest p m
    → Kept dest p (run m events)
unfolding run
run-Kept m [] dest p g u k = k
run-Kept m (e ∷ events) dest p g u k =
    run-Kept (step m e) events dest p (step-Good m e g) u.1 (step-Kept m e dest p g u.0 k)

timer_spares :
    (m : MainTransport) (i : ℕ) (dest : Target) (p : ℕ)
    → get_elem? m.watchers i ≡ some (dest, p)
    → Kept dest p m
    → find dest (step m (wake i timer)).pools ≡ some (cold p)
unfolding step close_when_idle try_remove_pool
timer_spares m i dest p at k =
    ap
      (λ (o : Option (Target × ℕ)).
        find dest
          (let r : MainTransport = elim o [
            | none ↦ m
            | some (d, q) ↦ close_when_idle m i d q timer
          ] in
            r).pools)
      at
    ∙ ap
        (λ b.
          find dest
            (let r : Bool × MainTransport =
                if b
                then (false, record m { activity = update m.activity p false })
                else (true, record m { pools = delete dest m.pools }) in
              if r.0 then end_watcher r.1 i p else r.1).pools)
        k.seen
    ∙ k.stored

-- If a request takes the pool p that is stored for a target, and whatever else happens before the goroutine of p looks at its channels again, then an idle timer that fires there finds the pool in use and leaves it stored.
pub active_pool_kept :
    (m : MainTransport) (dest : Target) (p : ℕ) (events : List Event) (i : ℕ)
    → Good m
    → find dest m.pools ≡ some (cold p)
    → p < m.next_pool
    → Unlooked (step m (get dest)) p events
    → get_elem? (run (step m (get dest)) events).watchers i ≡ some (dest, p)
    → find dest (step (run (step m (get dest)) events) (wake i timer)).pools ≡ some (cold p)
active_pool_kept m dest p events i g here made unlooked at =
    timer_spares (run (step m (get dest)) events) i dest p at (
      run-Kept (step m (get dest)) events dest p (step-Good m (get dest) g) unlooked
        (taken m dest p here made))
