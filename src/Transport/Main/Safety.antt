-- ===== src/Transport/Main/Safety.antt =====
-- What a closed transport no longer does, and which pools the idle timers leave alone.
use httplb.Prelude.{
  ℕ, ◌≡◌, refl, sym, ap, ◌∙◌, subst, inl, inr, Bool, true, none, some, List, [], ◌∷◌, arith,
  if◌then◌else◌, Bool-cases, if_cases, get_elem?, keep,
}
use httplb.Transport.Target.{Target, same, same_iff}
use httplb.Transport.Main.{
  Entry, Table, MainTransport, find, delete, get_pool_locked, make_pool, create_pool,
  get_or_create_pool, failed, got, Got, transport_is_closed, remove_pool, end_watcher,
  close_when_idle, close_begin, close_keep_warm_pools, pool_closed, Event, get, create, wake,
  root_done, close_called, closed_warm, pool_done, step, run,
}
use httplb.Transport.Main.Table.{Unique, find-delete}
use httplb.Transport.Main.Invariant.{Good, step-Good}
use httplb.Transport.Main.Cases.{option_clash, get_pool_locked_lem, close_when_idle_cases}

-- no pool has been made since, and none is stored that was not stored then
pub record Shut (m m' : MainTransport) : Type 0 where
  pub closed : m'.closed ≡ true
  pub none_made : m'.next_pool ≡ m.next_pool
  pub only_old :
      (dest : Target) (e : Entry) → find dest m'.pools ≡ some e → find dest m.pools ≡ some e

find-keep-some :
    (a : Target) (p : Target × Entry → Bool) (table : Table) (f : Entry)
    → Unique table
    → find a (keep p table) ≡ some f
    → find a table ≡ some f
unfolding find
find-keep-some a p [] f u h = h
find-keep-some a p ((k, e) ∷ table) f u h = elim (Bool-cases (p (k, e))) [
  | inl s ↦ ground (arith, s, h, find-keep-some a p table f u.1)
  | inr s ↦
      let later : find a table ≡ some f = find-keep-some a p table f u.1 (ground (arith, s, h)) in
      elim (Bool-cases (same k a)) [
        | inl e' ↦
            let eq : k ≡ a = (same_iff k a).0 e' in
            absurd (option_clash (subst (λ x. find x table ≡ none) eq u.0) later)
        | inr e' ↦ ground (arith, e', later)
      ]
]

find-delete-some :
    (a d : Target) (table : Table) (f : Entry)
    → find a (delete d table) ≡ some f
    → find a table ≡ some f
find-delete-some a d table f h = elim (Bool-cases (same a d)) [
  | inl e ↦
      let gone : find a (delete d table) ≡ none =
        find-delete a d table ∙ ap (λ b. if b then none else find a table) e in
      absurd (option_clash gone h)
  | inr e ↦ sym (find-delete a d table ∙ ap (λ b. if b then none else find a table) e) ∙ h
]

create_when_closed :
    (m : MainTransport) (dest : Target) → m.closed ≡ true → (create_pool m dest).1 ≡ m
unfolding create_pool
create_when_closed m dest c =
    ap
      (λ b.
        let r : Got × MainTransport =
          if b then (failed transport_is_closed, m) else elim (get_pool_locked m dest).0 [
            | none ↦ make_pool (get_pool_locked m dest).1 dest
            | some p ↦ (got p, (get_pool_locked m dest).1)
          ] in
        r.1)
      c

removed-Shut :
    (m : MainTransport) (i : ℕ) (dest : Target) (p : ℕ)
    → m.closed ≡ true
    → Shut m (end_watcher (remove_pool m dest) i p)
unfolding end_watcher remove_pool
removed-Shut m i dest p c = record {
  closed = c;
  none_made = refl;
  only_old = λ a f h. find-delete-some a dest m.pools f h;
}

step-Shut : (m : MainTransport) (e : Event) → Good m → m.closed ≡ true → Shut m (step m e)
unfolding step close_begin close_keep_warm_pools pool_closed
step-Shut m (get dest) g c =
    rw (get_pool_locked_lem m dest) (record { closed = c; none_made = refl; only_old = λ a f h. h })
step-Shut m (create dest) g c =
    rw (create_when_closed m dest c)
      (record { closed = c; none_made = refl; only_old = λ a f h. h })
step-Shut m (wake i w) g c =
    elim (get_elem? m.watchers i)
      as (λ o. Shut m (elim o [ none ↦ m | some (dest, p) ↦ close_when_idle m i dest p w ])) [
        | none ↦ record { closed = c; none_made = refl; only_old = λ a f h. h }
        | some (dest, p) ↦
            let ended : Shut m (end_watcher (remove_pool m dest) i p) = removed-Shut m i dest p c in
            close_when_idle_cases (Shut m) m i dest p w
              (record { closed = c; none_made = refl; only_old = λ a f h. h })
              (record { closed = c; none_made = refl; only_old = λ a f h. h }) (λ _ _. ended)
              (λ _ _. ended)
      ]
step-Shut m root_done g c = record { closed = c; none_made = refl; only_old = λ a f h. h }
step-Shut m close_called g c = record { closed = refl; none_made = refl; only_old = λ a f h. h }
step-Shut m closed_warm g c =
    if_cases (Shut m) m.closed (close_keep_warm_pools m) m
      (λ e. record {
        closed = c;
        none_made = refl;
        only_old = λ a f h. find-keep-some a _ m.pools f g.unique h;
      })
      (λ e. record { closed = c; none_made = refl; only_old = λ a f h. h })
step-Shut m (pool_done i) g c =
    elim (get_elem? m.closing i) as (λ o. Shut m (elim o [ none ↦ m | some p ↦ pool_closed m i ])) [
      | none ↦ record { closed = c; none_made = refl; only_old = λ a f h. h }
      | some p ↦ record { closed = c; none_made = refl; only_old = λ a f h. h }
    ]

pub get_or_create_pool-closed :
    (others : MainTransport → MainTransport) (m : MainTransport) (dest : Target)
    → m.closed ≡ true
    → (get_or_create_pool others m dest).0 ≡ failed transport_is_closed
unfolding get_or_create_pool
get_or_create_pool-closed others m dest c =
    ap
      (λ b.
        let r : Got × MainTransport =
          if b
          then (failed transport_is_closed, (get_pool_locked m dest).1)
          else elim (get_pool_locked m dest).0 [
            | none ↦ create_pool (others (get_pool_locked m dest).1) dest
            | some p ↦ (got p, (get_pool_locked m dest).1)
          ] in
        r.0)
      c

run-Shut :
    (m : MainTransport) (events : List Event) → Good m → m.closed ≡ true → Shut m (run m events)
unfolding run
run-Shut m [] g c = record { closed = c; none_made = refl; only_old = λ a f h. h }
run-Shut m (e ∷ events) g c =
    let one = step-Shut m e g c in
    let rest = run-Shut (step m e) events (step-Good m e g) one.closed in
    record {
      closed = rest.closed;
      none_made = rest.none_made ∙ one.none_made;
      only_old = λ a f h. one.only_old a f (rest.only_old a f h);
    }

-- Once the transport has been closed, whatever happens next makes no pool and stores none that was not stored then, and every request for a pool is refused as the transport is closed.
pub closed_makes_none :
    (m : MainTransport)
    → Good m
    → m.closed ≡ true
    → (events : List Event)
    → Shut m (run m events)
      × ((others : MainTransport → MainTransport) (dest : Target)
          → (get_or_create_pool others (run m events) dest).0 ≡ failed transport_is_closed)
closed_makes_none m g c events =
    let shut = run-Shut m events g c in
    (shut, λ others dest. get_or_create_pool-closed others (run m events) dest shut.closed)
