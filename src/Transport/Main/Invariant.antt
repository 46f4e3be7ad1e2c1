-- ===== src/Transport/Main/Invariant.antt =====
-- What holds of the main transport after any sequence of its parts.
use httplb.Prelude.{
  ℕ, ◌+◌, ◌≡◌, refl, ap, ◌∙◌, subst, inl, inr, Bool, true, false, not, none, some, List, [], ◌∷◌,
  arith, if◌then◌else◌, Bool-cases, if_cases, length, get_elem?, keep, All, length-append,
}
use httplb.Transport.Target.{Target, same, same_iff}
use httplb.Client.{ClientOptions}
use httplb.Transport.Main.{
  Entry, Table, MainTransport, new_transport, find, delete, get_pool_locked, add_pool, check_target,
  is_kept_warm, make_pool, create_pool, failed, got, Got, remove_pool, without, end_watcher,
  close_when_idle, close_begin, warm_pools, close_keep_warm_pools, pool_closed, Event, get, create,
  wake, root_done, close_called, closed_warm, pool_done, step, run,
}
use httplb.Transport.Main.Table.{
  Unique, find-delete, length-delete, Unique-keep, Unique-delete, find-keep_cold, length-warm,
  UniqueKeys, All-without, UniqueKeys-without, All_of_get, others_differ, length-without,
}
use httplb.Transport.Main.Cases.{
  option_clash, get_pool_locked_lem, create_pool_cases, close_when_idle_cases,
}

-- the entry of a pool that a goroutine watches
abbrev pub cold : ℕ → Entry
cold p = record { pool = p; keep_warm = false }

pub record Good (m : MainTransport) : Type 0 where
  pub unique : Unique m.pools
  pub watched : All (λ w. find (w.0) m.pools ≡ some (cold (w.1))) m.watchers
  pub alone : UniqueKeys m.watchers
  pub counted : m.running_pools ≡ length m.pools + length m.closing

pub new_transport-Good : (opts : ClientOptions) → Good (new_transport opts)
unfolding new_transport
new_transport-Good opts = record { unique = tt; watched = tt; alone = tt; counted = refl }

activity-Good : (m : MainTransport) (f : ℕ → Bool) → Good m → Good (record m { activity = f })
activity-Good m f g = record {
  unique = g.unique;
  watched = g.watched;
  alone = g.alone;
  counted = g.counted;
}

pub get_pool_locked-Good :
    (m : MainTransport) (dest : Target) → Good m → Good (get_pool_locked m dest).1
get_pool_locked-Good m dest g = rw (get_pool_locked_lem m dest) (activity-Good m _ g)

-- a goroutine that watches some other target goes on to do so
still_watched :
    (table : Table) (dest : Target) (e : Entry) (ws : List (Target × ℕ))
    → find dest table ≡ none
    → All (λ w. find (w.0) table ≡ some (cold (w.1))) ws
    → All (λ w. find (w.0) ((dest, e) ∷ table) ≡ some (cold (w.1))) ws
unfolding find
still_watched table dest e [] absent h = tt
still_watched table dest e (w ∷ ws) absent h = (
  elim (Bool-cases (same dest w.0)) [
    | inl s ↦
        absurd
          (option_clash (subst (λ x. find x table ≡ none) ((same_iff dest w.0).0 s) absent) h.0)
    | inr s ↦ ap (λ b. if b then some e else find w.0 table) s ∙ h.0
  ],
  still_watched table dest e ws absent h.1,
)

no_watcher :
    (table : Table) (dest : Target) (ws : List (Target × ℕ))
    → find dest table ≡ none
    → All (λ w. find (w.0) table ≡ some (cold (w.1))) ws
    → All (λ v. same (v.0) dest ≡ false) ws
no_watcher table dest [] absent h = tt
no_watcher table dest (w ∷ ws) absent h = (
  elim (Bool-cases (same w.0 dest)) [
    | inl s ↦ absurd (
        option_clash absent
          (subst (λ x. find x table ≡ some (cold w.1)) ((same_iff w.0 dest).0 s) h.0))
    | inr s ↦ s
  ],
  no_watcher table dest ws absent h.1,
)

pub add_pool-Good :
    (m : MainTransport) (dest : Target) (keep_warm : Bool)
    → find dest m.pools ≡ none
    → Good m
    → Good (add_pool m dest keep_warm)
unfolding add_pool find
add_pool-Good m dest true absent g = record {
  unique = (absent, g.unique);
  watched = still_watched m.pools dest _ m.watchers absent g.watched;
  alone = g.alone;
  counted = omega (arith, g.counted);
}
add_pool-Good m dest false absent g = record {
  unique = (absent, g.unique);
  watched = (
    ap (λ b. if b then some (cold m.next_pool) else find dest m.pools)
        ((same_iff dest dest).1 refl),
    still_watched m.pools dest _ m.watchers absent g.watched,
  );
  alone = (no_watcher m.pools dest m.watchers absent g.watched, g.alone);
  counted = omega (arith, g.counted);
}

make_pool-Good :
    (m : MainTransport) (dest : Target)
    → find dest m.pools ≡ none
    → Good m
    → Good (make_pool m dest).1
unfolding make_pool
make_pool-Good m dest absent g =
    elim (check_target m.client_options dest)
      as (λ c. Good (
        let r : Got × MainTransport = elim c [
          | some e ↦ (failed e, m)
          | none ↦ (got m.next_pool, add_pool m dest (is_kept_warm m.client_options))
        ] in
        r.1)) [ none ↦ add_pool-Good m dest _ absent g | some e ↦ g ]

pub create_pool-Good : (m : MainTransport) (dest : Target) → Good m → Good (create_pool m dest).1
create_pool-Good m dest g =
    create_pool_cases Good m dest g (get_pool_locked-Good m dest g) (λ absent.
      make_pool-Good (get_pool_locked m dest).1 dest (rw (get_pool_locked_lem m dest) absent)
        (get_pool_locked-Good m dest g))

-- the goroutine of the i-th watcher deletes its own entry, and only this
still_watched_after :
    (table : Table) (dest : Target) (ws : List (Target × ℕ))
    → All (λ v. same (v.0) dest ≡ false) ws
    → All (λ w. find (w.0) table ≡ some (cold (w.1))) ws
    → All (λ w. find (w.0) (delete dest table) ≡ some (cold (w.1))) ws
still_watched_after table dest [] other h = tt
still_watched_after table dest (w ∷ ws) other h = (
  find-delete w.0 dest table ∙ ap (λ b. if b then none else find w.0 table) other.0 ∙ h.0,
  still_watched_after table dest ws other.1 h.1,
)

pub end_watcher-Good :
    (m : MainTransport) (i : ℕ) (dest : Target) (p : ℕ)
    → get_elem? m.watchers i ≡ some (dest, p)
    → Good m
    → Good (end_watcher (remove_pool m dest) i p)
unfolding end_watcher remove_pool
end_watcher-Good m i dest p at g =
    let here : find dest m.pools ≡ some (cold p) =
      All_of_get (λ w. find (w.0) m.pools ≡ some (cold (w.1))) m.watchers i (dest, p) g.watched
        at in
    record {
      unique = Unique-delete dest m.pools g.unique;
      watched =
          still_watched_after m.pools dest (without m.watchers i)
            (others_differ m.watchers i (dest, p) g.alone at)
            (All-without _ m.watchers i g.watched);
      alone = UniqueKeys-without m.watchers i g.alone;
      counted = omega (arith, g.counted, length-delete dest m.pools (cold p) g.unique here);
    }

kept_cold :
    (table : Table) (ws : List (Target × ℕ))
    → All (λ w. find (w.0) table ≡ some (cold (w.1))) ws
    → All (λ w. find (w.0) (keep (λ entry. not (entry.1.keep_warm)) table) ≡ some (cold (w.1))) ws
kept_cold table [] h = tt
kept_cold table (w ∷ ws) h = (find-keep_cold w.0 table (cold w.1) h.0 refl, kept_cold table ws h.1)

close_keep_warm_pools-Good : (m : MainTransport) → Good m → Good (close_keep_warm_pools m)
unfolding close_keep_warm_pools
close_keep_warm_pools-Good m g = record {
  unique = Unique-keep _ m.pools g.unique;
  watched = kept_cold m.pools m.watchers g.watched;
  alone = g.alone;
  counted =
      omega (arith, g.counted, length-warm m.pools, length-append (warm_pools m.pools) m.closing);
}

pool_closed-Good :
    (m : MainTransport) (i p : ℕ) → get_elem? m.closing i ≡ some p → Good m → Good (pool_closed m i)
unfolding pool_closed
pool_closed-Good m i p at g = record {
  unique = g.unique;
  watched = g.watched;
  alone = g.alone;
  counted = omega (arith, g.counted, length-without m.closing i p at);
}

pub step-Good : (m : MainTransport) (e : Event) → Good m → Good (step m e)
unfolding step close_begin
step-Good m (get dest) g = get_pool_locked-Good m dest g
step-Good m (create dest) g = create_pool-Good m dest g
step-Good m (wake i w) g =
    elim (get_elem? m.watchers i)
        as (λ o.
          get_elem? m.watchers i ≡ o
          → Good (elim o [ none ↦ m | some (dest, p) ↦ close_when_idle m i dest p w ])) [
            | none ↦ λ e. g
            | some (dest, p) ↦ λ e.
                let ended : Good (end_watcher (remove_pool m dest) i p) =
                  end_watcher-Good m i dest p e g in
                close_when_idle_cases Good m i dest p w g (activity-Good m _ g) (λ _ _. ended)
                  (λ _ _. ended)
          ]
      refl
step-Good m root_done g = record {
  unique = g.unique;
  watched = g.watched;
  alone = g.alone;
  counted = g.counted;
}
step-Good m close_called g = record {
  unique = g.unique;
  watched = g.watched;
  alone = g.alone;
  counted = g.counted;
}
step-Good m closed_warm g =
    if_cases Good m.closed (close_keep_warm_pools m) m (λ e. close_keep_warm_pools-Good m g)
      (λ e. g)
step-Good m (pool_done i) g =
    elim (get_elem? m.closing i)
        as (λ o.
          get_elem? m.closing i ≡ o → Good (elim o [ none ↦ m | some p ↦ pool_closed m i ])) [
            | none ↦ λ e. g
            | some p ↦ λ e. pool_closed-Good m i p e g
          ]
      refl

pub run-Good : (m : MainTransport) (events : List Event) → Good m → Good (run m events)
unfolding run
run-Good m [] g = g
run-Good m (e ∷ events) g = run-Good (step m e) events (step-Good m e g)

-- After any sequence of requests for pools, idle timers, cancellations and closings, no target has two pools, each goroutine closeWhenIdle watches the pool that is now stored for its target (so that the entry which it deletes is that of its own pool), no two of them watch one target, and runningPools counts the stored pools and those being closed.
pub main_transport_correct :
    (opts : ClientOptions) (events : List Event) → Good (run (new_transport opts) events)
main_transport_correct opts events = run-Good (new_transport opts) events (new_transport-Good opts)
