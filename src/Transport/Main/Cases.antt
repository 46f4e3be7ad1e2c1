-- ===== src/Transport/Main/Cases.antt =====
-- Facts on getPoolLocked, and rules for the branches of the parts of the main transport.
use httplb.Prelude.{
  ℕ, ◌≡◌, refl, ap, ◌∙◌, inl, inr, Bool, true, false, Option, none, some, if◌then◌else◌, Bool-cases,
  if_cases, Option-cases, update,
}
use httplb.Transport.Target.{Target}
use httplb.Transport.Main.{
  Entry, MainTransport, find, get_pool_locked, make_pool, create_pool, failed, got, Got,
  transport_is_closed, try_remove_pool, remove_pool, end_watcher, Wake, timer, done, active,
  close_when_idle,
}

pub option_clash : {A : Type 0} {x : Option A} {a : A} → x ≡ none → x ≡ some a → ⊥
option_clash p q = cc

-- what getPoolLocked leaves in the channels
unfoldable pub touched : MainTransport → Target → ℕ → Bool
touched m dest = elim (find dest m.pools) [
  | none ↦ m.activity
  | some e ↦ if e.keep_warm then m.activity else update m.activity e.pool true
]

pub get_pool_locked_lem :
    (m : MainTransport) (dest : Target)
    → (get_pool_locked m dest).1 ≡ record m { activity = touched m dest }
unfolding get_pool_locked touched
get_pool_locked_lem m dest =
    elim (find dest m.pools)
      as (λ o.
        ◌≡◌ {A = MainTransport}
          (let r : Option ℕ × MainTransport = elim o [
            | none ↦ (none, m)
            | some entry ↦ (
              some entry.pool,
              if entry.keep_warm
                  then m
                  else record m { activity = update m.activity entry.pool true },
            )
          ] in
            r.1)
          (record m {
            activity = elim o [
              | none ↦ m.activity
              | some e ↦ if e.keep_warm then m.activity else update m.activity e.pool true
            ];
          })) [
            | none ↦ refl
            | some e ↦
                elim e.keep_warm
                  as (λ b.
                    ◌≡◌ {A = MainTransport}
                      (if b then m else record m { activity = update m.activity e.pool true })
                      (record m {
                        activity = if b then m.activity else update m.activity e.pool true;
                      })) [ true ↦ refl | false ↦ refl ]
          ]

pub get_pool_locked_found :
    (m : MainTransport) (dest : Target)
    → (get_pool_locked m dest).0 ≡ elim (find dest m.pools) [ none ↦ none | some e ↦ some e.pool ]
unfolding get_pool_locked
get_pool_locked_found m dest =
    elim (find dest m.pools)
      as (λ o.
        ◌≡◌ {A = Option ℕ}
          (let r : Option ℕ × MainTransport = elim o [
            | none ↦ (none, m)
            | some entry ↦ (
              some entry.pool,
              if entry.keep_warm
                  then m
                  else record m { activity = update m.activity entry.pool true },
            )
          ] in
            r.0)
          (elim o [ none ↦ none | some e ↦ some e.pool ])) [ none ↦ refl | some e ↦ refl ]

pub not_found :
    (m : MainTransport) (dest : Target)
    → (get_pool_locked m dest).0 ≡ none
    → find dest m.pools ≡ none
not_found m dest e = elim (Option-cases (find dest m.pools)) [
  | inl absent ↦ absent
  | inr (entry, here) ↦
      let found : (get_pool_locked m dest).0 ≡ some entry.pool =
        get_pool_locked_found m dest
        ∙ ap
            (λ (o : Option Entry).
              let r : Option ℕ = elim o [ none ↦ none | some e ↦ some e.pool ] in r)
            here in
      absurd (option_clash e found)
]

-- whatever holds after each branch of createPool's part holds after it
pub create_pool_cases :
    (P : MainTransport → Type 0) (m : MainTransport) (dest : Target)
    → P m
    → P (get_pool_locked m dest).1
    → (find dest m.pools ≡ none → P (make_pool (get_pool_locked m dest).1 dest).1)
    → P (create_pool m dest).1
unfolding create_pool
create_pool_cases P m dest unchanged seen made =
    elim m.closed
      as (λ b. P (
        let r : Got × MainTransport =
          if b then (failed transport_is_closed, m) else elim (get_pool_locked m dest).0 [
            | none ↦ make_pool (get_pool_locked m dest).1 dest
            | some p ↦ (got p, (get_pool_locked m dest).1)
          ] in
        r.1)) [
          | true ↦ unchanged
          | false ↦
              elim (get_pool_locked m dest).0
                  as (λ o.
                    (o ≡ none → find dest m.pools ≡ none)
                    → P (
                        let r : Got × MainTransport = elim o [
                          | none ↦ make_pool (get_pool_locked m dest).1 dest
                          | some p ↦ (got p, (get_pool_locked m dest).1)
                        ] in
                        r.1)) [ none ↦ λ absent. made (absent refl) | some p ↦ λ absent. seen ]
                (λ e. not_found m dest e)
        ]

-- whatever holds after each branch of the select of closeWhenIdle holds after it
pub close_when_idle_cases :
    (P : MainTransport → Type 0) (m : MainTransport) (i : ℕ) (dest : Target) (p : ℕ) (w : Wake)
    → P m
    → P (record m { activity = update m.activity p false })
    → (w ≡ done → m.cancelled ≡ true → P (end_watcher (remove_pool m dest) i p))
    → (w ≡ timer → m.activity p ≡ false → P (end_watcher (remove_pool m dest) i p))
    → P (close_when_idle m i dest p w)
unfolding close_when_idle try_remove_pool remove_pool
close_when_idle_cases P m i dest p timer unchanged seen cancelled idle =
    elim (Bool-cases (m.activity p)) [ inl e ↦ rw e seen | inr e ↦ rw e (idle refl e) ]
close_when_idle_cases P m i dest p done unchanged seen cancelled idle =
    if_cases P m.cancelled (end_watcher (remove_pool m dest) i p) m (cancelled refl)
      (λ e. unchanged)
close_when_idle_cases P m i dest p active unchanged seen cancelled idle = seen
