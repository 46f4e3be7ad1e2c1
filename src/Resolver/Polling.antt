-- ===== src/Resolver/Polling.antt =====
-- resolver/resolver.go: when the polling resolver resolves again. Times and durations are numbers of
-- nanoseconds. The clock and the channels are the environment: a round says what woke the task, when.
use httplb.Prelude.{
  ℕ, ◌+◌, ◌-◌, ◌*◌, ◌≤◌, ◌≡◌, refl, Bool, true, false, Option, none, some, List, [], ◌∷◌, arith,
  ltb, ◌==◌, if◌then◌else◌,
}

pub record PollingResolver : Type 0 where
  pub default_ttl : ℕ
  pub min_refresh_interval : ℕ

-- the options, and NewPollingResolver with its defaults of five minutes and five seconds
pub data PollingResolverOption : Type 0 where
  with_default_ttl : ℕ → PollingResolverOption
  with_min_refresh_interval : ℕ → PollingResolverOption

unfoldable pub apply : PollingResolver → PollingResolverOption → PollingResolver
apply r (with_default_ttl ttl) = record r { default_ttl = ttl }
apply r (with_min_refresh_interval interval) = record r { min_refresh_interval = interval }

unfoldable pub apply_all : PollingResolver → List PollingResolverOption → PollingResolver
apply_all r [] = r
apply_all r (opt ∷ opts) = apply_all (apply r opt) opts

unfoldable pub new_polling_resolver : List PollingResolverOption → PollingResolver
new_polling_resolver opts =
    apply_all (record { default_ttl = 300 * 1000000000; min_refresh_interval = 5 * 1000000000 })
      opts

-- what the prober returned: the addresses or an error, and a TTL, 0 for none
pub record Resolved : Type 0 where
  pub addresses : Option (List ℕ)
  pub ttl : ℕ

pub data Report : Type 0 where
  on_resolve : List ℕ → Report
  on_resolve_error : Report

unfoldable pub report : Resolved → Report
report r = elim r.addresses [ none ↦ on_resolve_error | some addresses ↦ on_resolve addresses ]

-- the TTL that the timer is reset to
unfoldable pub timer_ttl : PollingResolver → ℕ → ℕ
timer_ttl r ttl =
    let ttl = if ttl == 0 then r.default_ttl else ttl in
    if ltb ttl r.min_refresh_interval then r.min_refresh_interval else ttl

-- what ends the inner select of a refresh that comes too early; the refresh timer is armed at `armed_at`
pub data Inner : Type 0 where
  inner_done : Inner
  inner_timer : (at : ℕ) → Inner
  refresh_timer : (armed_at at : ℕ) → Inner

-- what ends the select of a round, at what time
pub data Wake : Type 0 where
  done : Wake
  refresh : (at : ℕ) → Inner → Wake
  timer : (at : ℕ) → Wake

pub record Round : Type 0 where
  pub resolved : Resolved
  pub set_at : ℕ
  pub wake : Wake

-- the time of the next resolution, if there is one, after a round that began at `last_resolve`
unfoldable pub next_resolve : PollingResolver → ℕ → Wake → Option ℕ
next_resolve r last_resolve done = none
next_resolve r last_resolve (timer at) = some at
next_resolve r last_resolve (refresh at inner) =
    if ltb (at - last_resolve) r.min_refresh_interval
    then elim inner [
      | inner_done ↦ none
      | inner_timer at' ↦ some at'
      | refresh_timer armed_at at' ↦ some at'
    ]
    else some at

-- run: the times of the resolutions, each with what is reported
unfoldable pub run : PollingResolver → ℕ → List Round → List (ℕ × Report)
run r last_resolve [] = []
run r last_resolve (round ∷ rounds) = elim (next_resolve r last_resolve round.wake) [
  | none ↦ (last_resolve, report round.resolved) ∷ []
  | some next ↦ (last_resolve, report round.resolved) ∷ run r next rounds
]

timer_ttl_ge : (r : PollingResolver) (ttl : ℕ) → r.min_refresh_interval ≤ timer_ttl r ttl
unfolding timer_ttl
timer_ttl_ge r ttl = ground arith

-- What a clock promises: time does not run backwards, and a timer that is armed for a delay does not
-- fire before the delay is over.
abbrev pub TimelyInner : ℕ → ℕ → Inner → Type 0
TimelyInner due deadline inner_done = Unit
TimelyInner due deadline (inner_timer at) = due ≤ at
TimelyInner due deadline (refresh_timer armed_at at) = armed_at + (deadline - armed_at) ≤ at

abbrev pub TimelyWake : ℕ → ℕ → ℕ → Wake → Type 0
TimelyWake due last_resolve deadline done = Unit
TimelyWake due last_resolve deadline (timer at) = due ≤ at
TimelyWake due last_resolve deadline (refresh at inner) =
    (last_resolve ≤ at) × TimelyInner due deadline inner

abbrev pub TimelyRound : PollingResolver → ℕ → Round → Type 0
TimelyRound r last_resolve round =
    (last_resolve ≤ round.set_at)
    × TimelyWake (round.set_at + timer_ttl r round.resolved.ttl) last_resolve
        (last_resolve + r.min_refresh_interval) round.wake

abbrev pub AfterNext : (ℕ → Type 0) → Option ℕ → Type 0
AfterNext P none = Unit
AfterNext P (some next) = P next

abbrev pub Timely : PollingResolver → ℕ → List Round → Type 0
Timely r last_resolve [] = Unit
Timely r last_resolve (round ∷ rounds) =
    TimelyRound r last_resolve round
    × AfterNext (λ next. Timely r next rounds) (next_resolve r last_resolve round.wake)

-- each resolution comes at least `interval` after the one before
abbrev pub SpacedAfter : ℕ → ℕ → List (ℕ × Report) → Type 0
SpacedAfter interval t [] = Unit
SpacedAfter interval t ((u, _) ∷ rest) = (t + interval ≤ u) × SpacedAfter interval u rest

abbrev pub Spaced : ℕ → List (ℕ × Report) → Type 0
Spaced interval [] = Unit
Spaced interval ((t, _) ∷ rest) = SpacedAfter interval t rest

AfterNext-if :
    (P : ℕ → Type 0) (b : Bool) (x y : Option ℕ)
    → (b ≡ true → AfterNext P x)
    → (b ≡ false → AfterNext P y)
    → AfterNext P (if b then x else y)
AfterNext-if P true x y f g = f refl
AfterNext-if P false x y f g = g refl

next_resolve_ge :
    (r : PollingResolver) (last_resolve set_at ttl : ℕ) (wake : Wake)
    → last_resolve ≤ set_at
    → TimelyWake
        (set_at + timer_ttl r ttl)
        last_resolve
        (last_resolve + r.min_refresh_interval)
        wake
    → AfterNext
        (λ next. last_resolve + r.min_refresh_interval ≤ next)
        (next_resolve r last_resolve wake)
unfolding next_resolve
next_resolve_ge r last set_at ttl done h w = tt
next_resolve_ge r last set_at ttl (timer at) h w = omega (arith, timer_ttl_ge r ttl)
next_resolve_ge r last set_at ttl (refresh at inner_done) h w =
    AfterNext-if _ (ltb (at - last) r.min_refresh_interval) none (some at) (λ early. tt)
      (λ late. ground (arith, late, w.0))
next_resolve_ge r last set_at ttl (refresh at (inner_timer at')) h w =
    AfterNext-if _ (ltb (at - last) r.min_refresh_interval) (some at') (some at)
      (λ early. omega (arith, timer_ttl_ge r ttl, w.1)) (λ late. ground (arith, late, w.0))
next_resolve_ge r last set_at ttl (refresh at (refresh_timer armed_at at')) h w =
    AfterNext-if _ (ltb (at - last) r.min_refresh_interval) (some at') (some at)
      (λ early. omega (arith, w.1)) (λ late. ground (arith, late, w.0))

first_at :
    (r : PollingResolver) (t : ℕ) (rounds : List Round) (d last : ℕ)
    → last + d ≤ t
    → Spaced d (run r t rounds)
    → SpacedAfter d last (run r t rounds)
unfolding run
first_at r t [] d last h s = tt
first_at r t (round ∷ rounds) d last h s =
    elim (next_resolve r t round.wake)
        as (λ o.
          Spaced d (elim o [
            | none ↦ (t, report round.resolved) ∷ []
            | some next ↦ (t, report round.resolved) ∷ run r next rounds
          ])
          → SpacedAfter d last (elim o [
            | none ↦ (t, report round.resolved) ∷ []
            | some next ↦ (t, report round.resolved) ∷ run r next rounds
          ])) [ none ↦ λ s. (h, s) | some next ↦ λ s. (h, s) ]
      s

-- If the clock keeps its promises, then, whatever refreshes are asked for and whatever TTLs the prober returns, two resolutions in succession begin at least the minimum refresh interval apart.
pub resolutions-Spaced :
    (r : PollingResolver) (start : ℕ) (rounds : List Round)
    → Timely r start rounds
    → Spaced r.min_refresh_interval (run r start rounds)
unfolding run
resolutions-Spaced r start [] h = tt
resolutions-Spaced r start (round ∷ rounds) (timely, after) =
    elim (next_resolve r start round.wake)
        as (λ o.
          AfterNext (λ next. start + r.min_refresh_interval ≤ next) o
          → AfterNext (λ next. Timely r next rounds) o
          → Spaced r.min_refresh_interval (elim o [
            | none ↦ (start, report round.resolved) ∷ []
            | some next ↦ (start, report round.resolved) ∷ run r next rounds
          ])) [
            | none ↦ λ late after. tt
            | some next ↦ λ late after.
                first_at r next rounds r.min_refresh_interval start late
                  (resolutions-Spaced r next rounds after)
          ]
      (next_resolve_ge r start round.set_at round.resolved.ttl round.wake timely.0 timely.1) after
