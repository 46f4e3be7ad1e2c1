-- ===== src/Transport/Main/Retry.antt =====
-- transport.go, mainTransport.RoundTrip: the loop that asks again after errTryAgain, over the state of
-- the transport. What other goroutines do meanwhile and what a pool answers is said round by round.
use httplb.Prelude.{ℕ, ◌≡◌, refl, ap, ◌⊎◌, inl, inr, true, Option, none, some, List, [], ◌∷◌, ◌++◌}
use httplb.Transport.Target.{Target}
use httplb.Transport.Main.{
  MainTransport, Error, transport_is_closed, Got, failed, got, get_or_create_pool,
}
use httplb.Transport.Main.Safety.{get_or_create_pool-closed}

pub data Attempt : Type 0 where
  no_pool : Error → Attempt
  try_again : Attempt
  answered : ℕ → Attempt

pub data Result : Type 0 where
  refused : Error → Result
  returned : ℕ → Result

-- A round: what others do before it, what they do within getOrCreatePool, and what the pool's RoundTrip
-- gives for each pool; none is errTryAgain, and a number is a response or another error.
pub record Round : Type 0 where
  pub before : MainTransport → MainTransport
  pub within : MainTransport → MainTransport
  pub answer : ℕ → Option ℕ

-- getOrCreatePool, and the RoundTrip of the pool that it gives
unfoldable pub attempt_of : (ℕ → Option ℕ) → Got → Attempt
attempt_of answer (failed e) = no_pool e
attempt_of answer (got pool) = elim (answer pool) [
  | none ↦ try_again
  | some response ↦ answered response
]

-- how a round ends; none goes on
unfoldable pub attempt_result : Attempt → Option Result
attempt_result (no_pool e) = some (refused e)
attempt_result try_again = none
attempt_result (answered response) = some (returned response)

-- RoundTrip through some rounds; none means that it still goes on after them
unfoldable pub round_trip : MainTransport → Target → List Round → Option Result × MainTransport
round_trip m dest [] = (none, m)
round_trip m dest (r ∷ rounds) =
    let (pool, m') = get_or_create_pool r.within (r.before m) dest in
    let rest = round_trip m' dest rounds in
    elim (attempt_result (attempt_of r.answer pool)) [ none ↦ rest | some x ↦ (some x, m') ]

-- that the answer of getOrCreatePool, and for a pool the pool's answer, is the result
abbrev pub IsResult : (ℕ → Option ℕ) → Got → Result → Type 0
IsResult answer g (refused e) = g ≡ failed e
IsResult answer g (returned response) = (pool : ℕ) × (g ≡ got pool) × (answer pool ≡ some response)

-- What is to come of some rounds: each is passed as its pool says errTryAgain, up to the first that
-- gives the result.
abbrev pub Outcome : MainTransport → Target → List Round → Option Result × MainTransport → Type 0
Outcome m dest [] r = r ≡ (none, m)
Outcome m dest (round ∷ rounds) r =
    let (g, m') = get_or_create_pool round.within (round.before m) dest in
    ((pool : ℕ) × (g ≡ got pool) × (round.answer pool ≡ none) × Outcome m' dest rounds r)
    ⊎ ((x : Result) × (r ≡ (some x, m')) × IsResult round.answer g x)

-- what one round comes to, before `rest`
abbrev then_rest :
    Option Result → MainTransport → Option Result × MainTransport → Option Result × MainTransport
then_rest o m' rest = elim o [ none ↦ rest | some x ↦ (some x, m') ]

one_round :
    (answer : ℕ → Option ℕ) (g : Got) (m' : MainTransport) (rest : Option Result × MainTransport)
    (Next : Option Result × MainTransport → Type 0)
    → Next rest
    → let r = then_rest (attempt_result (attempt_of answer g)) m' rest in
      ((pool : ℕ) × (g ≡ got pool) × (answer pool ≡ none) × Next r)
      ⊎ ((x : Result) × (r ≡ (some x, m')) × IsResult answer g x)
unfolding attempt_result attempt_of
one_round answer (failed e) m' rest Next h = inr (refused e, refl, refl)
one_round answer (got pool) m' rest Next h =
    elim (answer pool)
        as (λ o.
          (answer pool ≡ o)
          → (let a : Attempt = elim o [ none ↦ try_again | some response ↦ answered response ] in
              let r = then_rest (attempt_result a) m' rest in
              ((p : ℕ) × (got pool ≡ got p) × (answer p ≡ none) × Next r)
              ⊎ ((x : Result) × (r ≡ (some x, m')) × IsResult answer (got pool) x))) [
                | none ↦ λ e. inl (pool, refl, e, h)
                | some response ↦ λ e. inr (returned response, refl, (pool, refl, e))
              ]
      refl

round_trip-Outcome :
    (m : MainTransport) (dest : Target) (rounds : List Round)
    → Outcome m dest rounds (round_trip m dest rounds)
unfolding round_trip
round_trip-Outcome m dest [] = refl
round_trip-Outcome m dest (r ∷ rounds) =
    let (g, m') = get_or_create_pool r.within (r.before m) dest in
    one_round r.answer g m' (round_trip m' dest rounds) (Outcome m' dest rounds)
      (round_trip-Outcome m' dest rounds)

-- how RoundTrip ended if the transport was closed after `earlier` rounds
abbrev pub Ends : Option Result → Option Result → Type 0
Ends earlier o =
    (x : Result) × (o ≡ some x)
    × ((earlier ≡ some x) ⊎ ((earlier ≡ none) × (x ≡ refused transport_is_closed)))

closed_round :
    (m : MainTransport) (dest : Target) (r : Round) (later : List Round)
    → (r.before m).closed ≡ true
    → (round_trip m dest (r ∷ later)).0 ≡ some (refused transport_is_closed)
unfolding round_trip attempt_result attempt_of
closed_round m dest r later c =
    let (g, m') = get_or_create_pool r.within (r.before m) dest in
    ap (λ g. (then_rest (attempt_result (attempt_of r.answer g)) m' (round_trip m' dest later)).0)
      (get_or_create_pool-closed r.within (r.before m) dest c)

ends_lem :
    (m : MainTransport) (dest : Target) (earlier later : List Round) (r : Round)
    → (r.before (round_trip m dest earlier).1).closed ≡ true
    → Ends (round_trip m dest earlier).0 (round_trip m dest (earlier ++ r ∷ later)).0
unfolding round_trip
ends_lem m dest [] later r c =
    (refused transport_is_closed, closed_round m dest r later c, inr (refl, refl))
ends_lem m dest (s ∷ earlier) later r c =
    let (g, m') = get_or_create_pool s.within (s.before m) dest in
    elim (attempt_result (attempt_of s.answer g))
        as (λ o.
          (r.before (then_rest o m' (round_trip m' dest earlier)).1).closed ≡ true
          → Ends (then_rest o m' (round_trip m' dest earlier)).0
              (then_rest o m' (round_trip m' dest (earlier ++ r ∷ later))).0) [
                | none ↦ λ c. ends_lem m' dest earlier later r c
                | some x ↦ λ c. (x, refl, inl refl)
              ]
      c

-- If others have closed the transport when a round of RoundTrip begins, RoundTrip returns in that round at the latest: what it has returned before, or the error that the transport is closed. And through all rounds it goes on exactly as long as getOrCreatePool gives a pool whose RoundTrip says errTryAgain; the first round that gives no pool returns the error of getOrCreatePool, and the first other answer of a pool is returned.
pub round_trip_returns :
    (m : MainTransport) (dest : Target) (earlier later : List Round) (r : Round)
    → (r.before (round_trip m dest earlier).1).closed ≡ true
    → let result = round_trip m dest (earlier ++ r ∷ later) in
      Ends (round_trip m dest earlier).0 result.0 × Outcome m dest (earlier ++ r ∷ later) result
round_trip_returns m dest earlier later r c =
    (ends_lem m dest earlier later r c, round_trip-Outcome m dest (earlier ++ r ∷ later))
