-- ===== src/Transport/Timeout.antt =====
-- transport.go, getOrCreatePool: the timeout that a pool applies to its requests, and the name of the
-- server for TLS. Deadlines are times; `none` is none.
use httplb.Prelude.{
  ℕ, zero, suc, ◌+◌, ◌-◌, ◌≤◌, ◌≡◌, refl, sym, ap, ◌∙◌, subst, ◌⊎◌, inl, inr, Option, none, some,
  List, [], ◌∷◌, map, arith, le_refl, ltb, ◌==◌, if◌then◌else◌, Bool-cases,
}
use httplb.Prelude.Int.{ℤ, pos, negsuc, ltb_ℤ, pos_part}
use httplb.Client.{ClientOptions, Known}
use httplb.Client.Options.{new_client_options}
use httplb.Client.Last.{
  Choice, default_timeout, request_timeout, option_of, last, given, timeouts_in,
}
use httplb.Client.Configured.{Configured, new_client_correct}

-- applyTimeout: nil, or one of the two functions
pub data ApplyTimeout : Type 0 where
  unlimited : ApplyTimeout
  request : ℤ → ApplyTimeout
  default : ℤ → ApplyTimeout

unfoldable pub choose_timeout : ClientOptions → ApplyTimeout
choose_timeout opts =
    if ltb_ℤ (pos 0) opts.request_timeout
    then request opts.request_timeout
    else if ltb_ℤ (pos 0) opts.default_timeout
    then default opts.default_timeout
    else unlimited

-- context.WithTimeout: the earlier of the parent's deadline and the end of the timeout
unfoldable pub with_timeout : ℕ → Option ℕ → ℤ → Option ℕ
with_timeout now deadline (pos d) = elim deadline [
  | none ↦ some (now + d)
  | some t ↦ some (if ltb t (now + d) then t else now + d)
]
with_timeout now deadline (negsuc d) = elim deadline [
  | none ↦ some (now - suc d)
  | some t ↦ some (if ltb t (now - suc d) then t else now - suc d)
]

-- the deadline of a request at its pool, if its own context has `deadline`
unfoldable pub apply_timeout : ApplyTimeout → ℕ → Option ℕ → Option ℕ
apply_timeout unlimited now deadline = deadline
apply_timeout (request d) now deadline = with_timeout now deadline d
apply_timeout (default d) now deadline = elim deadline [
  | none ↦ with_timeout now none d
  | some t ↦ some t
]

-- opts.TLSClientConfig.ServerName; the empty name is 0, and a nil configuration has the empty name
unfoldable pub server_name : (ℕ → Option ℕ) → ℕ → ℕ → ℕ
server_name split_host_port configured host_port =
    if configured == 0
    then elim (split_host_port host_port) [ none ↦ host_port | some host ↦ host ]
    else configured

-- which timeout the last of WithDefaultTimeout and WithRequestTimeout asks for
abbrev pub limit_in : Choice → Option ApplyTimeout
limit_in (default_timeout (pos (suc d))) = some (default (pos (suc d)))
limit_in (request_timeout (pos (suc d))) = some (request (pos (suc d)))
limit_in (default_timeout _) = some unlimited
limit_in (request_timeout _) = some unlimited
limit_in _ = none

timeout_of : ℤ × ℤ → ApplyTimeout
timeout_of (d, r) =
    if ltb_ℤ (pos 0) r then request r else if ltb_ℤ (pos 0) d then default d else unlimited

abbrev limit_of : Option (ℤ × ℤ) → Option ApplyTimeout
limit_of none = none
limit_of (some t) = some (timeout_of t)

one_limit : (c : Choice) → limit_of (timeouts_in c) ≡ limit_in c
unfolding timeout_of
one_limit (default_timeout (pos zero)) = refl
one_limit (default_timeout (pos (suc d))) = ground arith
one_limit (default_timeout (negsuc d)) = ground arith
one_limit (request_timeout (pos zero)) = refl
one_limit (request_timeout (pos (suc d))) = ground arith
one_limit (request_timeout (negsuc d)) = ground arith
one_limit _ = refl

last_limit : (cs : List Choice) → limit_of (last timeouts_in cs) ≡ last limit_in cs
last_limit [] = refl
last_limit (c ∷ cs) =
    elim (last timeouts_in cs)
        as (λ o.
          limit_of o ≡ last limit_in cs
          → limit_of (elim o [ none ↦ timeouts_in c | some a ↦ some a ])
            ≡ (elim (last limit_in cs) [ none ↦ limit_in c | some a ↦ some a ])) [
              | none ↦ λ ih. rw (← ih) (one_limit c)
              | some t ↦ λ ih. rw (← ih) refl
            ]
      (last_limit cs)

given_limit :
    (o : Option (ℤ × ℤ)) → timeout_of (given o (pos 0, pos 0)) ≡ given (limit_of o) unlimited
unfolding timeout_of
given_limit none = refl
given_limit (some t) = refl

-- What a limit promises of the deadline of a request that comes with a deadline of its own, or none.
abbrev pub Limited : ℕ → Option ℕ → ApplyTimeout → Option ℕ → Type 0
Limited now own unlimited result = result ≡ own
Limited now own (default d) result =
    (own ≡ none → result ≡ some (now + pos_part d)) × ((t : ℕ) → own ≡ some t → result ≡ some t)
Limited now own (request d) result =
    (t : ℕ) × (result ≡ some t)
    × (t ≤ now + pos_part d)
    × ((u : ℕ) → own ≡ some u → t ≤ u)
    × ((t ≡ now + pos_part d) ⊎ (own ≡ some t))

limited :
    (now : ℕ) (own : Option ℕ) (c : Choice)
    → Limited now own
        (given (limit_in c) unlimited)
        (apply_timeout (given (limit_in c) unlimited) now own)
unfolding apply_timeout with_timeout
limited now none (default_timeout (pos (suc d))) = (λ _. refl, λ t e. absurd (ground (arith, e)))
limited now (some t) (default_timeout (pos (suc d))) = (λ e. absurd (ground (arith, e)), λ t e. e)
limited now none (request_timeout (pos (suc d))) =
    (now + suc d, refl, le_refl _, λ u e. absurd (ground (arith, e)), inl refl)
limited now (some t) (request_timeout (pos (suc d))) = elim (Bool-cases (ltb t (now + suc d))) [
  | inl e ↦ (
    t,
    ap (λ b. some (if b then t else now + suc d)) e,
    ground (arith, e),
    λ u same. ground (arith, same),
    inr refl,
  )
  | inr e ↦ (
    now + suc d,
    ap (λ b. some (if b then t else now + suc d)) e,
    le_refl _,
    λ u same. ground (arith, same, e),
    inl refl,
  )
]
limited now own (default_timeout (pos zero)) = refl
limited now own (default_timeout (negsuc d)) = refl
limited now own (request_timeout (pos zero)) = refl
limited now own (request_timeout (negsuc d)) = refl
limited now own _ = refl

last_rule :
    (P : Option ApplyTimeout → Type 0)
    → P none
    → ((c : Choice) → P (limit_in c))
    → (cs : List Choice) → P (last limit_in cs)
last_rule P absent each [] = absent
last_rule P absent each (c ∷ cs) =
    elim (last limit_in cs) as (λ o. P o → P (elim o [ none ↦ limit_in c | some a ↦ some a ])) [
      | none ↦ λ _. each c
      | some a ↦ λ h. h
    ]
      (last_rule P absent each cs)

chosen :
    (k : Known) (cs : List Choice)
    → choose_timeout (new_client_options k (map (option_of k) cs))
      ≡ given (last limit_in cs) unlimited
unfolding choose_timeout timeout_of
chosen k cs =
    ap timeout_of (Configured.timeouts (new_client_correct k cs))
    ∙ given_limit (last timeouts_in cs)
    ∙ ap (λ o. given o unlimited) (last_limit cs)

-- The deadline of a request at its pool follows the last WithDefaultTimeout or WithRequestTimeout among the options of the client: with the first a request that has a deadline keeps it and another gets the timeout; with the second each request has a deadline, the earlier of its own and the timeout; with neither, or a timeout that is not positive, its own deadline stays.
pub deadline_correct :
    (k : Known) (cs : List Choice) (now : ℕ) (own : Option ℕ)
    → Limited now own
        (given (last limit_in cs) unlimited)
        (apply_timeout (choose_timeout (new_client_options k (map (option_of k) cs))) now own)
unfolding apply_timeout
deadline_correct k cs now own =
    subst
      (λ limit. Limited now own (given (last limit_in cs) unlimited) (apply_timeout limit now own))
      (sym (chosen k cs))
      (last_rule
        (λ o. Limited now own (given o unlimited) (apply_timeout (given o unlimited) now own)) refl
        (limited now own) cs)
