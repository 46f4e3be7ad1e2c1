-- ===== src/Transport/Request.antt =====
-- transport.go: a request on its way through transportPool.RoundTrip, connection.RoundTrip and the
-- body of its response. Strings are numbers and the empty string is 0; what runs is logged in order.
pub mod Finish
pub mod Rewrite
mod Tests
use httplb.Prelude.{
  ℕ, zero, suc, ◌+◌, ◌-◌, ◌*◌, ◌/◌, ◌%◌, ◌^◌, ◌≤◌, ◌<◌, ◌≡◌, refl, sym, ap, ap₂, ◌∙◌, subst, ◌≢◌,
  ◌↔◌, ◌⊎◌, inl, inr, Bool, true, false, not, ◌&&◌, ◌||◌, Option, none, some, List, [], ◌∷◌, ◌++◌,
  map, append-nil, append_assoc, map-append, arith, le_trans, le_refl, add_comm, add_assoc,
  mul_comm, dec_lt, dec_le, ℕ_discrete, ltb, leb, ◌==◌, if◌then◌else◌, ltb→lt, lt→ltb, ltb→le,
  le→ltb, ==→eq, ==-refl, ==→ne, ==_iff, Bool-cases, if_cases, Option-cases, tests, length,
  get_elem?, get_or, set, take, drop, keep, All, length-append, length-set, two_63, two_64, two_32,
  get_or-set, take-append-drop, length-take, length-drop, length-map, length-keep-le, All-append,
  All-map, get_elem?-set_self, get_elem?-set_ne, update, contains, IsNodup, contains-append,
  SameSet, contains-map-of_get, get_of_contains-map, get_of_contains, contains-of_get, Bool-ext,
}
use httplb.Transport.Target.{empty}

pub record Request : Type 0 where
  pub url_scheme : ℕ
  pub url_host : ℕ
  pub host : ℕ

-- chosen.Scheme() and chosen.Address().HostPort
pub record Chosen : Type 0 where
  pub scheme : ℕ
  pub addr : ℕ

unfoldable pub needs_rewrite : Chosen → Request → Bool
needs_rewrite chosen request =
    not (chosen.scheme == empty) && not (request.url_scheme == chosen.scheme)
    || not (request.url_host == chosen.addr)
    || request.host == empty

-- the clone, with its fields assigned in this order
unfoldable pub rewrite : Chosen → Request → Request
rewrite chosen request =
    let r1 : Request =
      if chosen.scheme == empty then request else record request { url_scheme = chosen.scheme } in
    let r2 : Request =
      if r1.url_host == chosen.addr then r1 else record r1 { url_host = chosen.addr } in
    if r2.host == empty then record r2 { host = r2.url_host } else r2

unfoldable pub sent_request : Chosen → Request → Request
sent_request chosen request =
    if needs_rewrite chosen request then rewrite chosen request else request

-- what is to be done at the end of a request
pub data Effect : Type 0 where
  cancel : Effect
  when_done : Effect
  put_clone : Effect
  end_request : Effect

-- the function that RoundTrip of the pool passes on
unfoldable pub when_done_effects : (has_cancel has_when_done cloned : Bool) → List Effect
when_done_effects has_cancel has_when_done cloned =
    (if has_cancel then cancel ∷ [] else [])
    ++ ((if has_when_done then when_done ∷ [] else []) ++ (if cloned then put_clone ∷ [] else []))

-- hookReadCloser, with its hook
pub record HookReadCloser : Type 0 where
  pub hook : List Effect
  pub closed : Bool

pub data Outcome : Type 0 where
  pick_failed : Outcome
  try_again : Outcome
  failed : Outcome
  response : HookReadCloser → Outcome

-- connection.RoundTrip: `started` is the result of startRequest, `succeeds` that of the leaf
unfoldable pub connection_round_trip :
    (started succeeds : Bool) → List Effect → Outcome × List Effect
connection_round_trip started succeeds done_effects =
    let on_finish : List Effect = done_effects ++ end_request ∷ [] in
    if started
    then if succeeds
      then (response (record { hook = on_finish; closed = false }), [])
      else (failed, on_finish)
    else (try_again, done_effects)

-- what the environment answers to one RoundTrip of a pool
pub record Answers : Type 0 where
  pub picked : Option (Chosen × Bool)
  pub has_timeout : Bool
  pub started : Bool
  pub succeeds : Bool

-- transportPool.RoundTrip; with `picked` comes whether the picker gave a whenDone
unfoldable pub pool_round_trip : Answers → Request → Outcome × List Effect
pool_round_trip answers request = elim answers.picked [
  | none ↦ (pick_failed, [])
  | some (chosen, has_when_done) ↦
      connection_round_trip answers.started answers.succeeds
        (when_done_effects answers.has_timeout has_when_done (needs_rewrite chosen request))
]

-- what the client does with a body; a Read may fail, also at the end of the body
pub data BodyCall : Type 0 where
  read : (fails : Bool) → BodyCall
  close : BodyCall

-- done
unfoldable pub hook_done : HookReadCloser → List Effect × HookReadCloser
hook_done h = if h.closed then ([], h) else (h.hook, record h { closed = true })

unfoldable pub body_call : HookReadCloser → BodyCall → List Effect × HookReadCloser
body_call h (read fails) = if fails then hook_done h else ([], h)
body_call h close = hook_done h

unfoldable pub body_calls : HookReadCloser → List BodyCall → List Effect
body_calls h [] = []
body_calls h (call ∷ calls) = let (effects, h') = body_call h call in effects ++ body_calls h' calls

-- a request and the calls on the body of its response, if there is one
unfoldable pub request_log : Answers → Request → List BodyCall → List Effect
request_log answers request calls =
    let (outcome, effects) = pool_round_trip answers request in
    effects ++ (elim outcome [
      | pick_failed ↦ []
      | try_again ↦ []
      | failed ↦ []
      | response h ↦ body_calls h calls
    ])
