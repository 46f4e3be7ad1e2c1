-- ===== src/Transport/Request/Finish.antt =====
-- What is to be done at the end of a request is done once.
use httplb.Prelude.{
  ℕ, ◌+◌, ◌≡◌, refl, ap, ◌∙◌, Bool, true, false, not, ◌&&◌, ◌||◌, none, some, List, [], ◌∷◌, ◌++◌,
  append-nil, arith, if◌then◌else◌,
}
use httplb.Transport.Request.{
  Request, needs_rewrite, Effect, cancel, when_done, put_clone, end_request, when_done_effects,
  Outcome, pick_failed, try_again, failed, response, connection_round_trip, Answers,
  pool_round_trip, BodyCall, read, close, hook_done, body_call, body_calls, request_log,
}

abbrev pub same_effect : Effect → Effect → Bool
same_effect cancel cancel = true
same_effect when_done when_done = true
same_effect put_clone put_clone = true
same_effect end_request end_request = true
same_effect _ _ = false

abbrev pub count : Effect → List Effect → ℕ
count e [] = 0
count e (f ∷ fs) = (if same_effect f e then 1 else 0) + count e fs

abbrev pub finishes : BodyCall → Bool
finishes (read fails) = fails
finishes close = true

abbrev pub any_finishes : List BodyCall → Bool
any_finishes [] = false
any_finishes (call ∷ calls) = finishes call || any_finishes calls

-- what has to be done for a request that a connection was picked for
abbrev pub due : (has_timeout has_when_done cloned started : Bool) → Effect → Bool
due has_timeout has_when_done cloned started cancel = has_timeout
due has_timeout has_when_done cloned started when_done = has_when_done
due has_timeout has_when_done cloned started put_clone = cloned
due has_timeout has_when_done cloned started end_request = started

-- whether the request has come to its end: it has no response, or its body was used up or closed
abbrev pub over : Answers → List BodyCall → Bool
over answers calls = not (answers.started && answers.succeeds) || any_finishes calls

abbrev pub expected : Answers → Request → List BodyCall → Effect → ℕ
expected answers request calls e = elim answers.picked [
  | none ↦ 0
  | some (chosen, has_when_done) ↦
      if over answers calls
        && due answers.has_timeout has_when_done (needs_rewrite chosen request) answers.started e
      then 1
      else 0
]

pub count-append : (e : Effect) (xs ys : List Effect) → count e (xs ++ ys) ≡ count e xs + count e ys
count-append e [] ys = omega arith
count-append e (x ∷ xs) ys = omega (arith, count-append e xs ys)

after_done :
    (effects : List Effect) (calls : List BodyCall)
    → body_calls (record { hook = effects; closed = true }) calls ≡ []
unfolding body_calls body_call hook_done
after_done effects [] = refl
after_done effects (read true ∷ calls) = after_done effects calls
after_done effects (read false ∷ calls) = after_done effects calls
after_done effects (close ∷ calls) = after_done effects calls

body_calls_lem :
    (effects : List Effect) (calls : List BodyCall)
    → body_calls (record { hook = effects; closed = false }) calls
      ≡ (if any_finishes calls then effects else [])
unfolding body_calls body_call hook_done
body_calls_lem effects [] = refl
body_calls_lem effects (read true ∷ calls) =
    ap (λ l. effects ++ l) (after_done effects calls) ∙ append-nil effects
body_calls_lem effects (read false ∷ calls) = body_calls_lem effects calls
body_calls_lem effects (close ∷ calls) =
    ap (λ l. effects ++ l) (after_done effects calls) ∙ append-nil effects

count_started :
    (t w c : Bool) (e : Effect)
    → count e (when_done_effects t w c ++ end_request ∷ []) ≡ (if due t w c true e then 1 else 0)
unfolding when_done_effects
count_started t w c cancel = ground arith
count_started t w c when_done = ground arith
count_started t w c put_clone = ground arith
count_started t w c end_request = ground arith

count_not_started :
    (t w c : Bool) (e : Effect)
    → count e (when_done_effects t w c) ≡ (if due t w c false e then 1 else 0)
unfolding when_done_effects
count_not_started t w c cancel = ground arith
count_not_started t w c when_done = ground arith
count_not_started t w c put_clone = ground arith
count_not_started t w c end_request = ground arith

one_request :
    (t w c started succeeds : Bool) (calls : List BodyCall) (e : Effect)
    → count e (
        let r : Outcome × List Effect =
          connection_round_trip started succeeds (when_done_effects t w c) in
        r.1 ++ (elim r.0 [
          | pick_failed ↦ []
          | try_again ↦ []
          | failed ↦ []
          | response h ↦ body_calls h calls
        ]))
      ≡ (if (not (started && succeeds) || any_finishes calls) && due t w c started e then 1 else 0)
unfolding connection_round_trip
one_request t w c false s calls e =
    ap (count e) (append-nil (when_done_effects t w c)) ∙ count_not_started t w c e
one_request t w c true false calls e =
    ap (count e) (append-nil (when_done_effects t w c ++ end_request ∷ [])) ∙ count_started t w c e
one_request t w c true true calls e =
    ap (count e) (body_calls_lem (when_done_effects t w c ++ end_request ∷ []) calls)
    ∙ elim (any_finishes calls)
        as (λ b.
          count e (if b then when_done_effects t w c ++ end_request ∷ [] else [])
          ≡ (if b && due t w c true e then 1 else 0)) [
            | true ↦ count_started t w c e
            | false ↦ refl
          ]

-- A request that was given a connection releases what it holds exactly once, and what it does not hold never: the timeout's cancel function, the picker's whenDone, the clone of the request and its place among the requests of the connection. This is when it is refused or fails, and else at the first Read of the body that fails or the first Close; not before, and not again.
pub request_finishes_once :
    (answers : Answers) (request : Request) (calls : List BodyCall) (e : Effect)
    → count e (request_log answers request calls) ≡ expected answers request calls e
unfolding request_log pool_round_trip
request_finishes_once answers request calls e =
    elim answers.picked
      as (λ o.
        count e (
          let r : Outcome × List Effect = elim o [
            | none ↦ (pick_failed, [])
            | some (chosen, has_when_done) ↦
                connection_round_trip answers.started answers.succeeds (
                  when_done_effects answers.has_timeout has_when_done
                    (needs_rewrite chosen request))
          ] in
          r.1 ++ (elim r.0 [
            | pick_failed ↦ []
            | try_again ↦ []
            | failed ↦ []
            | response h ↦ body_calls h calls
          ]))
        ≡ (elim o [
          | none ↦ 0
          | some (chosen, has_when_done) ↦
              if over answers calls
                && due answers.has_timeout has_when_done (needs_rewrite chosen request)
                    answers.started e
              then 1
              else 0
        ])) [
          | none ↦ refl
          | some (chosen, has_when_done) ↦
              one_request answers.has_timeout has_when_done (needs_rewrite chosen request)
                answers.started answers.succeeds calls e
        ]
