-- ===== src/Transport/Request/Tests.antt =====
-- A request whose body is read to its end and closed.
use httplb.Prelude.{◌≡◌, refl, true, false, some, List, [], ◌∷◌}
use httplb.Transport.Target.{http, https}
use httplb.Transport.Request.{
  Request, Chosen, needs_rewrite, rewrite, sent_request, cancel, when_done, put_clone, end_request,
  when_done_effects, connection_round_trip, Answers, pool_round_trip, BodyCall, read, close,
  hook_done, body_call, body_calls, request_log,
}
use httplb.Transport.Request.Finish.{count, expected, request_finishes_once}
use httplb.Transport.Request.Rewrite.{Addressed, sent_request_correct}

abbrev chosen : Chosen
chosen = record { scheme = https; addr = 70 }

abbrev request : Request
request = record { url_scheme = http; url_host = 50; host = 51 }

abbrev answers : Answers
answers = record {
  picked = some (chosen, true);
  has_timeout = true;
  started = true;
  succeeds = true;
}

abbrev calls : List BodyCall
calls = read false ∷ read true ∷ close ∷ []

all_released : request_log answers request calls ≡ cancel ∷ when_done ∷ put_clone ∷ end_request ∷ []
unfolding request_log pool_round_trip connection_round_trip when_done_effects needs_rewrite
    hook_done body_call body_calls
all_released = refl

rewritten : sent_request chosen request ≡ record { url_scheme = https; url_host = 70; host = 51 }
unfolding sent_request needs_rewrite rewrite
rewritten = refl

request_finishes_once_example :
    count when_done (request_log answers request calls) ≡ expected answers request calls when_done
request_finishes_once_example = request_finishes_once answers request calls when_done

sent_request_correct_example : Addressed chosen request (sent_request chosen request)
sent_request_correct_example = sent_request_correct chosen request
