-- ===== src/Transport/Request/Rewrite.antt =====
-- The request that is sent to the connection.
use httplb.Prelude.{◌≡◌, ◌≢◌, arith, ◌==◌, if◌then◌else◌}
use httplb.Transport.Target.{empty}
use httplb.Transport.Request.{Request, Chosen, needs_rewrite, rewrite, sent_request}

-- What the connection gets of a request.
pub record Addressed (chosen : Chosen) (request sent : Request) : Type 0 where
  pub url_host : sent.url_host ≡ chosen.addr
  pub scheme :
      sent.url_scheme ≡ (if chosen.scheme == empty then request.url_scheme else chosen.scheme)
  pub host : request.host ≢ empty → sent.host ≡ request.host
  pub no_host : request.host ≡ empty → sent.host ≡ chosen.addr

-- The request that is sent goes to the address of the chosen connection with the connection's scheme, where it has one, and keeps the Host that it has; if it has none its Host becomes the address of the connection, and not the host of its URL.
pub sent_request_correct :
    (chosen : Chosen) (request : Request) → Addressed chosen request (sent_request chosen request)
unfolding sent_request needs_rewrite rewrite
sent_request_correct chosen request = record {
  url_host = ground arith;
  scheme = ground arith;
  host = λ h. ground arith;
  no_host = λ h. ground arith;
}
