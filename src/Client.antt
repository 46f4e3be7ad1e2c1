-- ===== src/Client.antt =====
-- client.go: the options of a client and their defaults. Contexts, functions and objects that the code
-- only stores are known by a number, and `none` is nil; durations and sizes may be negative.
pub mod Options
pub mod Last
pub mod Settings
pub mod Defaults
pub mod Configured
mod Tests
use httplb.Prelude.{
  ℕ, ◌+◌, ◌*◌, ◌≡◌, Bool, true, false, ◌||◌, Option, none, some, List, [], ◌∷◌, ◌==◌, if◌then◌else◌,
  length,
}
use httplb.Prelude.Int.{ℤ, pos, negsuc, eq_ℤ, ltb_ℤ}
use httplb.Transport.Target.{Target, empty, http, https, h2c, or_http}

-- the implementations of Transport
pub data Transport : Type 0 where
  simple_transport : Transport
  h2c_transport : Transport
  custom : ℕ → Transport

-- the errors of a RedirectFunc
pub data RedirectError : Type 0 where
  use_last_response : RedirectError
  too_many_redirects : (limit : ℤ) → RedirectError
  other : ℕ → RedirectError

-- RedirectFunc, from a request and the requests already made
abbrev pub RedirectFunc : Type 0
RedirectFunc = ℕ → List ℕ → Option RedirectError

-- FollowRedirects
unfoldable pub follow_redirects : ℤ → RedirectFunc
follow_redirects limit req via =
    if ltb_ℤ limit (pos (length via)) then some (too_many_redirects limit) else none

-- clientOptions
pub record ClientOptions : Type 0 where
  pub root_ctx : Option ℕ
  pub idle_transport_timeout : ℤ
  pub round_tripper_max_lifetime : ℤ
  pub schemes : Option (List (ℕ × Transport))
  pub redirect_func : Option RedirectFunc
  pub allowed_target : Option Target
  pub resolver : Option ℕ
  pub new_picker : Option ℕ
  pub health_checker : Option ℕ
  pub dial_func : Option ℕ
  pub proxy_func : Option ℕ
  pub proxy_connect_headers_func : Option ℕ
  pub max_response_header_bytes : ℤ
  pub idle_conn_timeout : ℤ
  pub tls_client_config : Option ℕ
  pub tls_handshake_timeout : ℤ
  pub default_timeout : ℤ
  pub request_timeout : ℤ
  pub disable_compression : Bool

-- `var opts clientOptions`
unfoldable pub zero_options : ClientOptions
zero_options = record {
  root_ctx = none;
  idle_transport_timeout = pos 0;
  round_tripper_max_lifetime = pos 0;
  schemes = none;
  redirect_func = none;
  allowed_target = none;
  resolver = none;
  new_picker = none;
  health_checker = none;
  dial_func = none;
  proxy_func = none;
  proxy_connect_headers_func = none;
  max_response_header_bytes = pos 0;
  idle_conn_timeout = pos 0;
  tls_client_config = none;
  tls_handshake_timeout = pos 0;
  default_timeout = pos 0;
  request_timeout = pos 0;
  disable_compression = false;
}

-- a map from schemes to transports
unfoldable pub lookup : ℕ → List (ℕ × Transport) → Option Transport
lookup scheme [] = none
lookup scheme ((key, transport) ∷ others) =
    if key == scheme then some transport else lookup scheme others

unfoldable pub insert : ℕ → Transport → List (ℕ × Transport) → List (ℕ × Transport)
insert scheme transport [] = (scheme, transport) ∷ []
insert scheme transport ((key, old) ∷ others) =
    if key == scheme
    then (scheme, transport) ∷ others
    else (key, old) ∷ insert scheme transport others

-- what the code takes from other packages and from its own global variables
pub record Known : Type 0 where
  pub background : ℕ
  pub default_resolver : ℕ
  pub new_round_robin : ℕ
  pub nop_checker : ℕ
  pub dial_context : ℕ
  pub proxy_from_environment : ℕ
  pub no_proxy : ℕ

-- `if x == nil { x = d }` and `if x == 0 { x = d }`
unfoldable pub or_default : Option ℕ → ℕ → Option ℕ
or_default x d = elim x [ none ↦ some d | some v ↦ some v ]

unfoldable pub or_duration : ℤ → ℤ → ℤ
or_duration x d = if eq_ℤ x (pos 0) then d else x

unfoldable pub or_transport : ℕ → Transport → List (ℕ × Transport) → List (ℕ × Transport)
or_transport scheme transport schemes = elim (lookup scheme schemes) [
  | none ↦ insert scheme transport schemes
  | some t ↦ schemes
]

abbrev pub second : ℕ
second = 1000000000

-- applyDefaults
unfoldable pub apply_defaults : Known → ClientOptions → ClientOptions
apply_defaults k opts =
    let schemes : List (ℕ × Transport) = elim opts.schemes [ none ↦ [] | some m ↦ m ] in
    record opts {
      root_ctx = or_default opts.root_ctx k.background;
      idle_transport_timeout = or_duration opts.idle_transport_timeout (pos (15 * 60 * second));
      redirect_func = elim opts.redirect_func [
        | none ↦ some (λ req via. some use_last_response)
        | some f ↦ some f
      ];
      schemes = some (
          or_transport h2c h2c_transport
            (or_transport https simple_transport (or_transport http simple_transport schemes)));
      resolver = or_default opts.resolver k.default_resolver;
      new_picker = or_default opts.new_picker k.new_round_robin;
      health_checker = or_default opts.health_checker k.nop_checker;
      dial_func = or_default opts.dial_func k.dial_context;
      proxy_func = or_default opts.proxy_func k.proxy_from_environment;
      max_response_header_bytes = or_duration opts.max_response_header_bytes (pos (1024 * 1024));
      tls_handshake_timeout = or_duration opts.tls_handshake_timeout (pos (10 * second));
    }
