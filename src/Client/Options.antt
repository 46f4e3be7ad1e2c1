-- ===== src/Client/Options.antt =====
-- client.go: the functions that return a ClientOption, applyToClient, and the options of NewClient.
use httplb.Prelude.{ℕ, Bool, Option, none, some, List, [], ◌∷◌}
use httplb.Prelude.Int.{ℤ, pos}
use httplb.Transport.Target.{Target, or_http}
use httplb.Client.{
  ClientOptions, Transport, RedirectFunc, Known, insert, apply_defaults, zero_options,
}

-- ClientOption: applyToClient of a clientOptionFunc calls the function
abbrev pub ClientOption : Type 0
ClientOption = ClientOptions → ClientOptions

unfoldable pub with_root_context : Option ℕ → ClientOption
with_root_context ctx opts = record opts { root_ctx = ctx }

unfoldable pub with_idle_transport_timeout : ℤ → ClientOption
with_idle_transport_timeout duration opts = record opts { idle_transport_timeout = duration }

unfoldable pub with_round_tripper_max_lifetime : ℤ → ClientOption
with_round_tripper_max_lifetime duration opts = record opts {
  round_tripper_max_lifetime = duration;
}

unfoldable pub with_transport : ℕ → Transport → ClientOption
with_transport scheme transport opts = record opts {
  schemes = some (insert scheme transport (elim opts.schemes [ none ↦ [] | some m ↦ m ]));
}

unfoldable pub with_allow_backend_target : ℕ → ℕ → ClientOption
with_allow_backend_target scheme host_port opts =
    let dest : Target = record { scheme = or_http scheme; host_port = host_port } in
    record opts { allowed_target = some dest }

unfoldable pub with_resolver : Option ℕ → ClientOption
with_resolver res opts = record opts { resolver = res }

unfoldable pub with_picker : Option ℕ → ClientOption
with_picker new_picker opts = record opts { new_picker = new_picker }

unfoldable pub with_health_checks : Option ℕ → ClientOption
with_health_checks checker opts = record opts { health_checker = checker }

unfoldable pub with_proxy : Option ℕ → Option ℕ → ClientOption
with_proxy proxy_func proxy_connect_headers_func opts = record opts {
  proxy_func = proxy_func;
  proxy_connect_headers_func = proxy_connect_headers_func;
}

unfoldable pub with_no_proxy : Known → ClientOption
with_no_proxy k = with_proxy (some k.no_proxy) none

unfoldable pub with_default_timeout : ℤ → ClientOption
with_default_timeout duration opts = record opts {
  default_timeout = duration;
  request_timeout = pos 0;
}

unfoldable pub with_request_timeout : ℤ → ClientOption
with_request_timeout duration opts = record opts {
  default_timeout = pos 0;
  request_timeout = duration;
}

unfoldable pub with_dialer : Option ℕ → ClientOption
with_dialer dial_func opts = record opts { dial_func = dial_func }

unfoldable pub with_tls_config : Option ℕ → ℤ → ClientOption
with_tls_config config handshake_timeout opts = record opts {
  tls_client_config = config;
  tls_handshake_timeout = handshake_timeout;
}

unfoldable pub with_max_response_header_bytes : ℤ → ClientOption
with_max_response_header_bytes limit opts = record opts { max_response_header_bytes = limit }

unfoldable pub with_idle_connection_timeout : ℤ → ClientOption
with_idle_connection_timeout duration opts = record opts { idle_conn_timeout = duration }

unfoldable pub with_redirects : Option RedirectFunc → ClientOption
with_redirects redirect_func opts = record opts { redirect_func = redirect_func }

unfoldable pub with_disable_compression : Bool → ClientOption
with_disable_compression ok opts = record opts { disable_compression = ok }

-- the loop of NewClient
unfoldable pub apply_options : ClientOptions → List ClientOption → ClientOptions
apply_options opts [] = opts
apply_options opts (opt ∷ options) = apply_options (opt opts) options

-- the options with which NewClient makes its transport
unfoldable pub new_client_options : Known → List ClientOption → ClientOptions
new_client_options k options = apply_defaults k (apply_options zero_options options)
