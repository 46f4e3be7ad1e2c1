-- ===== src/Client/Settings.antt =====
-- client.go: the settings that one option each stores as it is, and those of the proxy and of TLS.
use httplb.Prelude.{ℕ, ◌≡◌, refl, Bool, Option, none, some}
use httplb.Prelude.Int.{ℤ}
use httplb.Client.{ClientOptions, Known}
use httplb.Client.Last.{
  Choice, root_context, max_lifetime, health_checks, proxy, no_proxy, dialer, tls_config,
  max_header_bytes, idle_connection, disable_compression, option_of, given,
}

abbrev pub root_in : Choice → Option (Option ℕ)
root_in (root_context x) = some x
root_in _ = none

pub root_step :
    (k : Known) (c : Choice) (o : ClientOptions)
    → (option_of k c o).root_ctx ≡ given (root_in c) o.root_ctx
unfolding option_of
root_step k (root_context x) o = refl
root_step k _ o = refl

abbrev pub lifetime_in : Choice → Option (ℤ)
lifetime_in (max_lifetime x) = some x
lifetime_in _ = none

pub lifetime_step :
    (k : Known) (c : Choice) (o : ClientOptions)
    → (option_of k c o).round_tripper_max_lifetime
      ≡ given (lifetime_in c) o.round_tripper_max_lifetime
unfolding option_of
lifetime_step k (max_lifetime x) o = refl
lifetime_step k _ o = refl

abbrev pub checker_in : Choice → Option (Option ℕ)
checker_in (health_checks x) = some x
checker_in _ = none

pub checker_step :
    (k : Known) (c : Choice) (o : ClientOptions)
    → (option_of k c o).health_checker ≡ given (checker_in c) o.health_checker
unfolding option_of
checker_step k (health_checks x) o = refl
checker_step k _ o = refl

abbrev pub dial_in : Choice → Option (Option ℕ)
dial_in (dialer x) = some x
dial_in _ = none

pub dial_step :
    (k : Known) (c : Choice) (o : ClientOptions)
    → (option_of k c o).dial_func ≡ given (dial_in c) o.dial_func
unfolding option_of
dial_step k (dialer x) o = refl
dial_step k _ o = refl

abbrev pub header_bytes_in : Choice → Option (ℤ)
header_bytes_in (max_header_bytes x) = some x
header_bytes_in _ = none

pub header_bytes_step :
    (k : Known) (c : Choice) (o : ClientOptions)
    → (option_of k c o).max_response_header_bytes
      ≡ given (header_bytes_in c) o.max_response_header_bytes
unfolding option_of
header_bytes_step k (max_header_bytes x) o = refl
header_bytes_step k _ o = refl

abbrev pub idle_conn_in : Choice → Option (ℤ)
idle_conn_in (idle_connection x) = some x
idle_conn_in _ = none

pub idle_conn_step :
    (k : Known) (c : Choice) (o : ClientOptions)
    → (option_of k c o).idle_conn_timeout ≡ given (idle_conn_in c) o.idle_conn_timeout
unfolding option_of
idle_conn_step k (idle_connection x) o = refl
idle_conn_step k _ o = refl

abbrev pub compression_in : Choice → Option (Bool)
compression_in (disable_compression x) = some x
compression_in _ = none

pub compression_step :
    (k : Known) (c : Choice) (o : ClientOptions)
    → (option_of k c o).disable_compression ≡ given (compression_in c) o.disable_compression
unfolding option_of
compression_step k (disable_compression x) o = refl
compression_step k _ o = refl

-- the proxy function, and the function for the headers of CONNECT
abbrev pub proxy_in : Known → Choice → Option (Option ℕ × Option ℕ)
proxy_in k (proxy f g) = some (f, g)
proxy_in k no_proxy = some (some k.no_proxy, none)
proxy_in k _ = none

unfoldable pub proxies : ClientOptions → Option ℕ × Option ℕ
proxies o = (o.proxy_func, o.proxy_connect_headers_func)

pub proxy_step :
    (k : Known) (c : Choice) (o : ClientOptions)
    → proxies (option_of k c o) ≡ given (proxy_in k c) (proxies o)
unfolding proxies option_of
proxy_step k (proxy f g) o = refl
proxy_step k no_proxy o = refl
proxy_step k _ o = refl

-- the TLS configuration, and the timeout of its handshake
abbrev pub tls_in : Choice → Option (Option ℕ × ℤ)
tls_in (tls_config config d) = some (config, d)
tls_in _ = none

unfoldable pub tls : ClientOptions → Option ℕ × ℤ
tls o = (o.tls_client_config, o.tls_handshake_timeout)

pub tls_step :
    (k : Known) (c : Choice) (o : ClientOptions) → tls (option_of k c o) ≡ given (tls_in c) (tls o)
unfolding tls option_of
tls_step k (tls_config config d) o = refl
tls_step k _ o = refl
