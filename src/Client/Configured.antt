-- ===== src/Client/Configured.antt =====
-- client.go: the options of a new client, with the defaults.
use httplb.Prelude.{ℕ, ◌*◌, ◌≡◌, ap, ◌∙◌, false, Option, none, some, List, map}
use httplb.Prelude.Int.{ℤ, pos}
use httplb.Client.{
  ClientOptions, use_last_response, Known, lookup, second, apply_defaults, zero_options,
}
use httplb.Client.Options.{apply_options, new_client_options}
use httplb.Client.Last.{
  Choice, option_of, last, given, timeouts_in, redirects_in, target_in, transport_in, picker_in,
  resolver_in, idle_in, apply_options-last, timeouts, timeouts_step, redirects_step, target_step,
  picker_step, resolver_step, idle_step,
}
use httplb.Client.Settings.{
  root_in, root_step, lifetime_in, lifetime_step, checker_in, checker_step, dial_in, dial_step,
  header_bytes_in, header_bytes_step, idle_conn_in, idle_conn_step, compression_in,
  compression_step, proxy_in, proxies, proxy_step, tls_in, tls, tls_step,
}
use httplb.Client.Defaults.{
  scheme_transport, transport_step, default_transport, or_else, or_default-or_else,
  default_redirect, default_transports, unless_zero, or_duration-unless_zero,
}

-- What NewClient makes of the options that it is given.
pub record Configured (k : Known) (cs : List Choice) (o : ClientOptions) : Type 0 where
  pub timeouts :
      ◌≡◌ {A = ℤ × ℤ}
        (o.default_timeout, o.request_timeout)
        (given (last timeouts_in cs) (pos 0, pos 0))
  pub redirect :
      o.redirect_func
      ≡ or_else (given (last redirects_in cs) none) (some (λ req via. some use_last_response))
  pub target : o.allowed_target ≡ given (last target_in cs) none
  pub transports :
      (s : ℕ)
      → scheme_transport s o ≡ or_else (given (last (transport_in s) cs) none) (default_transport s)
  pub picker : o.new_picker ≡ or_else (given (last picker_in cs) none) (some k.new_round_robin)
  pub resolver : o.resolver ≡ or_else (given (last resolver_in cs) none) (some k.default_resolver)
  pub idle :
      o.idle_transport_timeout
      ≡ unless_zero (given (last idle_in cs) (pos 0)) (pos (15 * 60 * second))
  pub root : o.root_ctx ≡ or_else (given (last root_in cs) none) (some k.background)
  pub lifetime : o.round_tripper_max_lifetime ≡ given (last lifetime_in cs) (pos 0)
  pub checker : o.health_checker ≡ or_else (given (last checker_in cs) none) (some k.nop_checker)
  pub dial : o.dial_func ≡ or_else (given (last dial_in cs) none) (some k.dial_context)
  pub proxy :
      ◌≡◌ {A = Option ℕ × Option ℕ}
        (o.proxy_func, o.proxy_connect_headers_func)
        (let (f, g) = given (last (proxy_in k) cs) (none, none) in
          (or_else f (some k.proxy_from_environment), g))
  pub header_bytes :
      o.max_response_header_bytes
      ≡ unless_zero (given (last header_bytes_in cs) (pos 0)) (pos (1024 * 1024))
  pub idle_conn : o.idle_conn_timeout ≡ given (last idle_conn_in cs) (pos 0)
  pub tls :
      ◌≡◌ {A = Option ℕ × ℤ}
        (o.tls_client_config, o.tls_handshake_timeout)
        (let (config, d) = given (last tls_in cs) (none, pos 0) in
          (config, unless_zero d (pos (10 * second))))
  pub compression : o.disable_compression ≡ given (last compression_in cs) false

-- For any list of options, the client has for each setting what the last option says that speaks of it: of the two timeouts only the one of the last WithDefaultTimeout or WithRequestTimeout is set; a nil redirect function, picker, resolver, root context, health checker, dialer or proxy function is replaced by the default, while the proxy's function for headers, the TLS configuration, the allowed target, the lifetime, the timeout of idle connections and the flag for compression stay as they are; each scheme has the transport of the last WithTransport for it, and else a default one for http, https and h2c; and an idle timeout of 0 becomes 15 minutes, a handshake timeout of 0 becomes 10 seconds, a limit of 0 on the header's size 1024 * 1024 bytes, while any other value is kept.
pub new_client_correct :
    (k : Known) (cs : List Choice) → Configured k cs (new_client_options k (map (option_of k) cs))
unfolding new_client_options apply_defaults timeouts zero_options lookup proxies tls
new_client_correct k cs =
    let chosen : ClientOptions = apply_options zero_options (map (option_of k) cs) in
    record {
      timeouts = apply_options-last k timeouts timeouts_in (timeouts_step k) cs zero_options;
      redirect =
          default_redirect chosen.redirect_func
          ∙ ap (λ x. or_else x (some (λ req via. some use_last_response)))
              (apply_options-last k (λ o. o.redirect_func) redirects_in (redirects_step k) cs
                zero_options);
      target =
          apply_options-last k (λ o. o.allowed_target) target_in (target_step k) cs zero_options;
      transports = λ s.
          default_transports s k chosen
          ∙ ap (λ x. or_else x (default_transport s))
              (apply_options-last k (scheme_transport s) (transport_in s) (transport_step s k) cs
                zero_options);
      picker =
          or_default-or_else chosen.new_picker k.new_round_robin
          ∙ ap (λ x. or_else x (some k.new_round_robin))
              (apply_options-last k (λ o. o.new_picker) picker_in (picker_step k) cs zero_options);
      resolver =
          or_default-or_else chosen.resolver k.default_resolver
          ∙ ap (λ x. or_else x (some k.default_resolver))
              (apply_options-last k (λ o. o.resolver) resolver_in (resolver_step k) cs
                zero_options);
      idle =
          or_duration-unless_zero chosen.idle_transport_timeout (pos (15 * 60 * second))
          ∙ ap (λ d. unless_zero d (pos (15 * 60 * second)))
              (apply_options-last k (λ o. o.idle_transport_timeout) idle_in (idle_step k) cs
                zero_options);
      root =
          or_default-or_else chosen.root_ctx k.background
          ∙ ap (λ x. or_else x (some k.background))
              (apply_options-last k (λ o. o.root_ctx) root_in (root_step k) cs zero_options);
      lifetime =
          apply_options-last k (λ o. o.round_tripper_max_lifetime) lifetime_in (lifetime_step k) cs
            zero_options;
      checker =
          or_default-or_else chosen.health_checker k.nop_checker
          ∙ ap (λ x. or_else x (some k.nop_checker))
              (apply_options-last k (λ o. o.health_checker) checker_in (checker_step k) cs
                zero_options);
      dial =
          or_default-or_else chosen.dial_func k.dial_context
          ∙ ap (λ x. or_else x (some k.dial_context))
              (apply_options-last k (λ o. o.dial_func) dial_in (dial_step k) cs zero_options);
      proxy =
          ap (λ (x : Option ℕ). (x, chosen.proxy_connect_headers_func))
            (or_default-or_else chosen.proxy_func k.proxy_from_environment)
          ∙ ap (λ (p : Option ℕ × Option ℕ). (or_else p.0 (some k.proxy_from_environment), p.1))
              (apply_options-last k proxies (proxy_in k) (proxy_step k) cs zero_options);
      header_bytes =
          or_duration-unless_zero chosen.max_response_header_bytes (pos (1024 * 1024))
          ∙ ap (λ d. unless_zero d (pos (1024 * 1024)))
              (apply_options-last k (λ o. o.max_response_header_bytes) header_bytes_in
                (header_bytes_step k) cs zero_options);
      idle_conn =
          apply_options-last k (λ o. o.idle_conn_timeout) idle_conn_in (idle_conn_step k) cs
            zero_options;
      tls =
          ap (λ (d : ℤ). (chosen.tls_client_config, d))
            (or_duration-unless_zero chosen.tls_handshake_timeout (pos (10 * second)))
          ∙ ap (λ (p : Option ℕ × ℤ). (p.0, unless_zero p.1 (pos (10 * second))))
              (apply_options-last k tls tls_in (tls_step k) cs zero_options);
      compression =
          apply_options-last k (λ o. o.disable_compression) compression_in (compression_step k) cs
            zero_options;
    }
