-- ===== src/Client/Last.antt =====
-- client.go: what a client is configured with, said by the last option that speaks of a setting.
use httplb.Prelude.{
  ℕ, ◌≡◌, refl, ◌∙◌, Bool, Option, none, some, List, [], ◌∷◌, map, ◌==◌, if◌then◌else◌,
}
use httplb.Prelude.Int.{ℤ, pos}
use httplb.Transport.Target.{Target, or_http}
use httplb.Client.{ClientOptions, Transport, RedirectFunc, Known}
use httplb.Client.Options.{
  ClientOption, with_root_context, with_idle_transport_timeout, with_round_tripper_max_lifetime,
  with_transport, with_allow_backend_target, with_resolver, with_picker, with_health_checks,
  with_proxy, with_no_proxy, with_default_timeout, with_request_timeout, with_dialer,
  with_tls_config, with_max_response_header_bytes, with_idle_connection_timeout, with_redirects,
  with_disable_compression, apply_options,
}

-- The options that the package offers; no other package can write one.
pub data Choice : Type 0 where
  root_context : Option ℕ → Choice
  idle_transport : ℤ → Choice
  max_lifetime : ℤ → Choice
  transport : ℕ → Transport → Choice
  backend_target : ℕ → ℕ → Choice
  resolver : Option ℕ → Choice
  picker : Option ℕ → Choice
  health_checks : Option ℕ → Choice
  proxy : Option ℕ → Option ℕ → Choice
  no_proxy : Choice
  default_timeout : ℤ → Choice
  request_timeout : ℤ → Choice
  dialer : Option ℕ → Choice
  tls_config : Option ℕ → ℤ → Choice
  max_header_bytes : ℤ → Choice
  idle_connection : ℤ → Choice
  redirects : Option RedirectFunc → Choice
  disable_compression : Bool → Choice

unfoldable pub option_of : Known → Choice → ClientOption
unfolding with_root_context with_idle_transport_timeout with_round_tripper_max_lifetime
    with_transport with_allow_backend_target with_resolver with_picker with_health_checks with_proxy
    with_no_proxy with_default_timeout with_request_timeout with_dialer with_tls_config
    with_max_response_header_bytes with_idle_connection_timeout with_redirects
    with_disable_compression
option_of k (root_context ctx) = with_root_context ctx
option_of k (idle_transport d) = with_idle_transport_timeout d
option_of k (max_lifetime d) = with_round_tripper_max_lifetime d
option_of k (transport scheme t) = with_transport scheme t
option_of k (backend_target scheme host_port) = with_allow_backend_target scheme host_port
option_of k (resolver res) = with_resolver res
option_of k (picker p) = with_picker p
option_of k (health_checks checker) = with_health_checks checker
option_of k (proxy f g) = with_proxy f g
option_of k no_proxy = with_no_proxy k
option_of k (default_timeout d) = with_default_timeout d
option_of k (request_timeout d) = with_request_timeout d
option_of k (dialer dial) = with_dialer dial
option_of k (tls_config config d) = with_tls_config config d
option_of k (max_header_bytes limit) = with_max_response_header_bytes limit
option_of k (idle_connection d) = with_idle_connection_timeout d
option_of k (redirects f) = with_redirects f
option_of k (disable_compression ok) = with_disable_compression ok

-- what the last choice says that speaks of a setting
abbrev pub last {ℓ} : {A : Type ℓ} → (Choice → Option A) → List Choice → Option A
last f [] = none
last f (c ∷ cs) = elim (last f cs) [ none ↦ f c | some a ↦ some a ]

abbrev pub given {ℓ} : {A : Type ℓ} → Option A → A → A
given none d = d
given (some a) d = a

abbrev pub timeouts_in : Choice → Option (ℤ × ℤ)
timeouts_in (default_timeout d) = some (d, pos 0)
timeouts_in (request_timeout d) = some (pos 0, d)
timeouts_in _ = none

abbrev pub redirects_in : Choice → Option (Option RedirectFunc)
redirects_in (redirects f) = some f
redirects_in _ = none

abbrev pub target_in : Choice → Option (Option Target)
target_in (backend_target scheme host_port) =
    some (some (record { scheme = or_http scheme; host_port = host_port }))
target_in _ = none

abbrev pub transport_in : ℕ → Choice → Option (Option Transport)
transport_in s (transport scheme t) = if scheme == s then some (some t) else none
transport_in s _ = none

abbrev pub picker_in : Choice → Option (Option ℕ)
picker_in (picker p) = some p
picker_in _ = none

abbrev pub resolver_in : Choice → Option (Option ℕ)
resolver_in (resolver res) = some res
resolver_in _ = none

abbrev pub idle_in : Choice → Option ℤ
idle_in (idle_transport d) = some d
idle_in _ = none

module _ {A : Type 0} (k : Known) (field : ClientOptions → A) (says : Choice → Option A) where
  pub apply_options-last :
      ((c : Choice) (o : ClientOptions) → field (option_of k c o) ≡ given (says c) (field o))
      → (cs : List Choice) (o : ClientOptions)
      → field (apply_options o (map (option_of k) cs)) ≡ given (last says cs) (field o)
  unfolding apply_options
  apply_options-last step [] o = refl
  apply_options-last step (c ∷ cs) o =
      apply_options-last step cs (option_of k c o)
      ∙ elim (last says cs)
          as (λ l.
            given l (field (option_of k c o))
            ≡ given (elim l [ none ↦ says c | some a ↦ some a ]) (field o)) [
              | none ↦ step c o
              | some a ↦ refl
            ]

unfoldable pub timeouts : ClientOptions → ℤ × ℤ
timeouts o = (o.default_timeout, o.request_timeout)

pub timeouts_step :
    (k : Known) (c : Choice) (o : ClientOptions)
    → timeouts (option_of k c o) ≡ given (timeouts_in c) (timeouts o)
unfolding timeouts option_of
timeouts_step k (default_timeout d) o = refl
timeouts_step k _ o = refl

pub redirects_step :
    (k : Known) (c : Choice) (o : ClientOptions)
    → (option_of k c o).redirect_func ≡ given (redirects_in c) o.redirect_func
unfolding option_of
redirects_step k (redirects f) o = refl
redirects_step k _ o = refl

pub target_step :
    (k : Known) (c : Choice) (o : ClientOptions)
    → (option_of k c o).allowed_target ≡ given (target_in c) o.allowed_target
unfolding option_of
target_step k (backend_target s h) o = refl
target_step k _ o = refl

pub picker_step :
    (k : Known) (c : Choice) (o : ClientOptions)
    → (option_of k c o).new_picker ≡ given (picker_in c) o.new_picker
unfolding option_of
picker_step k (picker p) o = refl
picker_step k _ o = refl

pub resolver_step :
    (k : Known) (c : Choice) (o : ClientOptions)
    → (option_of k c o).resolver ≡ given (resolver_in c) o.resolver
unfolding option_of
resolver_step k (resolver p) o = refl
resolver_step k _ o = refl

pub idle_step :
    (k : Known) (c : Choice) (o : ClientOptions)
    → (option_of k c o).idle_transport_timeout ≡ given (idle_in c) o.idle_transport_timeout
unfolding option_of
idle_step k (idle_transport d) o = refl
idle_step k _ o = refl
