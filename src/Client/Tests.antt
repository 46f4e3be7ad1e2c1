-- ===== src/Client/Tests.antt =====
-- A client with some options.
use httplb.Prelude.{◌≡◌, refl, some, List, [], ◌∷◌, map}
use httplb.Prelude.Int.{pos}
use httplb.Client.{Known, custom, follow_redirects, too_many_redirects, apply_defaults}
use httplb.Client.Options.{new_client_options, apply_options}
use httplb.Client.Last.{Choice, option_of, request_timeout, default_timeout, transport, redirects}
use httplb.Client.Configured.{Configured, new_client_correct}

abbrev known : Known
known = record {
  background = 1;
  default_resolver = 2;
  new_round_robin = 3;
  nop_checker = 4;
  dial_context = 5;
  proxy_from_environment = 6;
  no_proxy = 7;
}

abbrev some_choices : List Choice
some_choices =
    request_timeout (pos 30)
    ∷ transport 9 (custom 4)
    ∷ redirects (some (follow_redirects (pos 1)))
    ∷ default_timeout (pos 20)
    ∷ []

default_wins :
    (new_client_options known (map (option_of known) some_choices)).request_timeout ≡ pos 0
unfolding new_client_options apply_options option_of apply_defaults
default_wins = refl

-- one redirect is followed, the second fails
second_fails : follow_redirects (pos 1) 5 (3 ∷ 4 ∷ []) ≡ some (too_many_redirects (pos 1))
unfolding follow_redirects
second_fails = refl

new_client_correct_example :
    Configured known some_choices (new_client_options known (map (option_of known) some_choices))
new_client_correct_example = new_client_correct known some_choices
