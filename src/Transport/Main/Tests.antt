-- ===== src/Transport/Main/Tests.antt =====
-- Runs of the main transport of a client that was made with some options.
use httplb.Prelude.{◌<◌, ◌≡◌, ◌⊎◌, refl, true, none, some, List, [], ◌∷◌, map, arith, get_elem?}
use httplb.Prelude.Int.{pos}
use httplb.Client.{
  Known, ClientOptions, custom, lookup, insert, zero_options, apply_defaults, or_transport,
}
use httplb.Client.Options.{apply_options, new_client_options}
use httplb.Client.Last.{Choice, option_of, transport, default_timeout, last, given}
use httplb.Transport.Target.{Target, http}
use httplb.Transport.Timeout.{
  choose_timeout, apply_timeout, unlimited, Limited, limit_in, deadline_correct,
}
use httplb.Transport.Main.{
  MainTransport, new_transport, find, delete, get_pool_locked, get_or_create_pool, create_pool,
  make_pool, add_pool, check_target, is_kept_warm, try_remove_pool, without, end_watcher,
  close_when_idle, close_begin, Event, get, create, wake, close_called, timer, step, run, failed,
  transport_is_closed,
}
use httplb.Transport.Main.Invariant.{Good, cold, main_transport_correct}
use httplb.Transport.Main.Safety.{Shut, closed_makes_none}
use httplb.Transport.Main.Kept.{active_pool_kept}
use httplb.Transport.Main.Retry.{Round, Outcome, Ends, round_trip, round_trip_returns}
use httplb.Transport.Main.Served.{Answer, get_or_create_correct}

abbrev known : Known
known = record {
  background = 1;
  default_resolver = 2;
  new_round_robin = 3;
  nop_checker = 4;
  dial_context = 5;
  proxy_from_environment = 6;
  no_proxy = 7;
}

abbrev choices : List Choice
choices = default_timeout (pos 20) ∷ transport 9 (custom 4) ∷ []

abbrev site : Target
site = record { scheme = http; host_port = 80 }

abbrev odd : Target
odd = record { scheme = 9; host_port = 80 }

abbrev opts : ClientOptions
opts = new_client_options known (map (option_of known) choices)

-- two pools, and the first is idle
abbrev events : List Event
events = create site ∷ create odd ∷ wake 1 timer ∷ get odd ∷ []

abbrev started : MainTransport
started = run (new_transport opts) events

one_left :
    (find site started.pools ≡ none)
    × (find odd started.pools ≡ some (cold 1))
    × (started.running_pools ≡ 2)
    × (started.closing ≡ 0 ∷ [])
unfolding run step new_transport create_pool make_pool add_pool check_target is_kept_warm
    get_pool_locked find delete close_when_idle try_remove_pool end_watcher without
    new_client_options apply_options option_of zero_options apply_defaults or_transport lookup
    insert
one_left = (refl, refl, refl, refl)

main_transport_correct_example : Good (run (new_transport opts) events)
main_transport_correct_example = main_transport_correct opts events

abbrev shut : MainTransport
shut = run (new_transport opts) (create site ∷ close_called ∷ [])

shut_closed : shut.closed ≡ true
unfolding run step close_begin
shut_closed = refl

closed_makes_none_example :
    Shut shut (run shut (create odd ∷ []))
    × ((others : MainTransport → MainTransport) (dest : Target)
        → (get_or_create_pool others (run shut (create odd ∷ [])) dest).0
          ≡ failed transport_is_closed)
closed_makes_none_example =
    closed_makes_none shut (main_transport_correct opts (create site ∷ close_called ∷ []))
      shut_closed (create odd ∷ [])

abbrev idle : MainTransport
idle = run (new_transport opts) (create site ∷ [])

site_stored : find site idle.pools ≡ some (cold 0)
unfolding run step new_transport create_pool make_pool add_pool check_target is_kept_warm
    get_pool_locked find new_client_options apply_options option_of zero_options apply_defaults
    or_transport lookup insert
site_stored = refl

site_made : 0 < idle.next_pool
unfolding run step new_transport create_pool make_pool add_pool check_target is_kept_warm
    get_pool_locked find new_client_options apply_options option_of zero_options apply_defaults
    or_transport lookup insert
site_made = omega arith

site_watched : get_elem? (run (step idle (get site)) []).watchers 0 ≡ some (site, 0)
unfolding run step new_transport create_pool make_pool add_pool check_target is_kept_warm
    get_pool_locked find new_client_options apply_options option_of zero_options apply_defaults
    or_transport lookup insert
site_watched = refl

active_pool_kept_example :
    find site (step (run (step idle (get site)) []) (wake 0 timer)).pools ≡ some (cold 0)
active_pool_kept_example =
    active_pool_kept idle site 0 [] 0 (main_transport_correct opts (create site ∷ [])) site_stored
      site_made tt site_watched

deadline_correct_example : Limited 100 (some 105) (given (last limit_in choices) unlimited) (
    apply_timeout
      (choose_timeout (new_client_options known (map (option_of known) choices)))
      100
      (some 105))
deadline_correct_example = deadline_correct known choices 100 (some 105)

abbrev nobody : MainTransport → MainTransport
nobody m = m

opts_kept : (nobody (get_pool_locked (new_transport opts) site).1).client_options ≡ opts
unfolding get_pool_locked new_transport find
opts_kept = refl

get_or_create_correct_example :
    Answer
      (((new_transport opts).closed ≡ true)
        ⊎ ((nobody (get_pool_locked (new_transport opts) site).1).closed ≡ true))
      (nobody (get_pool_locked (new_transport opts) site).1)
      choices
      site
      (get_or_create_pool nobody (new_transport opts) site).0
      (get_or_create_pool nobody (new_transport opts) site).1
get_or_create_correct_example =
    get_or_create_correct nobody (new_transport opts) known choices site opts_kept

-- a round whose pool has a closed leaf transport, and one before which the transport is closed
abbrev unlucky : Round
unlucky = record { before = λ m. m; within = λ m. m; answer = λ p. none }

abbrev after_close : Round
after_close = record unlucky { before = close_begin }

round_trip_returns_example :
    let result = round_trip (new_transport opts) site (unlucky ∷ after_close ∷ []) in
    Ends (round_trip (new_transport opts) site (unlucky ∷ [])).0 result.0
    × Outcome (new_transport opts) site (unlucky ∷ after_close ∷ []) result
unfolding close_begin
round_trip_returns_example =
    round_trip_returns (new_transport opts) site (unlucky ∷ []) [] after_close refl
