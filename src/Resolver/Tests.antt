-- ===== src/Resolver/Tests.antt =====
-- Runs of the resolvers on small inputs.
use httplb.Prelude.{ℕ, ◌≡◌, refl, true, List, [], ◌∷◌, none, some, arith}
use httplb.Resolver.Dns.{
  Addr, ip4, ip6, ip4_in_6, prefer_ipv4, required, keep_matching, apply_address_family_policy,
  wanted, Filtered, policy_correct,
}
use httplb.Resolver.Polling.{
  PollingResolver, Round, done, refresh, timer, refresh_timer, on_resolve, on_resolve_error, run,
  next_resolve, report, timer_ttl, Timely, Spaced, resolutions-Spaced,
}
use httplb.Resolver.MinConns.{Replicated, on_resolve_min, on_resolve_min_correct, scale, multiplier}

-- two addresses, and five wanted: three copies
six : on_resolve_min {A = ℕ} 5 (7 ∷ 8 ∷ []) ≡ 7 ∷ 8 ∷ 7 ∷ 8 ∷ 7 ∷ 8 ∷ []
unfolding on_resolve_min scale multiplier
six = refl

-- none stays none
none_at_all : on_resolve_min {A = ℕ} 5 [] ≡ []
unfolding on_resolve_min scale multiplier
none_at_all = refl

on_resolve_min_correct_example :
    Replicated {A = ℕ} 5 (7 ∷ 8 ∷ []) (on_resolve_min {A = ℕ} 5 (7 ∷ 8 ∷ []))
on_resolve_min_correct_example = on_resolve_min_correct 5 (7 ∷ 8 ∷ [])

abbrev mixed : List Addr
mixed = ip6 1 ∷ ip4 2 ∷ ip4_in_6 3 ∷ []

four_only : apply_address_family_policy mixed prefer_ipv4 ≡ ip4 2 ∷ ip4_in_6 3 ∷ []
unfolding apply_address_family_policy keep_matching required
four_only = refl

policy_correct_example :
    Filtered true (wanted prefer_ipv4) mixed (apply_address_family_policy mixed prefer_ipv4)
policy_correct_example = policy_correct mixed prefer_ipv4

abbrev quick : PollingResolver
quick = record { default_ttl = 300; min_refresh_interval = 5 }

-- a refresh after two units waits for the fifth; the next round runs into its TTL
abbrev rounds : List Round
rounds =
    record {
      resolved = record { addresses = some (1 ∷ []); ttl = 0 };
      set_at = 11;
      wake = refresh 12 (refresh_timer 13 15);
    }
    ∷ record { resolved = record { addresses = none; ttl = 2 }; set_at = 16; wake = timer 21 }
    ∷ record { resolved = record { addresses = some []; ttl = 9 }; set_at = 21; wake = done }
    ∷ []

three_times :
    run quick 10 rounds
    ≡ (10, on_resolve (1 ∷ [])) ∷ (15, on_resolve_error) ∷ (21, on_resolve []) ∷ []
unfolding run next_resolve report
three_times = refl

rounds-Timely : Timely quick 10 rounds
unfolding next_resolve timer_ttl
rounds-Timely = omega arith

resolutions-Spaced_example : Spaced 5 (run quick 10 rounds)
resolutions-Spaced_example = resolutions-Spaced quick 10 rounds rounds-Timely
