-- ===== src/Health/Polling/Tests.antt =====
-- Runs of a polling health check on small inputs.
use httplb.Prelude.{◌+◌, ◌≡◌, refl, true, [], ◌∷◌, arith, leb, if◌then◌else◌}
use httplb.Health.State.{healthy, unknown, degraded, unhealthy}
use httplb.Health.Polling.{
  Checker, Config, Task, new_polling_checker, start, is_bad, judge, probe, probes, count_to,
}
use httplb.Health.Polling.Run.{Tracked, tracker_correct}
use httplb.Health.Polling.Thresholds.{times, promote_exactly}

abbrev config : Config
config = record {
  polling_interval = 0;
  timeout = 0;
  healthy_threshold = 2;
  unhealthy_threshold = 3;
}

abbrev checker : Checker
checker = record {
  interval = 15000000000;
  timeout = 15000000000;
  healthy_threshold = 2;
  unhealthy_threshold = 3;
}

checker_of_config : new_polling_checker config ≡ checker
unfolding new_polling_checker
checker_of_config = refl

abbrev sick : Task
sick = record { state = unhealthy; counter = 1; told = [] }

abbrev well : Task
well = record { state = healthy; counter = 1; told = [] }

unhealthy-is_bad : is_bad unhealthy ≡ true
unfolding is_bad
unhealthy-is_bad = refl

degraded-is_bad : is_bad degraded ≡ true
unfolding is_bad
degraded-is_bad = refl

-- one healthy result in between starts the count again
flapping :
    (probes checker
      (start checker)
      (healthy ∷ unhealthy ∷ unhealthy ∷ healthy ∷ unhealthy ∷ degraded ∷ unknown ∷ [])).told
    ≡ healthy ∷ unknown ∷ []
unfolding probes probe judge count_to is_bad start
flapping = refl

tracker_correct_example : Tracked (probes checker (start checker) (healthy ∷ unhealthy ∷ []))
tracker_correct_example = tracker_correct checker (healthy ∷ unhealthy ∷ [])

promote_exactly_example :
    (probes checker sick (times 1 healthy)).state ≡ (if leb 2 (1 + 1) then healthy else unhealthy)
promote_exactly_example = promote_exactly checker sick 1 unhealthy-is_bad (omega arith)
