-- ===== src/Health/State.antt =====
-- health/state.go. A State is an int; the four named values stand among all others.
use httplb.Prelude.Int.{ℤ, pos, negsuc}

abbrev pub State : Type 0
State = ℤ

abbrev pub healthy : State
healthy = negsuc 0

abbrev pub unknown : State
unknown = pos 0

abbrev pub degraded : State
degraded = pos 1

abbrev pub unhealthy : State
unhealthy = pos 2
