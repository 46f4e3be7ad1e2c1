-- ===== src/Transport/Connection/Tests.antt =====
-- transport.go, `connection`: runs of a few threads, and the theorems at them.
use httplb.Prelude.{two_63, ℕ, ◌+◌, ◌≤◌, ◌<◌, ◌≡◌, ◌≢◌, refl, List, [], ◌∷◌, some, arith, get_elem?}
use httplb.Prelude.Sums.{sum_by}
use httplb.Transport.Connection.{
  Pc, idle, refused, active, finished, closing, gone, move, step, run,
}
use httplb.Transport.Connection.Invariant.{start, start-Inv, close_after_requests}
use httplb.Transport.Connection.Stuck.{close_hangs}
use httplb.Transport.Connection.Return.{close_returns}

-- two requests and one `close`
abbrev three : List Pc
three = idle ∷ idle ∷ closing ∷ []

-- thread 0 starts, thread 2 marks, thread 1 is on its way to being refused
abbrev overlap : List ℕ
overlap = 0 ∷ 0 ∷ 2 ∷ 2 ∷ 2 ∷ 1 ∷ []

-- thread 0 starts, thread 2 marks and waits
abbrev draining : List ℕ
draining = 0 ∷ 0 ∷ 2 ∷ 2 ∷ 2 ∷ []

orderly :
    (run (start three) (0 ∷ 0 ∷ 2 ∷ 2 ∷ 2 ∷ 1 ∷ 1 ∷ 0 ∷ 0 ∷ 2 ∷ [])).threads
    ≡ finished ∷ refused ∷ gone ∷ []
unfolding run step move
orderly = refl

close_after_requests_example :
    ((run (start three) draining).conn.closed ≤ 1)
    × ((j : ℕ)
        → 0 < (run (start three) draining).conn.closed
        → get_elem? (run (start three) draining).threads j ≢ some active)
    × (0 < (run (start three) draining).conn.released
        → (run (start three) draining).conn.closed ≡ 1)
close_after_requests_example =
    close_after_requests three draining (tt, (tt, (tt, tt))) (omega arith)

close_hangs_example :
    ((run (run (start three) overlap) (0 ∷ 0 ∷ 1 ∷ 2 ∷ 2 ∷ [])).conn.closed ≡ 0)
    × ((run (run (start three) overlap) (0 ∷ 0 ∷ 1 ∷ 2 ∷ 2 ∷ [])).conn.released ≡ 0)
unfolding run step move sum_by
close_hangs_example =
    close_hangs (run (start three) overlap) 0 1 (two_63 + 2) (2 ∷ 2 ∷ [])
      (start-Inv three overlap (tt, (tt, (tt, tt))) (omega arith)) (omega arith) refl refl refl refl
      (omega arith)

close_returns_example :
    ((run (run (start three) draining) (0 ∷ 0 ∷ [])).conn.closed ≡ 1)
    × ((run (run (start three) draining) (0 ∷ 0 ∷ 2 ∷ [])).conn.released ≡ 1)
    × (get_elem? (run (run (start three) draining) (0 ∷ 0 ∷ 2 ∷ [])).threads 2 ≡ some gone)
unfolding run step move sum_by
close_returns_example =
    close_returns (run (start three) draining) 0 2
      (start-Inv three draining (tt, (tt, (tt, tt))) (omega arith)) (omega arith) refl refl refl
