-- ===== src/Transport/Connection/Return.antt =====
-- transport.go, `connection`: when `close` returns.
use httplb.Prelude.{
  two_63, ℕ, ◌+◌, ◌≤◌, ◌≡◌, ◌≢◌, [], ◌∷◌, some, arith, get_elem?, set, get_elem?-set_self,
  get_elem?-set_ne, ◌∙◌, ap,
}
use httplb.Prelude.Sums.{sum_by, le-sum_by}
use httplb.Transport.Connection.{active, ended, finished, waiting, gone, move, System, step, run}
use httplb.Transport.Connection.Invariant.{step-at, counted, serving, Inv}

-- If `close` has marked the connection and a request of thread `i` is the only one that is still
-- counted, then when `i` ends it, the channel is closed, and a thread `k` that waits in `close` then
-- runs `doClose` and returns.
pub close_returns :
    (s : System) (i k : ℕ)
    → Inv s.conn s.threads
    → two_63 ≤ s.conn.outstanding_requests
    → sum_by counted s.threads ≡ 1
    → get_elem? s.threads i ≡ some active
    → get_elem? s.threads k ≡ some waiting
    → ((run s (i ∷ i ∷ [])).conn.closed ≡ 1)
      × ((run s (i ∷ i ∷ k ∷ [])).conn.released ≡ s.conn.released + 1)
      × (get_elem? (run s (i ∷ i ∷ k ∷ [])).threads k ≡ some gone)
unfolding run move
close_returns s i k v mark one at_i at_k =
    let count : s.conn.outstanding_requests ≡ two_63 + 1 = omega (arith, v.account) in
    let unsignalled : s.conn.closed ≡ 0 =
      grind (arith, le-sum_by serving s.threads i active at_i) in
    let ending : System = record {
      conn = record s.conn { outstanding_requests = two_63 };
      threads = set s.threads i (ended two_63);
    } in
    let closed : System = record {
      conn = record s.conn { outstanding_requests = two_63; closed = s.conn.closed + 1 };
      threads = set ending.threads i finished;
    } in
    let apart : i ≢ k = λ e. ground arith in
    let first : step s i ≡ ending = step-at s i active at_i ∙ ground arith in
    let second : step ending i ≡ closed =
      step-at ending i (ended two_63) (get_elem?-set_self s.threads i active (ended two_63) at_i) in
    let both : step (step s i) i ≡ closed = ap (λ t. step t i) first ∙ second in
    let still : get_elem? closed.threads k ≡ some waiting =
      get_elem?-set_ne ending.threads i k finished apart
      ∙ get_elem?-set_ne s.threads i k (ended two_63) apart
      ∙ at_k in
    let third = step-at closed k waiting still in
    (
      ap (λ t. t.conn.closed) both ∙ omega arith,
      ap (λ t. (step t k).conn.released) both ∙ ap (λ t. t.conn.released) third ∙ ground arith,
      ap (λ t. get_elem? (step t k).threads k) both
          ∙ ap (λ t. get_elem? t.threads k) third
          ∙ get_elem?-set_self closed.threads k waiting _ still
          ∙ ground arith,
    )
