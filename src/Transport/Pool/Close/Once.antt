-- ===== src/Transport/Pool/Close/Once.antt =====
-- transport.go, transportPool.close: how often things are closed.
use httplb.Prelude.{
  ℕ, ◌+◌, ◌≡◌, ap, ◌∙◌, true, false, ◌&&◌, List, [], ◌∷◌, ◌++◌, ◌-◌, sym, arith, if◌then◌else◌,
}
use httplb.Transport.Pool.{Pool}
use httplb.Transport.Pool.Close.{Closing, Method, close, calls}
use httplb.Transport.Pool.Close.Counting.{
  any_close, times, times-append, IsOnce, starts, some_left, returns, waits,
}
use httplb.Transport.Pool.Close.Waiting.{calls-StillOpen, calls-append, close-Shut}

-- Before the first call of close of a pool that is open, nothing of the following happens. From then on, whatever is called and however often close is called again, the resolver and the balancer are closed exactly once; and closeComplete is closed and onClose is called exactly once if nothing is awaited in the end, and not at all as long as something is. Awaited are, counted for each connection, the active and the removed connections at that call of close, less the returns of their close since then: if one never returns, the end of close never comes.
pub pool_closed_once :
    (t : Pool) (before after : List Method) (e : Closing) (c : ℕ)
    → t.closed ≡ false
    → t.awaited ≡ []
    → any_close before ≡ false
    → IsOnce e
    → let at_close = (calls t before).1 in
      let (effects, now) = calls t (before ++ close ∷ after) in
      (times e (calls t before).0 ≡ 0)
      × (times e effects ≡ (if waits e && some_left now.awaited then 0 else 1))
      × (starts c now.awaited
          ≡ starts c (at_close.conns ++ at_close.removed_conns) - starts c (returns after))
      × (now.closed ≡ true)
pool_closed_once t before after e c o w n i =
    let at_close = (calls t before).1 in
    let (silent, still, _) = calls-StillOpen before t e o w n in
    let (log, count, done) = close-Shut at_close after e c i still in
    let all = calls-append before (close ∷ after) t in
    let joined : times e (calls t before).0 + times e (calls at_close (close ∷ after)).0
        ≡ (if waits e && some_left (calls at_close (close ∷ after)).1.awaited then 0 else 1) =
      omega (arith, silent, log) in
    (
      silent,
      ap (λ (r : List Closing × Pool). times e r.0) all
          ∙ times-append e (calls t before).0 (calls at_close (close ∷ after)).0
          ∙ joined
          ∙ ap (λ (r : List Closing × Pool). if waits e && some_left r.1.awaited then 0 else 1)
              (sym all),
      ap (λ (r : List Closing × Pool). starts c r.1.awaited) all ∙ count,
      ap (λ (r : List Closing × Pool). r.1.closed) all ∙ done,
    )
