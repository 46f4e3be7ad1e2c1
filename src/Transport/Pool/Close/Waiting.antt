-- ===== src/Transport/Pool/Close/Waiting.antt =====
-- transport.go, transportPool.close: the calls before the first call of close, those after it, and the
-- wait for the connections.
use httplb.Prelude.{
  ℕ, ◌+◌, ◌≡◌, refl, ap, ◌∙◌, subst, Bool, true, false, not, ◌&&◌, Option, none, some, List, [],
  ◌∷◌, ◌++◌, ◌-◌, map, sym, append_assoc, arith, if◌then◌else◌, if_cases, contains,
}
use httplb.Transport.Pool.{Pool, new_conn, copy_without, remove_from_pool, conn_closed}
use httplb.Transport.Pool.Close.{
  Closing, close_resolver, close_balancer, close_conn, complete, on_close, await_complete,
  close_pool, finish, drop_one, conn_returned, Method, make, remove, finished, close, returned,
  call, calls,
}
use httplb.Transport.Pool.Close.Counting.{
  any_close, same_closing, times, times-append, IsOnce, starts, starts-drop_one, starts-absent,
  some_left, returns, waits, finish_lem, begin_lem,
}

-- the two pools are equally closed and await the same
abbrev AsBefore : Pool → Pool → Type 0
AsBefore t u = (u.closed ≡ t.closed) × (u.awaited ≡ t.awaited)

new_conn-AsBefore : (t : Pool) → AsBefore t (new_conn t).1
unfolding new_conn
new_conn-AsBefore t =
    if_cases (λ (r : Option ℕ × Pool). AsBefore t r.1) t.closed (none, t)
      (some t.next, record t { conns = t.conns ++ t.next ∷ []; next = t.next + 1 })
      (λ _. (refl, refl)) (λ _. (refl, refl))

remove_from_pool-AsBefore : (t : Pool) (c : ℕ) → AsBefore t (remove_from_pool t c).1
unfolding remove_from_pool
remove_from_pool-AsBefore t c =
    elim (contains t.conns c)
      as (λ b.
        let t' : Pool = record t { conns = copy_without c t.conns } in
        let r : Bool × Pool =
          if b
          then (
            true,
            record t' { removed_conns = t.removed_conns ++ c ∷ []; closing = t.closing ++ c ∷ [] },
          )
          else (false, t') in
        AsBefore t r.1) [ true ↦ (refl, refl) | false ↦ (refl, refl) ]

-- what the calls before the first call of close leave
abbrev pub StillOpen : Closing → List Closing × Pool → Type 0
StillOpen e r = (times e r.0 ≡ 0) × (r.1.closed ≡ false) × (r.1.awaited ≡ [])

nothing_awaited : (t : Pool) (c : ℕ) → t.awaited ≡ [] → conn_returned t c ≡ ([], t)
unfolding conn_returned
nothing_awaited t c w =
    let left = drop_one c t.awaited in
    let absent : contains t.awaited c ≡ false = ap (λ l. contains l c) w in
    ap
      (λ b.
        let r : List Closing × Pool =
          if b then (finish left, record t { awaited = left }) else ([], t) in
        r)
      absent

pub calls-StillOpen :
    (ms : List Method) (t : Pool) (e : Closing)
    → t.closed ≡ false
    → t.awaited ≡ []
    → any_close ms ≡ false
    → StillOpen e (calls t ms)
unfolding calls call conn_closed
calls-StillOpen [] t e o w n = (refl, o, w)
calls-StillOpen (make ∷ ms) t e o w n =
    let (p, q) = new_conn-AsBefore t in calls-StillOpen ms (new_conn t).1 e (p ∙ o) (q ∙ w) n
calls-StillOpen (remove c ∷ ms) t e o w n =
    let (p, q) = remove_from_pool-AsBefore t c in
    calls-StillOpen ms (remove_from_pool t c).1 e (p ∙ o) (q ∙ w) n
calls-StillOpen (finished c ∷ ms) t e o w n = calls-StillOpen ms (conn_closed t c) e o w n
calls-StillOpen (close ∷ ms) t e o w n = absurd (ground (arith, n))
calls-StillOpen (returned c ∷ ms) t e o w n =
    subst (λ (r : List Closing × Pool). StillOpen e (r.0 ++ (calls r.1 ms).0, (calls r.1 ms).1))
      (sym (nothing_awaited t c w)) (calls-StillOpen ms t e o w n)

-- What the calls after the first call of close do, with the connections awaited at first: the end of
-- close comes when the last of them returns.
abbrev Ended : Closing → ℕ → List ℕ → List Method → List Closing × Pool → Type 0
Ended e c before ms r =
    (times e r.0 ≡ (if waits e && (some_left before && not (some_left r.1.awaited)) then 1 else 0))
    × (starts c r.1.awaited ≡ starts c before - starts c (returns ms))
    × (r.1.closed ≡ true)
    × (some_left before ≡ false → some_left r.1.awaited ≡ false)

-- one connection returns, and then `r` happens
Ended-returned :
    (e : Closing) (c d : ℕ) (before : List ℕ) (ms : List Method) (r : List Closing × Pool)
    → IsOnce e
    → contains before d ≡ true
    → Ended e c (drop_one d before) ms r
    → Ended e c before (returned d ∷ ms) (finish (drop_one d before) ++ r.0, r.1)
Ended-returned e c d before ms r i here (log, count, shut, mono) =
    let left = drop_one d before in
    let some_before : some_left before ≡ true = some_of before here in
    (
      times-append e (finish left) r.0
          ∙ ground (arith, finish_lem e left i, log, mono, some_before),
      count ∙ ground (arith, starts-drop_one c d before),
      shut,
      λ q. absurd (ground (arith, q, some_before)),
    )
  where
    some_of : (xs : List ℕ) → contains xs d ≡ true → some_left xs ≡ true
    some_of [] h = absurd (ground (arith, h))
    some_of (x ∷ xs) h = refl

calls-Ended :
    (ms : List Method) (t : Pool) (e : Closing) (c : ℕ)
    → IsOnce e
    → t.closed ≡ true
    → Ended e c t.awaited ms (calls t ms)
unfolding calls call conn_closed close_pool conn_returned
calls-Ended [] t e c i o = (ground arith, omega arith, o, λ q. q)
calls-Ended (make ∷ ms) t e c i o =
    let (p, q) = new_conn-AsBefore t in
    subst (λ l. Ended e c l ms (calls (new_conn t).1 ms)) q
      (calls-Ended ms (new_conn t).1 e c i (p ∙ o))
calls-Ended (remove d ∷ ms) t e c i o =
    let (p, q) = remove_from_pool-AsBefore t d in
    subst (λ l. Ended e c l ms (calls (remove_from_pool t d).1 ms)) q
      (calls-Ended ms (remove_from_pool t d).1 e c i (p ∙ o))
calls-Ended (finished d ∷ ms) t e c i o = calls-Ended ms (conn_closed t d) e c i o
calls-Ended (close ∷ ms) t e c i o =
    let all = t.conns ++ t.removed_conns in
    let shut : Pool = record t { closed = true; closing = t.closing ++ all; awaited = all } in
    let effects : List Closing =
      close_resolver ∷ close_balancer ∷ (map close_conn all ++ finish all) in
    if_cases
      (λ (r : List Closing × Pool).
        Ended e c t.awaited ms (r.0 ++ (calls r.1 ms).0, (calls r.1 ms).1))
      t.closed (await_complete ∷ [], t) (effects, shut)
      (λ _.
        let ih = calls-Ended ms t e c i o in (ground (arith, no_wait e i, ih.0), ih.1, ih.2, ih.3))
      (λ q. absurd (ground (arith, o, q)))
  where
    no_wait : (e : Closing) → IsOnce e → same_closing await_complete e ≡ false
    no_wait close_resolver i = refl
    no_wait close_balancer i = refl
    no_wait complete i = refl
    no_wait on_close i = refl
    no_wait (close_conn d) i = refl
    no_wait await_complete i = refl
calls-Ended (returned d ∷ ms) t e c i o =
    let left = drop_one d t.awaited in
    let now : Pool = record t { awaited = left } in
    if_cases
      (λ (r : List Closing × Pool).
        Ended e c t.awaited (returned d ∷ ms) (r.0 ++ (calls r.1 ms).0, (calls r.1 ms).1))
      (contains t.awaited d) (finish left, now) ([], t)
      (λ here. Ended-returned e c d t.awaited ms (calls now ms) i here (calls-Ended ms now e c i o))
      (λ absent.
        let ih = calls-Ended ms t e c i o in
        (ih.0, ih.1 ∙ ground (arith, starts-absent c d t.awaited absent), ih.2, ih.3))

pub calls-append :
    (xs ys : List Method) (t : Pool)
    → calls t (xs ++ ys)
      ≡ ((calls t xs).0 ++ (calls (calls t xs).1 ys).0, (calls (calls t xs).1 ys).1)
unfolding calls
calls-append [] ys t = refl
calls-append (x ∷ xs) ys t =
    let (effects, t') = call t x in
    ap (λ (r : List Closing × Pool). (effects ++ r.0, r.1)) (calls-append xs ys t')
    ∙ ap (λ (l : List Closing). (l, (calls (calls t' xs).1 ys).1))
        (sym (append_assoc effects (calls t' xs).0 (calls (calls t' xs).1 ys).0))

-- What the calls from the first call of close on do, to a pool that is open.
abbrev pub Shut : Closing → ℕ → Pool → List Method → List Closing × Pool → Type 0
Shut e c t after r =
    (times e r.0 ≡ (if waits e && some_left r.1.awaited then 0 else 1))
    × (starts c r.1.awaited ≡ starts c (t.conns ++ t.removed_conns) - starts c (returns after))
    × (r.1.closed ≡ true)

pub close-Shut :
    (t : Pool) (after : List Method) (e : Closing) (c : ℕ)
    → IsOnce e
    → t.closed ≡ false
    → Shut e c t after (calls t (close ∷ after))
unfolding calls call close_pool
close-Shut t after e c i o =
    let all = t.conns ++ t.removed_conns in
    let shut : Pool = record t { closed = true; closing = t.closing ++ all; awaited = all } in
    let effects : List Closing =
      close_resolver ∷ close_balancer ∷ (map close_conn all ++ finish all) in
    if_cases
      (λ (r : List Closing × Pool).
        Shut e c t after (r.0 ++ (calls r.1 after).0, (calls r.1 after).1))
      t.closed (await_complete ∷ [], t) (effects, shut) (λ q. absurd (ground (arith, o, q)))
      (λ _.
        let (log, count, done, mono) = calls-Ended after shut e c i refl in
        (
          times-append e effects (calls shut after).0
              ∙ ground (arith, begin_lem e all all i, log, mono),
          count,
          done,
        ))
