-- ===== src/Transport/Pool/Close.antt =====
-- transport.go, transportPool.close: what it closes, in its order, what it waits for, when it is called
-- again, and next to the other methods on the lists of connections.
pub mod Counting
pub mod Waiting
pub mod Once
use httplb.Prelude.{
  ℕ, zero, suc, ◌+◌, ◌-◌, ◌*◌, ◌/◌, ◌%◌, ◌^◌, ◌≤◌, ◌<◌, ◌≡◌, refl, sym, ap, ap₂, ◌∙◌, subst, ◌≢◌,
  ◌↔◌, ◌⊎◌, inl, inr, Bool, true, false, not, ◌&&◌, ◌||◌, Option, none, some, List, [], ◌∷◌, ◌++◌,
  map, append-nil, append_assoc, map-append, arith, le_trans, le_refl, add_comm, add_assoc,
  mul_comm, dec_lt, dec_le, ℕ_discrete, ltb, leb, ◌==◌, if◌then◌else◌, ltb→lt, lt→ltb, ltb→le,
  le→ltb, ==→eq, ==-refl, ==→ne, ==_iff, Bool-cases, if_cases, Option-cases, tests, length,
  get_elem?, get_or, set, take, drop, keep, All, length-append, length-set, two_63, two_64, two_32,
  get_or-set, take-append-drop, length-take, length-drop, length-map, length-keep-le, All-append,
  All-map, get_elem?-set_self, get_elem?-set_ne, update, contains, IsNodup, contains-append,
  SameSet, contains-map-of_get, get_of_contains-map, get_of_contains, contains-of_get, Bool-ext,
}
use httplb.Transport.Pool.{Pool, new_conn, copy_without, remove_from_pool, conn_closed}

pub data Closing : Type 0 where
  close_resolver : Closing
  close_balancer : Closing
  close_conn : ℕ → Closing
  complete : Closing
  on_close : Closing
  await_complete : Closing

-- The end of close, once nothing is awaited any more: closeComplete is closed and onClose is called, if
-- there is one. While some connection's close has not returned, grp.Wait does not.
unfoldable pub finish : List ℕ → List Closing
finish [] = complete ∷ on_close ∷ []
finish (c ∷ cs) = []

-- close, up to grp.Wait; a later call only starts to wait for closeComplete
unfoldable pub close_pool : Pool → List Closing × Pool
close_pool t =
    let all = t.conns ++ t.removed_conns in
    if t.closed then (await_complete ∷ [], t) else (
      close_resolver ∷ close_balancer ∷ (map close_conn all ++ finish all),
      record t { closed = true; closing = t.closing ++ all; awaited = all },
    )

-- one goroutine of the group is done
unfoldable pub drop_one : ℕ → List ℕ → List ℕ
drop_one c [] = []
drop_one c (x ∷ xs) = if x == c then xs else x ∷ drop_one c xs

-- `current.close()` returns in one of the goroutines of close; the last one ends grp.Wait
unfoldable pub conn_returned : Pool → ℕ → List Closing × Pool
conn_returned t c =
    let left = drop_one c t.awaited in
    if contains t.awaited c then (finish left, record t { awaited = left }) else ([], t)

-- CloseIdleConnections: the connections that are asked to close their idle ones
unfoldable pub close_idle_connections : Pool → List ℕ
close_idle_connections t = if t.closed then [] else t.conns

-- a call of a method, or the return of a connection's close to close; and these in their order
pub data Method : Type 0 where
  make : Method
  remove : ℕ → Method
  finished : ℕ → Method
  close : Method
  returned : ℕ → Method

unfoldable pub call : Pool → Method → List Closing × Pool
call t make = ([], (new_conn t).1)
call t (remove c) = ([], (remove_from_pool t c).1)
call t (finished c) = ([], conn_closed t c)
call t close = close_pool t
call t (returned c) = conn_returned t c

unfoldable pub calls : Pool → List Method → List Closing × Pool
calls t [] = ([], t)
calls t (m ∷ ms) =
    let (effects, t') = call t m in let (later, t'') = calls t' ms in (effects ++ later, t'')
