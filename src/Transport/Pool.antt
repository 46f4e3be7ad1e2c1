-- ===== src/Transport/Pool.antt =====
-- transport.go, transportPool: the lists of active and of removed connections. Each method holds t.mu.
pub mod Serving
pub mod Close
mod Tests
use httplb.Prelude.{
  ℕ, zero, suc, ◌+◌, ◌-◌, ◌*◌, ◌/◌, ◌%◌, ◌^◌, ◌≤◌, ◌<◌, ◌≡◌, refl, sym, ap, ap₂, ◌∙◌, subst, ◌≢◌,
  ◌↔◌, ◌⊎◌, inl, inr, Bool, true, false, not, ◌&&◌, ◌||◌, Option, none, some, List, [], ◌∷◌, ◌++◌,
  map, append-nil, append_assoc, map-append, arith, le_trans, le_refl, add_comm, add_assoc,
  mul_comm, dec_lt, dec_le, ℕ_discrete, ltb, leb, ◌==◌, if◌then◌else◌, ltb→lt, lt→ltb, ltb→le,
  le→ltb, ==→eq, ==-refl, ==→ne, ==_iff, Bool-cases, Option-cases, tests, length, get_elem?, get_or,
  set, take, drop, keep, All, length-append, length-set, two_63, two_64, two_32, get_or-set,
  take-append-drop, length-take, length-drop, length-map, length-keep-le, All-append, All-map,
  get_elem?-set_self, get_elem?-set_ne, update, contains, IsNodup, contains-append, SameSet,
  contains-map-of_get, get_of_contains-map, get_of_contains, contains-of_get, Bool-ext,
}

-- transportPool, with the connections whose `close` has been started, and the goroutines of the pool's
-- own close that have not returned, by their connections
pub record Pool : Type 0 where
  pub conns : List ℕ
  pub removed_conns : List ℕ
  pub closed : Bool
  pub next : ℕ
  pub closing : List ℕ
  pub awaited : List ℕ

-- NewConn; the connection that the transport makes is a new one
unfoldable pub new_conn : Pool → Option ℕ × Pool
new_conn t =
    if t.closed
    then (none, t)
    else (some t.next, record t { conns = t.conns ++ t.next ∷ []; next = t.next + 1 })

-- the loops that copy a list without one connection
unfoldable pub copy_without : ℕ → List ℕ → List ℕ
copy_without c [] = []
copy_without c (connection ∷ rest) =
    let copied = copy_without c rest in if connection == c then copied else connection ∷ copied

-- RemoveConn
unfoldable pub remove_from_pool : Pool → ℕ → Bool × Pool
remove_from_pool t to_remove =
    let t' = record t { conns = copy_without to_remove t.conns } in
    if contains t.conns to_remove
    then (
      true,
      record t' {
        removed_conns = t.removed_conns ++ to_remove ∷ [];
        closing = t.closing ++ to_remove ∷ [];
      },
    )
    else (false, t')

-- connClosed: it ranges over the active connections
unfoldable pub conn_closed : Pool → ℕ → Pool
conn_closed t closed_conn = record t { removed_conns = copy_without closed_conn t.conns }

contains-copy_without :
    (c a : ℕ) (xs : List ℕ) → contains (copy_without c xs) a ≡ (contains xs a && not (a == c))
unfolding copy_without
contains-copy_without c a [] = refl
contains-copy_without c a (x ∷ xs) = grind (arith, contains-copy_without c a xs)

still_there :
    (xs : List ℕ) (c a : ℕ)
    → contains xs c ≡ false
    → (contains xs a && not (a == c)) ≡ contains xs a
still_there xs c a left = elim (Bool-cases (a == c)) [
  | inl e ↦ let gone : contains xs a ≡ false = ap (contains xs) (==→eq a c e) ∙ left in ground arith
  | inr e ↦ ground arith
]

-- When one of two removed connections has been closed, the pool forgets the other too, although that one may still be serving requests, and every active connection is listed as removed.
pub conn_closed_forgets :
    (t : Pool) (closed other : ℕ)
    → contains t.removed_conns other ≡ true
    → contains t.conns other ≡ false
    → contains t.conns closed ≡ false
    → (contains (conn_closed t closed).removed_conns other ≡ false)
      × SameSet (conn_closed t closed).removed_conns t.conns
unfolding conn_closed
conn_closed_forgets t closed other draining gone left = (
  contains-copy_without closed other t.conns ∙ ground arith,
  λ a. contains-copy_without closed a t.conns ∙ still_there t.conns closed a left,
)
