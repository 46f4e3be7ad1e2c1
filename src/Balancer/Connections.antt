-- ===== src/Balancer/Connections.antt =====
-- balancer.go, updateConns and initConnInfoLocked: connections are added and removed in one batch.
use httplb.Prelude.{
  ℕ, false, Option, none, some, List, [], ◌∷◌, ◌++◌, map, if◌then◌else◌, update, contains,
}
use httplb.Health.State.{unknown}
use httplb.Balancer.{
  Balancer, Call, remove_conn, cancel, close_checker, new_checker, add_call, new_picker_locked,
}

-- the connections that the pool could make; `new_conn` is the pool's NewConn
unfoldable pub make_conns : (ℕ → Option ℕ) → List ℕ → List ℕ
make_conns new_conn [] = []
make_conns new_conn (addr ∷ addrs) = elim (new_conn addr) [
  | some c ↦ c ∷ make_conns new_conn addrs
  | none ↦ make_conns new_conn addrs
]

abbrev pub add_calls : {P : Type 0} → Balancer P → List (Call P) → Balancer P
add_calls b calls = record b { log = b.log ++ calls }

-- what the loop over the connections has so far
pub record Sorted (P : Type 0) : Type 0 where
  pub new_conns : List ℕ
  pub check_closers : List ℕ
  pub rest : Balancer P

-- one connection: a removed one is forgotten and cancelled, another is kept
unfoldable pub sort_conn : {P : Type 0} → List ℕ → Sorted P → ℕ → Sorted P
sort_conn remove s existing =
    if contains remove existing
    then record s {
      check_closers = s.check_closers ++ existing ∷ [];
      rest =
          add_call (record s.rest { conn_info = update s.rest.conn_info existing none })
            (cancel existing);
    }
    else record s { new_conns = s.new_conns ++ existing ∷ [] }

unfoldable pub sort_conns : {P : Type 0} → List ℕ → Sorted P → List ℕ → Sorted P
sort_conns remove s [] = s
sort_conns remove s (c ∷ cs) = sort_conns remove (sort_conn remove s c) cs

-- initConnInfoLocked: each starts as unknown and cold, with a health check of its own
unfoldable pub init_conn_info : {P : Type 0} → Balancer P → List ℕ → Balancer P
init_conn_info b [] = b
init_conn_info b (c ∷ cs) =
    let b' = add_call b (new_checker c) in
    init_conn_info
      (record b' {
        conn_info = update b'.conn_info c (some (record { state = unknown; warm = false }));
      })
      cs

-- recycle
unfoldable pub recycle : {P : Type 0} → Balancer P → ℕ → Balancer P
recycle b c = record b { conns_to_recycle = b.conns_to_recycle ++ c ∷ [] }

-- OnResolve
unfoldable pub on_resolve : {P : Type 0} → Balancer P → List ℕ → Balancer P
on_resolve b addresses = record b { latest_addrs = some addresses }

-- OnResolveError
unfoldable pub on_resolve_error : {P : Type 0} → Balancer P → ℕ → Balancer P
on_resolve_error b err = record b { latest_err = some err }

module _ {P : Type 0} (new_picker : Option P → List ℕ → P) (new_conn : ℕ → Option ℕ) where
  -- updateConns; the deferred calls run after the picker is made, the closers first
  unfoldable pub update_batch : Balancer P → List ℕ → List ℕ → List ℕ × Balancer P
  update_batch b new_addrs remove =
      let add = make_conns new_conn new_addrs in
      let start : Sorted P = record { new_conns = []; check_closers = []; rest = b } in
      let s = sort_conns remove start b.conns in
      let b1 = init_conn_info s.rest add in
      let b2 = new_picker_locked new_picker (record b1 { conns = s.new_conns ++ add }) in
      (add, add_calls (add_calls b2 (map close_checker s.check_closers)) (map remove_conn remove))
