-- ===== src/Transport/Pool/Tests.antt =====
-- Runs of a pool's lists of connections on small inputs.
use httplb.Prelude.{◌≡◌, refl, true, false, ◌&&◌, if◌then◌else◌, List, [], ◌∷◌, contains, SameSet}
use httplb.Transport.Pool.Serving.{new_serving, update_pickers, Installed, picker-Installed}
use httplb.Transport.Pool.Close.{
  Method, on_close, remove, close, returned, call, calls, close_pool, finish, conn_returned,
  drop_one,
}
use httplb.Transport.Pool.Close.Counting.{times, starts, waits, some_left}
use httplb.Transport.Pool.Close.Once.{pool_closed_once}
use httplb.Transport.Pool.{Pool, remove_from_pool, conn_closed, copy_without, conn_closed_forgets}

abbrev three : Pool
three = record {
  conns = 1 ∷ 2 ∷ 3 ∷ [];
  removed_conns = [];
  closed = false;
  next = 4;
  closing = [];
  awaited = [];
}

-- two of the three are removed, and still serve requests
abbrev draining : Pool
draining = record {
  conns = 3 ∷ [];
  removed_conns = 1 ∷ 2 ∷ [];
  closed = false;
  next = 4;
  closing = 1 ∷ 2 ∷ [];
  awaited = [];
}

removed_two : (remove_from_pool (remove_from_pool three 1).1 2).1 ≡ draining
unfolding remove_from_pool copy_without
removed_two = refl

conn_closed_forgets_example :
    (contains (conn_closed draining 1).removed_conns 2 ≡ false)
    × SameSet (conn_closed draining 1).removed_conns (3 ∷ [])
conn_closed_forgets_example = conn_closed_forgets draining 1 2 refl refl refl

picker-Installed_example :
    Installed (7, false) ((8, true) ∷ []) (update_pickers new_serving ((7, false) ∷ (8, true) ∷ []))
picker-Installed_example = picker-Installed (7, false) ((8, true) ∷ [])

-- the close of connection 2 does not return, so that of the pool does not end
abbrev two_return : List Method
two_return = returned 1 ∷ close ∷ returned 3 ∷ []

pool_closed_once_example :
    let (effects, now) = calls three (remove 2 ∷ close ∷ two_return) in
    (times on_close (calls three (remove 2 ∷ [])).0 ≡ 0)
    × (times on_close effects ≡ (if waits on_close && some_left now.awaited then 0 else 1))
    × (starts 2 now.awaited ≡ 1)
    × (now.closed ≡ true)
unfolding remove_from_pool copy_without calls call
pool_closed_once_example =
    pool_closed_once three (remove 2 ∷ []) two_return on_close 2 refl refl refl tt

-- it ends with the last of them
all_return :
    times on_close (calls three (remove 2 ∷ close ∷ returned 1 ∷ returned 3 ∷ returned 2 ∷ [])).0
    ≡ 1
unfolding calls call close_pool remove_from_pool copy_without finish conn_returned drop_one
all_return = refl
