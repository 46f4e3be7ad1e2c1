-- ===== src/Balancer.antt =====
-- balancer.go: the state of a `balancer` and the choice of the connections that its picker gets.
-- A connection is known by its identity. The calls that the balancer makes of its pool, of the health
-- checks and of the contexts of its connections are recorded in order in a log.
pub mod Usable
pub mod Sets
pub mod Refresh
pub mod Serve
pub mod Invariant
pub mod Sorting
pub mod Logs
pub mod Batch
pub mod Loop
pub mod Manager
mod Tests
pub mod Connections
use httplb.Prelude.{
  ℕ, zero, suc, ◌+◌, ◌-◌, ◌*◌, ◌/◌, ◌%◌, ◌^◌, ◌≤◌, ◌<◌, ◌≡◌, refl, sym, ap, ap₂, ◌∙◌, subst, ◌≢◌,
  ◌↔◌, ◌⊎◌, inl, inr, Bool, true, false, not, ◌&&◌, ◌||◌, Option, none, some, List, [], ◌∷◌, ◌++◌,
  map, append-nil, append_assoc, map-append, arith, le_trans, le_refl, add_comm, add_assoc,
  mul_comm, dec_lt, dec_le, ℕ_discrete, ltb, leb, ◌==◌, if◌then◌else◌, ltb→lt, lt→ltb, ltb→le,
  le→ltb, ==→eq, ==-refl, ==→ne, ==_iff, Bool-cases, Option-cases, tests, length, get_elem?, get_or,
  set, take, drop, keep, All, length-append, length-set, two_63, two_64, two_32, get_or-set,
  take-append-drop, length-take, length-drop, length-map, length-keep-le, All-append, All-map,
  get_elem?-set_self, get_elem?-set_ne, update, contains, IsNodup, contains-append, SameSet,
  contains-map-of_get, get_of_contains-map, get_of_contains, contains-of_get, Bool-ext,
}
use httplb.Prelude.Int.{eq_ℤ}
use httplb.Health.State.{State, healthy, unknown, degraded, unhealthy}

-- connInfo
pub record ConnInfo : Type 0 where
  pub state : State
  pub warm : Bool

-- the errors that the balancer itself gives to an error picker, and one reported by the resolver
pub data Error : Type 0 where
  resolver_returned_no_addresses : Error
  no_healthy_connections : Error
  resolve_failed : ℕ → Error

-- what the pool is told to serve requests with
pub data Served (P : Type 0) : Type 0 where
  picker : P → Served P
  error_picker : Error → Served P
  nil_picker : Served P

pub data Call (P : Type 0) : Type 0 where
  update_picker : Served P → Bool → Call P
  resolve_now : Call P
  remove_conn : ℕ → Call P
  cancel : ℕ → Call P
  close_checker : ℕ → Call P
  new_checker : ℕ → Call P

pub record Balancer (P : Type 0) : Type 0 where
  pub latest_addrs : Option (List ℕ)
  pub latest_err : Option ℕ
  pub latest_picker : Option P
  pub latest_usable_conns : List ℕ
  pub conns : List ℕ
  pub conn_info : ℕ → Option ConnInfo
  pub conns_to_recycle : List ℕ
  pub log : List (Call P)

-- `b.connInfo[c]` with the zero value for a missing key
abbrev pub info_of : {P : Type 0} → Balancer P → ℕ → ConnInfo
info_of b c = elim (b.conn_info c) [
  | some info ↦ info
  | none ↦ record { state = unknown; warm = false }
]

abbrev pub add_call : {P : Type 0} → Balancer P → Call P → Balancer P
add_call b call = record b { log = b.log ++ call ∷ [] }

-- `connsByState[state]`
unfoldable pub in_state : {P : Type 0} → Balancer P → State → List ℕ
in_state b s = keep (λ c. eq_ℤ (info_of b c).state s) b.conns

-- 3, or a quarter of the connections rounded half up, if that is more
unfoldable pub min_conns : ℕ → ℕ
min_conns n = if ltb 3 ((n + 2) / 4) then (n + 2) / 4 else 3

-- the loop over the states better than unhealthy, which stops when there are enough connections
unfoldable pub usable_conns : {P : Type 0} → Balancer P → List ℕ
usable_conns b =
    let enough = min_conns (length b.conns) in
    let first = in_state b healthy in
    let second = first ++ in_state b unknown in
    let third = second ++ in_state b degraded in
    if leb enough (length first)
    then first
    else if leb enough (length second)
    then second
    else third

-- half of the connections, rounded half up, are not more than the healthy ones
unfoldable pub must_resolve : {P : Type 0} → Balancer P → Bool
must_resolve b = leb (length (in_state b healthy)) ((length b.conns + 1) / 2)

-- computeUsableConnsLocked
unfoldable pub compute_usable_conns : {P : Type 0} → Balancer P → List ℕ × Balancer P
compute_usable_conns b = (usable_conns b, if must_resolve b then add_call b resolve_now else b)

-- isWarmLocked
unfoldable pub is_warm : {P : Type 0} → Balancer P → List ℕ → Bool
is_warm b [] = false
is_warm b (c ∷ cs) = ((info_of b c).warm && eq_ℤ (info_of b c).state healthy) || is_warm b cs

-- setErrorPickerLocked
unfoldable pub set_error_picker : {P : Type 0} → Balancer P → Error → Balancer P
set_error_picker b e = add_call b (update_picker (error_picker e) false)

-- conns.Set.Equals over sets without repetition
unfoldable pub subset : List ℕ → List ℕ → Bool
subset [] ys = true
subset (x ∷ xs) ys = contains ys x && subset xs ys

unfoldable pub set_equals : List ℕ → List ℕ → Bool
set_equals xs ys = length xs == length ys && subset xs ys

-- conns.SetFromSlice: the keys of a map, each once
unfoldable pub set_from_slice : List ℕ → List ℕ
set_from_slice [] = []
set_from_slice (x ∷ xs) = let rest = set_from_slice xs in if contains rest x then rest else x ∷ rest

-- the branch of newPickerLocked for no usable connection: both calls are made
unfoldable pub serve_error : {P : Type 0} → Balancer P → Balancer P
serve_error b =
    let no_addrs : Bool = elim b.latest_addrs [ none ↦ true | some addrs ↦ length addrs == 0 ] in
    let b' = if no_addrs then set_error_picker b resolver_returned_no_addresses else b in
    set_error_picker b' no_healthy_connections

module _ {P : Type 0} (new_picker : Option P → List ℕ → P) where
  -- the branch for some: the picker is made anew only if the set has changed
  unfoldable pub serve_usable : Balancer P → List ℕ → Balancer P
  serve_usable b usable =
      let usable_set = set_from_slice usable in
      let b' = if set_equals usable_set b.latest_usable_conns then b else record b {
        latest_picker = some (new_picker b.latest_picker usable);
        latest_usable_conns = usable_set;
      } in
      let served : Served P = elim b'.latest_picker [ some p ↦ picker p | none ↦ nil_picker ] in
      add_call b' (update_picker served (is_warm b' usable))

  -- newPickerLocked
  unfoldable pub new_picker_locked : Balancer P → Balancer P
  new_picker_locked b0 =
      let (usable, b) = compute_usable_conns b0 in
      if length usable == 0 then serve_error b else serve_usable b usable

  -- UpdateHealthState
  unfoldable pub update_health_state : Balancer P → ℕ → State → Balancer P
  update_health_state b c state = elim (b.conn_info c) [
    | none ↦ b
    | some info ↦
        if eq_ℤ info.state state
        then b
        else new_picker_locked
            (record b { conn_info = update b.conn_info c (some (record info { state = state })) })
  ]

  -- warmedUp
  unfoldable pub warmed_up : Balancer P → ℕ → Balancer P
  warmed_up b c = elim (b.conn_info c) [
    | none ↦ b
    | some info ↦
        new_picker_locked
          (record b { conn_info = update b.conn_info c (some (record info { warm = true })) })
  ]
