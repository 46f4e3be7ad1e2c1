-- ===== src/Balancer/Manager.antt =====
-- balancer.go, connManager: which connections are made and which are dropped when the addresses change.
-- A Go map from host and port to a slice is a list of its entries in the order in which `range` visits
-- them; hosts with ports are only compared, so they are numbers.
pub mod Counts
pub mod Reconcile
pub mod Update
pub mod Recycle
mod Tests
use httplb.Prelude.{
  ℕ, zero, suc, ◌+◌, ◌-◌, ◌*◌, ◌/◌, ◌%◌, ◌^◌, ◌≤◌, ◌<◌, ◌≡◌, refl, sym, ap, ap₂, ◌∙◌, subst, ◌≢◌,
  ◌↔◌, ◌⊎◌, inl, inr, Bool, true, false, not, ◌&&◌, ◌||◌, Option, none, some, List, [], ◌∷◌, ◌++◌,
  map, append-nil, append_assoc, map-append, arith, le_trans, le_refl, add_comm, add_assoc,
  mul_comm, dec_lt, dec_le, ℕ_discrete, ltb, leb, ◌==◌, if◌then◌else◌, ltb→lt, lt→ltb, ltb→le,
  le→ltb, ==→eq, ==-refl, ==→ne, ==_iff, Bool-cases, Option-cases, tests, length, get_elem?, get_or,
  set, take, drop, keep, All, length-append, length-set, two_63, two_64, two_32, get_or-set,
  take-append-drop, length-take, length-drop, length-map, length-keep-le, All-append, All-map,
  get_elem?-set_self, get_elem?-set_ne, update, contains, IsNodup, contains-append, SameSet,
  contains-map-of_get, get_of_contains-map, get_of_contains, contains-of_get, Bool-ext,
}

-- resolver.Address
pub record Address : Type 0 where
  pub host_port : ℕ
  pub attributes : ℕ

abbrev pub Groups {ℓ} : Type ℓ → Type ℓ
Groups A = List (ℕ × List A)

-- `m[k]`
abbrev pub lookup {ℓ} : {A : Type ℓ} → Groups A → ℕ → List A
lookup [] k = []
lookup ((k', xs) ∷ m) k = if k' == k then xs else lookup m k

abbrev pub has_key {ℓ} : {A : Type ℓ} → Groups A → ℕ → Bool
has_key [] k = false
has_key ((k', xs) ∷ m) k = k' == k || has_key m k

-- `m[k] = append(m[k], a)`
unfoldable pub append_at {ℓ} : {A : Type ℓ} → Groups A → ℕ → A → Groups A
append_at [] k a = (k, a ∷ []) ∷ []
append_at ((k', xs) ∷ m) k a =
    let rest = append_at m k a in if k' == k then (k', xs ++ a ∷ []) ∷ m else (k', xs) ∷ rest

unfoldable pub group {ℓ} : {A : Type ℓ} → (A → ℕ) → List A → Groups A → Groups A
group key [] m = m
group key (a ∷ items) m = group key items (append_at m (key a) a)

-- what reconcileAddresses decides, and the attributes that it sets on kept connections
pub record Plan : Type 0 where
  pub remaining : Groups ℕ
  pub new_addrs : List Address
  pub to_remove : List ℕ
  pub synced : List (ℕ × ℕ)

unfoldable pub sync : List ℕ → List Address → List (ℕ × ℕ)
sync [] want = []
sync (c ∷ cs) [] = []
sync (c ∷ cs) (a ∷ items) = (c, a.attributes) ∷ sync cs items

-- the first loop, over connsByAddr
unfoldable pub reconcile_known : Groups Address → Groups ℕ → Plan
reconcile_known desired [] = record { remaining = []; new_addrs = []; to_remove = []; synced = [] }
reconcile_known desired ((host_port, got) ∷ m) =
    let rest = reconcile_known desired m in
    let want = lookup desired host_port in
    if ltb (length got) (length want)
    then record {
      remaining = (host_port, got) ∷ rest.remaining;
      new_addrs = drop (length got) want ++ rest.new_addrs;
      to_remove = rest.to_remove;
      synced = sync got want ++ rest.synced;
    }
    else record {
      remaining = (host_port, take (length want) got) ∷ rest.remaining;
      new_addrs = rest.new_addrs;
      to_remove = drop (length want) got ++ rest.to_remove;
      synced = sync got want ++ rest.synced;
    }

-- the second loop, over the desired addresses of unknown hosts
unfoldable pub reconcile_unknown : Groups ℕ → Groups Address → List Address
reconcile_unknown conns_by_addr [] = []
reconcile_unknown conns_by_addr ((host_port, want) ∷ m) =
    let rest = reconcile_unknown conns_by_addr m in
    if has_key conns_by_addr host_port then rest else want ++ rest

-- reconcileAddresses, up to its call of doUpdate
unfoldable pub reconcile_addresses : List Address → Groups ℕ → Plan
reconcile_addresses addrs conns_by_addr =
    let desired = group (λ a. a.host_port) addrs [] in
    let p = reconcile_known desired conns_by_addr in
    record p { new_addrs = p.new_addrs ++ reconcile_unknown conns_by_addr desired }

-- doUpdate, for the connections that updateFunc returned; `address` is their Address().HostPort
unfoldable pub do_update : (ℕ → ℕ) → List ℕ → Groups ℕ → Groups ℕ
do_update address new_conns remaining = group address new_conns remaining
