-- ===== src/Resolver/Rendezvous.antt =====
-- resolver/rendezvous.go: the `k` addresses that rank highest by a hash are selected. An address is
-- known by a number; `host_port` gives the bytes of its HostPort.
pub mod Laws
pub mod Loop
pub mod Subset
mod Tests
use httplb.Prelude.{
  ℕ, zero, suc, ◌+◌, ◌-◌, ◌*◌, ◌/◌, ◌%◌, ◌^◌, ◌≤◌, ◌<◌, ◌≡◌, refl, sym, ap, ap₂, ◌∙◌, subst, ◌≢◌,
  ◌↔◌, ◌⊎◌, inl, inr, Bool, true, false, not, ◌&&◌, ◌||◌, Option, none, some, List, [], ◌∷◌, ◌++◌,
  map, append-nil, append_assoc, map-append, arith, le_trans, le_refl, add_comm, add_assoc,
  mul_comm, dec_lt, dec_le, ℕ_discrete, ltb, leb, ◌==◌, if◌then◌else◌, ltb→lt, lt→ltb, ltb→le,
  le→ltb, ==→eq, ==-refl, ==→ne, ==_iff, Bool-cases, Option-cases, tests, length, get_elem?, get_or,
  set, take, drop, keep, All, length-append, length-set, two_63, two_64, two_32, get_or-set,
  take-append-drop, length-take, length-drop, length-map, length-keep-le, All-append, All-map,
  get_elem?-set_self, get_elem?-set_ne, update, contains, IsNodup, contains-append, SameSet,
  contains-map-of_get, get_of_contains-map, get_of_contains, contains-of_get, Bool-ext,
}
use httplb.Prelude.Int.{ℤ, pos, negsuc, eq_ℤ}
use httplb.Murmur.{MurmurHash3, new_murmur_hash3, write, sum32}
use httplb.Heap.{HeapInterface, init, fix}
use httplb.Picker.RoundRobin.{swap_at}

-- hash.Hash32; a hash starts from the same state after each Reset
pub record Hash32 : Type 1 where
  pub State : Type 0
  pub reset : State
  pub write : State → List ℕ → State
  pub sum32 : State → ℕ

-- RendezvousConfig; an empty key is none, as is a missing hash
pub record RendezvousConfig : Type 1 where
  pub num_backends : ℤ
  pub selection_key : List ℕ
  pub hash : Option Hash32

pub record Subsetter : Type 1 where
  pub key : List ℕ
  pub k : ℤ
  pub hash : Hash32

pub data Error : Type 0 where
  random_failed : Error
  num_backends_must_be_set : Error

pub data Created : Type 1 where
  failed : Error → Created
  created : Subsetter → Created

-- RendezvousHashSubsetter, once the key is known; `murmur` is the default hash
unfoldable pub make_subsetter : Hash32 → RendezvousConfig → List ℕ → Created
make_subsetter murmur options key =
    if eq_ℤ options.num_backends (pos 0)
    then failed num_backends_must_be_set
    else created (record {
      key = key;
      k = options.num_backends;
      hash = elim options.hash [ none ↦ murmur | some hash ↦ hash ];
    })

-- RendezvousHashSubsetter; `random_key` is what randomKey returns
unfoldable pub rendezvous_hash_subsetter : Hash32 → Option (List ℕ) → RendezvousConfig → Created
rendezvous_hash_subsetter murmur random_key options = elim options.selection_key [
  | [] ↦ elim random_key [
    | none ↦ failed random_failed
    | some key ↦ make_subsetter murmur options key
  ]
  | b ∷ bs ↦ make_subsetter murmur options (b ∷ bs)
]

-- addressHeap
pub record AddressHeap : Type 0 where
  pub addrs : List ℕ
  pub ranks : List ℕ

abbrev pub len : AddressHeap → ℕ
len h = length h.addrs

abbrev pub less : AddressHeap → ℕ → ℕ → Bool
less h i j = ltb (get_or h.ranks i 0) (get_or h.ranks j 0)

abbrev pub swap : AddressHeap → ℕ → ℕ → AddressHeap
swap h i j = record { addrs = swap_at h.addrs (i, j); ranks = swap_at h.ranks (i, j) }

abbrev pub ops : HeapInterface AddressHeap
ops = record { len = len; less = less; swap = swap }

-- addressHeap.rank, which resets the hash first
unfoldable pub rank_of : Hash32 → List ℕ → List ℕ → ℕ
rank_of hash key host_port = hash.sum32 (hash.write (hash.write hash.reset key) host_port)

module _ (rank : ℕ → ℕ) where
  -- newAddressHeap
  unfoldable pub new_address_heap : List ℕ → AddressHeap
  new_address_heap addrs = init ops (record { addrs = addrs; ranks = map rank addrs })

  -- the loop of computeSubset over the addresses after the first k
  unfoldable pub select : AddressHeap → List ℕ → AddressHeap
  select h [] = h
  select h (addr ∷ addrs) =
      let r = rank addr in
      let replaced : AddressHeap = record { addrs = set h.addrs 0 addr; ranks = set h.ranks 0 r } in
      let h' = if ltb (get_or h.ranks 0 0) r then fix ops replaced 0 else h in select h' addrs

  -- computeSubset for a `k` that is not negative, and a `rank` that comes from the hash and the key
  unfoldable pub top_k : ℕ → List ℕ → List ℕ
  top_k k addrs =
      let h = select (new_address_heap (take k addrs)) (drop k addrs) in
      if leb (length addrs) k then addrs else h.addrs

  -- computeSubset; none is a panic: no length is at most a negative `k`, so addrs[:s.k] is reached
  unfoldable pub compute_subset : ℤ → List ℕ → Option (List ℕ)
  compute_subset (pos k) addrs = some (top_k k addrs)
  compute_subset (negsuc k) addrs = none

-- OnResolve: what the receiver behind is given; none is a panic
unfoldable pub on_resolve_subset : Subsetter → (ℕ → List ℕ) → List ℕ → Option (List ℕ)
on_resolve_subset s host_port addrs =
    compute_subset (λ a. rank_of s.hash s.key (host_port a)) s.k addrs

-- the default hash, NewMurmurHash3(0)
abbrev pub murmur_hash : Hash32
murmur_hash = record {
  State = MurmurHash3;
  reset = new_murmur_hash3 0;
  write = write;
  sum32 = sum32;
}
