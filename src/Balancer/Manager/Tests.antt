-- ===== src/Balancer/Manager/Tests.antt =====
-- Runs of the connection manager on small inputs.
use httplb.Prelude.{
  ℕ, ◌+◌, ◌*◌, ◌/◌, ◌≡◌, refl, sym, ap, List, [], ◌∷◌, map, ◌==◌, if◌then◌else◌, length,
}
use httplb.Balancer.Manager.{
  Address, Groups, lookup, append_at, group, reconcile_known, reconcile_unknown,
  reconcile_addresses, do_update,
}
use httplb.Balancer.Manager.Counts.{IsMap, at_host}
use httplb.Balancer.Manager.Update.{reconcile_correct}
use httplb.Balancer.Manager.Recycle.{
  remove_first, put, take_out, recycle_conns, recycle_conns-keeps,
}

abbrev addr : ℕ → Address
addr h = record { host_port = h; attributes = h + 100 }

-- host 1 twice and host 3 once
abbrev addrs : List Address
addrs = addr 1 ∷ addr 3 ∷ addr 1 ∷ []

-- host 1 has connection 10, host 2 has 20 and 21
abbrev before : Groups ℕ
before = (1, 10 ∷ []) ∷ (2, 20 ∷ 21 ∷ []) ∷ []

before-IsMap : IsMap before
before-IsMap = (refl, (refl, tt))

plan : (reconcile_addresses addrs before).new_addrs ≡ addr 1 ∷ addr 3 ∷ []
unfolding reconcile_addresses reconcile_known reconcile_unknown group append_at
plan = refl

dropped : (reconcile_addresses addrs before).to_remove ≡ 20 ∷ 21 ∷ []
unfolding reconcile_addresses reconcile_known reconcile_unknown group append_at
dropped = refl

-- connection 11 is to host 1, and 30 to host 3
abbrev address : ℕ → ℕ
address c = if c == 30 then 3 else 1

reconcile_correct_example :
    let after = do_update address (11 ∷ 30 ∷ []) (reconcile_addresses addrs before).remaining in
    IsMap after × ((h : ℕ) → length (lookup after h) ≡ length (at_host h addrs))
reconcile_correct_example =
    reconcile_correct addrs before address (11 ∷ 30 ∷ []) before-IsMap
      (sym (ap (map (λ a. a.host_port)) plan))

-- connections 20 and 21 are recycled, and 99 is gone; each new one has its address before the 5
abbrev remake : List ℕ → List ℕ → ℕ → List ℕ × ℕ
remake addrs removed s = (map (λ a. a * 10 + 5) addrs, s + length removed)

recycled :
    recycle_conns (λ c. c / 10) remake before (20 ∷ 99 ∷ []) 0
    ≡ ((1, 10 ∷ []) ∷ (2, 21 ∷ 25 ∷ []) ∷ [], 1)
unfolding recycle_conns take_out put remove_first do_update group append_at
recycled = refl

remade :
    map
      (λ c. c / 10)
      (remake
        (map (λ c. c / 10) (take_out (λ c. c / 10) before (20 ∷ 99 ∷ [])).to_recycle)
        (take_out (λ c. c / 10) before (20 ∷ 99 ∷ [])).to_recycle
        0).0
    ≡ map (λ c. c / 10) (take_out (λ c. c / 10) before (20 ∷ 99 ∷ [])).to_recycle
unfolding take_out put remove_first
remade = refl

recycle_conns-keeps_example :
    length (lookup (recycle_conns (λ c. c / 10) remake before (20 ∷ 99 ∷ []) 0).0 2)
    ≡ length (lookup before 2)
recycle_conns-keeps_example =
    recycle_conns-keeps (λ c. c / 10) remake before (20 ∷ 99 ∷ []) 0 remade 2
