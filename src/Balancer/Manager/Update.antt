-- ===== src/Balancer/Manager/Update.antt =====
-- balancer.go, connManager: the connections after reconcileAddresses and its doUpdate.
use httplb.Prelude.{
  ℕ, ◌-◌, ◌≡◌, refl, sym, ap, ◌∙◌, subst, inl, inr, ◌||◌, List, [], ◌∷◌, map, arith, ◌==◌,
  Bool-cases, length, take, keep, length-append, length-take,
}
use httplb.Balancer.Manager.{
  Address, Groups, lookup, has_key, append_at, group, reconcile_known, reconcile_addresses,
  do_update,
}
use httplb.Balancer.Manager.Counts.{
  IsMap, at_host, append_at-here, append_at-there, lookup-group, reconcile_known-Uniform,
  reconcile_keeps,
}
use httplb.Balancer.Manager.Reconcile.{has_key-append_at, reconcile_connects}

pub length-keep-map {ℓ} :
    {A : Type ℓ} (key : A → ℕ) (xs : List A) (h : ℕ)
    → length (keep (λ x. key x == h) xs) ≡ length (keep (λ k. k == h) (map key xs))
length-keep-map key [] h = refl
length-keep-map key (x ∷ xs) h = ground (arith, length-keep-map key xs h)

append_at-IsMap {ℓ} :
    {A : Type ℓ} (m : Groups A) (k : ℕ) (a : A) → IsMap m → IsMap (append_at m k a)
unfolding append_at
append_at-IsMap [] k a i = (refl, tt)
append_at-IsMap ((k', xs) ∷ m) k a (new, i) = elim (Bool-cases (k' == k)) [
  | inl q ↦ subst IsMap (sym (append_at-here m k' k xs a q)) (new, i)
  | inr q ↦
      subst IsMap (sym (append_at-there m k' k xs a q))
        (has_key-append_at m k k' a new q, append_at-IsMap m k a i)
]

pub group-IsMap {ℓ} :
    {A : Type ℓ} (key : A → ℕ) (items : List A) (m : Groups A) → IsMap m → IsMap (group key items m)
unfolding group
group-IsMap key [] m i = i
group-IsMap key (a ∷ items) m i = group-IsMap key items _ (append_at-IsMap m (key a) a i)

remaining_keys :
    (desired : Groups Address) (m : Groups ℕ) (h : ℕ)
    → has_key (reconcile_known desired m).remaining h ≡ has_key m h
unfolding reconcile_known
remaining_keys desired [] h = refl
remaining_keys desired ((k, got) ∷ m) h =
    ap (λ t. has_key t h) (reconcile_known-Uniform desired k got m).0
    ∙ ap (λ t. k == h || t) (remaining_keys desired m h)

pub remaining-IsMap :
    (desired : Groups Address) (m : Groups ℕ)
    → IsMap m
    → IsMap (reconcile_known desired m).remaining
unfolding reconcile_known
remaining-IsMap desired [] i = tt
remaining-IsMap desired ((k, got) ∷ m) (new, i) =
    subst IsMap (sym (reconcile_known-Uniform desired k got m).0)
      (remaining_keys desired m k ∙ new, remaining-IsMap desired m i)

pub unfold_remaining :
    (addrs : List Address) (m : Groups ℕ)
    → (reconcile_addresses addrs m).remaining
      ≡ (reconcile_known (group (λ a. a.host_port) addrs []) m).remaining
unfolding reconcile_addresses
unfold_remaining addrs m = refl

-- If a connection was made for each address to connect to, every host and port ends up with as many connections as it has addresses, whatever there was before, and the map still has each key once.
pub reconcile_correct :
    (addrs : List Address) (conns_by_addr : Groups ℕ) (address : ℕ → ℕ) (new_conns : List ℕ)
    → IsMap conns_by_addr
    → map address new_conns
      ≡ map (λ a. a.host_port) (reconcile_addresses addrs conns_by_addr).new_addrs
    → let after = do_update address new_conns (reconcile_addresses addrs conns_by_addr).remaining in
      IsMap after × ((h : ℕ) → length (lookup after h) ≡ length (at_host h addrs))
unfolding do_update
reconcile_correct addrs m address new_conns i made =
    let p = reconcile_addresses addrs m in
    (
      group-IsMap address new_conns p.remaining
          (subst IsMap (sym (unfold_remaining addrs m)) (remaining-IsMap _ m i)),
      λ h.
          let kept : length (lookup p.remaining h)
              ≡ length (take (length (at_host h addrs)) (lookup m h)) =
            ap length (reconcile_keeps addrs m h) in
          let size = length-take (length (at_host h addrs)) (lookup m h) in
          let new : length (keep (λ c. address c == h) new_conns)
              ≡ length (at_host h addrs) - length (lookup m h) =
            length-keep-map address new_conns h
            ∙ ap (λ t. length (keep (λ k. k == h) t)) made
            ∙ sym (length-keep-map (λ a. a.host_port) p.new_addrs h)
            ∙ reconcile_connects addrs m h i in
          ap length (lookup-group address new_conns p.remaining h)
          ∙ length-append (lookup p.remaining h) (keep (λ c. address c == h) new_conns)
          ∙ omega (arith, kept, size, new),
    )
