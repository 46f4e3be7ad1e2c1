-- ===== src/Resolver/Dns.antt =====
-- resolver/resolver.go: the address families, and one resolution of a name by DNS. Names and ports are
-- numbers that are only passed on; splitting and joining them and the lookup are Go's package net.
use httplb.Prelude.{
  ℕ, ◌<◌, ◌≡◌, refl, sym, ap, subst, ◌⊎◌, inl, inr, Bool, true, false, not, ◌&&◌, ◌||◌, Option,
  none, some, List, [], ◌∷◌, map, arith, ltb, if◌then◌else◌, Bool-cases, length, keep, All,
}
use mathlib.Core.Path.{fun_ext}

-- AddressFamilyPolicy
pub data Policy : Type 0 where
  prefer_ipv4 : Policy
  require_ipv4 : Policy
  prefer_ipv6 : Policy
  require_ipv6 : Policy
  use_both_ipv4_and_ipv6 : Policy

-- netip.Addr: an IPv4 address, an IPv6 address, or an IPv4 address mapped into IPv6
pub data Addr : Type 0 where
  ip4 : ℕ → Addr
  ip6 : ℕ → Addr
  ip4_in_6 : ℕ → Addr

abbrev pub is4 : Addr → Bool
is4 (ip4 n) = true
is4 (ip6 n) = false
is4 (ip4_in_6 n) = false

abbrev pub is4_in_6 : Addr → Bool
is4_in_6 (ip4 n) = false
is4_in_6 (ip6 n) = false
is4_in_6 (ip4_in_6 n) = true

abbrev pub is6 : Addr → Bool
is6 (ip4 n) = false
is6 (ip6 n) = true
is6 (ip4_in_6 n) = true

abbrev pub unmap : Addr → Addr
unmap (ip4 n) = ip4 n
unmap (ip6 n) = ip6 n
unmap (ip4_in_6 n) = ip4 n

-- `required`
unfoldable pub required : Policy → Bool
required require_ipv4 = true
required require_ipv6 = true
required prefer_ipv4 = false
required prefer_ipv6 = false
required use_both_ipv4_and_ipv6 = false

-- the addresses that match, or all if none does and none has to
unfoldable pub keep_matching : Bool → (Addr → Bool) → List Addr → List Addr
keep_matching required check addresses =
    let matching_addresses = keep check addresses in
    if required || ltb 0 (length matching_addresses) then matching_addresses else addresses

abbrev pub check4 : Addr → Bool
check4 a = is4 a || is4_in_6 a

abbrev pub check6 : Addr → Bool
check6 a = is6 a && not (is4_in_6 a)

-- applyAddressFamilyPolicy
unfoldable pub apply_address_family_policy : List Addr → Policy → List Addr
apply_address_family_policy addresses prefer_ipv4 =
    keep_matching (required prefer_ipv4) check4 addresses
apply_address_family_policy addresses require_ipv4 =
    keep_matching (required require_ipv4) check4 addresses
apply_address_family_policy addresses prefer_ipv6 =
    keep_matching (required prefer_ipv6) check6 addresses
apply_address_family_policy addresses require_ipv6 =
    keep_matching (required require_ipv6) check6 addresses
apply_address_family_policy addresses use_both_ipv4_and_ipv6 = addresses

pub data Network : Type 0 where
  ip : Network
  only_ip4 : Network
  only_ip6 : Network

-- networkForAddressFamilyPolicy
unfoldable pub network_for_address_family_policy : Policy → Network
network_for_address_family_policy prefer_ipv4 = ip
network_for_address_family_policy prefer_ipv6 = ip
network_for_address_family_policy use_both_ipv4_and_ipv6 = ip
network_for_address_family_policy require_ipv4 = only_ip4
network_for_address_family_policy require_ipv6 = only_ip6

-- the port for a target that names none; `https` tells whether the scheme is "https"
unfoldable pub default_port : Bool → ℕ
default_port https = if https then 443 else 80

-- ResolveOnce; none is the error of the lookup
unfoldable pub resolve_once :
    (ℕ → Option (ℕ × ℕ))
    → (Network → ℕ → Option (List Addr))
    → Policy
    → Bool
    → ℕ
    → Option (List (Addr × ℕ))
resolve_once split_host_port lookup_net_ip policy https host_port =
    let (host, port) : ℕ × ℕ = elim (split_host_port host_port) [
      | none ↦ (host_port, default_port https)
      | some parts ↦ parts
    ] in
    elim (lookup_net_ip (network_for_address_family_policy policy) host) [
      | none ↦ none
      | some addresses ↦
          some (map (λ a. (unmap a, port)) (apply_address_family_policy addresses policy))
    ]

-- The family that a policy asks for; the last policy asks for both.
abbrev pub wanted : Policy → Addr → Bool
wanted prefer_ipv4 a = not (check6 a)
wanted require_ipv4 a = not (check6 a)
wanted prefer_ipv6 a = not (check4 a)
wanted require_ipv6 a = not (check4 a)
wanted use_both_ipv4_and_ipv6 a = true

-- The policies that only prefer a family, by their documentation: they fall back to all addresses.
abbrev pub falls_back : Policy → Bool
falls_back prefer_ipv4 = true
falls_back prefer_ipv6 = true
falls_back require_ipv4 = false
falls_back require_ipv6 = false
falls_back use_both_ipv4_and_ipv6 = false

-- What may be said of the addresses that are used, for the test of a family.
pub record Filtered (may : Bool) (family : Addr → Bool) (addresses result : List Addr)
    : Type 0 where
  pub of_family :
      All (λ a. family a ≡ true) result
      ⊎ ((result ≡ addresses) × All (λ a. family a ≡ false) addresses × (may ≡ true))
  pub no_loss : keep family result ≡ keep family addresses
  pub some_left : may ≡ true → 0 < length addresses → 0 < length result

All-keep : (p : Addr → Bool) (xs : List Addr) → All (λ a. p a ≡ true) (keep p xs)
All-keep p [] = tt
All-keep p (x ∷ xs) = elim (Bool-cases (p x)) [
  | inl e ↦
      let rest : (p x ≡ true) × All (λ a. p a ≡ true) (keep p xs) = (e, All-keep p xs) in rw e rest
  | inr e ↦ rw e (All-keep p xs)
]

keep-keep : (p : Addr → Bool) (xs : List Addr) → keep p (keep p xs) ≡ keep p xs
keep-keep p [] = refl
keep-keep p (x ∷ xs) = elim (Bool-cases (p x)) [
  | inl e ↦ rw e (rw e (ap (λ (l : List Addr). x ∷ l) (keep-keep p xs)))
  | inr e ↦ rw e (keep-keep p xs)
]

All-none_kept :
    (p : Addr → Bool) (xs : List Addr) → length (keep p xs) ≡ 0 → All (λ a. p a ≡ false) xs
All-none_kept p [] h = tt
All-none_kept p (x ∷ xs) h = elim (Bool-cases (p x)) [
  | inl e ↦ absurd (ground (arith, e))
  | inr e ↦ (e, All-none_kept p xs (ground (arith, e)))
]

keep_matching-Filtered :
    (must : Bool) (check : Addr → Bool) (xs : List Addr)
    → Filtered (not must) check xs (keep_matching must check xs)
unfolding keep_matching
keep_matching-Filtered must check xs = elim (Bool-cases (must || ltb 0 (length (keep check xs)))) [
  | inl e ↦
      subst (Filtered (not must) check xs) (sym (ap (λ b. if b then keep check xs else xs) e))
        (record {
          of_family = inl (All-keep check xs);
          no_loss = keep-keep check xs;
          some_left = λ free some. ground (arith, e, free);
        })
  | inr e ↦
      subst (Filtered (not must) check xs) (sym (ap (λ b. if b then keep check xs else xs) e))
        (record {
          of_family = inr (refl, All-none_kept check xs (ground (arith, e)), ground (arith, e));
          no_loss = refl;
          some_left = λ free some. some;
        })
]

All-wanted : (xs : List Addr) → All (λ a. wanted use_both_ipv4_and_ipv6 a ≡ true) xs
All-wanted [] = tt
All-wanted (x ∷ xs) = (refl, All-wanted xs)

wanted4 : check4 ≡ (λ a. not (check6 a))
wanted4 = fun_ext (λ a. elim a as (λ a. check4 a ≡ not (check6 a)) [
  | ip4 n ↦ refl
  | ip6 n ↦ refl
  | ip4_in_6 n ↦ refl
])

wanted6 : check6 ≡ (λ a. not (check4 a))
wanted6 = fun_ext (λ a. elim a as (λ a. check6 a ≡ not (check4 a)) [
  | ip4 n ↦ refl
  | ip6 n ↦ refl
  | ip4_in_6 n ↦ refl
])

-- For each policy, the addresses that are used are all of the wanted family, or they are all addresses, none of which is of that family, and the policy is one that prefers its family without requiring it; no address of the family is lost and the order is kept; and a policy that prefers a family leaves some address if there was one.
pub policy_correct :
    (addresses : List Addr) (policy : Policy)
    → Filtered
        (falls_back policy)
        (wanted policy)
        addresses
        (apply_address_family_policy addresses policy)
unfolding apply_address_family_policy required
policy_correct xs prefer_ipv4 =
    subst (λ f. Filtered true f xs (keep_matching false check4 xs)) wanted4
      (keep_matching-Filtered false check4 xs)
policy_correct xs require_ipv4 =
    subst (λ f. Filtered false f xs (keep_matching true check4 xs)) wanted4
      (keep_matching-Filtered true check4 xs)
policy_correct xs prefer_ipv6 =
    subst (λ f. Filtered true f xs (keep_matching false check6 xs)) wanted6
      (keep_matching-Filtered false check6 xs)
policy_correct xs require_ipv6 =
    subst (λ f. Filtered false f xs (keep_matching true check6 xs)) wanted6
      (keep_matching-Filtered true check6 xs)
policy_correct xs use_both_ipv4_and_ipv6 = record {
  of_family = inl (All-wanted xs);
  no_loss = refl;
  some_left = λ free some. some;
}
