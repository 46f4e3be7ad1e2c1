-- ===== src/Balancer/Manager/Reconcile.antt =====
-- balancer.go, connManager: after a change of the addresses, each has its connections.
use httplb.Prelude.{
  ℕ, zero, suc, ◌+◌, ◌-◌, ◌≡◌, refl, sym, ap, ap₂, ◌∙◌, subst, inl, inr, Bool, true, false, ◌||◌,
  List, [], ◌∷◌, ◌++◌, arith, ◌==◌, if◌then◌else◌, ==→eq, Bool-cases, length, drop, length-drop,
}
use httplb.Balancer.Manager.{
  Address, Groups, lookup, has_key, append_at, group, reconcile_known, reconcile_unknown,
  reconcile_addresses,
}
use httplb.Balancer.Manager.Counts.{
  IsMap, at_host, append_at-here, append_at-there, lookup-group, reconcile_known-Uniform,
}

-- all addresses of the list are at the host
abbrev AllAt : ℕ → List Address → Type 0
AllAt k [] = Unit
AllAt k (x ∷ xs) = (x.host_port ≡ k) × AllAt k xs

at_host-AllAt : (k : ℕ) (xs : List Address) → AllAt k (at_host k xs)
at_host-AllAt k [] = tt
at_host-AllAt k (x ∷ xs) = elim (Bool-cases (x.host_port == k)) [
  | inl e ↦
      subst (AllAt k) (sym (ap (λ t. if t then x ∷ at_host k xs else at_host k xs) e))
        (==→eq _ _ e, at_host-AllAt k xs)
  | inr e ↦
      subst (AllAt k) (sym (ap (λ t. if t then x ∷ at_host k xs else at_host k xs) e))
        (at_host-AllAt k xs)
]

drop-AllAt : (k n : ℕ) (xs : List Address) → AllAt k xs → AllAt k (drop n xs)
drop-AllAt k zero xs a = a
drop-AllAt k (suc n) [] a = a
drop-AllAt k (suc n) (x ∷ xs) a = drop-AllAt k n xs a.1

append-AllAt :
    (k : ℕ) (xs : List Address) (x : Address)
    → AllAt k xs
    → x.host_port ≡ k
    → AllAt k (xs ++ x ∷ [])
append-AllAt k [] x a e = (e, tt)
append-AllAt k (y ∷ ys) x a e = (a.0, append-AllAt k ys x a.1 e)

-- all are at the host, or none
length-at_host :
    (k h : ℕ) (xs : List Address)
    → AllAt k xs
    → length (at_host h xs) ≡ (if k == h then length xs else 0)
length-at_host k h [] a = ground arith
length-at_host k h (x ∷ xs) a =
    let rest = length-at_host k h xs a.1 in
    let same : (x.host_port == h) ≡ (k == h) = ap (λ t. t == h) a.0 in ground (arith, rest, same)

length-at_host-append :
    (h : ℕ) (xs ys : List Address)
    → length (at_host h (xs ++ ys)) ≡ length (at_host h xs) + length (at_host h ys)
length-at_host-append h [] ys = omega arith
length-at_host-append h (x ∷ xs) ys = ground (arith, length-at_host-append h xs ys)

lookup_absent {ℓ} : {A : Type ℓ} (m : Groups A) (h : ℕ) → has_key m h ≡ false → lookup m h ≡ []
lookup_absent [] h e = refl
lookup_absent ((k, xs) ∷ m) h e =
    let other : (k == h) ≡ false = ground (arith, e) in
    ap (λ t. if t then xs else lookup m h) other ∙ lookup_absent m h (ground (arith, e))

count_nothing :
    (addrs : List Address) (h : ℕ)
    → length (at_host h (reconcile_known (group (λ a. a.host_port) addrs []) []).new_addrs) ≡ 0
unfolding reconcile_known
count_nothing addrs h = refl

sum_known :
    (here there : Bool) (wk wh g l : ℕ)
    → (here ≡ true → there ≡ false)
    → (here ≡ true → wk ≡ wh)
    → (if here then wk - g else 0) + (if there then wh - l else 0)
      ≡ (if here || there then wh - (if here then g else l) else 0)
sum_known true there wk wh g l f e = let no = f refl in let same = e refl in ground arith
sum_known false there wk wh g l f e = omega arith

if_length {ℓ} :
    {A : Type ℓ} (t : Bool) (xs ys : List A)
    → (if t then length xs else length ys) ≡ length (if t then xs else ys)
if_length true xs ys = refl
if_length false xs ys = refl

-- the addresses of a host that are new, where the host is known
count_known :
    (addrs : List Address) (m : Groups ℕ) (h : ℕ)
    → IsMap m
    → length (at_host h (reconcile_known (group (λ a. a.host_port) addrs []) m).new_addrs)
      ≡ (if has_key m h then length (at_host h addrs) - length (lookup m h) else 0)
count_known addrs [] h i = count_nothing addrs h
count_known addrs ((k, got) ∷ m) h i =
    let desired = group (λ a. a.host_port) addrs [] in
    let rest = count_known addrs m h i.1 in
    let want : lookup desired k ≡ at_host k addrs = lookup-group (λ a. a.host_port) addrs [] k in
    let first : length (at_host h (drop (length got) (lookup desired k)))
        ≡ (if k == h then length (at_host k addrs) - length got else 0) =
      ap (λ t. length (at_host h (drop (length got) t))) want
      ∙ length-at_host k h _ (drop-AllAt k (length got) _ (at_host-AllAt k addrs))
      ∙ ap (λ t. if k == h then t else 0) (length-drop (length got) (at_host k addrs)) in
    ap (λ t. length (at_host h t)) (reconcile_known-Uniform desired k got m).1
    ∙ length-at_host-append h (drop (length got) (lookup desired k)) _
    ∙ ap₂ (λ s t. s + t) first rest
    ∙ sum_known (k == h) (has_key m h) (length (at_host k addrs)) (length (at_host h addrs))
        (length got) (length (lookup m h)) (λ e. ap (has_key m) (sym (==→eq k h e)) ∙ i.0)
        (λ e. ap (λ j. length (at_host j addrs)) (==→eq k h e))
    ∙ ap (λ t. if k == h || has_key m h then length (at_host h addrs) - t else 0)
        (if_length (k == h) got (lookup m h))

-- groups whose addresses are where their key says, each key once
abbrev Sound : Groups Address → Type 0
Sound [] = Unit
Sound ((k, xs) ∷ m) = (has_key m k ≡ false) × AllAt k xs × Sound m

first_absent : (s t : Bool) → (s || t) ≡ false → s ≡ false
first_absent s t e = ground (arith, e)

rest_absent : (s t : Bool) → (s || t) ≡ false → t ≡ false
rest_absent s t e = ground (arith, e)

sum_unknown :
    (here known known_h : Bool) (w l : ℕ)
    → (here ≡ true → l ≡ 0)
    → (here ≡ true → known ≡ known_h)
    → (if known
        then (if known_h then 0 else l)
        else (if here then w else 0) + (if known_h then 0 else l))
      ≡ (if known_h then 0 else (if here then w else l))
sum_unknown true known known_h w l f e = let no = f refl in let same = e refl in ground arith
sum_unknown false known known_h w l f e = ground arith

sum_both :
    (known : Bool) (w l : ℕ)
    → (known ≡ false → l ≡ 0)
    → (if known then w - l else 0) + (if known then 0 else w) ≡ w - l
sum_both true w l f = omega arith
sum_both false w l f = let no = f refl in omega arith

if_at_host :
    (t : Bool) (h : ℕ) (xs ys : List Address)
    → length (at_host h (if t then xs else ys))
      ≡ (if t then length (at_host h xs) else length (at_host h ys))
if_at_host true h xs ys = refl
if_at_host false h xs ys = refl

pub has_key-append_at {ℓ} :
    {A : Type ℓ} (m : Groups A) (k h : ℕ) (a : A)
    → has_key m h ≡ false
    → (h == k) ≡ false
    → has_key (append_at m k a) h ≡ false
unfolding append_at
has_key-append_at [] k h a e q = ground (arith, q)
has_key-append_at ((k', xs) ∷ m) k h a e q = elim (Bool-cases (k' == k)) [
  | inl p ↦ ap (λ t. has_key t h) (append_at-here m k' k xs a p) ∙ e
  | inr p ↦
      ap (λ t. has_key t h) (append_at-there m k' k xs a p)
      ∙ ap₂ (λ s t. s || t) (first_absent (k' == h) (has_key m h) e)
          (has_key-append_at m k h a (rest_absent (k' == h) (has_key m h) e) q)
]

count_unknown :
    (conns_by_addr : Groups ℕ) (m : Groups Address) (h : ℕ)
    → Sound m
    → length (at_host h (reconcile_unknown conns_by_addr m))
      ≡ (if has_key conns_by_addr h then 0 else length (lookup m h))
unfolding reconcile_unknown
count_unknown conns_by_addr [] h s = ground arith
count_unknown conns_by_addr ((k, want) ∷ m) h (new, at_k, s) =
    let rest = reconcile_unknown conns_by_addr m in
    let left = count_unknown conns_by_addr m h s in
    let none_left : (k == h) ≡ true → length (lookup m h) ≡ 0 =
      λ e. ap length (lookup_absent m h (ap (has_key m) (sym (==→eq k h e)) ∙ new)) in
    let known : (k == h) ≡ true → has_key conns_by_addr k ≡ has_key conns_by_addr h =
      λ e. ap (has_key conns_by_addr) (==→eq k h e) in
    let added : length (at_host h (want ++ rest))
        ≡ (if k == h then length want else 0)
          + (if has_key conns_by_addr h then 0 else length (lookup m h)) =
      length-at_host-append h want rest ∙ ap₂ (λ a b. a + b) (length-at_host k h want at_k) left in
    if_at_host (has_key conns_by_addr k) h rest (want ++ rest)
    ∙ ap₂ (λ a b. if has_key conns_by_addr k then a else b) left added
    ∙ sum_unknown (k == h) (has_key conns_by_addr k) (has_key conns_by_addr h) (length want)
        (length (lookup m h)) none_left known
    ∙ ap (λ t. if has_key conns_by_addr h then 0 else t) (if_length (k == h) want (lookup m h))

append_at-Sound :
    (m : Groups Address) (k : ℕ) (a : Address) → a.host_port ≡ k → Sound m → Sound (append_at m k a)
unfolding append_at
append_at-Sound [] k a e s = (refl, (e, tt), tt)
append_at-Sound ((k', xs) ∷ m) k a e (new, at_k, s) = elim (Bool-cases (k' == k)) [
  | inl q ↦
      subst Sound (sym (append_at-here m k' k xs a q))
        (new, append-AllAt k' xs a at_k (e ∙ sym (==→eq k' k q)), s)
  | inr q ↦
      subst Sound (sym (append_at-there m k' k xs a q))
        (has_key-append_at m k k' a new q, at_k, append_at-Sound m k a e s)
]

group-Sound :
    (addrs : List Address) (m : Groups Address) → Sound m → Sound (group (λ a. a.host_port) addrs m)
unfolding group
group-Sound [] m s = s
group-Sound (a ∷ addrs) m s = group-Sound addrs _ (append_at-Sound m a.host_port a refl s)

-- The addresses to connect to are, for each host and port, as many as the connections it has fall short of its addresses.
pub reconcile_connects :
    (addrs : List Address) (conns_by_addr : Groups ℕ) (h : ℕ)
    → IsMap conns_by_addr
    → length (at_host h (reconcile_addresses addrs conns_by_addr).new_addrs)
      ≡ length (at_host h addrs) - length (lookup conns_by_addr h)
unfolding reconcile_addresses
reconcile_connects addrs m h i =
    let desired = group (λ a. a.host_port) addrs [] in
    let wanted : length (lookup desired h) ≡ length (at_host h addrs) =
      ap length (lookup-group (λ a. a.host_port) addrs [] h) in
    length-at_host-append h (reconcile_known desired m).new_addrs _
    ∙ ap₂ (λ a b. a + b) (count_known addrs m h i)
        (count_unknown m desired h (group-Sound addrs [] tt)
          ∙ ap (λ t. if has_key m h then 0 else t) wanted)
    ∙ sum_both (has_key m h) _ _ (λ e. ap length (lookup_absent m h e))
