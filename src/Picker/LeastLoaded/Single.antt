-- ===== src/Picker/LeastLoaded/Single.antt =====
-- picker/leastloaded.go: no connection has two items, through the loop of `update` and Init.
use httplb.Prelude.{
  ℕ, zero, suc, ◌+◌, ◌<◌, ◌≡◌, refl, sym, ap, ◌∙◌, inl, inr, false, ◌||◌, List, [], ◌∷◌, ◌++◌, map,
  arith, ◌==◌, if◌then◌else◌, Bool-cases, length, get_or, contains, IsNodup, contains-append,
  contains-of_get, length-map,
}
use httplb.Prelude.Int.{pos, negsuc}
use httplb.Picker.LeastLoaded.{Item, ConnHeap, at, item, put_index, delete, to_set, compact}
use httplb.Picker.LeastLoaded.Laws.{IsIndexed}
use httplb.Picker.LeastLoaded.Rearranged.{Rearranged}
use httplb.Picker.LeastLoaded.Compact.{conn_of, contains-delete, compact-conns}
use httplb.Picker.LeastLoaded.Append.{conns}

-- no two items in the slice are of one connection
abbrev pub IsApart : ConnHeap → Type 0
IsApart t =
    (i j : ℕ) → i < length t.slice → j < length t.slice → (item t i).conn ≡ (item t j).conn → i ≡ j

IsNodup-snoc : (m : List ℕ) (a : ℕ) → IsNodup m → contains m a ≡ false → IsNodup (m ++ a ∷ [])
IsNodup-snoc [] a d out = (refl, tt)
IsNodup-snoc (x ∷ m) a d out =
    (ground (arith, contains-append m (a ∷ []) x, d.0), IsNodup-snoc m a d.1 (ground arith))

-- the keys of the map are distinct
pub IsNodup-to_set : (cns m : List ℕ) → IsNodup m → IsNodup (to_set cns m)
unfolding to_set
IsNodup-to_set [] m d = d
IsNodup-to_set (cn ∷ cns) m d = elim (Bool-cases (contains m cn)) [
  | inl e ↦ rw e (IsNodup-to_set cns m d)
  | inr e ↦ rw e (IsNodup-to_set cns (m ++ cn ∷ []) (IsNodup-snoc m cn d e))
]

IsNodup-delete : (cn : ℕ) (m : List ℕ) → IsNodup m → IsNodup (delete cn m)
unfolding delete
IsNodup-delete cn [] d = tt
IsNodup-delete cn (k ∷ m) d = elim (Bool-cases (k == cn)) [
  | inl e ↦ rw e (IsNodup-delete cn m d.1)
  | inr e ↦
      let both : (contains (delete cn m) k ≡ false) × IsNodup (delete cn m) =
        (ground (arith, contains-delete cn m k, d.0), IsNodup-delete cn m d.1) in
      rw e both
]

-- What is kept and what is new are distinct connections.
pub compact-IsNodup :
    (f : ℕ → ℕ) (items : ℕ → Item) (m ps : List ℕ) (i j : ℕ)
    → ((q : ℕ) → f q ≡ (items q).conn)
    → IsNodup m
    → IsNodup (map f (compact items m ps i j).kept ++ (compact items m ps i j).new_map)
unfolding compact
compact-IsNodup f items m [] i j e d = d
compact-IsNodup f items m (p ∷ ps) i j e d =
    let cn = (items p).conn in
    let moved = if i == j then items else put_index items p (pos j) in
    let same : (q : ℕ) → f q ≡ (moved q).conn = λ q. ground (arith, e q) in
    let stay =
      compact-IsNodup f moved (delete cn m) ps (i + 1) (j + 1) same (IsNodup-delete cn m d) in
    let there = compact-conns f moved (delete cn m) ps (i + 1) (j + 1) cn same in
    let c = compact moved (delete cn m) ps (i + 1) (j + 1) in
    let gone : contains (map f c.kept ++ c.new_map) cn ≡ false =
      contains-append (map f c.kept) c.new_map cn
      ∙ there
      ∙ contains-delete cn m cn
      ∙ ground arith in
    let first : contains (map f c.kept ++ c.new_map) (f p) ≡ false =
      ap (contains (map f c.kept ++ c.new_map)) (e p) ∙ gone in
    let leave =
      compact-IsNodup f (put_index items p (negsuc 0)) m ps (i + 1) j (λ q. ground (arith, e q))
        d in
    elim (Bool-cases (contains m cn)) [
      | inl kept ↦ rw kept (first, stay)
      | inr left ↦ rw left leave
    ]

-- the second part may be listed in another order
pub IsNodup-reorder :
    (xs ys zs : List ℕ)
    → IsNodup (xs ++ ys)
    → ((a : ℕ) → contains zs a ≡ contains ys a)
    → (IsNodup ys → IsNodup zs)
    → IsNodup (xs ++ zs)
IsNodup-reorder [] ys zs d same f = f d
IsNodup-reorder (x ∷ xs) ys zs d same f = (
  contains-append xs zs x
      ∙ ap (λ b. contains xs x || b) (same x)
      ∙ sym (contains-append xs ys x)
      ∙ d.0,
  IsNodup-reorder xs ys zs d.1 same f,
)

get_or-map :
    (f : ℕ → ℕ) (xs : List ℕ) (i : ℕ) → i < length xs → get_or (map f xs) i 0 ≡ f (get_or xs i 0)
get_or-map f [] i p = absurd (omega arith)
get_or-map f (x ∷ xs) zero p = refl
get_or-map f (x ∷ xs) (suc i) p = get_or-map f xs i (omega arith)

get_or-IsNodup :
    (xs : List ℕ) (i j : ℕ)
    → IsNodup xs
    → i < length xs
    → j < length xs
    → get_or xs i 0 ≡ get_or xs j 0
    → i ≡ j
get_or-IsNodup [] i j d p q e = absurd (omega arith)
get_or-IsNodup (x ∷ xs) zero zero d p q e = refl
get_or-IsNodup (x ∷ xs) zero (suc j) d p q e =
    let found = contains-of_get xs j (omega arith) in absurd (ground (arith, d.0))
get_or-IsNodup (x ∷ xs) (suc i) zero d p q e =
    let found = contains-of_get xs i (omega arith) in absurd (ground (arith, d.0))
get_or-IsNodup (x ∷ xs) (suc i) (suc j) d p q e =
    ap suc (get_or-IsNodup xs i j d.1 (omega arith) (omega arith) e)

-- Distinct connections stand at distinct places.
pub IsApart-of_nodup : (t : ConnHeap) → IsNodup (conns t) → IsApart t
IsApart-of_nodup t d i j p q e =
    let f = conn_of t.items in
    let size = length-map t.slice f in
    get_or-IsNodup (conns t) i j d (omega arith) (omega arith)
      (get_or-map f t.slice i p ∙ e ∙ sym (get_or-map f t.slice j q))

-- Init does not give a connection two places.
pub Rearranged-IsApart : (s t : ConnHeap) → Rearranged s t → IsIndexed t → IsApart s → IsApart t
Rearranged-IsApart s t r v d i j p q e =
    let (i', p', ei) = r.from i p in
    let (j', q', ej) = r.from j q in
    let old : (item s i').conn ≡ (item s j').conn =
      ap (conn_of s.items) ei
      ∙ sym (r.conns (at t i))
      ∙ e
      ∙ r.conns (at t j)
      ∙ sym (ap (conn_of s.items) ej) in
    let pointer : at t i ≡ at t j = sym ei ∙ ap (at s) (d i' j' p' q' old) ∙ ej in
    let place : pos i ≡ pos j =
      sym (v.placed i p) ∙ ap (λ x. (t.items x).index) pointer ∙ v.placed j q in
    ground arith
