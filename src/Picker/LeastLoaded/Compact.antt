-- ===== src/Picker/LeastLoaded/Compact.antt =====
-- picker/leastloaded.go: the loop of `update` that keeps the items of known connections and marks
-- the others as evicted.
use httplb.Prelude.{
  ℕ, zero, suc, ◌+◌, ◌<◌, ◌≡◌, refl, ap, ◌∙◌, inl, inr, false, not, ◌&&◌, ◌||◌, List, [], ◌∷◌, map,
  arith, ◌==◌, if◌then◌else◌, Bool-cases, length, get_or, All, contains, get_of_contains,
  contains-of_get,
}
use httplb.Prelude.Int.{ℤ, pos, negsuc}
use httplb.Picker.LeastLoaded.{Item, put_index, delete, compact}

abbrev pub conn_of : (ℕ → Item) → ℕ → ℕ
conn_of items p = (items p).conn

-- the two items differ at most in their indices
pub record SameBut (x y : Item) : Type 0 where
  pub conn : x.conn ≡ y.conn
  pub load : x.load ≡ y.load
  pub tie_break : x.tie_break ≡ y.tie_break

pub contains-delete :
    (cn : ℕ) (m : List ℕ) (a : ℕ) → contains (delete cn m) a ≡ (not (cn == a) && contains m a)
unfolding delete
contains-delete cn [] a = ground arith
contains-delete cn (k ∷ m) a = ground (arith, contains-delete cn m a)

-- Only indices change.
pub compact-SameBut :
    (items : ℕ → Item) (m ps : List ℕ) (i j q : ℕ)
    → SameBut ((compact items m ps i j).items q) (items q)
unfolding compact
compact-SameBut items m [] i j q = record { conn = refl; load = refl; tie_break = refl }
compact-SameBut items m (p ∷ ps) i j q =
    let cn = (items p).conn in
    let moved = if i == j then items else put_index items p (pos j) in
    let stay = compact-SameBut moved (delete cn m) ps (i + 1) (j + 1) q in
    let leave = compact-SameBut (put_index items p (negsuc 0)) m ps (i + 1) j q in ground arith

-- The connections of the kept items, with what is left of the map, are those of the map at the start.
pub compact-conns :
    (f : ℕ → ℕ) (items : ℕ → Item) (m ps : List ℕ) (i j a : ℕ)
    → ((q : ℕ) → f q ≡ (items q).conn)
    → (contains (map f (compact items m ps i j).kept) a
        || contains (compact items m ps i j).new_map a)
      ≡ contains m a
unfolding compact
compact-conns f items m [] i j a e = refl
compact-conns f items m (p ∷ ps) i j a e =
    let cn = (items p).conn in
    let moved = if i == j then items else put_index items p (pos j) in
    let stay =
      compact-conns f moved (delete cn m) ps (i + 1) (j + 1) a (λ q. ground (arith, e q)) in
    let leave =
      compact-conns f (put_index items p (negsuc 0)) m ps (i + 1) j a (λ q. ground (arith, e q)) in
    elim (Bool-cases (contains m cn)) [
      | inl kept ↦ rw kept (ground (arith, stay, e p, contains-delete cn m a, kept))
      | inr left ↦ rw left leave
    ]

-- Every kept item was in the slice.
pub compact-All {ℓ} :
    (P : ℕ → Type ℓ) (items : ℕ → Item) (m ps : List ℕ) (i j : ℕ)
    → All P ps
    → All P (compact items m ps i j).kept
unfolding compact
compact-All P items m [] i j h = tt
compact-All P items m (p ∷ ps) i j h =
    let cn = (items p).conn in
    let moved = if i == j then items else put_index items p (pos j) in
    let stay = compact-All P moved (delete cn m) ps (i + 1) (j + 1) h.1 in
    let leave = compact-All P (put_index items p (negsuc 0)) m ps (i + 1) j h.1 in
    elim (Bool-cases (contains m cn)) [ inl kept ↦ rw kept (h.0, stay) | inr left ↦ rw left leave ]

-- the loop leaves alone what is not in the slice
compact-else :
    (items : ℕ → Item) (m ps : List ℕ) (i j q : ℕ)
    → contains ps q ≡ false
    → (compact items m ps i j).items q ≡ items q
unfolding compact
compact-else items m [] i j q h = refl
compact-else items m (p ∷ ps) i j q h =
    let cn = (items p).conn in
    let moved = if i == j then items else put_index items p (pos j) in
    let rest : contains ps q ≡ false = ground arith in
    let apart : (p == q) ≡ false = ground arith in
    let stay = compact-else moved (delete cn m) ps (i + 1) (j + 1) q rest in
    let leave = compact-else (put_index items p (negsuc 0)) m ps (i + 1) j q rest in
    elim (Bool-cases (contains m cn)) [
      | inl kept ↦ rw kept (stay ∙ ground arith)
      | inr left ↦ rw left (leave ∙ ground arith)
    ]

-- the items from position `i` on know their places
abbrev pub PlacedFrom : (ℕ → Item) → ℕ → List ℕ → Type 0
PlacedFrom items i ps = (c : ℕ) → c < length ps → (items (get_or ps c 0)).index ≡ pos (i + c)

PlacedFrom-absent :
    (items : ℕ → Item) (p i : ℕ) (ps : List ℕ) → PlacedFrom items i (p ∷ ps) → contains ps p ≡ false
PlacedFrom-absent items p i ps h = elim (Bool-cases (contains ps p)) [
  | inr e ↦ e
  | inl e ↦
      let (c, q, r) = get_of_contains ps p e in
      let first = h 0 (omega arith) in let later = h (suc c) (omega arith) in absurd (ground arith)
]

PlacedFrom-put :
    (items : ℕ → Item) (p i : ℕ) (ps : List ℕ) (z : ℤ)
    → PlacedFrom items i (p ∷ ps)
    → PlacedFrom (put_index items p z) (i + 1) ps
PlacedFrom-put items p i ps z h c q =
    let absent = PlacedFrom-absent items p i ps h in
    let inside = contains-of_get ps c q in let here = h (suc c) (omega arith) in ground arith

PlacedFrom-tail :
    (items : ℕ → Item) (p i : ℕ) (ps : List ℕ)
    → PlacedFrom items i (p ∷ ps)
    → PlacedFrom items (i + 1) ps
PlacedFrom-tail items p i ps h c q = h (suc c) (omega arith) ∙ ap pos (omega arith)

PlacedFrom-moved :
    (items : ℕ → Item) (p i j : ℕ) (ps : List ℕ)
    → PlacedFrom items i (p ∷ ps)
    → PlacedFrom (if i == j then items else put_index items p (pos j)) (i + 1) ps
PlacedFrom-moved items p i j ps h = elim (Bool-cases (i == j)) [
  | inl e ↦ rw e (PlacedFrom-tail items p i ps h)
  | inr e ↦ rw e (PlacedFrom-put items p i ps (pos j) h)
]

-- The kept items know their new places, from `j` on.
pub compact-PlacedFrom :
    (items : ℕ → Item) (m ps : List ℕ) (i j : ℕ)
    → PlacedFrom items i ps
    → PlacedFrom (compact items m ps i j).items j (compact items m ps i j).kept
unfolding compact
compact-PlacedFrom items m [] i j h = λ c q. absurd (omega arith)
compact-PlacedFrom items m (p ∷ ps) i j h =
    let cn = (items p).conn in
    let moved = if i == j then items else put_index items p (pos j) in
    let absent = PlacedFrom-absent items p i ps h in
    let stay =
      compact-PlacedFrom moved (delete cn m) ps (i + 1) (j + 1)
        (PlacedFrom-moved items p i j ps h) in
    let leave =
      compact-PlacedFrom (put_index items p (negsuc 0)) m ps (i + 1) j
        (PlacedFrom-put items p i ps (negsuc 0) h) in
    let first : (moved p).index ≡ pos j = ground (arith, h 0) in
    let kept_first = compact-else moved (delete cn m) ps (i + 1) (j + 1) p absent in
    elim (Bool-cases (contains m cn)) [
      | inl kept ↦ rw kept (elim [
        | zero ↦ λ q. ap (λ (x : Item). x.index) kept_first ∙ first ∙ ap pos (omega arith)
        | suc c ↦ λ q. stay c (omega arith) ∙ ap pos (omega arith)
      ])
      | inr left ↦ rw left leave
    ]

-- An item whose connection is not in the map is marked as evicted.
pub compact-evicted :
    (items : ℕ → Item) (m ps : List ℕ) (i j c : ℕ)
    → PlacedFrom items i ps
    → c < length ps
    → contains m (items (get_or ps c 0)).conn ≡ false
    → ((compact items m ps i j).items (get_or ps c 0)).index ≡ negsuc 0
unfolding compact
compact-evicted items m [] i j c h q out = absurd (omega arith)
compact-evicted items m (p ∷ ps) i j zero h q out = rw out (
    ap (λ (x : Item). x.index)
      (compact-else (put_index items p (negsuc 0)) m ps (i + 1) j p
        (PlacedFrom-absent items p i ps h))
    ∙ ground arith)
compact-evicted items m (p ∷ ps) i j (suc c) h q out =
    let cn = (items p).conn in
    let x = get_or ps c 0 in
    let moved = if i == j then items else put_index items p (pos j) in
    let conn_moved : (moved x).conn ≡ (items x).conn = ground arith in
    let conn_put : (put_index items p (negsuc 0) x).conn ≡ (items x).conn = ground arith in
    let stay =
      compact-evicted moved (delete cn m) ps (i + 1) (j + 1) c (PlacedFrom-moved items p i j ps h)
        (omega arith) (rw (conn_moved, contains-delete cn m (items x).conn, out) (ground arith)) in
    let leave =
      compact-evicted (put_index items p (negsuc 0)) m ps (i + 1) j c
        (PlacedFrom-put items p i ps (negsuc 0) h) (omega arith) (rw conn_put out) in
    elim (Bool-cases (contains m cn)) [ inl kept ↦ rw kept stay | inr left ↦ rw left leave ]
