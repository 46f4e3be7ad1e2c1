-- ===== src/Picker/PowerOfTwo.antt =====
-- picker/poweroftwo.go: the less loaded of two connections drawn at random. Items are shared by
-- pointer between a picker and its successor, so they stand in a store; the two draws of
-- math/rand/v2 are arguments.
use httplb.Prelude.{
  two_64, ℕ, zero, suc, ◌+◌, ◌-◌, ◌%◌, ◌≤◌, ◌<◌, ◌≡◌, refl, sym, ap, ap₂, ◌∙◌, ◌≢◌, ◌⊎◌, inl, inr,
  true, false, Option, none, some, List, [], ◌∷◌, map, arith, ltb, ◌==◌, if◌then◌else◌,
  Option-cases, length, get_elem?, get_or, All, update, contains,
}
use mathlib.Core.Bool.{false≢true}

-- powerOfTwoConnItem; `load` is the bit pattern of an int64
pub record Item : Type 0 where
  pub conn : ℕ
  pub load : ℕ

-- all items ever made, and the pointer of the next one
pub record Store : Type 0 where
  pub items : ℕ → Item
  pub next : ℕ

-- `itemMap[conn]` over the items of the previous picker: the last of a connection counts
pub find_item : (ℕ → Item) → List ℕ → ℕ → Option ℕ
find_item items [] cn = none
find_item items (p ∷ ps) cn = elim (find_item items ps cn) [
  | some q ↦ some q
  | none ↦ if (items p).conn == cn then some p else none
]

-- the loop of NewPowerOfTwo: the items of the new picker, one for each connection
pub new_conns : List ℕ → Store → List ℕ → Store × List ℕ
new_conns prev s [] = (s, [])
new_conns prev s (cn ∷ cns) = elim (find_item s.items prev cn) [
  | some p ↦ let (t, ps) = new_conns prev s cns in (t, p ∷ ps)
  | none ↦
      let fresh : Store = record {
        items = update s.items s.next (record { conn = cn; load = 0 });
        next = suc s.next;
      } in
      let (t, ps) = new_conns prev fresh cns in (t, s.next ∷ ps)
]

-- Pick: the item whose load is counted; `none` is the panic of a draw from no connections
unfoldable pub pick : Store → List ℕ → ℕ → ℕ → Option (ℕ × Store)
pick s conns n1 n2 = elim (get_elem? conns n1) [
  | none ↦ none
  | some entry1 ↦ elim (get_elem? conns n2) [
    | none ↦ none
    | some entry2 ↦
        let entry = if ltb (s.items entry1).load (s.items entry2).load then entry1 else entry2 in
        let e = s.items entry in
        let bumped = record e { load = (e.load + 1) % two_64 } in
        some (entry, record s { items = update s.items entry bumped })
  ]
]

-- whenDone
pub when_done : Store → ℕ → Store
when_done s entry =
    let e = s.items entry in
    record s { items = update s.items entry (record e { load = (e.load + two_64 - 1) % two_64 }) }

-- what Pick does with the items `p1` and `p2` that it draws
pub record Picked (s : Store) (p1 p2 entry : ℕ) (t : Store) : Type 0 where
  pub drawn : (entry ≡ p1) ⊎ (entry ≡ p2)
  pub least :
      ((s.items entry).load ≤ (s.items p1).load) × ((s.items entry).load ≤ (s.items p2).load)
  pub counted : (t.items entry).load ≡ ((s.items entry).load + 1) % two_64
  pub others : (x : ℕ) → x ≢ entry → t.items x ≡ s.items x

-- Pick chooses one of the two items drawn, no more loaded than the other, and counts the request on
-- it alone.
pub pick_correct :
    (s : Store) (conns : List ℕ) (n1 n2 p1 p2 : ℕ)
    → get_elem? conns n1 ≡ some p1
    → get_elem? conns n2 ≡ some p2
    → (entry : ℕ) × (t : Store) × (pick s conns n1 n2 ≡ some (entry, t)) × Picked s p1 p2 entry t
unfolding pick
pick_correct s conns n1 n2 p1 p2 e1 e2 =
    let entry = if ltb (s.items p1).load (s.items p2).load then p1 else p2 in
    let e = s.items entry in
    let bumped = record e { load = (e.load + 1) % two_64 } in
    let t : Store = record s { items = update s.items entry bumped } in
    (
      entry,
      t,
      rw (e1, pick) (rw (e2, pick)),
      record {
        drawn = ground arith;
        least = ground arith;
        counted = ground arith;
        others = λ x apart. ground arith;
      },
    )

-- When the request is done, every item is again as it was before Pick.
pub when_done-pick :
    (s t : Store) (conns : List ℕ) (n1 n2 entry x : ℕ)
    → pick s conns n1 n2 ≡ some (entry, t)
    → (s.items entry).load < two_64
    → (when_done t entry).items x ≡ s.items x
unfolding when_done pick
when_done-pick s t conns n1 n2 entry x e small = ground arith

-- the items of the previous picker and of the new one exist
abbrev pub Below : ℕ → List ℕ → Type 0
Below n = All (λ p. p < n)

abbrev pub conns_of : Store → List ℕ → List ℕ
conns_of s = map (λ p. (s.items p).conn)

-- What NewPowerOfTwo leaves: one item for each connection, in order; the item of a connection that the
-- previous picker had (`known`) is one of the first `n` and unchanged, any other has no load.
pub record Renewed (n : ℕ) (known : List ℕ) (s : Store) (cns : List ℕ) (t : Store) (ps : List ℕ)
    : Type 0 where
  pub conns : conns_of t ps ≡ cns
  pub old_items : (x : ℕ) → x < s.next → t.items x ≡ s.items x
  pub grown : s.next ≤ t.next
  pub below : Below t.next ps
  pub kept : (i : ℕ) → i < length cns → contains known (get_or cns i 0) ≡ true → get_or ps i 0 < n
  pub made :
      (i : ℕ)
      → i < length cns
      → contains known (get_or cns i 0) ≡ false
      → (t.items (get_or ps i 0)).load ≡ 0

find_item-some :
    (items : ℕ → Item) (n : ℕ) (ps : List ℕ) (cn p : ℕ)
    → Below n ps
    → find_item items ps cn ≡ some p
    → ((items p).conn ≡ cn) × (p < n) × (contains (map (λ q. (items q).conn) ps) cn ≡ true)
unfolding find_item
find_item-some items n [] cn p b e = absurd (ground arith)
find_item-some items n (q ∷ ps) cn p b e = elim (Option-cases (find_item items ps cn)) [
  | inr (r, f) ↦ let (x, y, z) = find_item-some items n ps cn r b.1 f in ground arith
  | inl f ↦ ground arith
]

find_item-none :
    (items : ℕ → Item) (ps : List ℕ) (cn : ℕ)
    → find_item items ps cn ≡ none
    → contains (map (λ q. (items q).conn) ps) cn ≡ false
unfolding find_item
find_item-none items [] cn e = refl
find_item-none items (q ∷ ps) cn e = elim (Option-cases (find_item items ps cn)) [
  | inr (r, f) ↦ absurd (ground arith)
  | inl f ↦ ground (arith, find_item-none items ps cn f)
]

conns_of-ext :
    (s t : Store) (n : ℕ) (ps : List ℕ)
    → Below n ps
    → ((x : ℕ) → x < n → t.items x ≡ s.items x)
    → conns_of t ps ≡ conns_of s ps
conns_of-ext s t n [] b e = refl
conns_of-ext s t n (p ∷ ps) b e =
    ap₂ ◌∷◌ (ap (λ (x : Item). x.conn) (e p b.0)) (conns_of-ext s t n ps b.1 e)

new_conns-Renewed :
    (n : ℕ) (known prev : List ℕ) (s : Store) (cns : List ℕ)
    → Below n prev
    → n ≤ s.next
    → conns_of s prev ≡ known
    → Renewed n known s cns (new_conns prev s cns).0 (new_conns prev s cns).1
unfolding new_conns
new_conns-Renewed n known prev s [] b le e = record {
  conns = refl;
  old_items = λ x q. refl;
  grown = omega arith;
  below = tt;
  kept = λ i q. absurd (omega arith);
  made = λ i q. absurd (omega arith);
}
new_conns-Renewed n known prev s (cn ∷ cns) b le e =
    elim (Option-cases (find_item s.items prev cn)) [
      | inr (p, f) ↦
          let (conn, old, found) = find_item-some s.items n prev cn p b f in
          let r = new_conns-Renewed n known prev s cns b le e in
          rw (f, new_conns)
            (record {
              conns =
                  ap₂ ◌∷◌ (ap (λ (x : Item). x.conn) (r.old_items p (omega arith)) ∙ conn) r.conns;
              old_items = r.old_items;
              grown = r.grown;
              below = (omega (arith, r.grown), r.below);
              kept = elim [ zero ↦ λ q h. old | suc i ↦ λ q h. r.kept i (omega arith) h ];
              made = elim [
                | zero ↦
                    λ q h. absurd (false≢true (sym h ∙ ap (λ k. contains k cn) (sym e) ∙ found))
                | suc i ↦ λ q h. r.made i (omega arith) h
              ];
            })
      | inl f ↦
          let fresh : Store = record {
            items = update s.items s.next (record { conn = cn; load = 0 });
            next = suc s.next;
          } in
          let missing = find_item-none s.items prev cn f in
          let same : conns_of fresh prev ≡ known =
            conns_of-ext s fresh n prev b (λ x q. ground arith) ∙ e in
          let r = new_conns-Renewed n known prev fresh cns b (omega arith) same in
          let now : (new_conns prev fresh cns).0.items s.next ≡ record { conn = cn; load = 0 } =
            r.old_items s.next (omega arith) ∙ ground arith in
          rw (f, new_conns)
            (record {
              conns = ap₂ ◌∷◌ (ap (λ (x : Item). x.conn) now) r.conns;
              old_items = λ x q. r.old_items x (omega arith) ∙ ground arith;
              grown = omega (arith, r.grown);
              below = (omega (arith, r.grown), r.below);
              kept = elim [
                | zero ↦ λ q h. absurd (false≢true (sym missing ∙ ap (λ k. contains k cn) e ∙ h))
                | suc i ↦ λ q h. r.kept i (omega arith) h
              ];
              made = elim [
                | zero ↦ λ q h. ap (λ (x : Item). x.load) now
                | suc i ↦ λ q h. r.made i (omega arith) h
              ];
            })
    ]

-- NewPowerOfTwo gives the new picker one item for each connection, in order. A connection that the
-- previous picker had keeps an item of it, with its load; any other starts with no load; and no item
-- of the previous picker changes.
pub new_conns_correct :
    (prev : List ℕ) (s : Store) (all_conns : List ℕ)
    → Below s.next prev
    → Renewed s.next
        (conns_of s prev)
        s
        all_conns
        (new_conns prev s all_conns).0
        (new_conns prev s all_conns).1
new_conns_correct prev s all_conns b =
    new_conns-Renewed s.next (conns_of s prev) prev s all_conns b (omega arith) refl
