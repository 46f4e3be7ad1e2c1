-- ===== src/Picker/LeastLoaded/Pick.antt =====
-- picker/leastloaded.go: which item `acquire` takes, and what `acquire` and `release` leave.
use httplb.Prelude.{
  two_64, ℕ, ◌+◌, ◌-◌, ◌%◌, ◌≤◌, ◌<◌, ◌≡◌, ◌≢◌, ◌⊎◌, inl, inr, refl, sym, subst, ◌∙◌, arith, ◌==◌,
  length, Option, some, none, Bool-cases, ==→eq, ==→ne,
}
use httplb.Prelude.Int.{negsuc}
use httplb.Heap.{parent, fix}
use httplb.Heap.Order.{root_least}
use httplb.Picker.LeastLoaded.{Item, ConnHeap, at, item, len, ops, fix_at, acquire, release}
use httplb.Picker.LeastLoaded.Laws.{laws}
use httplb.Picker.LeastLoaded.Rearranged.{Rearranged}
use httplb.Picker.LeastLoaded.Use.{IsSound, replaced, fix-IsSound}

-- `Add(1)` and `Add(-1)` on a uint64
abbrev pub incremented : ℕ → ℕ
incremented n = (n + 1) % two_64

abbrev pub decremented : ℕ → ℕ
decremented n = (n + two_64 - 1) % two_64

-- The item `entry` has no more load than any item of the slice, and among those of the same load no
-- greater tie break.
pub record IsLeast (h : ConnHeap) (entry : ℕ) : Type 0 where
  pub least : (i : ℕ) → i < length h.slice → (h.items entry).load ≤ (item h i).load
  pub earliest :
      (i : ℕ)
      → i < length h.slice
      → (item h i).load ≡ (h.items entry).load
      → (h.items entry).tie_break ≤ (item h i).tie_break

-- `t` holds the same items as `h`, and all loads but that of `entry` are the same.
pub record OnlyLoadOf (entry : ℕ) (h t : ConnHeap) : Type 0 where
  pub size : length t.slice ≡ length h.slice
  pub onto : (i : ℕ) → i < length h.slice → (j : ℕ) × (j < length t.slice) × (at t j ≡ at h i)
  pub conns : (x : ℕ) → (t.items x).conn ≡ (h.items x).conn
  pub others : (x : ℕ) → x ≢ entry → (t.items x).load ≡ (h.items x).load

root-IsLeast : (h : ConnHeap) → IsSound h → IsLeast h (at h 0)
unfolding len
root-IsLeast h v = record {
  least = λ i p. omega (
    arith,
    root_least ops laws h i v.ordered p,
    v.indexed.ties (at h 0),
    v.indexed.ties (at h i),
  );
  earliest = λ i p e. ground (arith, root_least ops laws h i v.ordered p);
}

acquire_root :
    (h : ConnHeap) (tie : ℕ)
    → IsSound h
    → 0 < length h.slice
    → acquire h tie
      ≡ some (
        at h 0,
        fix ops
            (replaced h
              (at h 0)
              (record (item h 0) { load = incremented (item h 0).load; tie_break = tie }))
            0,
      )
unfolding acquire fix_at
acquire_root h tie v p = ground (arith, v.indexed.placed 0 p)

-- what `acquire` gives on a sound, nonempty heap: the item `entry` and the heap `t`
pub record Acquired (h : ConnHeap) (tie entry : ℕ) (t : ConnHeap) : Type 0 where
  pub least : IsLeast h entry
  pub among : (i : ℕ) × (i < length h.slice) × (at h i ≡ entry)
  pub sound : IsSound t
  pub counted : (t.items entry).load ≡ incremented (h.items entry).load
  pub stamped : (t.items entry).tie_break ≡ tie
  pub only : OnlyLoadOf entry h t

Rearranged-OnlyLoadOf :
    (h : ConnHeap) (entry : ℕ) (x : Item) (t : ConnHeap)
    → x.conn ≡ (h.items entry).conn
    → Rearranged (replaced h entry x) t
    → OnlyLoadOf entry h t
Rearranged-OnlyLoadOf h entry x t e r = record {
  size = r.size;
  onto = r.onto;
  conns = λ y. ground (arith, r.conns y);
  others = λ y apart. ground (arith, r.loads y);
}

-- On a sound heap that is not empty, `acquire` returns an item of least load, among the items of
-- that load one of least tie break; it counts the request on that item alone, stamps it with the
-- given tie break, and leaves a sound heap of the same items.
pub acquire_least :
    (h : ConnHeap) (tie : ℕ)
    → IsSound h
    → tie < two_64
    → 0 < length h.slice
    → (entry : ℕ) × (t : ConnHeap) × (acquire h tie ≡ some (entry, t)) × Acquired h tie entry t
acquire_least h tie v small p =
    let entry = at h 0 in
    let x : Item = record (item h 0) { load = incremented (item h 0).load; tie_break = tie } in
    let (sound, r) = fix-IsSound h 0 x v p (v.indexed.placed 0 p) small in
    (
      entry,
      fix ops (replaced h entry x) 0,
      acquire_root h tie v p,
      record {
        least = root-IsLeast h v;
        among = (0, p, refl);
        sound = sound;
        counted = ground (arith, r.loads entry);
        stamped = ground (arith, r.tie_breaks entry);
        only = Rearranged-OnlyLoadOf h entry x _ refl r;
      },
    )

-- On an empty heap `acquire` panics.
pub acquire-empty : (h : ConnHeap) (tie : ℕ) → length h.slice ≡ 0 → acquire h tie ≡ none
unfolding acquire
acquire-empty h tie e = ground arith

-- an item that some call has acquired: it stands in the slice, or has been evicted
abbrev pub IsHeld : ConnHeap → ℕ → Type 0
IsHeld h entry =
    ((i : ℕ) × (i < length h.slice) × (at h i ≡ entry)) ⊎ ((h.items entry).index ≡ negsuc 0)

-- what `release` leaves
pub record Released (h : ConnHeap) (entry : ℕ) (t : ConnHeap) : Type 0 where
  pub sound : IsSound t
  pub counted : (t.items entry).load ≡ decremented (h.items entry).load
  pub only : OnlyLoadOf entry h t

lowered : ConnHeap → ℕ → Item
lowered h entry = record (h.items entry) { load = decremented (h.items entry).load }

release-fix :
    (h : ConnHeap) (i : ℕ)
    → IsSound h
    → i < length h.slice
    → release h (at h i) ≡ fix ops (replaced h (at h i) (lowered h (at h i))) i
unfolding release fix_at lowered
release-fix h i v p = ground (arith, v.indexed.placed i p)

release_listed :
    (h : ConnHeap) (i : ℕ)
    → IsSound h
    → i < length h.slice
    → Released h (at h i) (release h (at h i))
unfolding lowered
release_listed h i v p =
    let x = lowered h (at h i) in
    let (sound, r) = fix-IsSound h i x v p (v.indexed.placed i p) (v.indexed.ties (at h i)) in
    rw (release-fix h i v p) (record {
      sound = sound;
      counted = ground (arith, r.loads (at h i));
      only = Rearranged-OnlyLoadOf h (at h i) x _ refl r;
    })

release_evicted :
    (h : ConnHeap) (entry : ℕ)
    → IsSound h
    → (h.items entry).index ≡ negsuc 0
    → Released h entry (release h entry)
unfolding release len lowered
release_evicted h entry v e =
    let t = replaced h entry (lowered h entry) in
    let unfixed : release h entry ≡ t = ground arith in
    let away : (i : ℕ) → i < length h.slice → item t i ≡ item h i =
      λ i p. ground (arith, v.indexed.placed i p) in
    rw unfixed (record {
      sound = record {
        indexed = record {
          placed = λ i p. ground (arith, v.indexed.placed i p, away i p);
          ties = λ x. ground (arith, v.indexed.ties x);
        };
        ordered = λ c p q. ground (arith, v.ordered c, away c q, away (parent c) (omega arith));
      };
      counted = ground arith;
      only = record {
        size = refl;
        onto = λ i p. (i, p, refl);
        conns = λ x. ground arith;
        others = λ x apart. ground arith;
      };
    })

pub release_correct :
    (h : ConnHeap) (entry : ℕ) → IsSound h → IsHeld h entry → Released h entry (release h entry)
release_correct h entry v (inl (i, p, e)) =
    subst (λ x. Released h x (release h x)) e (release_listed h i v p)
release_correct h entry v (inr e) = release_evicted h entry v e

abbrev IfAcquired : ConnHeap → ℕ → Option (ℕ × ConnHeap) → Type 0
IfAcquired h tie none = Unit
IfAcquired h tie (some (entry, t)) = Acquired h tie entry t

acquire-Acquired :
    (h t : ConnHeap) (tie entry : ℕ)
    → IsSound h
    → tie < two_64
    → 0 < length h.slice
    → acquire h tie ≡ some (entry, t)
    → Acquired h tie entry t
acquire-Acquired h t tie entry v small p e =
    let (entry', t', e', a) = acquire_least h tie v small p in
    subst (IfAcquired h tie) (sym e' ∙ e) a

-- A request that is acquired and then released leaves the load of every item as it was.
pub release-acquire :
    (h t : ConnHeap) (tie entry : ℕ)
    → IsSound h
    → tie < two_64
    → 0 < length h.slice
    → acquire h tie ≡ some (entry, t)
    → (h.items entry).load < two_64
    → (x : ℕ) → ((release t entry).items x).load ≡ (h.items x).load
release-acquire h t tie entry v small p e fits x =
    let a = acquire-Acquired h t tie entry v small p e in
    let (i, q, at_i) = a.among in
    let (j, r, at_j) = a.only.onto i q in
    let done = release_correct t entry a.sound (inl (j, r, at_j ∙ at_i)) in
    elim (Bool-cases (x == entry)) [
      | inl here ↦
          let same_item = ==→eq x entry here in
          rw same_item (ground (arith, done.counted, a.counted))
      | inr there ↦
          let apart = ==→ne x entry there in done.only.others x apart ∙ a.only.others x apart
    ]
