-- ===== src/Heap.antt =====
-- The package `container/heap` of Go, which picker/leastloaded.go and resolver/rendezvous.go call on
-- their slices: its interface and the functions Init and Fix, over any state.
pub mod Order
pub mod Up
pub mod Down
pub mod Restore
use httplb.Prelude.{
  ℕ, zero, suc, ◌+◌, ◌-◌, ◌*◌, ◌/◌, ◌<◌, ◌≡◌, Bool, true, false, not, ltb, ◌==◌, if◌then◌else◌,
}

-- `heap.Interface` without Push and Pop
pub record HeapInterface (S : Type 0) : Type 0 where
  pub len : S → ℕ
  pub less : S → ℕ → ℕ → Bool
  pub swap : S → ℕ → ℕ → S

abbrev pub parent : ℕ → ℕ
parent c = (c - 1) / 2

-- What an implementation promises, on its valid states: `less` compares the keys that stand at two
-- places, and `swap` exchanges them.
pub record HeapLaws {S : Type 0} (h : HeapInterface S) : Type 1 where
  pub IsValid : S → Type 0
  pub key : S → ℕ → ℕ
  pub less_key :
      (s : S) (i j : ℕ)
      → IsValid s
      → i < h.len s
      → j < h.len s
      → h.less s i j ≡ ltb (key s i) (key s j)
  pub swap-IsValid :
      (s : S) (i j : ℕ) → IsValid s → i < h.len s → j < h.len s → IsValid (h.swap s i j)
  pub len-swap :
      (s : S) (i j : ℕ) → IsValid s → i < h.len s → j < h.len s → h.len (h.swap s i j) ≡ h.len s
  pub key-swap :
      (s : S) (i j c : ℕ)
      → IsValid s
      → i < h.len s
      → j < h.len s
      → key (h.swap s i j) c ≡ (if i == c then key s j else if j == c then key s i else key s c)

module _ {S : Type 0} (h : HeapInterface S) where
  open h use {len, less, swap}

  -- `t` is `s` after some swaps
  pub data Swapped (s : S) : S → Type 0 where
    same : Swapped s s
    swapped :
        {t : S} → Swapped s t → (i j : ℕ) → i < h.len t → j < h.len t → Swapped s (h.swap t i j)

  -- up(h, j): each round halves `j`
  pub up_loop : ℕ → S → ℕ → S
  up_loop zero s j = s
  up_loop (suc k) s j =
      let rise = up_loop k (swap s (parent j) j) (parent j) in
      if parent j == j then s else if less s j (parent j) then rise else s

  unfoldable pub up : S → ℕ → S
  unfolding up_loop
  up s j = up_loop (suc j) s j

  -- the child of `i` that `down` compares with it
  pub smaller_child : S → ℕ → ℕ → ℕ
  smaller_child s i n =
      let j1 = 2 * i + 1 in
      let j2 = j1 + 1 in
      let right = less s j2 j1 in if ltb j2 n then (if right then j2 else j1) else j1

  -- the loop of down(h, i0, n), which returns the state and the last `i`
  pub down_loop : ℕ → S → ℕ → ℕ → S × ℕ
  down_loop zero s i n = (s, i)
  down_loop (suc k) s i n =
      let j = smaller_child s i n in
      let sink = down_loop k (swap s i j) j n in
      if ltb (2 * i + 1) n then (if less s j i then sink else (s, i)) else (s, i)

  unfoldable pub down : S → ℕ → ℕ → S × Bool
  unfolding down_loop smaller_child
  down s i0 n = let (t, i) = down_loop (suc n) s i0 n in (t, ltb i0 i)

  -- the loop of Init, from `i - 1` down to 0
  pub init_loop : ℕ → S → ℕ → S
  init_loop zero s n = s
  init_loop (suc i) s n = init_loop i (down s i n).0 n

  -- Init
  unfoldable pub init : S → S
  unfolding init_loop down
  init s = init_loop (len s / 2) s (len s)

  -- Fix
  unfoldable pub fix : S → ℕ → S
  unfolding down up
  fix s i = let (t, moved) = down s i (len s) in if moved then t else up t i
