-- ===== src/Murmur.antt =====
-- internal/murmur3.go: the hash MurmurHash3 of 32 bits, fed in pieces.
-- A uint32 is a number below 2 ^ 32. `len` is an int that only its low 32 bits are read of, so it is
-- left unbounded; a byte is a number below 256.
pub mod Stream
pub mod Pieces
mod Tests
use Prim.Native.Nat.{bit_or, bit_xor}
use httplb.Prelude.{
  ℕ, zero, suc, ◌+◌, ◌-◌, ◌*◌, ◌/◌, ◌%◌, ◌^◌, ◌≤◌, ◌<◌, ◌≡◌, refl, List, [], ◌∷◌, ◌++◌, length, ltb,
  ◌==◌, if◌then◌else◌, two_32,
}

pub record MurmurHash3 : Type 0 where
  pub rem : ℕ
  pub len : ℕ
  pub k1 : ℕ
  pub h1 : ℕ

abbrev u32 : ℕ → ℕ
u32 n = n % two_32

-- NewMurmurHash3
unfoldable pub new_murmur_hash3 : ℕ → MurmurHash3
new_murmur_hash3 seed = record { rem = 0; len = 0; k1 = 0; h1 = seed }

-- bits.RotateLeft32
unfoldable pub rotate_left32 : ℕ → ℕ → ℕ
rotate_left32 x k = bit_or (u32 (x * 2 ^ k)) (x / 2 ^ (32 - k))

-- round
unfoldable pub round : ℕ → ℕ → ℕ
round h1 k1 =
    let k1 = u32 (k1 * 0xCC9E2D51) in
    let k1 = rotate_left32 k1 15 in
    let k1 = u32 (k1 * 0x1B873593) in
    let h1 = bit_xor h1 k1 in let h1 = rotate_left32 h1 13 in u32 (h1 * 4 + h1 + 0xE6546B64)

-- `uint32(byte) << (i << 3)`
abbrev pub shifted : ℕ → ℕ → ℕ
shifted byte i = u32 (byte * 2 ^ (8 * i))

-- a loop that ors bytes into `k1` from position `i` on: the position and `k1` at its end, and what
-- is left of the data
unfoldable pub fill : ℕ → ℕ → List ℕ → ℕ × ℕ × List ℕ
fill i k1 [] = (i, k1, [])
fill i k1 (byte ∷ bytes) =
    let rest = fill (i + 1) (bit_or k1 (shifted byte i)) bytes in
    if ltb i 4 then rest else (i, k1, byte ∷ bytes)

-- the loop over whole blocks of four bytes, and what is left
unfoldable pub body : ℕ → List ℕ → ℕ × List ℕ
body h1 (b0 ∷ b1 ∷ b2 ∷ b3 ∷ bytes) =
    let k1 = bit_or (bit_or (bit_or (shifted b3 3) (shifted b2 2)) (shifted b1 1)) b0 in
    body (round h1 k1) bytes
body h1 bytes = (h1, bytes)

-- the part of Write after the first block is filled
unfoldable pub write_blocks : MurmurHash3 → ℕ → List ℕ → MurmurHash3
write_blocks h h1 bytes =
    let (h1, bytes) = body h1 bytes in
    let (i, k1, rest) = fill 0 0 bytes in record h { rem = length bytes; k1 = k1; h1 = h1 }

-- Write
unfoldable pub write : MurmurHash3 → List ℕ → MurmurHash3
write h bytes =
    let h' = record h { len = h.len + length bytes } in
    let (i, k1, rest) = fill h.rem h.k1 bytes in
    if h.rem == 0
    then write_blocks h' h.h1 bytes
    else if ltb i 4
    then record h' { rem = i; k1 = k1 }
    else write_blocks (record h' { rem = i; k1 = k1 }) (round h.h1 k1) rest

-- Sum32
unfoldable pub sum32 : MurmurHash3 → ℕ
sum32 h =
    let k1 = u32 (h.k1 * 0xCC9E2D51) in
    let k1 = rotate_left32 k1 15 in
    let k1 = u32 (k1 * 0x1B873593) in
    let h1 = bit_xor h.h1 k1 in
    let h1 = bit_xor h1 (u32 h.len) in
    let h1 = bit_xor h1 (h1 / 2 ^ 16) in
    let h1 = u32 (h1 * 0x85EBCA6B) in
    let h1 = bit_xor h1 (h1 / 2 ^ 13) in let h1 = u32 (h1 * 0xC2B2AE35) in bit_xor h1 (h1 / 2 ^ 16)

-- MurmurHash3Sum
unfoldable pub murmur_hash3_sum : List ℕ → ℕ → ℕ
murmur_hash3_sum bytes seed = sum32 (write (new_murmur_hash3 seed) bytes)

-- Reset: the seed is not kept
unfoldable pub reset : MurmurHash3 → MurmurHash3
reset h = new_murmur_hash3 0

-- Sum: little-endian, after the given bytes
unfoldable pub sum : MurmurHash3 → List ℕ → List ℕ
sum h b =
    let s = sum32 h in b ++ s % 256 ∷ s / 2 ^ 8 % 256 ∷ s / 2 ^ 16 % 256 ∷ s / 2 ^ 24 % 256 ∷ []
