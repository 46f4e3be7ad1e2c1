-- ===== src/Prelude/Words.antt =====
-- 64-bit and 32-bit words: a value is its bit pattern, a number below the modulus.
use Prim.Native.Nat.{ℕ}

abbrev pub two_63 : ℕ
two_63 = 0x8000_0000_0000_0000

abbrev pub two_64 : ℕ
two_64 = 0x1_0000_0000_0000_0000

abbrev pub two_32 : ℕ
two_32 = 0x1_0000_0000
