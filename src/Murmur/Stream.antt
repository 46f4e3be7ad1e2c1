-- ===== src/Murmur/Stream.antt =====
-- internal/murmur3.go: Write in pieces, against a hash that takes one byte at a time.
use Prim.Native.Nat.{bit_or}
use httplb.Prelude.{
  ℕ, ◌+◌, ◌<◌, ◌≡◌, refl, sym, ap, ap₂, ◌∙◌, inl, inr, Bool, List, [], ◌∷◌, ◌++◌, arith, ltb, ◌==◌,
  if◌then◌else◌, lt→ltb, ==→eq, Bool-cases, length, All,
}
use httplb.Prelude.Bits.{shl, zero-bit_or, bit_or-shl, shl-bit_or}
use httplb.Murmur.{round, shifted, fill, body}

-- the state without the number of bytes
pub record Core : Type 0 where
  pub rem : ℕ
  pub k1 : ℕ
  pub h1 : ℕ

-- The reference: a byte goes to its place in the block, and the fourth one closes the block.
abbrev pub feed_byte : Core → ℕ → Core
feed_byte c byte =
    let k1 = bit_or c.k1 (shifted byte c.rem) in
    if c.rem == 3
    then record { rem = 0; k1 = 0; h1 = round c.h1 k1 }
    else record { rem = c.rem + 1; k1 = k1; h1 = c.h1 }

abbrev pub feed : Core → List ℕ → Core
feed c [] = c
feed c (byte ∷ bytes) = feed (feed_byte c byte) bytes

pub feed-append : (c : Core) (xs ys : List ℕ) → feed c (xs ++ ys) ≡ feed (feed c xs) ys
feed-append c [] ys = refl
feed-append c (x ∷ xs) ys = feed-append (feed_byte c x) xs ys

abbrev pub at_start : ℕ → Core
at_start h1 = record { rem = 0; k1 = 0; h1 = h1 }

-- what a filled block means
abbrev pub finish : ℕ → ℕ × ℕ × List ℕ → Core
finish h1 (i, k1, rest) =
    if ltb i 4 then record { rem = i; k1 = k1; h1 = h1 } else feed (at_start (round h1 k1)) rest

fill_four : (k1 : ℕ) (bytes : List ℕ) → fill 4 k1 bytes ≡ (4, k1, bytes)
unfolding fill
fill_four k1 [] = refl
fill_four k1 (x ∷ xs) = refl

pub fill_next :
    (i k1 byte : ℕ) (bytes : List ℕ)
    → i < 4
    → fill i k1 (byte ∷ bytes) ≡ fill (i + 1) (bit_or k1 (shifted byte i)) bytes
unfolding fill
fill_next i k1 byte bytes p =
    ap (λ t. if t then fill (i + 1) (bit_or k1 (shifted byte i)) bytes else (i, k1, byte ∷ bytes))
      (lt→ltb i 4 p)

pub fill_nil : (i k1 : ℕ) → fill i k1 [] ≡ (i, k1, [])
unfolding fill
fill_nil i k1 = refl

abbrev feed_cases : ℕ → ℕ → ℕ → Bool → Core
feed_cases i k1 h1 closed =
    if closed then at_start (round h1 k1) else record { rem = i + 1; k1 = k1; h1 = h1 }

pub fill-feed :
    (bytes : List ℕ) (i k1 h1 : ℕ)
    → i < 4
    → finish h1 (fill i k1 bytes) ≡ feed (record { rem = i; k1 = k1; h1 = h1 }) bytes
fill-feed [] i k1 h1 p =
    ap (finish h1) (fill_nil i k1)
    ∙ ap (λ t. if t then record { rem = i; k1 = k1; h1 = h1 } else feed (at_start (round h1 k1)) [])
        (lt→ltb i 4 p)
fill-feed (byte ∷ bytes) i k1 h1 p =
    let k1' = bit_or k1 (shifted byte i) in
    ap (finish h1) (fill_next i k1 byte bytes p) ∙ elim (Bool-cases (i == 3)) [
      | inl e ↦
          ap (λ j. finish h1 (fill j k1' bytes)) (ap (λ t. t + 1) (==→eq i 3 e))
          ∙ ap (finish h1) (fill_four k1' bytes)
          ∙ ap (λ t. feed t bytes) (sym (ap (feed_cases i k1' h1) e))
      | inr e ↦
          fill-feed bytes (i + 1) k1' h1 (ground (arith, e))
          ∙ ap (λ t. feed t bytes) (sym (ap (feed_cases i k1' h1) e))
    ]

pub fill_short :
    (bytes : List ℕ) (i k1 : ℕ) → i + length bytes < 4 → (fill i k1 bytes).0 ≡ i + length bytes
fill_short [] i k1 p = ap (λ t. t.0) (fill_nil i k1) ∙ omega arith
fill_short (byte ∷ bytes) i k1 p =
    ap (λ t. t.0) (fill_next i k1 byte bytes (omega arith))
    ∙ fill_short bytes (i + 1) _ (omega arith)
    ∙ omega arith

abbrev pub IsByte : ℕ → Type 0
IsByte b = b < 256

shifted_one : (b : ℕ) → IsByte b → shifted b 1 ≡ shl 8 b
shifted_one b p = omega arith

shifted_two : (b : ℕ) → IsByte b → shifted b 2 ≡ shl 16 b
shifted_two b p = omega arith

shifted_three : (b : ℕ) → IsByte b → shifted b 3 ≡ shl 24 b
shifted_three b p = omega arith

-- the four bytes of a block as a number
abbrev block : ℕ → ℕ → ℕ → ℕ → ℕ
block b0 b1 b2 b3 = ((b0 + shl 8 b1) + shl 16 b2) + shl 24 b3

module _ (b0 b1 b2 b3 : ℕ) (p0 : IsByte b0) (p1 : IsByte b1) (p2 : IsByte b2) (p3 : IsByte b3) where
  upwards :
      bit_or
        (bit_or (bit_or (bit_or 0 (shifted b0 0)) (shifted b1 1)) (shifted b2 2))
        (shifted b3 3)
      ≡ block b0 b1 b2 b3
  upwards =
      ap₂ bit_or
        (ap₂ bit_or
            (ap₂ bit_or (zero-bit_or (shifted b0 0) ∙ omega arith) (shifted_one b1 p1)
              ∙ bit_or-shl 8 b0 b1 (omega arith))
            (shifted_two b2 p2)
          ∙ bit_or-shl 16 (b0 + shl 8 b1) b2 (omega arith))
        (shifted_three b3 p3)
      ∙ bit_or-shl 24 ((b0 + shl 8 b1) + shl 16 b2) b3 (omega arith)

  downwards :
      bit_or (bit_or (bit_or (shifted b3 3) (shifted b2 2)) (shifted b1 1)) b0 ≡ block b0 b1 b2 b3
  downwards =
      ap (λ t. bit_or t b0)
        (ap₂ bit_or
            (ap₂ bit_or (shifted_three b3 p3) (shifted_two b2 p2)
              ∙ shl-bit_or 24 (shl 16 b2) b3 (omega arith)
              ∙ omega arith)
            (shifted_one b1 p1)
          ∙ shl-bit_or 16 (shl 8 b1) (b2 + shl 8 b3) (omega arith)
          ∙ omega arith)
      ∙ shl-bit_or 8 b0 ((b1 + shl 8 b2) + shl 16 b3) (omega arith)
      ∙ omega arith

-- whole blocks, and fewer than four bytes after them
pub body-feed :
    (bytes : List ℕ) (h1 : ℕ)
    → All IsByte bytes
    → (length (body h1 bytes).1 < 4)
      × (feed (at_start h1) bytes ≡ feed (at_start (body h1 bytes).0) (body h1 bytes).1)
unfolding body
body-feed [] h1 a = (omega arith, refl)
body-feed (b0 ∷ []) h1 a = (omega arith, refl)
body-feed (b0 ∷ b1 ∷ []) h1 a = (omega arith, refl)
body-feed (b0 ∷ b1 ∷ b2 ∷ []) h1 a = (omega arith, refl)
body-feed (b0 ∷ b1 ∷ b2 ∷ b3 ∷ bytes) h1 (p0, (p1, (p2, (p3, a)))) =
    let k1 = bit_or (bit_or (bit_or (shifted b3 3) (shifted b2 2)) (shifted b1 1)) b0 in
    let (short, same) = body-feed bytes (round h1 k1) a in
    (
      short,
      ap (λ k. feed (at_start (round h1 k)) bytes)
            (upwards b0 b1 b2 b3 p0 p1 p2 p3 ∙ sym (downwards b0 b1 b2 b3 p0 p1 p2 p3))
          ∙ same,
    )
