-- ===== src/Murmur/Pieces.antt =====
-- internal/murmur3.go: writing in pieces is writing at once.
use Prim.Native.Nat.{bit_or}
use httplb.Prelude.{
  ℕ, ◌+◌, ◌<◌, ◌≡◌, refl, sym, ap, ap₂, ◌∙◌, subst, inl, inr, Bool, true, false, List, [], ◌∷◌,
  ◌++◌, arith, ltb, ◌==◌, if◌then◌else◌, lt→ltb, ==→eq, Bool-cases, length, All, length-append,
  All-append,
}
use httplb.Murmur.{
  MurmurHash3, new_murmur_hash3, round, shifted, fill, body, write_blocks, write, sum32,
  murmur_hash3_sum,
}
use httplb.Murmur.Stream.{
  Core, feed, feed_byte, feed-append, at_start, finish, fill-feed, fill_short, body-feed, IsByte,
}

abbrev pub core : MurmurHash3 → Core
core h = record { rem = h.rem; k1 = h.k1; h1 = h.h1 }

abbrev of_core : ℕ → Core → MurmurHash3
of_core len c = record { rem = c.rem; len = len; k1 = c.k1; h1 = c.h1 }

-- a block that is not full, and no byte of it when it is empty
pub record IsValid (h : MurmurHash3) : Type 0 where
  pub open_block : h.rem < 4
  pub empty_block : h.rem ≡ 0 → h.k1 ≡ 0

abbrev byte_cases : Core → ℕ → Bool → Core
byte_cases c byte closed =
    let k1 = bit_or c.k1 (shifted byte c.rem) in
    if closed
    then record { rem = 0; k1 = 0; h1 = round c.h1 k1 }
    else record { rem = c.rem + 1; k1 = k1; h1 = c.h1 }

feed_byte-IsValid : (len byte : ℕ) (c : Core) → c.rem < 4 → IsValid (of_core len (feed_byte c byte))
feed_byte-IsValid len byte c p =
    elim (c.rem == 3)
        as (λ t. (t ≡ false → c.rem + 1 < 4) → IsValid (of_core len (byte_cases c byte t))) [
          | true ↦ λ f. record { open_block = omega arith; empty_block = λ e. refl }
          | false ↦ λ f. record { open_block = f refl; empty_block = λ e. absurd (omega arith) }
        ]
      (λ e. ground (arith, e))

fill-All : (bytes : List ℕ) (i k1 : ℕ) → All IsByte bytes → All IsByte (fill i k1 bytes).2
unfolding fill
fill-All [] i k1 a = tt
fill-All (byte ∷ bytes) i k1 a =
    let rest = fill (i + 1) (bit_or k1 (shifted byte i)) bytes in
    elim (ltb i 4) as (λ t. All IsByte (if t then rest else (i, k1, byte ∷ bytes)).2) [
      | true ↦ fill-All bytes (i + 1) (bit_or k1 (shifted byte i)) a.1
      | false ↦ a
    ]

filled_is :
    (h1 : ℕ) (f : ℕ × ℕ × List ℕ)
    → ltb f.0 4 ≡ true
    → finish h1 f ≡ record { rem = f.0; k1 = f.1; h1 = h1 }
filled_is h1 (i, k1, rest) e =
    ap (λ t. if t then record { rem = i; k1 = k1; h1 = h1 } else feed (at_start (round h1 k1)) rest)
      e

full_is :
    (h1 : ℕ) (f : ℕ × ℕ × List ℕ)
    → ltb f.0 4 ≡ false
    → finish h1 f ≡ feed (at_start (round h1 f.1)) f.2
full_is h1 (i, k1, rest) e =
    ap (λ t. if t then record { rem = i; k1 = k1; h1 = h1 } else feed (at_start (round h1 k1)) rest)
      e

write_blocks_is :
    (h : MurmurHash3) (h1 : ℕ) (bytes : List ℕ)
    → All IsByte bytes
    → write_blocks h h1 bytes ≡ of_core h.len (feed (at_start h1) bytes)
unfolding write_blocks
write_blocks_is h h1 bytes a =
    let b : ℕ × List ℕ = body h1 bytes in
    let (short, same) = body-feed bytes h1 a in
    let f : ℕ × ℕ × List ℕ = fill 0 0 b.1 in
    let size : f.0 ≡ length b.1 = fill_short b.1 0 0 (omega (arith, short)) ∙ omega arith in
    let filled : finish b.0 f ≡ feed (at_start b.0) b.1 = fill-feed b.1 0 0 b.0 (omega arith) in
    let fits : ltb f.0 4 ≡ true = lt→ltb f.0 4 (omega (arith, size, short)) in
    ap (λ r. of_core h.len (record { rem = r; k1 = f.1; h1 = b.0 })) (sym size)
    ∙ ap (of_core h.len) (sym (filled_is b.0 f fits) ∙ filled ∙ sym same)

-- Write against the reference, from a valid state
write_is :
    (h : MurmurHash3) (bytes : List ℕ)
    → IsValid h
    → All IsByte bytes
    → write h bytes ≡ of_core (h.len + length bytes) (feed (core h) bytes)
unfolding write
write_is h bytes v a =
    let f : ℕ × ℕ × List ℕ = fill h.rem h.k1 bytes in
    let filled : finish h.h1 f ≡ feed (core h) bytes =
      fill-feed bytes h.rem h.k1 h.h1 v.open_block in
    let len = h.len + length bytes in
    let h' = record h { len = len } in
    let later : MurmurHash3 =
      if ltb f.0 4
      then record h' { rem = f.0; k1 = f.1 }
      else write_blocks (record h' { rem = f.0; k1 = f.1 }) (round h.h1 f.1) f.2 in
    elim (Bool-cases (h.rem == 0)) [
      | inl e ↦
          ap (λ t. if t then write_blocks h' h.h1 bytes else later) e
          ∙ write_blocks_is h' h.h1 bytes a
          ∙ ap₂ (λ r k. of_core len (feed (record { rem = r; k1 = k; h1 = h.h1 }) bytes))
              (sym (==→eq h.rem 0 e)) (sym (v.empty_block (==→eq h.rem 0 e)))
      | inr e ↦
          ap (λ t. if t then write_blocks h' h.h1 bytes else later) e
          ∙ elim (Bool-cases (ltb f.0 4)) [
            | inl q ↦
                ap
                  (λ t.
                    if t
                    then record h' { rem = f.0; k1 = f.1 }
                    else write_blocks (record h' { rem = f.0; k1 = f.1 }) (round h.h1 f.1) f.2)
                  q
                ∙ ap (of_core len) (sym (filled_is h.h1 f q) ∙ filled)
            | inr q ↦
                ap
                  (λ t.
                    if t
                    then record h' { rem = f.0; k1 = f.1 }
                    else write_blocks (record h' { rem = f.0; k1 = f.1 }) (round h.h1 f.1) f.2)
                  q
                ∙ write_blocks_is (record h' { rem = f.0; k1 = f.1 }) (round h.h1 f.1) f.2
                    (fill-All bytes h.rem h.k1 a)
                ∙ ap (of_core len) (sym (full_is h.h1 f q) ∙ filled)
          ]
    ]

feed-IsValid :
    (bytes : List ℕ) (len : ℕ) (c : Core)
    → IsValid (of_core len c)
    → IsValid (of_core len (feed c bytes))
feed-IsValid [] len c v = v
feed-IsValid (byte ∷ bytes) len c v =
    feed-IsValid bytes len (feed_byte c byte) (feed_byte-IsValid len byte c v.open_block)

of_core-IsValid : (len len' : ℕ) (c : Core) → IsValid (of_core len c) → IsValid (of_core len' c)
of_core-IsValid len len' c v = record { open_block = v.open_block; empty_block = v.empty_block }

write-IsValid :
    (h : MurmurHash3) (bytes : List ℕ) → IsValid h → All IsByte bytes → IsValid (write h bytes)
write-IsValid h bytes v a =
    subst IsValid (sym (write_is h bytes v a))
      (feed-IsValid bytes _ (core h) (of_core-IsValid h.len _ (core h) v))

-- several calls of Write, and their bytes in a row
abbrev pub writes : MurmurHash3 → List (List ℕ) → MurmurHash3
writes h [] = h
writes h (piece ∷ pieces) = writes (write h piece) pieces

abbrev pub concat : List (List ℕ) → List ℕ
concat [] = []
concat (piece ∷ pieces) = piece ++ concat pieces

write-append :
    (h : MurmurHash3) (xs ys : List ℕ)
    → IsValid h
    → All IsByte xs
    → All IsByte ys
    → write (write h xs) ys ≡ write h (xs ++ ys)
write-append h xs ys v ax ay =
    write_is (write h xs) ys (write-IsValid h xs v ax) ay
    ∙ ap (λ t. of_core (t.len + length ys) (feed (core t) ys)) (write_is h xs v ax)
    ∙ ap₂ of_core (omega (arith, length-append xs ys)) (sym (feed-append (core h) xs ys))
    ∙ sym (write_is h (xs ++ ys) v (All-append IsByte xs ys ax ay))

pieces-All : (pieces : List (List ℕ)) → All (All IsByte) pieces → All IsByte (concat pieces)
pieces-All [] a = tt
pieces-All (p ∷ ps) a = All-append IsByte p (concat ps) a.0 (pieces-All ps a.1)

write-nil : (h : MurmurHash3) → IsValid h → write h [] ≡ h
write-nil h v = write_is h [] v tt ∙ ap (λ n. of_core n (core h)) (omega arith)

writes_is :
    (h : MurmurHash3) (pieces : List (List ℕ))
    → IsValid h
    → All (All IsByte) pieces
    → writes h pieces ≡ write h (concat pieces)
writes_is h [] v a = sym (write-nil h v)
writes_is h (p ∷ ps) v a =
    writes_is (write h p) ps (write-IsValid h p v a.0) a.1
    ∙ write-append h p (concat ps) v a.0 (pieces-All ps a.1)

-- However bytes are cut into pieces, empty ones among them, and written one after another to a new hash, the sum is that of all the bytes at once.
pub pieces_sum :
    (seed : ℕ) (pieces : List (List ℕ))
    → All (All IsByte) pieces
    → sum32 (writes (new_murmur_hash3 seed) pieces) ≡ murmur_hash3_sum (concat pieces) seed
unfolding new_murmur_hash3 murmur_hash3_sum
pieces_sum seed pieces a = ap sum32 (
    writes_is (new_murmur_hash3 seed) pieces
      (record { open_block = omega arith; empty_block = λ e. refl }) a)

-- Write does what a hash does that takes the bytes one at a time, each to its place in a block of four, and folds in every block once it is full; and it counts the bytes.
pub write_refines :
    (h : MurmurHash3) (bytes : List ℕ)
    → IsValid h
    → All IsByte bytes
    → (core (write h bytes) ≡ feed (core h) bytes)
      × ((write h bytes).len ≡ h.len + length bytes)
      × IsValid (write h bytes)
write_refines h bytes v a = (
  ap core (write_is h bytes v a),
  ap (λ t. t.len) (write_is h bytes v a),
  write-IsValid h bytes v a,
)
