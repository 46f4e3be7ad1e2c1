-- ===== src/Murmur/Tests.antt =====
-- Runs of the hash on small inputs.
use httplb.Prelude.{◌+◌, ◌≡◌, refl, [], ◌∷◌, arith}
use httplb.Murmur.{
  murmur_hash3_sum, write, write_blocks, body, fill, round, rotate_left32, sum32, new_murmur_hash3,
}
use httplb.Murmur.Stream.{feed}
use httplb.Murmur.Pieces.{IsValid, core, writes, concat, pieces_sum, write_refines}

-- the published hash of "hello" with seed 0
hello : murmur_hash3_sum (104 ∷ 101 ∷ 108 ∷ 108 ∷ 111 ∷ []) 0 ≡ 0x248bfa47
unfolding murmur_hash3_sum write write_blocks body fill round rotate_left32 sum32 new_murmur_hash3
hello = refl

new-IsValid : IsValid (new_murmur_hash3 7)
unfolding new_murmur_hash3
new-IsValid = record { open_block = omega arith; empty_block = λ e. refl }

pieces_sum_example :
    sum32 (writes (new_murmur_hash3 7) ((1 ∷ 2 ∷ 3 ∷ []) ∷ [] ∷ (4 ∷ 5 ∷ []) ∷ []))
    ≡ murmur_hash3_sum (concat ((1 ∷ 2 ∷ 3 ∷ []) ∷ [] ∷ (4 ∷ 5 ∷ []) ∷ [])) 7
pieces_sum_example = pieces_sum 7 ((1 ∷ 2 ∷ 3 ∷ []) ∷ [] ∷ (4 ∷ 5 ∷ []) ∷ []) (ground arith)

write_refines_example :
    (core (write (new_murmur_hash3 7) (1 ∷ 2 ∷ [])) ≡ feed (core (new_murmur_hash3 7)) (1 ∷ 2 ∷ []))
    × ((write (new_murmur_hash3 7) (1 ∷ 2 ∷ [])).len ≡ (new_murmur_hash3 7).len + 2)
    × IsValid (write (new_murmur_hash3 7) (1 ∷ 2 ∷ []))
write_refines_example =
    write_refines (new_murmur_hash3 7) (1 ∷ 2 ∷ []) new-IsValid (omega arith, (omega arith, tt))
