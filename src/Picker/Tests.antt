-- ===== src/Picker/Tests.antt =====
-- picker/roundrobin.go and picker/poweroftwo.go: the theorems at small inputs.
use httplb.Prelude.{ℕ, ◌≡◌, refl, [], ◌∷◌, some, arith, if◌then◌else◌, ◌==◌}
use httplb.Picker.RoundRobin.{RoundRobin, picks, picks_in_order}
use httplb.Picker.PowerOfTwo
use httplb.Picker.PowerOfTwo.{
  Store, Picked, pick_correct, when_done, when_done-pick, new_conns, conns_of, Renewed,
  new_conns_correct,
}

abbrev two : RoundRobin
two = record { conns = 10 ∷ 20 ∷ []; counter = 3 }

picks_in_order_example : picks 2 two ≡ some 10 ∷ some 20 ∷ []
picks_in_order_example = picks_in_order 2 two refl (omega arith)

-- the item of connection 10 has one request in flight, that of 20 none
abbrev store : Store
store = record {
  items = λ p. if p == 0 then record { conn = 10; load = 1 } else record { conn = 20; load = 0 };
  next = 2;
}

pick_correct_example :
    (entry : ℕ) × (t : Store) × (PowerOfTwo.pick store (0 ∷ 1 ∷ []) 0 1 ≡ some (entry, t))
    × Picked store 0 1 entry t
pick_correct_example = pick_correct store (0 ∷ 1 ∷ []) 0 1 0 1 refl refl
