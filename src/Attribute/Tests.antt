-- ===== src/Attribute/Tests.antt =====
-- Values for two keys.
use httplb.Prelude.{ℕ, ◌≡◌, refl, true, false, Option, none, some, List, [], ◌∷◌, map}
use httplb.Attribute.{Key, value_of, new_values, put_values, get_value, get_value_correct}

abbrev region : Key
region = record { value_type = 1; address = 10 }

abbrev cause : Key
cause = record { value_type = 2; address = 11 }

abbrev pairs : List (Key × Option ℕ)
pairs = (region, some 5) ∷ (cause, none) ∷ (region, some 6) ∷ []

last_wins : get_value 0 (new_values (map (λ p. value_of (p.0) (p.1)) pairs)) region ≡ (6, true)
unfolding get_value new_values put_values value_of
last_wins = refl

get_value_correct_example :
    get_value 0 (new_values (map (λ p. value_of (p.0) (p.1)) pairs)) cause ≡ (0, false)
get_value_correct_example = get_value_correct pairs cause 0
