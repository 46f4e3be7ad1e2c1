-- ===== src/Attribute.antt =====
-- attribute/attribute.go: values under typed keys. A type is known by a number, and so is the address of
-- a key; a value of an interface type may be nil, which is `none`.
mod Tests
use httplb.Prelude.{
  ℕ, zero, suc, ◌+◌, ◌-◌, ◌*◌, ◌/◌, ◌%◌, ◌^◌, ◌≤◌, ◌<◌, ◌≡◌, refl, sym, ap, ap₂, ◌∙◌, subst, ◌≢◌,
  ◌↔◌, ◌⊎◌, inl, inr, Bool, true, false, not, ◌&&◌, ◌||◌, Option, none, some, List, [], ◌∷◌, ◌++◌,
  map, append-nil, append_assoc, map-append, arith, le_trans, le_refl, add_comm, add_assoc,
  mul_comm, dec_lt, dec_le, ℕ_discrete, ltb, leb, ◌==◌, if◌then◌else◌, ltb→lt, lt→ltb, ltb→le,
  le→ltb, ==→eq, ==-refl, ==→ne, ==_iff, Bool-cases, if_cases, Option-cases, tests, length,
  get_elem?, get_or, set, take, drop, keep, All, length-append, length-set, two_63, two_64, two_32,
  get_or-set, take-append-drop, length-take, length-drop, length-map, length-keep-le, All-append,
  All-map, get_elem?-set_self, get_elem?-set_ne, update, contains, IsNodup, contains-append,
  SameSet, contains-map-of_get, get_of_contains-map, get_of_contains, contains-of_get, Bool-ext,
}

-- Key[T], from NewKey: its type and its address
pub record Key : Type 0 where
  pub value_type : ℕ
  pub address : ℕ

-- Value, with what `any` holds: the dynamic type and the value; nil has no type
pub record Value : Type 0 where
  pub key : Key
  pub held : Option (ℕ × ℕ)

-- Key.Value
unfoldable pub value_of : Key → Option ℕ → Value
value_of k v = record { key = k; held = elim v [ none ↦ none | some x ↦ some (k.value_type, x) ] }

abbrev pub same_key : Key → Key → Bool
same_key a b = a.value_type == b.value_type && a.address == b.address

pub same_key_iff : (a b : Key) → (same_key a b ≡ true) ↔ (a ≡ b)
same_key_iff a b = ground arith

-- Values: a map from keys to what they hold
abbrev pub Values : Type 0
Values = Key → Option (Option (ℕ × ℕ))

abbrev empty_values : Values
empty_values k = none

-- the loop of NewValues
unfoldable pub put_values : Values → List Value → Values
put_values m [] = m
put_values m (attr ∷ values) =
    put_values (λ k. if same_key attr.key k then some attr.held else m k) values

unfoldable pub new_values : List Value → Values
new_values values = put_values empty_values values

-- GetValue; the zero value is given
unfoldable pub get_value : ℕ → Values → Key → ℕ × Bool
get_value zero_value values key = elim (values key) [
  | none ↦ (zero_value, false)
  | some held ↦ elim held [
    | none ↦ (zero_value, false)
    | some (dynamic_type, x) ↦
        if dynamic_type == key.value_type then (x, true) else (zero_value, false)
  ]
]

-- the last value that is given for a key
abbrev pub last_for : Key → List (Key × Option ℕ) → Option (Option ℕ)
last_for k [] = none
last_for k ((j, v) ∷ pairs) = elim (last_for k pairs) [
  | none ↦ if same_key j k then some v else none
  | some w ↦ some w
]

abbrev held_of : Key → Option (Option ℕ) → Option (Option (ℕ × ℕ)) → Option (Option (ℕ × ℕ))
held_of k none d = d
held_of k (some v) d = some (Value.held (value_of k v))

one_put :
    (j k : Key) (v : Option ℕ) (later : Option (Option ℕ)) (d : Option (Option (ℕ × ℕ)))
    → held_of k later (if same_key j k then some (Value.held (value_of j v)) else d)
      ≡ held_of k (elim later [ none ↦ if same_key j k then some v else none | some w ↦ some w ]) d
one_put j k v (some w) d = refl
one_put j k v none d = elim (Bool-cases (same_key j k)) [
  | inl e ↦
      ap (λ b. if b then some (Value.held (value_of j v)) else d) e
      ∙ ap (λ (x : Key). some (Value.held (value_of x v))) ((same_key_iff j k).0 e)
      ∙ sym (ap (λ (b : Bool). held_of k (if b then some v else none) d) e)
  | inr e ↦
      ap (λ b. if b then some (Value.held (value_of j v)) else d) e
      ∙ sym (ap (λ (b : Bool). held_of k (if b then some v else none) d) e)
]

put_values_lem :
    (pairs : List (Key × Option ℕ)) (m : Values) (k : Key)
    → put_values m (map (λ p. value_of (p.0) (p.1)) pairs) k ≡ held_of k (last_for k pairs) (m k)
unfolding put_values value_of
put_values_lem [] m k = refl
put_values_lem ((j, v) ∷ pairs) m k =
    put_values_lem pairs (λ k. if same_key j k then some (Value.held (value_of j v)) else m k) k
    ∙ one_put j k v (last_for k pairs) (m k)

read_back :
    (k : Key) (zero_value : ℕ) (o : Option (Option ℕ))
    → ◌≡◌ {A = ℕ × Bool}
        (elim (held_of k o none) [
          | none ↦ (zero_value, false)
          | some held ↦ elim held [
            | none ↦ (zero_value, false)
            | some (dynamic_type, x) ↦
                if dynamic_type == k.value_type then (x, true) else (zero_value, false)
          ]
        ])
        (elim o [
          | none ↦ (zero_value, false)
          | some v ↦ elim v [ none ↦ (zero_value, false) | some x ↦ (x, true) ]
        ])
unfolding value_of
read_back k z none = refl
read_back k z (some none) = refl
read_back k z (some (some x)) = ap (λ b. if b then (x, true) else (z, false)) (==-refl k.value_type)

-- If all values are made with Key.Value, the last value that is given for a key is what GetValue finds, whatever other keys hold; but a nil value of an interface type is reported as missing.
pub get_value_correct :
    (pairs : List (Key × Option ℕ)) (k : Key) (zero_value : ℕ)
    → get_value zero_value (new_values (map (λ p. value_of (p.0) (p.1)) pairs)) k
      ≡ (elim (last_for k pairs) [
        | none ↦ (zero_value, false)
        | some v ↦ elim v [ none ↦ (zero_value, false) | some x ↦ (x, true) ]
      ])
unfolding get_value new_values value_of
get_value_correct pairs k zero_value =
    ap
      (λ (o : Option (Option (ℕ × ℕ))).
        let r : ℕ × Bool = elim o [
          | none ↦ (zero_value, false)
          | some held ↦ elim held [
            | none ↦ (zero_value, false)
            | some (dynamic_type, x) ↦
                if dynamic_type == k.value_type then (x, true) else (zero_value, false)
          ]
        ] in
        r)
      (put_values_lem pairs empty_values k)
    ∙ read_back k zero_value (last_for k pairs)
