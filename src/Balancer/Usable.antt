-- ===== src/Balancer/Usable.antt =====
-- balancer.go, computeUsableConnsLocked: which connections are used.
use httplb.Prelude.{
  ℕ, zero, suc, ◌+◌, ◌≤◌, ◌<◌, ◌≡◌, refl, ap, ◌∙◌, inl, inr, ◌||◌, List, [], ◌∷◌, ◌++◌, arith, leb,
  Bool-cases, length, keep, length-append, contains, contains-append,
}
use httplb.Prelude.Int.{pos, negsuc, eq_ℤ}
use httplb.Health.State.{State, healthy, unknown, degraded}
use httplb.Balancer.{Balancer, info_of, in_state, min_conns, usable_conns}

-- 0 for healthy, 1 for unknown, 2 for degraded, and 3 for what is never used
abbrev pub badness : State → ℕ
badness (pos zero) = 1
badness (pos (suc zero)) = 2
badness (pos (suc (suc n))) = 3
badness (negsuc zero) = 0
badness (negsuc (suc n)) = 3

-- the connections that are no worse than `level`
abbrev pub no_worse : {P : Type 0} → Balancer P → ℕ → List ℕ
no_worse b level = keep (λ c. leb (badness (info_of b c).state) level) b.conns

-- What the connections in use have to do with their states, at the `level` that was reached.
pub record UsesLevel {P : Type 0} (b : Balancer P) (usable : List ℕ) (level : ℕ) : Type 0 where
  pub named : level ≤ 2
  pub members : (c : ℕ) → contains usable c ≡ contains (no_worse b level) c
  pub size : length usable ≡ length (no_worse b level)
  pub needed : (l : ℕ) → l < level → length (no_worse b l) < min_conns (length b.conns)
  pub enough : level < 2 → min_conns (length b.conns) ≤ length usable

module _ (f : ℕ → State) where
  abbrev exactly : State → List ℕ → List ℕ
  exactly s = keep (λ c. eq_ℤ (f c) s)

  abbrev up_to : ℕ → List ℕ → List ℕ
  up_to l = keep (λ c. leb (badness (f c)) l)

  contains-first : (xs : List ℕ) (a : ℕ) → contains (exactly healthy xs) a ≡ contains (up_to 0 xs) a
  contains-first [] a = refl
  contains-first (x ∷ xs) a = ground (arith, contains-first xs a)

  contains-second :
      (xs : List ℕ) (a : ℕ)
      → (contains (exactly healthy xs) a || contains (exactly unknown xs) a)
        ≡ contains (up_to 1 xs) a
  contains-second [] a = refl
  contains-second (x ∷ xs) a = ground (arith, contains-second xs a)

  contains-third :
      (xs : List ℕ) (a : ℕ)
      → ((contains (exactly healthy xs) a || contains (exactly unknown xs) a)
          || contains (exactly degraded xs) a)
        ≡ contains (up_to 2 xs) a
  contains-third [] a = refl
  contains-third (x ∷ xs) a = ground (arith, contains-third xs a)

  length-first : (xs : List ℕ) → length (exactly healthy xs) ≡ length (up_to 0 xs)
  length-first [] = refl
  length-first (x ∷ xs) = ground (arith, length-first xs)

  length-second :
      (xs : List ℕ)
      → length (exactly healthy xs) + length (exactly unknown xs) ≡ length (up_to 1 xs)
  length-second [] = omega arith
  length-second (x ∷ xs) = ground (arith, length-second xs)

  length-third :
      (xs : List ℕ)
      → length (exactly healthy xs) + length (exactly unknown xs) + length (exactly degraded xs)
        ≡ length (up_to 2 xs)
  length-third [] = omega arith
  length-third (x ∷ xs) = ground (arith, length-third xs)

-- what the loop has after each of its steps, against the connections of a level
abbrev LevelOf : {P : Type 0} → (b : Balancer P) → List ℕ → ℕ → Type 0
LevelOf b xs l =
    ((c : ℕ) → contains xs c ≡ contains (no_worse b l) c) × (length xs ≡ length (no_worse b l))

first_level : {P : Type 0} (b : Balancer P) → LevelOf b (in_state b healthy) 0
unfolding in_state
first_level b = (
  contains-first (λ c. (info_of b c).state) b.conns,
  length-first (λ c. (info_of b c).state) b.conns,
)

second_level :
    {P : Type 0} (b : Balancer P) → LevelOf b (in_state b healthy ++ in_state b unknown) 1
unfolding in_state
second_level b = (
  λ c.
      contains-append (in_state b healthy) _ c
      ∙ contains-second (λ c. (info_of b c).state) b.conns c,
  length-append (in_state b healthy) _ ∙ length-second (λ c. (info_of b c).state) b.conns,
)

third_level :
    {P : Type 0} (b : Balancer P)
    → LevelOf b ((in_state b healthy ++ in_state b unknown) ++ in_state b degraded) 2
unfolding in_state
third_level b = (
  λ c.
      contains-append (in_state b healthy ++ in_state b unknown) _ c
      ∙ ap (λ t. t || contains (in_state b degraded) c) (contains-append (in_state b healthy) _ c)
      ∙ contains-third (λ c. (info_of b c).state) b.conns c,
  length-append (in_state b healthy ++ in_state b unknown) _
      ∙ ap (λ t. t + length (in_state b degraded)) (length-append (in_state b healthy) _)
      ∙ length-third (λ c. (info_of b c).state) b.conns,
)

below_one : (size : ℕ → ℕ) (e : ℕ) → size 0 < e → (l : ℕ) → l < 1 → size l < e
below_one size e h zero p = h
below_one size e h (suc l) p = absurd (omega arith)

below_two : (size : ℕ → ℕ) (e : ℕ) → size 0 < e → size 1 < e → (l : ℕ) → l < 2 → size l < e
below_two size e h h' zero p = h
below_two size e h h' (suc zero) p = h'
below_two size e h h' (suc (suc l)) p = absurd (omega arith)

-- The connections that `usable_conns` gives are, with nothing added or lost, those whose state is no worse than some level (healthy, unknown or degraded); no better level has as many connections as are wanted; and unless the level is degraded, the level that is used has them.
pub usable_correct :
    {P : Type 0} (b : Balancer P) → (level : ℕ) × UsesLevel b (usable_conns b) level
unfolding usable_conns
usable_correct b =
    let enough = min_conns (length b.conns) in
    let (m0, s0) = first_level b in
    let (m1, s1) = second_level b in
    let (m2, s2) = third_level b in
    elim (Bool-cases (leb enough (length (in_state b healthy)))) [
      | inl e ↦ (
        0,
        record {
          named = omega arith;
          members = ground (arith, m0);
          size = ground (arith, s0);
          needed = λ l h. absurd (omega arith);
          enough = ground arith;
        },
      )
      | inr e ↦ elim (Bool-cases (leb enough (length (in_state b healthy ++ in_state b unknown)))) [
        | inl e' ↦ (
          1,
          record {
            named = omega arith;
            members = ground (arith, m1);
            size = ground (arith, s1);
            needed = below_one (λ l. length (no_worse b l)) _ (ground (arith, s0));
            enough = ground arith;
          },
        )
        | inr e' ↦ (
          2,
          record {
            named = omega arith;
            members = ground (arith, m2);
            size = ground (arith, s2);
            needed =
                below_two (λ l. length (no_worse b l)) _ (ground (arith, s0)) (ground (arith, s1));
            enough = λ h. absurd (omega arith);
          },
        )
      ]
    ]
