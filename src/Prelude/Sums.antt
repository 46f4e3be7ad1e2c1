-- ===== src/Prelude/Sums.antt =====
-- Sums of a weight over a list, and how they change when one entry is replaced.
use httplb.Prelude.{
  ℕ, zero, suc, ◌+◌, ◌≤◌, ◌≡◌, refl, List, [], ◌∷◌, some, arith, length, get_elem?, set, All,
}

module _ {ℓ} {A : Type ℓ} where
  unfoldable pub sum_by : (A → ℕ) → List A → ℕ
  sum_by w [] = 0
  sum_by w (x ∷ xs) = w x + sum_by w xs

  pub sum_by-set :
      (w : A → ℕ) (xs : List A) (i : ℕ) (x y : A)
      → get_elem? xs i ≡ some x
      → sum_by w (set xs i y) + w x ≡ sum_by w xs + w y
  unfolding sum_by
  sum_by-set w [] i x y h = ground arith
  sum_by-set w (z ∷ xs) zero x y h = ground arith
  sum_by-set w (z ∷ xs) (suc i) x y h = omega (arith, sum_by-set w xs i x y h)

  pub sum_by_mono :
      (v w : A → ℕ) → ((a : A) → v a ≤ w a) → (xs : List A) → sum_by v xs ≤ sum_by w xs
  unfolding sum_by
  sum_by_mono v w h [] = omega arith
  sum_by_mono v w h (x ∷ xs) = omega (arith, h x, sum_by_mono v w h xs)

  pub sum_by-le-length : (w : A → ℕ) → ((a : A) → w a ≤ 1) → (xs : List A) → sum_by w xs ≤ length xs
  unfolding sum_by
  sum_by-le-length w h [] = omega arith
  sum_by-le-length w h (x ∷ xs) = omega (arith, h x, sum_by-le-length w h xs)

  pub le-sum_by :
      (w : A → ℕ) (xs : List A) (i : ℕ) (x : A) → get_elem? xs i ≡ some x → w x ≤ sum_by w xs
  unfolding sum_by
  le-sum_by w [] i x h = ground arith
  le-sum_by w (z ∷ xs) zero x h = ground arith
  le-sum_by w (z ∷ xs) (suc i) x h = omega (arith, le-sum_by w xs i x h)

  pub sum_by-zero : (w : A → ℕ) (xs : List A) → All (λ x. w x ≡ 0) xs → sum_by w xs ≡ 0
  unfolding sum_by
  sum_by-zero w [] h = refl
  sum_by-zero w (x ∷ xs) h = omega (arith, h.0, sum_by-zero w xs h.1)
