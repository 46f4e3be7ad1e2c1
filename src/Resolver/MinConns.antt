-- ===== src/Resolver/MinConns.antt =====
-- resolver/min_conns.go: a set of addresses is repeated until there are enough.
use httplb.Prelude.{
  ℕ, zero, suc, ◌+◌, ◌*◌, ◌/◌, ◌≤◌, ◌<◌, ◌≡◌, refl, sym, ap, ◌∙◌, subst, ◌⊎◌, inl, inr, true, false,
  ◌||◌, List, [], ◌++◌, append-nil, append_assoc, arith, mul_comm, ltb, leb, ◌==◌, if◌then◌else◌,
  ltb→lt, Bool-cases, length, length-append,
}
use native.Mathlib.Nat.{div-mul-le_self, lt-div-mul-add, add-mul}

-- the loop that appends the addresses `multiplier` times
unfoldable pub scale {ℓ} : {A : Type ℓ} → ℕ → List A → List A → List A
scale zero addresses scaled_addrs = scaled_addrs
scale (suc n) addresses scaled_addrs = scale n addresses (scaled_addrs ++ addresses)

-- the quotient, rounded up
unfoldable pub multiplier : ℕ → ℕ → ℕ
multiplier min len = let m = min / len in if ltb (len * m) min then m + 1 else m

-- minConnsReceiver.OnResolve: what the receiver behind it is given
unfoldable pub on_resolve_min {ℓ} : {A : Type ℓ} → ℕ → List A → List A
on_resolve_min min addresses =
    if leb min (length addresses) || length addresses == 0
    then addresses
    else scale (multiplier min (length addresses)) addresses []

-- `k` copies, one after another
abbrev pub copies {ℓ} : {A : Type ℓ} → ℕ → List A → List A
copies zero xs = []
copies (suc k) xs = xs ++ copies k xs

scale-copies {ℓ} : {A : Type ℓ} (k : ℕ) (xs acc : List A) → scale k xs acc ≡ acc ++ copies k xs
unfolding scale
scale-copies zero xs acc = sym (append-nil acc)
scale-copies (suc k) xs acc = scale-copies k xs (acc ++ xs) ∙ append_assoc acc xs (copies k xs)

length-copies {ℓ} : {A : Type ℓ} (k : ℕ) (xs : List A) → length (copies k xs) ≡ k * length xs
length-copies zero xs = omega arith
length-copies (suc k) xs =
    length-append xs (copies k xs) ∙ ap (λ n. length xs + n) (length-copies k xs) ∙ omega arith

-- a number of copies reaches the minimum, and one less does not
abbrev pub IsLeast : ℕ → ℕ → ℕ → Type 0
IsLeast min len k = (min ≤ k * len) × (k * len < min + len)

multiplier-IsLeast : (min len : ℕ) → 0 < len → IsLeast min len (multiplier min len)
unfolding multiplier
multiplier-IsLeast min len h =
    let m = min / len in
    let below = div-mul-le_self min len in
    let above = lt-div-mul-add {a = min} {b = len} h in
    let swap : len * m ≡ m * len = mul_comm len m in
    let next : (m + 1) * len ≡ m * len + len = add-mul m 1 len ∙ omega arith in
    elim (Bool-cases (ltb (len * m) min)) [
      | inl e ↦
          subst (IsLeast min len) (sym (ap (λ t. if t then m + 1 else m) e))
            (let less = ltb→lt _ _ e in (omega arith, omega arith))
      | inr e ↦
          subst (IsLeast min len) (sym (ap (λ t. if t then m + 1 else m) e))
            (let more : min ≤ m * len = ground (arith, e, swap) in (more, omega arith))
    ]

some_factor : (min k len : ℕ) → 0 < min → min ≤ k * len → 0 < k
some_factor min zero len h le = absurd (omega arith)
some_factor min (suc k) len h le = omega arith

-- How the addresses that are passed on come from those of the resolver.
pub record Replicated {ℓ} {A : Type ℓ} (min : ℕ) (addresses result : List A) : Type ℓ where
  pub factor : ℕ
  pub some_copy : 0 < factor
  pub are_copies : result ≡ copies factor addresses
  pub enough : 0 < length addresses → min ≤ length result
  pub no_more_than_needed : (factor ≡ 1) ⊎ (length result < min + length addresses)

on_resolve_min-as_is {ℓ} :
    {A : Type ℓ} (min : ℕ) (addresses : List A)
    → (leb min (length addresses) || length addresses == 0) ≡ true
    → on_resolve_min min addresses ≡ addresses
unfolding on_resolve_min
on_resolve_min-as_is min addresses e =
    ap (λ t. if t then addresses else scale (multiplier min (length addresses)) addresses []) e

on_resolve_min-scaled {ℓ} :
    {A : Type ℓ} (min : ℕ) (addresses : List A)
    → (leb min (length addresses) || length addresses == 0) ≡ false
    → on_resolve_min min addresses ≡ copies (multiplier min (length addresses)) addresses
unfolding on_resolve_min
on_resolve_min-scaled min addresses e =
    ap (λ t. if t then addresses else scale (multiplier min (length addresses)) addresses []) e
    ∙ scale-copies (multiplier min (length addresses)) addresses []

-- The receiver behind is given whole copies of the resolver's addresses, one at least: as many addresses as are wanted, unless the resolver gave none, and no further copy once there are enough.
pub on_resolve_min_correct {ℓ} :
    {A : Type ℓ} (min : ℕ) (addresses : List A)
    → Replicated min addresses (on_resolve_min min addresses)
on_resolve_min_correct min addresses =
    elim (Bool-cases (leb min (length addresses) || length addresses == 0)) [
      | inl e ↦
          let same = on_resolve_min-as_is min addresses e in
          record {
            factor = 1;
            some_copy = omega arith;
            are_copies = same ∙ sym (append-nil addresses);
            enough = λ h. subst (λ r. min ≤ length r) (sym same) (ground (arith, e));
            no_more_than_needed = inl refl;
          }
      | inr e ↦
          let some_left : 0 < length addresses = ground (arith, e) in
          let k = multiplier min (length addresses) in
          let scaled = on_resolve_min-scaled min addresses e in
          let size : length (on_resolve_min min addresses) ≡ k * length addresses =
            ap length scaled ∙ length-copies k addresses in
          let least = multiplier-IsLeast min (length addresses) some_left in
          record {
            factor = k;
            some_copy = some_factor min _ (length addresses) (ground (arith, e)) least.0;
            are_copies = scaled;
            enough = λ h. subst (λ n. min ≤ n) (sym size) least.0;
            no_more_than_needed = inr (subst (λ n. n < min + length addresses) (sym size) least.1);
          }
    ]
