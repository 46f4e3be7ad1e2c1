-- ===== src/Health/Polling/Run.antt =====
-- health/polling.go: the thresholds of a polling health check, and what its tracker is told.
use httplb.Prelude.{
  ◌≡◌, refl, sym, ap, ap₂, ◌∙◌, subst, ◌⊎◌, inl, inr, true, false, List, [], ◌∷◌, ◌++◌, arith,
  ==→eq, ==-refl, Bool-cases,
}
use mathlib.Core.Bool.{false≢true}
use httplb.Prelude.Int.{ℤ, pos, negsuc, eq_ℤ}
use httplb.Health.State.{State, healthy, unknown}
use httplb.Health.Polling.{Checker, Task, start, is_bad, count_to, judge, probe, probes}

pub eq_ℤ→eq : (a b : ℤ) → eq_ℤ a b ≡ true → a ≡ b
eq_ℤ→eq (pos a) (pos b) h = ap pos (==→eq a b h)
eq_ℤ→eq (pos a) (negsuc b) h = absurd (grind (arith, h))
eq_ℤ→eq (negsuc a) (pos b) h = absurd (grind (arith, h))
eq_ℤ→eq (negsuc a) (negsuc b) h = ap negsuc (==→eq a b h)

pub eq_ℤ-refl : (a : ℤ) → eq_ℤ a a ≡ true
eq_ℤ-refl (pos a) = ==-refl a
eq_ℤ-refl (negsuc a) = ==-refl a

-- the last of the states that the tracker was told, or what it was before
abbrev pub last_or : State → List State → State
last_or s [] = s
last_or s (x ∷ xs) = last_or x xs

-- each of the states is another than the one before it
abbrev pub IsChanging : State → List State → Type 0
IsChanging s [] = Unit
IsChanging s (x ∷ xs) = (eq_ℤ s x ≡ false) × IsChanging x xs

last_or-append : (s : State) (xs : List State) (x : State) → last_or s (xs ++ x ∷ []) ≡ x
last_or-append s [] x = refl
last_or-append s (y ∷ ys) x = last_or-append y ys x

IsChanging-append :
    (s : State) (xs : List State) (x : State)
    → IsChanging s xs
    → eq_ℤ (last_or s xs) x ≡ false
    → IsChanging s (xs ++ x ∷ [])
IsChanging-append s [] x c h = (h, tt)
IsChanging-append s (y ∷ ys) x c h = (c.0, IsChanging-append y ys x c.1 h)

-- What the tracker knows: it is up to date, and was told nothing but changes.
abbrev pub Tracked : Task → Type 0
Tracked t = (last_or unknown t.told ≡ t.state) × IsChanging unknown t.told

judge_keeps :
    (r : Checker) (t : Task) (s : State)
    → ((judge r t s).told ≡ t.told) × (((judge r t s).state ≡ t.state) ⊎ ((judge r t s).state ≡ s))
unfolding judge count_to
judge_keeps r t s = ground arith

probe_same :
    (r : Checker) (t : Task) (s : State)
    → eq_ℤ t.state (judge r t s).state ≡ true
    → probe r t s ≡ judge r t s
unfolding probe
probe_same r t s e = ground arith

probe_changed :
    (r : Checker) (t : Task) (s : State)
    → eq_ℤ t.state (judge r t s).state ≡ false
    → probe r t s ≡ record (judge r t s) { told = t.told ++ s ∷ [] }
unfolding probe
probe_changed r t s e = ground arith

probe-Tracked : (r : Checker) (t : Task) (s : State) → Tracked t → Tracked (probe r t s)
probe-Tracked r t s k = elim (Bool-cases (eq_ℤ t.state (judge r t s).state)) [
  | inl e ↦ subst Tracked (sym (probe_same r t s e)) (
    ap (last_or unknown) (judge_keeps r t s).0 ∙ k.0 ∙ eq_ℤ→eq _ _ e,
    subst (IsChanging unknown) (sym (judge_keeps r t s).0) k.1,
  )
  | inr e ↦ subst Tracked (sym (probe_changed r t s e)) (elim (judge_keeps r t s).1 [
    | inl p ↦ absurd (false≢true (sym e ∙ ap (eq_ℤ t.state) p ∙ eq_ℤ-refl t.state))
    | inr p ↦ (
      last_or-append unknown t.told s ∙ sym p,
      IsChanging-append unknown t.told s k.1 (ap₂ eq_ℤ k.0 (sym p) ∙ e),
    )
  ])
]

probes-Tracked : (r : Checker) (t : Task) (ss : List State) → Tracked t → Tracked (probes r t ss)
unfolding probes
probes-Tracked r t [] k = k
probes-Tracked r t (s ∷ ss) k = probes-Tracked r (probe r t s) ss (probe-Tracked r t s k)

-- After any probes, the last state that the tracker was told is the state of the check (unknown, if it was told none), and each state that it was told is another than the one before it, from unknown on.
pub tracker_correct : (r : Checker) (ss : List State) → Tracked (probes r (start r) ss)
unfolding start
tracker_correct r ss = probes-Tracked r (start r) ss (refl, tt)

-- the effect of a probe on the state and the counter
pub probe_counts :
    (r : Checker) (t : Task) (s : State)
    → ((probe r t s).state ≡ (judge r t s).state) × ((probe r t s).counter ≡ (judge r t s).counter)
unfolding probe
probe_counts r t s = ground arith

pub judge_better :
    (r : Checker) (t : Task)
    → is_bad t.state ≡ true
    → judge r t healthy ≡ count_to r.healthy_threshold t healthy
unfolding judge
judge_better r t h = ground arith

pub bad_unhealthy : (s : State) → is_bad s ≡ true → eq_ℤ s healthy ≡ false
unfolding is_bad
bad_unhealthy (pos n) h = refl
bad_unhealthy (negsuc n) h = absurd (grind (arith, h))

pub judge_worse :
    (r : Checker) (t : Task) (s : State)
    → eq_ℤ t.state healthy ≡ true
    → is_bad s ≡ true
    → judge r t s ≡ count_to r.unhealthy_threshold t s
unfolding judge
judge_worse r t s h b = let e = bad_unhealthy s b in ground arith

pub judge_agrees_healthy :
    (r : Checker) (t : Task)
    → is_bad t.state ≡ false
    → judge r t healthy ≡ record t { state = healthy; counter = 0 }
unfolding judge is_bad
judge_agrees_healthy r t h = ground arith

pub judge_agrees_bad :
    (r : Checker) (t : Task) (s : State)
    → is_bad t.state ≡ true
    → is_bad s ≡ true
    → judge r t s ≡ record t { state = s; counter = 0 }
unfolding judge
judge_agrees_bad r t s h b =
    let e = bad_unhealthy s b in let e' = bad_unhealthy t.state h in ground arith
