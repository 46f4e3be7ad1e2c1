-- ===== src/Health/Polling/Thresholds.antt =====
-- health/polling.go: how many results it takes to change the state.
use httplb.Prelude.{
  ℕ, zero, suc, ◌+◌, ◌<◌, ◌≡◌, refl, sym, ap, ap₂, ◌∙◌, subst, inl, inr, Bool, true, false, ◌&&◌,
  List, [], ◌∷◌, arith, ltb, leb, if◌then◌else◌, Bool-cases, length,
}
use httplb.Prelude.Int.{eq_ℤ}
use httplb.Health.State.{State, healthy}
use httplb.Health.Polling.{
  Checker, Task, Config, new_polling_checker, start, is_bad, count_to, judge, probe, probes,
}
use httplb.Health.Polling.Run.{
  probe_counts, judge_better, judge_worse, bad_unhealthy, judge_agrees_healthy, judge_agrees_bad,
}

abbrev pub times : ℕ → State → List State
times zero s = []
times (suc n) s = s ∷ times n s

abbrev pub all_bad : List State → Bool
all_bad [] = true
all_bad (s ∷ ss) = is_bad s && all_bad ss

not_bad : is_bad healthy ≡ false
unfolding is_bad
not_bad = refl

stays_healthy :
    (r : Checker) (t : Task) (n : ℕ)
    → t.state ≡ healthy
    → (probes r t (times n healthy)).state ≡ healthy
unfolding probes
stays_healthy r t zero h = h
stays_healthy r t (suc n) h = stays_healthy r (probe r t healthy) n (
    (probe_counts r t healthy).0
    ∙ ap (λ j. j.state) (judge_agrees_healthy r t (ap is_bad h ∙ not_bad)))

count_to_state :
    (k : ℕ) (t : Task) (s : State)
    → ((count_to k t s).state ≡ (if leb k (t.counter + 1) then s else t.state))
      × ((count_to k t s).counter ≡ (if leb k (t.counter + 1) then 0 else t.counter + 1))
unfolding count_to
count_to_state k t s = ground arith

reached : (k c n : ℕ) → leb k (c + 1) ≡ true → leb k (c + suc n) ≡ true
reached k c n h = ground (arith, h)

-- While the state is bad, with `t.counter` good results counted so far, `n` further results that are all healthy make it healthy exactly if the count reaches the healthy threshold, and leave it as it is otherwise.
pub promote_exactly :
    (r : Checker) (t : Task) (n : ℕ)
    → is_bad t.state ≡ true
    → t.counter < r.healthy_threshold
    → (probes r t (times n healthy)).state
      ≡ (if leb r.healthy_threshold (t.counter + n) then healthy else t.state)
unfolding probes
promote_exactly r t zero b h = ground arith
promote_exactly r t (suc n) b h =
    let k = count_to_state r.healthy_threshold t healthy in
    let state_is : (probe r t healthy).state
        ≡ (if leb r.healthy_threshold (t.counter + 1) then healthy else t.state) =
      (probe_counts r t healthy).0 ∙ ap (λ j. j.state) (judge_better r t b) ∙ k.0 in
    let counter_is : (probe r t healthy).counter
        ≡ (if leb r.healthy_threshold (t.counter + 1) then 0 else t.counter + 1) =
      (probe_counts r t healthy).1 ∙ ap (λ j. j.counter) (judge_better r t b) ∙ k.1 in
    elim (Bool-cases (leb r.healthy_threshold (t.counter + 1))) [
      | inl e ↦
          stays_healthy r (probe r t healthy) n
            (state_is ∙ ap (λ c. if c then healthy else t.state) e)
          ∙ sym
              (ap (λ c. if c then healthy else t.state) (reached r.healthy_threshold t.counter n e))
      | inr e ↦
          let same : (probe r t healthy).state ≡ t.state =
            state_is ∙ ap (λ c. if c then healthy else t.state) e in
          let next : (probe r t healthy).counter ≡ t.counter + 1 =
            counter_is ∙ ap (λ c. if c then 0 else t.counter + 1) e in
          promote_exactly r (probe r t healthy) n (ap is_bad same ∙ b) (ground (arith, next, e))
          ∙ ap₂ (λ c u. if c then healthy else u)
              (ap (λ c. leb r.healthy_threshold (c + n)) next
                ∙ ap (leb r.healthy_threshold) (omega arith))
              same
    ]

stays_bad :
    (r : Checker) (t : Task) (ss : List State)
    → is_bad t.state ≡ true
    → all_bad ss ≡ true
    → is_bad (probes r t ss).state ≡ true
unfolding probes
stays_bad r t [] b a = b
stays_bad r t (s ∷ ss) b a =
    let bs : is_bad s ≡ true = grind (arith, a) in
    stays_bad r (probe r t s) ss
      (ap is_bad ((probe_counts r t s).0 ∙ ap (λ j. j.state) (judge_agrees_bad r t s b bs)) ∙ bs)
      (grind (arith, a))

-- While the state is healthy, with `t.counter` bad results counted so far, further results that are all bad leave it healthy exactly if the count stays below the unhealthy threshold.
pub demote_exactly :
    (r : Checker) (t : Task) (ss : List State)
    → t.state ≡ healthy
    → t.counter < r.unhealthy_threshold
    → all_bad ss ≡ true
    → eq_ℤ (probes r t ss).state healthy ≡ ltb (t.counter + length ss) r.unhealthy_threshold
unfolding probes
demote_exactly r t [] e h a = ap (λ u. eq_ℤ u healthy) e ∙ ground arith
demote_exactly r t (s ∷ ss) e h a =
    let bs : is_bad s ≡ true = grind (arith, a) in
    let rest : all_bad ss ≡ true = grind (arith, a) in
    let k = count_to_state r.unhealthy_threshold t s in
    let eh : eq_ℤ t.state healthy ≡ true = ap (λ u. eq_ℤ u healthy) e in
    let state_is : (probe r t s).state
        ≡ (if leb r.unhealthy_threshold (t.counter + 1) then s else t.state) =
      (probe_counts r t s).0 ∙ ap (λ j. j.state) (judge_worse r t s eh bs) ∙ k.0 in
    let counter_is : (probe r t s).counter
        ≡ (if leb r.unhealthy_threshold (t.counter + 1) then 0 else t.counter + 1) =
      (probe_counts r t s).1 ∙ ap (λ j. j.counter) (judge_worse r t s eh bs) ∙ k.1 in
    elim (Bool-cases (leb r.unhealthy_threshold (t.counter + 1))) [
      | inl q ↦
          let now : (probe r t s).state ≡ s = state_is ∙ ap (λ c. if c then s else t.state) q in
          bad_unhealthy _ (stays_bad r (probe r t s) ss (ap is_bad now ∙ bs) rest)
          ∙ ground (arith, q)
      | inr q ↦
          let same : (probe r t s).state ≡ t.state =
            state_is ∙ ap (λ c. if c then s else t.state) q in
          let next : (probe r t s).counter ≡ t.counter + 1 =
            counter_is ∙ ap (λ c. if c then 0 else t.counter + 1) q in
          demote_exactly r (probe r t s) ss (same ∙ e) (ground (arith, next, q)) rest
          ∙ ap (λ c. ltb (c + length ss) r.unhealthy_threshold) next
          ∙ ap (λ c. ltb c r.unhealthy_threshold) (omega arith)
    ]

judge_first :
    (r : Checker) (s : State)
    → ((judge r (start r) s).state ≡ s) × ((judge r (start r) s).counter ≡ 0)
unfolding start judge count_to is_bad
judge_first r s = elim (Bool-cases (eq_ℤ s healthy)) [ inl e ↦ ground arith | inr e ↦ ground arith ]

-- The first result is the state, and the thresholds play no part: a connection is healthy at once.
pub first_probe :
    (r : Checker) (s : State)
    → ((probe r (start r) s).state ≡ s) × ((probe r (start r) s).counter ≡ 0)
first_probe r s =
    let (p, q) = probe_counts r (start r) s in (p ∙ (judge_first r s).0, q ∙ (judge_first r s).1)

-- the counter is below the threshold that it counts towards
abbrev pub Counted : Checker → Task → Type 0
Counted r t =
    (is_bad t.state ≡ true → t.counter < r.healthy_threshold)
    × (eq_ℤ t.state healthy ≡ true → t.counter < r.unhealthy_threshold)

judge-Counted :
    (r : Checker) (t : Task) (s : State)
    → 0 < r.healthy_threshold
    → 0 < r.unhealthy_threshold
    → Counted r t
    → Counted r (judge r t s)
unfolding judge count_to
judge-Counted r t s p q (h, h') = let one_side = bad_unhealthy t.state in (grind arith, grind arith)

unfold_start :
    (r : Checker) (s : State) (ss : List State)
    → probes r (start r) (s ∷ ss) ≡ probes r (probe r (start r) s) ss
unfolding probes
unfold_start r s ss = refl

probe-Counted :
    (r : Checker) (t : Task) (s : State)
    → 0 < r.healthy_threshold
    → 0 < r.unhealthy_threshold
    → Counted r t
    → Counted r (probe r t s)
probe-Counted r t s p q c =
    let (ps, pc) = probe_counts r t s in
    let (h, h') = judge-Counted r t s p q c in
    (
      λ b. subst (λ n. n < r.healthy_threshold) (sym pc) (h (ap is_bad (sym ps) ∙ b)),
      λ e.
          subst (λ n. n < r.unhealthy_threshold) (sym pc)
            (h' (ap (λ u. eq_ℤ u healthy) (sym ps) ∙ e)),
    )

probes-Counted :
    (r : Checker) (t : Task) (ss : List State)
    → 0 < r.healthy_threshold
    → 0 < r.unhealthy_threshold
    → Counted r t
    → Counted r (probes r t ss)
unfolding probes
probes-Counted r t [] p q c = c
probes-Counted r t (s ∷ ss) p q c =
    probes-Counted r (probe r t s) ss p q (probe-Counted r t s p q c)

thresholds_positive :
    (config : Config)
    → (0 < (new_polling_checker config).healthy_threshold)
      × (0 < (new_polling_checker config).unhealthy_threshold)
unfolding new_polling_checker
thresholds_positive config = (ground arith, ground arith)

-- Whatever the configuration, from the first result on the count is below the threshold that it counts towards: the healthy one while the state is bad, the unhealthy one while it is healthy.
pub counter_bounded :
    (config : Config) (s : State) (ss : List State)
    → let r = new_polling_checker config in Counted r (probes r (start r) (s ∷ ss))
counter_bounded config s ss =
    let r = new_polling_checker config in
    let (p, q) = thresholds_positive config in
    let zero_count = (first_probe r s).1 in
    subst (Counted r) (sym (unfold_start r s ss)) (
      probes-Counted r (probe r (start r) s) ss p q (
        λ b. subst (λ n. n < r.healthy_threshold) (sym zero_count) p,
        λ e. subst (λ n. n < r.unhealthy_threshold) (sym zero_count) q,
      ))
