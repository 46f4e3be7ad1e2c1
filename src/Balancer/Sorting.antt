-- ===== src/Balancer/Sorting.antt =====
-- balancer.go, updateConns: what the loop over the connections and initConnInfoLocked do.
use httplb.Prelude.{
  ℕ, ◌≡◌, refl, sym, ap, ◌∙◌, inl, inr, Bool, true, false, not, ◌&&◌, ◌||◌, Option, none, some,
  List, [], ◌∷◌, ◌++◌, append-nil, append_assoc, arith, ◌==◌, if◌then◌else◌, ==→eq, Bool-cases,
  keep, update, contains,
}
use httplb.Health.State.{unknown}
use httplb.Balancer.{Balancer, ConnInfo, cancel, new_checker, add_call}
use httplb.Balancer.Invariant.{is_some}
use httplb.Balancer.Connections.{Sorted, sort_conn, sort_conns, init_conn_info}

forgotten :
    (remove : List ℕ) (info : ℕ → Option ConnInfo) (c a : ℕ)
    → contains remove c ≡ true
    → is_some (update info c none a) ≡ (is_some (info a) && not (contains remove a && c == a))
forgotten remove info c a e = elim (Bool-cases (c == a)) [
  | inl q ↦
      let r : contains remove a ≡ true = ap (contains remove) (sym (==→eq c a q)) ∙ e in
      ground arith
  | inr q ↦ ground arith
]

not_forgotten :
    (remove : List ℕ) (info : ℕ → Option ConnInfo) (c a : ℕ)
    → contains remove c ≡ false
    → is_some (info a) ≡ (is_some (info a) && not (contains remove a && c == a))
not_forgotten remove info c a e = elim (Bool-cases (c == a)) [
  | inl q ↦
      let r : contains remove a ≡ false = ap (contains remove) (sym (==→eq c a q)) ∙ e in
      ground arith
  | inr q ↦ ground arith
]

registered :
    (info : ℕ → Option ConnInfo) (x : ConnInfo) (c a : ℕ) (m : Bool)
    → (m || is_some (update info c (some x) a)) ≡ ((c == a || m) || is_some (info a))
registered info x c a m = elim (Bool-cases (c == a)) [ inl q ↦ ground arith | inr q ↦ ground arith ]

pub contains-kept :
    (remove cs : List ℕ) (a : ℕ)
    → contains (keep (λ c. not (contains remove c)) cs) a
      ≡ (contains cs a && not (contains remove a))
contains-kept remove [] a = refl
contains-kept remove (c ∷ cs) a = elim (Bool-cases (c == a)) [
  | inl q ↦
      let r : contains remove c ≡ contains remove a = ap (contains remove) (==→eq c a q) in
      grind (arith, contains-kept remove cs a)
  | inr q ↦ ground (arith, contains-kept remove cs a)
]

module _ {P : Type 0} where
  abbrev forget : Sorted P → ℕ → Sorted P
  forget s c = record s {
    check_closers = s.check_closers ++ c ∷ [];
    rest = add_call (record s.rest { conn_info = update s.rest.conn_info c none }) (cancel c);
  }

  abbrev keep_on : Sorted P → ℕ → Sorted P
  keep_on s c = record s { new_conns = s.new_conns ++ c ∷ [] }

  pub sort_conn_removed :
      (remove : List ℕ) (s : Sorted P) (c : ℕ)
      → contains remove c ≡ true
      → sort_conn remove s c ≡ forget s c
  unfolding sort_conn
  sort_conn_removed remove s c e = ap (λ m. if m then forget s c else keep_on s c) e

  pub sort_conn_kept :
      (remove : List ℕ) (s : Sorted P) (c : ℕ)
      → contains remove c ≡ false
      → sort_conn remove s c ≡ keep_on s c
  unfolding sort_conn
  sort_conn_kept remove s c e = ap (λ m. if m then forget s c else keep_on s c) e

  kept_step :
      (remove : List ℕ) (s : Sorted P) (c : ℕ) (cs : List ℕ)
      → (sort_conn remove s c).new_conns ++ cs
        ≡ s.new_conns ++ (if not (contains remove c) then c ∷ cs else cs)
  kept_step remove s c cs = elim (Bool-cases (contains remove c)) [
    | inl e ↦
        ap (λ t. t.new_conns ++ cs) (sort_conn_removed remove s c e)
        ∙ ap (λ m. s.new_conns ++ (if not m then c ∷ cs else cs)) (sym e)
    | inr e ↦
        ap (λ t. t.new_conns ++ cs) (sort_conn_kept remove s c e)
        ∙ append_assoc s.new_conns (c ∷ []) cs
        ∙ ap (λ m. s.new_conns ++ (if not m then c ∷ cs else cs)) (sym e)
  ]

  closers_step :
      (remove : List ℕ) (s : Sorted P) (c : ℕ) (cs : List ℕ)
      → (sort_conn remove s c).check_closers ++ cs
        ≡ s.check_closers ++ (if contains remove c then c ∷ cs else cs)
  closers_step remove s c cs = elim (Bool-cases (contains remove c)) [
    | inl e ↦
        ap (λ t. t.check_closers ++ cs) (sort_conn_removed remove s c e)
        ∙ append_assoc s.check_closers (c ∷ []) cs
        ∙ ap (λ m. s.check_closers ++ (if m then c ∷ cs else cs)) (sym e)
    | inr e ↦
        ap (λ t. t.check_closers ++ cs) (sort_conn_kept remove s c e)
        ∙ ap (λ m. s.check_closers ++ (if m then c ∷ cs else cs)) (sym e)
  ]

  pub sort_conns_kept :
      (remove : List ℕ) (cs : List ℕ) (s : Sorted P)
      → (sort_conns remove s cs).new_conns ≡ s.new_conns ++ keep (λ c. not (contains remove c)) cs
  unfolding sort_conns
  sort_conns_kept remove [] s = sym (append-nil _)
  sort_conns_kept remove (c ∷ cs) s =
      sort_conns_kept remove cs (sort_conn remove s c) ∙ kept_step remove s c _

  pub sort_conns_closers :
      (remove : List ℕ) (cs : List ℕ) (s : Sorted P)
      → (sort_conns remove s cs).check_closers ≡ s.check_closers ++ keep (contains remove) cs
  unfolding sort_conns
  sort_conns_closers remove [] s = sym (append-nil _)
  sort_conns_closers remove (c ∷ cs) s =
      sort_conns_closers remove cs (sort_conn remove s c) ∙ closers_step remove s c _

  pub sort_conns_same :
      (remove : List ℕ) (cs : List ℕ) (s : Sorted P)
      → ((sort_conns remove s cs).rest.latest_picker ≡ s.rest.latest_picker)
        × ((sort_conns remove s cs).rest.latest_usable_conns ≡ s.rest.latest_usable_conns)
  unfolding sort_conns
  sort_conns_same remove [] s = (refl, refl)
  sort_conns_same remove (c ∷ cs) s =
      let (p, u) = sort_conns_same remove cs (sort_conn remove s c) in
      elim (Bool-cases (contains remove c)) [
        | inl e ↦
            let q = sort_conn_removed remove s c e in
            (p ∙ ap (λ t. t.rest.latest_picker) q, u ∙ ap (λ t. t.rest.latest_usable_conns) q)
        | inr e ↦
            let q = sort_conn_kept remove s c e in
            (p ∙ ap (λ t. t.rest.latest_picker) q, u ∙ ap (λ t. t.rest.latest_usable_conns) q)
      ]

  info_step :
      (remove : List ℕ) (s : Sorted P) (c a : ℕ)
      → is_some ((sort_conn remove s c).rest.conn_info a)
        ≡ (is_some (s.rest.conn_info a) && not (contains remove a && c == a))
  info_step remove s c a = elim (Bool-cases (contains remove c)) [
    | inl e ↦
        ap (λ t. is_some (t.rest.conn_info a)) (sort_conn_removed remove s c e)
        ∙ forgotten remove s.rest.conn_info c a e
    | inr e ↦
        ap (λ t. is_some (t.rest.conn_info a)) (sort_conn_kept remove s c e)
        ∙ not_forgotten remove s.rest.conn_info c a e
  ]

  pub sort_conns_info :
      (remove : List ℕ) (cs : List ℕ) (s : Sorted P) (a : ℕ)
      → is_some ((sort_conns remove s cs).rest.conn_info a)
        ≡ (is_some (s.rest.conn_info a) && not (contains remove a && contains cs a))
  unfolding sort_conns
  sort_conns_info remove [] s a = ground arith
  sort_conns_info remove (c ∷ cs) s a =
      sort_conns_info remove cs (sort_conn remove s c) a
      ∙ ap (λ t. t && not (contains remove a && contains cs a)) (info_step remove s c a)
      ∙ ground arith

  pub init_conn_info_correct :
      (cs : List ℕ) (b : Balancer P) (a : ℕ)
      → is_some ((init_conn_info b cs).conn_info a) ≡ (contains cs a || is_some (b.conn_info a))
  unfolding init_conn_info
  init_conn_info_correct [] b a = refl
  init_conn_info_correct (c ∷ cs) b a =
      init_conn_info_correct cs
        (record (add_call b (new_checker c)) {
          conn_info = update b.conn_info c (some (record { state = unknown; warm = false }));
        })
        a
      ∙ registered b.conn_info _ c a (contains cs a)

  pub init_conn_info_same :
      (cs : List ℕ) (b : Balancer P)
      → ((init_conn_info b cs).latest_picker ≡ b.latest_picker)
        × ((init_conn_info b cs).latest_usable_conns ≡ b.latest_usable_conns)
  unfolding init_conn_info
  init_conn_info_same [] b = (refl, refl)
  init_conn_info_same (c ∷ cs) b = init_conn_info_same cs (record (add_call b (new_checker c)) {
    conn_info = update b.conn_info c (some (record { state = unknown; warm = false }));
  })
