-- ===== src/Balancer/Manager/Recycle.antt =====
-- balancer.go, connManager.recycleConns: connections that have reached their lifetime are replaced.
use httplb.Prelude.{
  ℕ, ◌+◌, ◌≡◌, refl, sym, ap, ◌∙◌, inl, inr, true, false, not, ◌&&◌, List, [], ◌∷◌, map, arith,
  ◌==◌, if◌then◌else◌, ==→eq, Bool-cases, if_cases, length, keep, length-append, contains,
}
use httplb.Balancer.Manager.{Groups, lookup, has_key, do_update}
use httplb.Balancer.Manager.Counts.{IsMap, lookup-group}
use httplb.Balancer.Manager.Update.{length-keep-map, group-IsMap}

-- a slice without the first occurrence of a connection
unfoldable pub remove_first : ℕ → List ℕ → List ℕ
remove_first cn [] = []
remove_first cn (c ∷ cs) = let rest = remove_first cn cs in if c == cn then cs else c ∷ rest

-- `m[k] = xs`, for a key that is there
unfoldable pub put : Groups ℕ → ℕ → List ℕ → Groups ℕ
put [] k xs = []
put ((k', ys) ∷ m) k xs = if k' == k then (k', xs) ∷ m else (k', ys) ∷ put m k xs

-- connsByAddr and what is left of connsToRecycle after its loops
pub record Recycled : Type 0 where
  pub conns_by_addr : Groups ℕ
  pub to_recycle : List ℕ

module _ (address : ℕ → ℕ) where
  unfoldable pub take_out : Groups ℕ → List ℕ → Recycled
  take_out m [] = record { conns_by_addr = m; to_recycle = [] }
  take_out m (cn ∷ cns) =
      let existing = lookup m (address cn) in
      if contains existing cn
      then (let rest = take_out (put m (address cn) (remove_first cn existing)) cns in
          record rest { to_recycle = cn ∷ rest.to_recycle })
      else take_out m cns

  -- recycleConns; `make` is updateFunc, from addresses and removed connections to new connections, with
  -- the state of the balancer
  unfoldable pub recycle_conns :
      {S : Type 0} → (List ℕ → List ℕ → S → List ℕ × S) → Groups ℕ → List ℕ → S → Groups ℕ × S
  recycle_conns make m cns s =
      let r = take_out m cns in
      let (made, s') = make (map address r.to_recycle) r.to_recycle s in
      if length r.to_recycle == 0 && not (length cns == 0)
      then (r.conns_by_addr, s)
      else (do_update address made r.conns_by_addr, s')

  length-remove_first :
      (cn : ℕ) (cs : List ℕ) → contains cs cn ≡ true → length (remove_first cn cs) + 1 ≡ length cs
  unfolding remove_first
  length-remove_first cn [] h = absurd (ground (arith, h))
  length-remove_first cn (c ∷ cs) h = ground (arith, length-remove_first cn cs, h)

  lookup-put :
      (m : Groups ℕ) (k h : ℕ) (xs : List ℕ)
      → has_key m k ≡ true
      → lookup (put m k xs) h ≡ (if k == h then xs else lookup m h)
  unfolding put
  lookup-put [] k h xs e = absurd (ground (arith, e))
  lookup-put ((k', ys) ∷ m) k h xs e = ground (arith, lookup-put m k h xs, e)

  has_key_of_contains :
      (m : Groups ℕ) (k cn : ℕ) → contains (lookup m k) cn ≡ true → has_key m k ≡ true
  has_key_of_contains [] k cn h = absurd (ground (arith, h))
  has_key_of_contains ((k', ys) ∷ m) k cn h = elim (Bool-cases (k' == k)) [
    | inl e ↦ ground (arith, e)
    | inr e ↦ ground (arith, e, h, has_key_of_contains m k cn)
  ]

  abbrev at : ℕ → List ℕ → List ℕ
  at h = keep (λ c. address c == h)

  has_key-put :
      (m : Groups ℕ) (k h : ℕ) (xs : List ℕ) → has_key m h ≡ false → has_key (put m k xs) h ≡ false
  unfolding put
  has_key-put [] k h xs e = refl
  has_key-put ((k', ys) ∷ m) k h xs e = ground (arith, has_key-put m k h xs, e)

  take_out_counts :
      (m : Groups ℕ) (cns : List ℕ) (h : ℕ)
      → length (lookup (take_out m cns).conns_by_addr h) + length (at h (take_out m cns).to_recycle)
        ≡ length (lookup m h)
  unfolding take_out
  take_out_counts m [] h = omega arith
  take_out_counts m (cn ∷ cns) h =
      let existing = lookup m (address cn) in
      let m' = put m (address cn) (remove_first cn existing) in
      elim (Bool-cases (contains existing cn)) [
        | inl e ↦ rw e (elim (Bool-cases (address cn == h)) [
          | inl q ↦
              let same : lookup m h ≡ existing = ap (lookup m) (sym (==→eq (address cn) h q)) in
              let fewer : length (lookup m' h) ≡ length (remove_first cn existing) = ap length (
                lookup-put m (address cn) h (remove_first cn existing)
                  (has_key_of_contains m (address cn) cn e)
                ∙ ap (λ b. if b then remove_first cn existing else lookup m h) q) in
              let size = length-remove_first cn existing e in
              let total = ap length same in
              let rest = take_out_counts m' cns h in
              ap
                (λ b.
                  length (lookup (take_out m' cns).conns_by_addr h)
                  + length (
                      if b
                      then cn ∷ at h (take_out m' cns).to_recycle
                      else at h (take_out m' cns).to_recycle))
                q
              ∙ omega (arith, rest, fewer, size, total)
          | inr q ↦
              let fewer : length (lookup m' h) ≡ length (lookup m h) = ap length (
                lookup-put m (address cn) h (remove_first cn existing)
                  (has_key_of_contains m (address cn) cn e)
                ∙ ap (λ b. if b then remove_first cn existing else lookup m h) q) in
              ap
                (λ b.
                  length (lookup (take_out m' cns).conns_by_addr h)
                  + length (
                      if b
                      then cn ∷ at h (take_out m' cns).to_recycle
                      else at h (take_out m' cns).to_recycle))
                q
              ∙ take_out_counts m' cns h
              ∙ fewer
        ])
        | inr e ↦ rw e (take_out_counts m cns h)
      ]

  length-at-map :
      (made cns : List ℕ) (h : ℕ)
      → map address made ≡ map address cns
      → length (at h made) ≡ length (at h cns)
  length-at-map made cns h same =
      length-keep-map address made h
      ∙ ap (λ t. length (keep (λ k. k == h) t)) same
      ∙ sym (length-keep-map address cns h)

  none_taken : (cns : List ℕ) (h : ℕ) → length cns ≡ 0 → length (at h cns) ≡ 0
  none_taken [] h e = refl
  none_taken (c ∷ cns) h e = absurd (ground (arith, e))

  -- If a connection is made in place of each one that is recycled, then after recycling every host and port has as many connections as before, whichever of the given connections were still there.
  pub recycle_conns-keeps :
      {S : Type 0} (make : List ℕ → List ℕ → S → List ℕ × S) (m : Groups ℕ) (cns : List ℕ) (s : S)
      → map address (make (map address (take_out m cns).to_recycle) (take_out m cns).to_recycle s).0
        ≡ map address (take_out m cns).to_recycle
      → (h : ℕ) → length (lookup (recycle_conns make m cns s).0 h) ≡ length (lookup m h)
  unfolding recycle_conns do_update
  recycle_conns-keeps {S} make m cns s makes h =
      let r = take_out m cns in
      let taken = r.to_recycle in
      let made = (make (map address taken) taken s).0 in
      let counts = take_out_counts m cns h in
      if_cases (λ (g : Groups ℕ × S). length (lookup g.0 h) ≡ length (lookup m h))
        (length taken == 0 && not (length cns == 0)) (r.conns_by_addr, s)
        (do_update address made r.conns_by_addr, (make (map address taken) taken s).1)
        (λ e.
          let nothing = none_taken taken h (ground (arith, e)) in omega (arith, counts, nothing))
        (λ e.
          ap length (lookup-group address made r.conns_by_addr h)
          ∙ length-append (lookup r.conns_by_addr h) (at h made)
          ∙ omega (arith, counts, length-at-map made taken h makes))

  put-IsMap : (m : Groups ℕ) (k : ℕ) (xs : List ℕ) → IsMap m → IsMap (put m k xs)
  unfolding put
  put-IsMap [] k xs i = tt
  put-IsMap ((k', ys) ∷ m) k xs (new, i) =
      if_cases (λ (g : Groups ℕ). IsMap g) (k' == k) ((k', xs) ∷ m) ((k', ys) ∷ put m k xs)
        (λ _. (new, i)) (λ _. (has_key-put m k k' xs new, put-IsMap m k xs i))

  take_out-IsMap : (m : Groups ℕ) (cns : List ℕ) → IsMap m → IsMap (take_out m cns).conns_by_addr
  unfolding take_out
  take_out-IsMap m [] i = i
  take_out-IsMap m (cn ∷ cns) i =
      if_cases (λ (r : Recycled). IsMap r.conns_by_addr) (contains (lookup m (address cn)) cn)
        (let rest = take_out (put m (address cn) (remove_first cn (lookup m (address cn)))) cns in
          record rest { to_recycle = cn ∷ rest.to_recycle })
        (take_out m cns)
        (λ _.
          take_out-IsMap (put m (address cn) (remove_first cn (lookup m (address cn)))) cns
            (put-IsMap m (address cn) (remove_first cn (lookup m (address cn))) i))
        (λ _. take_out-IsMap m cns i)

  -- what holds of the state after updateFunc, and before, holds after recycleConns
  pub recycle_conns-IsMap :
      {S : Type 0} (Q : S → Type 0) (make : List ℕ → List ℕ → S → List ℕ × S) (m : Groups ℕ)
      (cns : List ℕ) (s : S)
      → ((addrs removed : List ℕ) → Q (make addrs removed s).1)
      → Q s
      → IsMap m
      → IsMap (recycle_conns make m cns s).0 × Q (recycle_conns make m cns s).1
  unfolding recycle_conns do_update
  recycle_conns-IsMap {S} Q make m cns s makes before i =
      let r = take_out m cns in
      let taken = r.to_recycle in
      let made = (make (map address taken) taken s).0 in
      if_cases (λ (g : Groups ℕ × S). IsMap g.0 × Q g.1)
        (length taken == 0 && not (length cns == 0)) (r.conns_by_addr, s)
        (do_update address made r.conns_by_addr, (make (map address taken) taken s).1)
        (λ e. (take_out-IsMap m cns i, before))
        (λ e. (
          group-IsMap address made r.conns_by_addr (take_out-IsMap m cns i),
          makes (map address taken) taken,
        ))
