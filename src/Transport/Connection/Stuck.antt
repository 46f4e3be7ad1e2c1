-- ===== src/Transport/Connection/Stuck.antt =====
-- transport.go, `connection`: when `close` waits for ever.
use httplb.Prelude.{
  two_63, ℕ, ◌+◌, ◌≤◌, ◌<◌, ◌≡◌, ◌≢◌, inl, inr, List, [], ◌∷◌, some, arith, length-set, get_elem?,
  set, get_elem?-set_self, get_elem?-set_ne, ◌∙◌, ap, sym, subst, Option-cases,
}
use httplb.Prelude.Sums.{sum_by, sum_by-set, sum_by_mono, sum_by-le-length, le-sum_by}
use httplb.Transport.Connection.{
  Connection, Pc, idle, added, refused, active, ended, finished, move, System, step, run,
}
use httplb.Transport.Connection.Invariant.{
  step-at, counted, counted-le, serving, serving-le-counted, signalling, Inv, step-Inv,
}

-- The counter is marked, nobody uses the connection, and nobody is going to close the channel.
pub record IsStuck (c : Connection) (ps : List Pc) : Type 0 where
  pub mark : two_63 ≤ c.outstanding_requests
  pub unused : sum_by serving ps ≡ 0
  pub silent : sum_by signalling ps ≡ 0
  pub open_channel : c.closed ≡ 0
  pub unreleased : c.released ≡ 0

module _ (c : Connection) (ps : List Pc) (i : ℕ) (v : Inv c ps) (k : IsStuck c ps) where
  open v use {few, account, once, drained, after}
  open k use {mark, unused, silent, open_channel, unreleased}

  record Moved (p p' : Pc) : Type 0 where
    serve : sum_by serving (set ps i p') + serving p ≡ sum_by serving ps + serving p'
    signal : sum_by signalling (set ps i p') + signalling p ≡ sum_by signalling ps + signalling p'
    served : serving p ≤ sum_by serving ps
    signalled : signalling p ≤ sum_by signalling ps
    room : counted p ≤ sum_by counted ps
    count : sum_by counted (set ps i p') + counted p ≡ sum_by counted ps + counted p'
    small : sum_by counted ps < two_63
    small' : sum_by counted (set ps i p') < two_63

  moved : (p p' : Pc) → get_elem? ps i ≡ some p → Moved p p'
  moved p p' h = record {
    serve = sum_by-set serving ps i p p' h;
    signal = sum_by-set signalling ps i p p' h;
    served = le-sum_by serving ps i p h;
    signalled = le-sum_by signalling ps i p h;
    room = le-sum_by counted ps i p h;
    count = sum_by-set counted ps i p p' h;
    small = omega (arith, sum_by-le-length counted counted-le ps);
    small' = omega (arith, sum_by-le-length counted counted-le (set ps i p'), length-set ps i p');
  }

  move-IsStuck : (p : Pc) → Moved p (move c p).1 → IsStuck (move c p).0 (set ps i (move c p).1)
  unfolding move
  move-IsStuck idle m = ground arith
  move-IsStuck p m = ground arith

-- a system that satisfies the invariant and is stuck
abbrev pub Hangs : System → Type 0
Hangs s = Inv s.conn s.threads × IsStuck s.conn s.threads

step-Hangs : (s : System) (i : ℕ) → Hangs s → Hangs (step s i)
unfolding step
step-Hangs s i h = elim (Option-cases (get_elem? s.threads i)) [
  | inl e ↦ rw (e, step) h
  | inr (p, e) ↦ (
    step-Inv s i h.0,
    rw (e, step)
        (move-IsStuck s.conn s.threads i h.0 h.1 p
          (moved s.conn s.threads i h.0 h.1 p (move s.conn p).1 e)),
  )
]

pub run-Hangs : (s : System) (is : List ℕ) → Hangs s → Hangs (run s is)
unfolding run
run-Hangs s [] h = h
run-Hangs s (i ∷ is) h = run-Hangs (step s i) is (step-Hangs s i h)

module _ (s : System) (i j r : ℕ) (v : Inv s.conn s.threads) where
  abbrev one_left : List Pc
  one_left = set (set s.threads i (ended (two_63 + 1))) i finished

  abbrev one_ending : System
  one_ending = record {
    conn = record s.conn { outstanding_requests = two_63 + 1 };
    threads = set s.threads i (ended (two_63 + 1));
  }

  abbrev one_refused : System
  one_refused = record {
    conn = record s.conn { outstanding_requests = two_63 + 1 };
    threads = one_left;
  }

  abbrev none_left : System
  none_left = record {
    conn = record s.conn { outstanding_requests = two_63 };
    threads = set one_left j refused;
  }

  module _ (count : s.conn.outstanding_requests ≡ two_63 + 2)
      (at_i : get_elem? s.threads i ≡ some active) (at_j : get_elem? s.threads j ≡ some (added r))
      (refusal : two_63 ≤ r) where
    still : get_elem? one_left j ≡ some (added r)
    still =
        let apart : i ≢ j = λ e. ground arith in
        get_elem?-set_ne (set s.threads i (ended (two_63 + 1))) i j finished apart
        ∙ get_elem?-set_ne s.threads i j (ended (two_63 + 1)) apart
        ∙ at_j

    end_then_refuse : step (step (step s i) i) j ≡ none_left
    unfolding move
    end_then_refuse =
        let first : step s i ≡ one_ending = step-at s i active at_i ∙ ground arith in
        let second : step one_ending i ≡ one_refused =
          step-at one_ending i (ended (two_63 + 1))
            (get_elem?-set_self s.threads i active (ended (two_63 + 1)) at_i) in
        let third : step one_refused j ≡ none_left =
          step-at one_refused j (added r) still ∙ ground arith in
        ap (λ t. step (step t i) j) first ∙ ap (λ t. step t j) second ∙ third

    none_left-IsStuck :
        sum_by counted s.threads ≡ 2
        → s.conn.closed + sum_by signalling s.threads ≡ 0
        → IsStuck none_left.conn none_left.threads
    none_left-IsStuck two silent =
        let ending = sum_by-set counted s.threads i active (ended (two_63 + 1)) at_i in
        let mid = get_elem?-set_self s.threads i active (ended (two_63 + 1)) at_i in
        let ended' = sum_by-set counted one_ending.threads i (ended (two_63 + 1)) finished mid in
        let aborted = sum_by-set counted one_left j (added r) refused still in
        let quiet = sum_by-set signalling s.threads i active (ended (two_63 + 1)) at_i in
        let quiet' = sum_by-set signalling one_ending.threads i (ended (two_63 + 1)) finished mid in
        let quiet'' = sum_by-set signalling one_left j (added r) refused still in
        let few = sum_by_mono serving counted serving-le-counted none_left.threads in
        record {
          mark = omega arith;
          unused = omega arith;
          silent = omega arith;
          open_channel = omega arith;
          unreleased = grind arith;
        }

-- If `close` has marked the connection and not closed the channel, exactly two threads are counted,
-- one of them (`i`) with a request in progress and the other (`j`) refused in `startRequest` but not
-- yet back from its `Add(-1)`, then a schedule where `i` ends its request before `j` goes on leaves
-- the channel open for ever: `close` never returns and `doClose` never runs, whatever comes next.
pub close_hangs :
    (s : System) (i j r : ℕ) (is : List ℕ)
    → Inv s.conn s.threads
    → two_63 ≤ s.conn.outstanding_requests
    → s.conn.closed + sum_by signalling s.threads ≡ 0
    → sum_by counted s.threads ≡ 2
    → get_elem? s.threads i ≡ some active
    → get_elem? s.threads j ≡ some (added r)
    → two_63 ≤ r
    → ((run s (i ∷ i ∷ j ∷ is)).conn.closed ≡ 0) × ((run s (i ∷ i ∷ j ∷ is)).conn.released ≡ 0)
unfolding run
close_hangs s i j r is v mark silent two at_i at_j refusal =
    let count : s.conn.outstanding_requests ≡ two_63 + 2 = omega (arith, v.account) in
    let steps = end_then_refuse s i j r v count at_i at_j refusal in
    let left = none_left s i j r v in
    let sound = step-Inv (step (step s i) i) j (step-Inv (step s i) i (step-Inv s i v)) in
    let hangs : Hangs left = (
      subst (λ t. Inv t.conn t.threads) steps sound,
      none_left-IsStuck s i j r v count at_i at_j refusal two silent,
    ) in
    let k = (run-Hangs left is hangs).1 in
    subst (λ t. ((run t is).conn.closed ≡ 0) × ((run t is).conn.released ≡ 0)) (sym steps)
      (k.open_channel, k.unreleased)
