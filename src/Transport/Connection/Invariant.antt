-- ===== src/Transport/Connection/Invariant.antt =====
-- transport.go, `connection`: the counter against the threads that it counts.
use httplb.Prelude.{
  two_63, ℕ, ◌+◌, ◌≤◌, ◌<◌, ◌≡◌, refl, ◌⊎◌, inl, inr, List, [], ◌∷◌, some, arith, ◌==◌,
  if◌then◌else◌, length, length-set, get_elem?, set, All, All-map, ◌≢◌, Option-cases,
}
use httplb.Prelude.Sums.{sum_by, sum_by-set, sum_by_mono, sum_by-le-length, le-sum_by, sum_by-zero}
use httplb.Transport.Connection.{
  min_int64, is_negative, Connection, Pc, idle, added, active, ended, closing, marked, move, System,
  step, run, fresh,
}

-- a thread between its `Add(1)` and its `Add(-1)`
abbrev pub counted : Pc → ℕ
counted (added r) = 1
counted active = 1
counted _ = 0

-- a thread that may use the connection
abbrev pub serving : Pc → ℕ
serving (added r) = if is_negative r then 0 else 1
serving active = 1
serving _ = 0

-- a thread that is about to close the channel
abbrev pub signalling : Pc → ℕ
signalling (ended r) = if r == min_int64 then 1 else 0
signalling (marked v) = if v == min_int64 then 1 else 0
signalling _ = 0

pub record Inv (c : Connection) (ps : List Pc) : Type 0 where
  pub few : length ps < two_63
  pub account :
      (c.outstanding_requests ≡ sum_by counted ps)
      ⊎ (c.outstanding_requests ≡ two_63 + sum_by counted ps)
  pub once : c.closed + sum_by signalling ps ≤ 1
  pub drained :
      0 < c.closed + sum_by signalling ps
      → (two_63 ≤ c.outstanding_requests) × (sum_by serving ps ≡ 0)
  pub after : 0 < c.released → 0 < c.closed

pub counted-le : (p : Pc) → counted p ≤ 1
counted-le p = ground arith

pub serving-le-counted : (p : Pc) → serving p ≤ counted p
serving-le-counted p = ground arith

module _ (c : Connection) (ps : List Pc) (i : ℕ) (v : Inv c ps) where
  open v use {few, account, once, drained, after}

  -- what replacing the entry of thread `i` does to the three sums
  record Moved (p p' : Pc) : Type 0 where
    count : sum_by counted (set ps i p') + counted p ≡ sum_by counted ps + counted p'
    serve : sum_by serving (set ps i p') + serving p ≡ sum_by serving ps + serving p'
    signal : sum_by signalling (set ps i p') + signalling p ≡ sum_by signalling ps + signalling p'
    served : serving p ≤ sum_by serving ps
    room : sum_by counted ps ≤ length ps
    under : sum_by serving ps ≤ sum_by counted ps
    room' : sum_by counted (set ps i p') < two_63
    under' : sum_by serving (set ps i p') ≤ sum_by counted (set ps i p')

  moved : (p p' : Pc) → get_elem? ps i ≡ some p → Moved p p'
  moved p p' h = record {
    count = sum_by-set counted ps i p p' h;
    serve = sum_by-set serving ps i p p' h;
    signal = sum_by-set signalling ps i p p' h;
    served = le-sum_by serving ps i p h;
    room = sum_by-le-length counted counted-le ps;
    under = sum_by_mono serving counted serving-le-counted ps;
    room' = omega (arith, sum_by-le-length counted counted-le (set ps i p'), length-set ps i p');
    under' = sum_by_mono serving counted serving-le-counted (set ps i p');
  }

  -- the invariant after a step of thread `i` from `p` to the connection `d` and `p'`
  abbrev Kept : Connection → Pc → Type 0
  Kept d p' = Inv d (set ps i p')

  move-Inv : (p : Pc) → Moved p (move c p).1 → Kept (move c p).0 (move c p).1
  unfolding move
  move-Inv idle m = record {
    few = omega (arith, length-set ps i (move c idle).1);
    account = ground arith;
    once = ground arith;
    drained = ground arith;
    after = ground arith;
  }
  move-Inv p m = record {
    few = omega (arith, length-set ps i (move c p).1);
    account = ground arith;
    once = ground arith;
    drained = ground arith;
    after = ground arith;
  }

pub step-at :
    (s : System) (i : ℕ) (p : Pc)
    → get_elem? s.threads i ≡ some p
    → step s i ≡ record { conn = (move s.conn p).0; threads = set s.threads i (move s.conn p).1 }
unfolding step
step-at s i p e = rw (e, step)

pub step-Inv : (s : System) (i : ℕ) → Inv s.conn s.threads → Inv (step s i).conn (step s i).threads
unfolding step
step-Inv s i v = elim (Option-cases (get_elem? s.threads i)) [
  | inl e ↦ rw (e, step) v
  | inr (p, e) ↦
      rw (e, step)
        (move-Inv s.conn s.threads i v p (moved s.conn s.threads i v p (move s.conn p).1 e))
]

pub run-Inv :
    (s : System) (is : List ℕ) → Inv s.conn s.threads → Inv (run s is).conn (run s is).threads
unfolding run
run-Inv s [] v = v
run-Inv s (i ∷ is) v = run-Inv (step s i) is (step-Inv s i v)

-- a thread that has not started
abbrev pub IsNew : Pc → Type 0
IsNew idle = Unit
IsNew closing = Unit
IsNew _ = ⊥

sum_by-IsNew :
    (w : Pc → ℕ) → w idle ≡ 0 → w closing ≡ 0 → (ps : List Pc) → All IsNew ps → sum_by w ps ≡ 0
sum_by-IsNew w hi hc ps new = sum_by-zero w ps (All-map IsNew (λ p. w p ≡ 0) ps weightless new)
  where
    weightless : (p : Pc) → IsNew p → w p ≡ 0
    weightless idle h = hi
    weightless closing h = hc
    weightless p h = absurd h

pub fresh-Inv : (ps : List Pc) → All IsNew ps → length ps < two_63 → Inv fresh ps
fresh-Inv ps new few = record {
  few = few;
  account = inl (omega (arith, sum_by-IsNew counted refl refl ps new));
  once = omega (arith, sum_by-IsNew signalling refl refl ps new);
  drained = λ h. absurd (omega (arith, sum_by-IsNew signalling refl refl ps new));
  after = λ h. h;
}

-- a state that threads over a new connection can reach
abbrev pub start : List Pc → System
start ps = record { conn = fresh; threads = ps }

module _ (ps : List Pc) (is : List ℕ) (new : All IsNew ps) (few : length ps < two_63) where
  abbrev now : System
  now = run (start ps) is

  pub start-Inv : Inv now.conn now.threads
  start-Inv = run-Inv (start ps) is (fresh-Inv ps new few)

  -- However the threads of a new connection interleave, the channel `closed` is closed at most once
  -- (a second `close` would panic); once it is closed, and so also when `doClose` has run, no thread
  -- is between a successful `startRequest` and its `endRequest`; and `doClose` runs only after that.
  pub close_after_requests :
      (now.conn.closed ≤ 1)
      × ((j : ℕ) → 0 < now.conn.closed → get_elem? now.threads j ≢ some active)
      × (0 < now.conn.released → now.conn.closed ≡ 1)
  close_after_requests =
      let v = start-Inv in
      (
        omega (arith, v.once),
        λ j h e. omega (arith, le-sum_by serving now.threads j active e, v.drained),
        λ h. omega (arith, v.once, v.after),
      )
