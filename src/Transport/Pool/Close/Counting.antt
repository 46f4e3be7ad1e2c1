-- ===== src/Transport/Pool/Close/Counting.antt =====
-- transport.go, transportPool.close: how often something is in what close does.
use httplb.Prelude.{
  ℕ, ◌+◌, ◌≡◌, refl, ap, ◌∙◌, Bool, true, false, not, ◌&&◌, ◌||◌, List, [], ◌∷◌, ◌++◌, ◌-◌, map,
  arith, ◌==◌, if◌then◌else◌, length, keep, contains,
}
use httplb.Transport.Pool.Close.{
  Closing, close_resolver, close_balancer, close_conn, complete, on_close, await_complete, finish,
  drop_one, Method, make, remove, finished, close, returned,
}

abbrev pub is_close : Method → Bool
is_close close = true
is_close _ = false

abbrev pub any_close : List Method → Bool
any_close [] = false
any_close (m ∷ ms) = is_close m || any_close ms

abbrev pub same_closing : Closing → Closing → Bool
same_closing close_resolver close_resolver = true
same_closing close_balancer close_balancer = true
same_closing complete complete = true
same_closing on_close on_close = true
same_closing _ _ = false

abbrev pub times : Closing → List Closing → ℕ
times e [] = 0
times e (f ∷ fs) = (if same_closing f e then 1 else 0) + times e fs

pub times-append :
    (e : Closing) (xs ys : List Closing) → times e (xs ++ ys) ≡ times e xs + times e ys
times-append e [] ys = omega arith
times-append e (x ∷ xs) ys = omega (arith, times-append e xs ys)

-- the four things that one call of close does for the pool itself
abbrev pub IsOnce : Closing → Type 0
IsOnce (close_conn c) = ⊥
IsOnce await_complete = ⊥
IsOnce _ = Unit

other_closing : (c : ℕ) (e : Closing) → IsOnce e → same_closing (close_conn c) e ≡ false
other_closing c close_resolver i = refl
other_closing c close_balancer i = refl
other_closing c complete i = refl
other_closing c on_close i = refl
other_closing c (close_conn d) i = elim i [ ]
other_closing c await_complete i = elim i [ ]

no_conn : (e : Closing) (cs : List ℕ) → IsOnce e → times e (map close_conn cs) ≡ 0
no_conn e [] i = refl
no_conn e (c ∷ cs) i =
    ap (λ b. (if b then 1 else 0) + times e (map close_conn cs)) (other_closing c e i)
    ∙ omega (arith, no_conn e cs i)

abbrev pub starts : ℕ → List ℕ → ℕ
starts c xs = length (keep (λ x. x == c) xs)

pub starts-append : (c : ℕ) (xs ys : List ℕ) → starts c (xs ++ ys) ≡ starts c xs + starts c ys
starts-append c [] ys = omega arith
starts-append c (x ∷ xs) ys = ground (arith, starts-append c xs ys)

pub starts-drop_one :
    (c d : ℕ) (xs : List ℕ) → starts c (drop_one d xs) ≡ starts c xs - (if d == c then 1 else 0)
unfolding drop_one
starts-drop_one c d [] = ground arith
starts-drop_one c d (x ∷ xs) = ground (arith, starts-drop_one c d xs)

pub starts-absent :
    (c d : ℕ) (xs : List ℕ)
    → contains xs d ≡ false
    → starts c xs ≡ starts c xs - (if d == c then 1 else 0)
starts-absent c d [] h = ground arith
starts-absent c d (x ∷ xs) h = ground (arith, starts-absent c d xs)

-- whether something is awaited
abbrev pub some_left : List ℕ → Bool
some_left [] = false
some_left (x ∷ xs) = true

-- the connections whose close returns
abbrev pub returns : List Method → List ℕ
returns [] = []
returns (m ∷ ms) = elim m [
  | make ↦ returns ms
  | remove c ↦ returns ms
  | finished c ↦ returns ms
  | close ↦ returns ms
  | returned c ↦ c ∷ returns ms
]

-- whether a thing is done only after the wait
abbrev pub waits : Closing → Bool
waits complete = true
waits on_close = true
waits _ = false

pub finish_lem :
    (e : Closing) (xs : List ℕ)
    → IsOnce e
    → times e (finish xs) ≡ (if waits e && not (some_left xs) then 1 else 0)
unfolding finish
finish_lem close_resolver [] i = refl
finish_lem close_resolver (x ∷ xs) i = refl
finish_lem close_balancer [] i = refl
finish_lem close_balancer (x ∷ xs) i = refl
finish_lem complete [] i = refl
finish_lem complete (x ∷ xs) i = refl
finish_lem on_close [] i = refl
finish_lem on_close (x ∷ xs) i = refl
finish_lem (close_conn c) xs i = elim i [ ]
finish_lem await_complete xs i = elim i [ ]

-- what the first call of close does at once
pub begin_lem :
    (e : Closing) (xs cs : List ℕ)
    → IsOnce e
    → times e (close_resolver ∷ close_balancer ∷ (map close_conn cs ++ finish xs))
      ≡ (if waits e && some_left xs then 0 else 1)
begin_lem e xs cs i =
    let apart = times-append e (map close_conn cs) (finish xs) in
    let none_here = no_conn e cs i in
    let ends = finish_lem e xs i in
    elim e
        as (λ e.
          (times e (map close_conn cs ++ finish xs)
            ≡ times e (map close_conn cs) + times e (finish xs))
          → (times e (map close_conn cs) ≡ 0)
          → (times e (finish xs) ≡ (if waits e && not (some_left xs) then 1 else 0))
          → IsOnce e
          → times e (close_resolver ∷ close_balancer ∷ (map close_conn cs ++ finish xs))
            ≡ (if waits e && some_left xs then 0 else 1)) [
              | close_resolver ↦ λ p q r i. ground (arith, p, q, r)
              | close_balancer ↦ λ p q r i. ground (arith, p, q, r)
              | complete ↦ λ p q r i. ground (arith, p, q, r)
              | on_close ↦ λ p q r i. ground (arith, p, q, r)
              | close_conn c ↦ λ p q r i. elim i [ ]
              | await_complete ↦ λ p q r i. elim i [ ]
            ]
      apart none_here ends i
