-- ===== src/Client/Defaults.antt =====
-- client.go, applyDefaults: what a setting becomes that no option has spoken of.
use httplb.Prelude.{
  ℕ, zero, suc, ◌≡◌, refl, ap, sym, ◌∙◌, true, false, ◌||◌, Option, none, some, List, [], ◌∷◌, ◌==◌,
  if◌then◌else◌, arith, Bool-cases, Option-cases, inl, inr, ==→eq,
}
use httplb.Prelude.Int.{ℤ, pos, negsuc}
use httplb.Transport.Target.{http, https, h2c}
use httplb.Client.{
  ClientOptions, Transport, simple_transport, h2c_transport, RedirectFunc, use_last_response, Known,
  lookup, insert, or_default, or_duration, or_transport, apply_defaults,
}
use httplb.Client.Last.{Choice, transport, option_of, given, transport_in}

lookup-insert :
    (scheme other : ℕ) (made : Transport) (schemes : List (ℕ × Transport))
    → lookup other (insert scheme made schemes)
      ≡ (if scheme == other then some made else lookup other schemes)
unfolding insert lookup
lookup-insert scheme other made [] = refl
lookup-insert scheme other made ((key, old) ∷ schemes) =
    ground (arith, lookup-insert scheme other made schemes)

abbrev pub scheme_transport : ℕ → ClientOptions → Option Transport
scheme_transport s o = lookup s (elim o.schemes [ none ↦ [] | some m ↦ m ])

pub transport_step :
    (s : ℕ) (k : Known) (c : Choice) (o : ClientOptions)
    → scheme_transport s (option_of k c o) ≡ given (transport_in s c) (scheme_transport s o)
unfolding option_of
transport_step s k (transport scheme t) o =
    lookup-insert scheme s t (elim o.schemes [ none ↦ [] | some m ↦ m ])
    ∙ elim (scheme == s)
        as (λ b.
          (if b then some t else scheme_transport s o)
          ≡ given (if b then some (some t) else none) (scheme_transport s o)) [
            | true ↦ refl
            | false ↦ refl
          ]
transport_step s k _ o = refl

-- the transport that serves a scheme if no option names one
abbrev pub default_transport : ℕ → Option Transport
default_transport s =
    if s == http || s == https
    then some simple_transport
    else if s == h2c
    then some h2c_transport
    else none

abbrev pub or_else {ℓ} : {A : Type ℓ} → Option A → Option A → Option A
or_else none d = d
or_else (some a) d = some a

lookup-or_transport :
    (s k : ℕ) (v : Transport) (m : List (ℕ × Transport))
    → lookup s (or_transport k v m) ≡ or_else (lookup s m) (if k == s then some v else none)
unfolding or_transport
lookup-or_transport s k v m = elim (Bool-cases (k == s)) [
  | inl e ↦
      let same : lookup s m ≡ lookup k m = ap (λ n. lookup n m) (sym (==→eq k s e)) in
      elim (Option-cases (lookup k m)) [
        | inl absent ↦ ground (arith, lookup-insert k s v m)
        | inr (t, present) ↦ ground (arith, present)
      ]
  | inr e ↦ elim (Option-cases (lookup k m)) [
    | inl absent ↦ elim (Option-cases (lookup s m)) [
      | inl none_here ↦ ground (arith, lookup-insert k s v m)
      | inr (u, here) ↦ ground (arith, lookup-insert k s v m, here)
    ]
    | inr (t, present) ↦ elim (Option-cases (lookup s m)) [
      | inl none_here ↦ ground (arith, present)
      | inr (u, here) ↦ ground (arith, present, here)
    ]
  ]
]

three_defaults :
    (s : ℕ) (x : Option Transport)
    → or_else
        (or_else
          (or_else x (if http == s then some simple_transport else none))
          (if https == s then some simple_transport else none))
        (if h2c == s then some h2c_transport else none)
      ≡ or_else x (default_transport s)
three_defaults s none = ground arith
three_defaults s (some t) = refl

pub or_default-or_else : (x : Option ℕ) (d : ℕ) → or_default x d ≡ or_else x (some d)
unfolding or_default
or_default-or_else none d = refl
or_default-or_else (some a) d = refl

pub default_redirect :
    (x : Option RedirectFunc)
    → ◌≡◌ {A = Option RedirectFunc}
        (elim x [ none ↦ some (λ req via. some use_last_response) | some f ↦ some f ])
        (or_else x (some (λ req via. some use_last_response)))
default_redirect none = refl
default_redirect (some f) = refl

pub default_transports :
    (s : ℕ) (k : Known) (o : ClientOptions)
    → scheme_transport s (apply_defaults k o) ≡ or_else (scheme_transport s o) (default_transport s)
unfolding apply_defaults
default_transports s k o =
    let m : List (ℕ × Transport) = elim o.schemes [ none ↦ [] | some m ↦ m ] in
    let one : List (ℕ × Transport) = or_transport http simple_transport m in
    let two : List (ℕ × Transport) = or_transport https simple_transport one in
    lookup-or_transport s h2c h2c_transport two
    ∙ ap (λ t. or_else t (if h2c == s then some h2c_transport else none))
        (lookup-or_transport s https simple_transport one
          ∙ ap (λ t. or_else t (if https == s then some simple_transport else none))
              (lookup-or_transport s http simple_transport m))
    ∙ three_defaults s (lookup s m)

-- a duration or a size that is used if it is not zero
abbrev pub unless_zero : ℤ → ℤ → ℤ
unless_zero (pos zero) d = d
unless_zero (pos (suc n)) d = pos (suc n)
unless_zero (negsuc n) d = negsuc n

pub or_duration-unless_zero : (x d : ℤ) → or_duration x d ≡ unless_zero x d
unfolding or_duration
or_duration-unless_zero (pos zero) d = refl
or_duration-unless_zero (pos (suc n)) d = ground arith
or_duration-unless_zero (negsuc n) d = refl
