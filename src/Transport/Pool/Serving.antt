-- ===== src/Transport/Pool/Serving.antt =====
-- transport.go, transportPool: the picker in use, UpdatePicker, getConnection and prewarm.
use httplb.Prelude.{
  ℕ, ◌+◌, ◌≡◌, refl, ap, Bool, true, false, ◌||◌, Option, none, some, List, [], ◌∷◌, if◌then◌else◌,
}

-- `initialized` counts the calls of close(t.pickerInitialized), and a second one would panic
pub record Serving : Type 0 where
  pub picker : Option ℕ
  pub initialized : ℕ
  pub is_warm : Bool
  pub broadcasts : ℕ
  pub reresolve : Bool

abbrev pub new_serving : Serving
new_serving = record {
  picker = none;
  initialized = 0;
  is_warm = false;
  broadcasts = 0;
  reresolve = false;
}

-- UpdatePicker
unfoldable pub update_picker : Serving → ℕ → Bool → Serving
update_picker s p warm =
    let s' : Serving = elim s.picker [
      | none ↦ record s { picker = some p; initialized = s.initialized + 1 }
      | some _ ↦ record s { picker = some p }
    ] in
    record s' { is_warm = warm; broadcasts = if warm then s'.broadcasts + 1 else s'.broadcasts }

-- ResolveNow
unfoldable pub resolve_now : Serving → Serving
resolve_now s = record s { reresolve = true }

unfoldable pub update_pickers : Serving → List (ℕ × Bool) → Serving
update_pickers s [] = s
update_pickers s ((p, warm) ∷ updates) = update_pickers (update_picker s p warm) updates

pub data Connected (A : Type 0) : Type 0 where
  context_ended : Connected A
  internal_error : Connected A
  picked : A → Connected A

-- getConnection: `waited` is the state when the channel was found closed, none if the context ended
unfoldable pub get_connection : {A : Type 0} → (ℕ → A) → Serving → Option Serving → Connected A
get_connection pick s waited =
    let again : Connected _ = elim waited [
      | none ↦ context_ended
      | some s' ↦ elim s'.picker [ none ↦ internal_error | some p ↦ picked (pick p) ]
    ] in
    elim s.picker [ none ↦ again | some p ↦ picked (pick p) ]

-- what a Wait of prewarm finds when it returns: whether the pool is warm, and the context's error
pub record Woken : Type 0 where
  pub warm : Bool
  pub error : Option ℕ

pub data Prewarmed : Type 0 where
  no_error : Prewarmed
  context_error : ℕ → Prewarmed
  still_waiting : Prewarmed

-- the loop of prewarm over the times at which it looks
unfoldable pub await_warm : List Woken → Prewarmed
await_warm [] = still_waiting
await_warm (w ∷ ws) =
    let rest = await_warm ws in
    if w.warm then no_error else elim w.error [ none ↦ rest | some e ↦ context_error e ]

-- prewarm
unfoldable pub prewarm : (keep_warm warm closed : Bool) → List Woken → Prewarmed
prewarm keep_warm warm closed ws =
    if keep_warm then if warm || closed then no_error else await_warm ws else no_error

-- the last of some updates
abbrev pub newest : ℕ × Bool → List (ℕ × Bool) → ℕ × Bool
newest u [] = u
newest u (v ∷ vs) = newest v vs

abbrev Shows : Serving → ℕ × Bool → ℕ → Type 0
Shows s u closes = (s.picker ≡ some (u.0)) × (s.is_warm ≡ u.1) × (s.initialized ≡ closes)

once_set :
    (updates : List (ℕ × Bool)) (p closes : ℕ) (warm : Bool) (broadcasts : ℕ) (reresolve : Bool)
    → Shows
        (update_pickers
          (record {
            picker = some p;
            initialized = closes;
            is_warm = warm;
            broadcasts = broadcasts;
            reresolve = reresolve;
          })
          updates)
        (newest (p, warm) updates)
        closes
unfolding update_pickers update_picker
once_set [] p closes warm broadcasts reresolve = (refl, refl, refl)
once_set ((q, w) ∷ updates) p closes warm broadcasts reresolve =
    once_set updates q closes w (if w then broadcasts + 1 else broadcasts) reresolve

-- What requests and prewarm find after some updates.
pub record Installed (first : ℕ × Bool) (later : List (ℕ × Bool)) (s : Serving) : Type 0 where
  pub once : s.initialized ≡ 1
  pub warm : s.is_warm ≡ (newest first later).1
  pub found :
      (pick : ℕ → ℕ) (earlier : Serving)
      → get_connection pick earlier (some s)
        ≡ picked (elim earlier.picker [ none ↦ pick (newest first later).0 | some p ↦ pick p ])

-- After any updates the channel that requests wait for has been closed exactly once, the pool is warm as the last update says, and a request that found no picker before finds the last one when its wait ends: it never gets the internal error.
pub picker-Installed :
    (first : ℕ × Bool) (later : List (ℕ × Bool))
    → Installed first later (update_pickers new_serving (first ∷ later))
unfolding update_pickers update_picker get_connection
picker-Installed (p, w) later =
    let s : Serving = record {
      picker = some p;
      initialized = 1;
      is_warm = w;
      broadcasts = if w then 1 else 0;
      reresolve = false;
    } in
    let shows = once_set later p 1 w (if w then 1 else 0) false in
    record {
      once = shows.2;
      warm = shows.1;
      found = λ pick earlier.
          elim earlier.picker
            as (λ o.
              ◌≡◌ {A = Connected ℕ}
                (elim o [
                  | none ↦ elim (update_pickers s later).picker [
                    | none ↦ internal_error
                    | some p ↦ picked (pick p)
                  ]
                  | some p ↦ picked (pick p)
                ])
                (picked (elim o [ none ↦ pick (newest (p, w) later).0 | some p ↦ pick p ]))) [
                  | none ↦
                      ap
                        (λ (o : Option ℕ).
                          let r : Connected ℕ = elim o [
                            | none ↦ internal_error
                            | some p ↦ picked (pick p)
                          ] in
                          r)
                        shows.0
                  | some q ↦ refl
                ];
    }
