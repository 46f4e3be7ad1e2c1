-- ===== src/Picker/LeastLoaded/Append.antt =====
-- picker/leastloaded.go: new items at the end of the slice, by `append` in newConnHeap and `update`,
-- and by Push.
use httplb.Prelude.{
  ℕ, zero, suc, ◌+◌, ◌≤◌, ◌<◌, ◌≡◌, refl, sym, ap, ap₂, ◌∙◌, inl, inr, List, [], ◌∷◌, ◌++◌, map,
  append-nil, append_assoc, map-append, arith, ltb, ◌==◌, if◌then◌else◌, Bool-cases, length, get_or,
  All, length-append, All-append, All-map, update,
}
use mathlib.Core.Path.{fun_ext}
use httplb.Prelude.Int.{pos}
use httplb.Picker.LeastLoaded.{Item, ConnHeap, at, item, alloc, push, append_new, push_new}
use httplb.Picker.LeastLoaded.Laws.{IsIndexed}
use httplb.Picker.LeastLoaded.Compact.{conn_of}

-- the connections in the slice
abbrev pub conns : ConnHeap → List ℕ
conns h = map (conn_of h.items) h.slice

-- a heap whose items all exist
pub record IsStored (h : ConnHeap) : Type 0 where
  pub indexed : IsIndexed h
  pub below : All (λ p. p < h.next) h.slice

-- What one more item `p` of connection `cn` in the slice comes to.
one_more : ConnHeap → ℕ → ConnHeap
one_more h cn = record {
  items =
      update h.items h.next
        (record { conn = cn; load = 0; tie_break = 0; index = pos (length h.slice) });
  next = suc h.next;
  slice = h.slice ++ h.next ∷ [];
}

append_new_step :
    (h : ConnHeap) (cn : ℕ) (cns : List ℕ)
    → append_new h (cn ∷ cns) ≡ append_new (one_more h cn) cns
unfolding append_new one_more alloc
append_new_step h cn cns = refl

push-alloc : (h : ConnHeap) (cn : ℕ) → push (alloc h cn (pos 0)) h.next ≡ one_more h cn
unfolding one_more push alloc
push-alloc h cn =
    ap (λ f. record { items = f; next = suc h.next; slice = h.slice ++ h.next ∷ [] })
      (fun_ext λ x. ground arith)

-- Both ways of adding the items come to the same heap.
pub push_new-append_new : (h : ConnHeap) (cns : List ℕ) → push_new h cns ≡ append_new h cns
unfolding push_new append_new
push_new-append_new h [] = refl
push_new-append_new h (cn ∷ cns) =
    ap (λ t. push_new t cns) (push-alloc h cn)
    ∙ push_new-append_new (one_more h cn) cns
    ∙ sym (append_new_step h cn cns)

get_or-snoc :
    (xs : List ℕ) (p i : ℕ)
    → get_or (xs ++ p ∷ []) i 0
      ≡ (if ltb i (length xs) then get_or xs i 0 else if i == length xs then p else 0)
get_or-snoc [] p zero = refl
get_or-snoc [] p (suc i) = ground arith
get_or-snoc (x ∷ xs) p zero = ground arith
get_or-snoc (x ∷ xs) p (suc i) = ground (arith, get_or-snoc xs p i)

All-get_or : (n : ℕ) (xs : List ℕ) (i : ℕ) → All (λ p. p < n) xs → i < length xs → get_or xs i 0 < n
All-get_or n [] i h q = absurd (omega arith)
All-get_or n (x ∷ xs) zero h q = h.0
All-get_or n (x ∷ xs) (suc i) h q = All-get_or n xs i h.1 (omega arith)

one_more-IsStored : (h : ConnHeap) (cn : ℕ) → IsStored h → IsStored (one_more h cn)
unfolding one_more
one_more-IsStored h cn v = record {
  indexed = record {
    placed = λ i q.
        let room : i < length h.slice + 1 = rw (length-append h.slice (h.next ∷ [])) at q in
        ground (
          arith,
          get_or-snoc h.slice h.next i,
          v.indexed.placed i,
          All-get_or h.next h.slice i v.below,
          ap pos,
        );
    ties = λ p. ground (arith, v.indexed.ties p);
  };
  below =
      All-append (λ p. p < suc h.next) h.slice (h.next ∷ [])
        (All-map (λ p. p < h.next) (λ p. p < suc h.next) h.slice (λ a l. omega arith) v.below)
        (omega arith, tt);
}

pub append_new-IsStored : (h : ConnHeap) (cns : List ℕ) → IsStored h → IsStored (append_new h cns)
unfolding append_new
append_new-IsStored h [] v = v
append_new-IsStored h (cn ∷ cns) v =
    rw (append_new_step h cn cns)
      (append_new-IsStored (one_more h cn) cns (one_more-IsStored h cn v))

-- Items that exist do not change.
pub append_new-else :
    (h : ConnHeap) (cns : List ℕ) (x : ℕ) → x < h.next → (append_new h cns).items x ≡ h.items x
unfolding append_new one_more
append_new-else h [] x q = refl
append_new-else h (cn ∷ cns) x q =
    ap (λ (t : ConnHeap). t.items x) (append_new_step h cn cns)
    ∙ append_new-else (one_more h cn) cns x (omega arith)
    ∙ ground arith

map-ext :
    (f g : ℕ → ℕ) (P : ℕ → Type 0) (xs : List ℕ)
    → ((x : ℕ) → P x → f x ≡ g x)
    → All P xs
    → map f xs ≡ map g xs
map-ext f g P [] e h = refl
map-ext f g P (x ∷ xs) e h = ap₂ ◌∷◌ (e x h.0) (map-ext f g P xs e h.1)

conns-one_more : (h : ConnHeap) (cn : ℕ) → IsStored h → conns (one_more h cn) ≡ conns h ++ cn ∷ []
unfolding one_more
conns-one_more h cn v =
    let f = conn_of (one_more h cn).items in
    let older =
      map-ext f (conn_of h.items) (λ p. p < h.next) h.slice (λ x q. ground arith) v.below in
    let newest : f h.next ≡ cn = ground arith in
    map-append f h.slice (h.next ∷ []) ∙ ap₂ (λ xs y. xs ++ y ∷ []) older newest

-- The slice gets exactly the new connections, after the old ones.
pub conns-append_new :
    (h : ConnHeap) (cns : List ℕ) → IsStored h → conns (append_new h cns) ≡ conns h ++ cns
unfolding append_new
conns-append_new h [] v = sym (append-nil (conns h))
conns-append_new h (cn ∷ cns) v =
    ap conns (append_new_step h cn cns)
    ∙ conns-append_new (one_more h cn) cns (one_more-IsStored h cn v)
    ∙ ap (λ xs. xs ++ cns) (conns-one_more h cn v)
    ∙ append_assoc (conns h) (cn ∷ []) cns

pub length-append_new :
    (h : ConnHeap) (cns : List ℕ) → length (append_new h cns).slice ≡ length h.slice + length cns
unfolding append_new one_more
length-append_new h [] = omega arith
length-append_new h (cn ∷ cns) =
    ap (λ (t : ConnHeap). length t.slice) (append_new_step h cn cns)
    ∙ omega (arith, length-append_new (one_more h cn) cns, length-append h.slice (h.next ∷ []))

pub at-append_new :
    (h : ConnHeap) (cns : List ℕ) (i : ℕ) → i < length h.slice → at (append_new h cns) i ≡ at h i
unfolding append_new one_more
at-append_new h [] i q = refl
at-append_new h (cn ∷ cns) i q =
    let grown = length-append h.slice (h.next ∷ []) in
    ap (λ t. at t i) (append_new_step h cn cns)
    ∙ at-append_new (one_more h cn) cns i (omega arith)
    ∙ ground (arith, get_or-snoc h.slice h.next i)

-- The slice only grows at its end.
pub slice-append_new :
    (h : ConnHeap) (cns : List ℕ) → (new : List ℕ) × ((append_new h cns).slice ≡ h.slice ++ new)
unfolding append_new one_more
slice-append_new h [] = ([], sym (append-nil h.slice))
slice-append_new h (cn ∷ cns) =
    let (new, e) = slice-append_new (one_more h cn) cns in
    (
      h.next ∷ new,
      ap (λ (t : ConnHeap). t.slice) (append_new_step h cn cns)
          ∙ e
          ∙ append_assoc h.slice (h.next ∷ []) new,
    )

-- An added item has no load.
pub append_new-zero :
    (h : ConnHeap) (cns : List ℕ) (i : ℕ)
    → IsStored h
    → length h.slice ≤ i
    → i < length h.slice + length cns
    → (item (append_new h cns) i).load ≡ 0
unfolding append_new one_more
append_new-zero h [] i v p q = absurd (omega arith)
append_new-zero h (cn ∷ cns) i v p q =
    let grown = length-append h.slice (h.next ∷ []) in
    let more = one_more h cn in
    ap (λ t. (item t i).load) (append_new_step h cn cns) ∙ elim (Bool-cases (i == length h.slice)) [
      | inr later ↦
          append_new-zero more cns i (one_more-IsStored h cn v) (ground arith) (omega arith)
      | inl here ↦
          let place = at-append_new more cns i (ground arith) in
          let pointer : at more i ≡ h.next = ground (arith, get_or-snoc h.slice h.next i) in
          ap (λ x. ((append_new more cns).items x).load) (place ∙ pointer)
          ∙ ap (λ (x : Item). x.load) (append_new-else more cns h.next (omega arith))
          ∙ ground arith
    ]
