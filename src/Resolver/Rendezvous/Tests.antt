-- ===== src/Resolver/Rendezvous/Tests.antt =====
-- Runs of the subsetting on small inputs.
use httplb.Prelude.{◌*◌, ◌%◌, ◌≡◌, refl, none, some, [], ◌∷◌}
use httplb.Prelude.Int.{pos, negsuc}
use httplb.Heap.{init, fix}
use httplb.Resolver.Rendezvous.{
  RendezvousConfig, Subsetter, created, murmur_hash, rendezvous_hash_subsetter, make_subsetter,
  rank_of, on_resolve_subset, select, new_address_heap, compute_subset, top_k,
}
use httplb.Resolver.Rendezvous.Subset.{PassedOn, on_resolve_subset_correct}

-- the two that rank highest of four
two_of_four : compute_subset (λ a. a * 7 % 10) (pos 2) (1 ∷ 2 ∷ 3 ∷ 4 ∷ []) ≡ some (1 ∷ 4 ∷ [])
unfolding compute_subset top_k select new_address_heap init fix
two_of_four = refl

-- connection `a` is at the host and port of the single byte `a`; two are asked for
abbrev config : RendezvousConfig
config = record { num_backends = pos 2; selection_key = 7 ∷ []; hash = none }

abbrev subsetter : Subsetter
subsetter = record { key = 7 ∷ []; k = pos 2; hash = murmur_hash }

config_created : rendezvous_hash_subsetter murmur_hash none config ≡ created subsetter
unfolding rendezvous_hash_subsetter make_subsetter
config_created = refl

-- a negative number is accepted, and then every resolution panics
negative_panics :
    (rendezvous_hash_subsetter murmur_hash none (record config { num_backends = negsuc 0 })
      ≡ created (record subsetter { k = negsuc 0 }))
    × (on_resolve_subset (record subsetter { k = negsuc 0 }) (λ a. a ∷ []) [] ≡ none)
unfolding rendezvous_hash_subsetter make_subsetter on_resolve_subset compute_subset
negative_panics = (refl, refl)

on_resolve_subset_correct_example :
    PassedOn
      (λ a. rank_of murmur_hash (7 ∷ []) (a ∷ []))
      (pos 2)
      (1 ∷ 2 ∷ 3 ∷ 4 ∷ [])
      (on_resolve_subset subsetter (λ a. a ∷ []) (1 ∷ 2 ∷ 3 ∷ 4 ∷ []))
on_resolve_subset_correct_example =
    on_resolve_subset_correct murmur_hash none config subsetter (λ a. a ∷ []) (1 ∷ 2 ∷ 3 ∷ 4 ∷ [])
      config_created
