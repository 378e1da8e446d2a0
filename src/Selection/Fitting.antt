-- ===== src/Selection/Fitting.antt =====
-- What the first loop of the selection lets through.
use mathlib.Core.Bool.{true≢false}
use cluster_api_provider_bri.Prelude.{
  ◌≡◌, ◌≢◌, refl, sym, Ordering, Bool, true, false, not, ◌&&◌, Option, none, some, [], ◌∷◌, is_some,
}
use cluster_api_provider_bri.Prelude.Dict.{Dict, lookup}
use cluster_api_provider_bri.Api.Meta.{ObjectReference}
use cluster_api_provider_bri.Api.Quantity.{Quantity, QuantityOps}
use cluster_api_provider_bri.Api.Host.{
  ByoHost, is_available, enough, matches_selector, matches_capacity, matches_requirements,
}
use cluster_api_provider_bri.Selection.{is_candidate}

-- The host states at least the amount of each resource that is required.
abbrev pub HasCapacity : QuantityOps → ByoHost → Dict Quantity → Type 0
HasCapacity q h [] = Unit {0}
HasCapacity q h ((name, amount) ∷ required) =
    ((stated : Quantity) × (lookup name h.spec.capacity ≡ some stated)
      × (q.cmp stated amount ≢ Ordering.lt))
    × HasCapacity q h required

abbrev pub HasRequired : QuantityOps → ByoHost → Option (Dict Quantity) → Type 0
HasRequired q h none = Unit {0}
HasRequired q h (some required) = HasCapacity q h required

-- The host has no machine, and what is required.
pub record Fits (q : QuantityOps) (required : Option (Dict Quantity)) (h : ByoHost) : Type 0 where
  pub no_machine : h.status.machine_ref ≡ none
  pub capacity : HasRequired q h required

both : (a b : Bool) → (a && b) ≡ true → (a ≡ true) × (b ≡ true)
both true b h = (refl, h)
both false b h = absurd (true≢false (sym h))

module _ (q : QuantityOps) where
  no_reference : (r : Option ObjectReference) → not (is_some r) ≡ true → r ≡ none
  no_reference none h = refl
  no_reference (some _) h = absurd (cc)

  available_free : (h : ByoHost) → is_available h ≡ true → h.status.machine_ref ≡ none
  unfolding is_available
  available_free h e = no_reference h.status.machine_ref e

  not_less :
      (stated amount : Quantity) (o : Ordering)
      → q.cmp stated amount ≡ o
      → elim o as (λ x. Bool) [ Ordering.lt ↦ false | _ ↦ true ] ≡ true
      → q.cmp stated amount ≢ Ordering.lt
  not_less stated amount Ordering.lt e h = absurd (cc)
  not_less stated amount Ordering.eq e h = λ less. absurd (cc)
  not_less stated amount Ordering.gt e h = λ less. absurd (cc)

  enough_stated :
      (found : Option Quantity) (amount : Quantity)
      → enough q found amount ≡ true
      → (stated : Quantity) × (found ≡ some stated) × (q.cmp stated amount ≢ Ordering.lt)
  enough_stated none amount h = absurd (cc)
  enough_stated (some stated) amount h =
      (stated, refl, not_less stated amount (q.cmp stated amount) refl h)

  matches-HasCapacity :
      (h : ByoHost) (required : Dict Quantity)
      → matches_capacity q h required ≡ true
      → HasCapacity q h required
  unfolding matches_capacity
  matches-HasCapacity h [] e = tt
  matches-HasCapacity h ((name, amount) ∷ required) e =
      let parts : (enough q (lookup name h.spec.capacity) amount ≡ true)
          × (matches_capacity q h required ≡ true) =
        both (enough q (lookup name h.spec.capacity) amount) (matches_capacity q h required) e in
      (
        enough_stated (lookup name h.spec.capacity) amount parts.0,
        matches-HasCapacity h required parts.1,
      )

  pub is_candidate-Fits :
      (required : Option (Dict Quantity)) (h : ByoHost)
      → is_candidate q required h ≡ true
      → Fits q required h
  unfolding is_candidate matches_requirements matches_selector
  is_candidate-Fits none h e = record { no_machine = available_free h e; capacity = tt }
  is_candidate-Fits (some required) h e =
      let parts : (is_available h ≡ true) × (matches_capacity q h required ≡ true) =
        both (is_available h) (matches_capacity q h required) e in
      record {
        no_machine = available_free h parts.0;
        capacity = matches-HasCapacity h required parts.1;
      }
