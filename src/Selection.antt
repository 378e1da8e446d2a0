-- ===== src/Selection.antt =====
-- Choosing a host for a machine: `selectHostForClaim` of
-- controllers/infrastructure/byomachine_controller.go. `roundRobinIndex` is the state that the
-- reconciler keeps in memory, an index for each cluster. Indexing a Go slice out of range panics;
-- the model says so with a constructor of its own.
pub mod Fitting
pub mod Choice
pub mod Rounds
use cluster_api_provider_bri.Prelude.{
  ℕ, suc, ◌+◌, ◌%◌, ◌==◌, ℤ, pos, ltℤ, pos_part, neg_part, String, Bool, true, false, ◌&&◌, Option,
  none, some, List, [], ◌∷◌, select, length, get_elem?, if◌then◌else◌,
}
use cluster_api_provider_bri.Prelude.Dict.{Dict, lookup, insert}
use cluster_api_provider_bri.Api.Quantity.{Quantity, QuantityOps}
use cluster_api_provider_bri.Api.Host.{ByoHost, is_available, get_priority, matches_requirements}

pub data Selection : Type 0 where
  nil panic : Selection
  host : ByoHost → Selection

abbrev pub eqℤ : ℤ → ℤ → Bool
eqℤ a b = pos_part a + neg_part b == pos_part b + neg_part a

-- A cluster with no entry yet is given index 0.
abbrev pub or_zero : Option ℕ → ℕ
or_zero none = 0
or_zero (some i) = i

module _ (q : QuantityOps) where
  -- The two `continue`s of the first loop.
  unfoldable pub is_candidate : Option (Dict Quantity) → ByoHost → Bool
  is_candidate none h = is_available h
  is_candidate (some required) h = is_available h && matches_requirements q h [] required

  -- The second loop, from what `maxPriority` is so far.
  unfoldable pub max_priority : ℤ → List ByoHost → ℤ
  max_priority m [] = m
  max_priority m (h ∷ hosts) =
      max_priority (if ltℤ m (get_priority h) then get_priority h else m) hosts

  unfoldable pub available_hosts : Option (Dict Quantity) → List ByoHost → List ByoHost
  available_hosts required hosts = select (is_candidate required) hosts

  -- The third loop.
  unfoldable pub high_priority_hosts : List ByoHost → List ByoHost
  high_priority_hosts available =
      select (λ h. eqℤ (get_priority h) (max_priority (pos 0) available)) available

  abbrev pub current_index : String → Dict ℕ → ℕ
  current_index cluster index = or_zero (lookup cluster index)

  -- `&highPriorityHosts[currentIndex]`, and the step to the next index.
  unfoldable pub take_turn : String → Dict ℕ → List ByoHost → Selection × Dict ℕ
  take_turn cluster index hosts = elim (get_elem? hosts (current_index cluster index)) [
    | none ↦ (panic, index)
    | some h ↦ (host h, insert cluster ((current_index cluster index + 1) % length hosts) index)
  ]

  unfoldable pub pick : String → Dict ℕ → List ByoHost → Selection × Dict ℕ
  pick cluster index [] = (nil, index)
  pick cluster index (h ∷ available) = take_turn cluster index (high_priority_hosts (h ∷ available))

  unfoldable pub select_host_for_claim :
      List ByoHost → String → Option (Dict Quantity) → Dict ℕ → Selection × Dict ℕ
  unfolding pick take_turn high_priority_hosts max_priority available_hosts is_candidate
  select_host_for_claim hosts cluster required index =
      pick cluster index (available_hosts required hosts)
