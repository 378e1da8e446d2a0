-- ===== src/Selection/Choice.antt =====
-- What a selected host is, and when the selection panics.
use mathlib.Core.Option.{none-ne-some}
use native.Mathlib.Decide.{dec_le}
use cluster_api_provider_bri.Prelude.{
  select-In, ℕ, zero, suc, ◌≤◌, ◌≡◌, ◌≢◌, ◌↔◌, refl, sym, ◌∙◌, ℤ, pos, ltℤ, ◌≤ℤ◌, String, true,
  Option, none, some, List, [], ◌∷◌, length, get_elem?, get_elem?-eq_none, get_elem?-lt_length, In,
  In-select, if◌then◌else◌, arith,
}
use cluster_api_provider_bri.Prelude.Dict.{Dict}
use cluster_api_provider_bri.Api.Quantity.{Quantity, QuantityOps}
use cluster_api_provider_bri.Api.Host.{ByoHost, get_priority}
use cluster_api_provider_bri.Selection.Fitting.{Fits, is_candidate-Fits}
use cluster_api_provider_bri.Selection.{
  panic, host, eqℤ, is_candidate, max_priority, available_hosts, high_priority_hosts, current_index,
  take_turn, pick, select_host_for_claim,
}

panic-past : (hosts : List ByoHost) (i : ℕ) → get_elem? hosts i ≡ none → length hosts ≤ i
panic-past hosts i e = elim (dec_le (length hosts) i) [
  | yes past ↦ past
  | no within ↦
      let m = get_elem?-lt_length hosts i (omega arith) in absurd (none-ne-some m.0 (sym e ∙ m.1))
]

module _ (q : QuantityOps) where
  max_priority-ge : (m : ℤ) (hosts : List ByoHost) → m ≤ℤ max_priority q m hosts
  unfolding max_priority
  max_priority-ge m [] = omega arith
  max_priority-ge m (h ∷ hosts) =
      ground (arith, max_priority-ge m hosts, max_priority-ge (get_priority h) hosts)

  -- No host of the list has a greater priority than the maximum.
  max_priority-bound :
      (m : ℤ) (hosts : List ByoHost) (i : ℕ) (h : ByoHost)
      → get_elem? hosts i ≡ some h
      → get_priority h ≤ℤ max_priority q m hosts
  unfolding max_priority
  max_priority-bound m [] i h e = absurd (none-ne-some h e)
  max_priority-bound m (x ∷ hosts) zero h e =
      ground (arith, max_priority-ge m hosts, max_priority-ge (get_priority x) hosts)
  max_priority-bound m (x ∷ hosts) (suc i) h e =
      max_priority-bound (if ltℤ m (get_priority x) then get_priority x else m) hosts i h e

  take_turn-host :
      (cluster : String) (index : Dict ℕ) (hosts : List ByoHost) (h : ByoHost)
      → (take_turn q cluster index hosts).0 ≡ host h
      → get_elem? hosts (current_index q cluster index) ≡ some h
  unfolding take_turn
  take_turn-host cluster index hosts h e = ground arith

  take_turn-panic :
      (cluster : String) (index : Dict ℕ) (hosts : List ByoHost)
      → (take_turn q cluster index hosts).0 ≡ panic
      → get_elem? hosts (current_index q cluster index) ≡ none
  unfolding take_turn
  take_turn-panic cluster index hosts e = ground arith

  -- Where a host is picked, it stands among those of the highest priority.
  pick-host :
      (cluster : String) (index : Dict ℕ) (available : List ByoHost) (h : ByoHost)
      → (pick q cluster index available).0 ≡ host h
      → In h (high_priority_hosts q available)
  unfolding pick
  pick-host cluster index [] h e = absurd (cc)
  pick-host cluster index (x ∷ available) h e =
      (current_index q cluster index, take_turn-host cluster index _ h e)

  high_priority-max :
      (available : List ByoHost) (h : ByoHost) (i : ℕ)
      → get_elem? (high_priority_hosts q available) i ≡ some h
      → (eqℤ (get_priority h) (max_priority q (pos 0) available) ≡ true) × In h available
  unfolding high_priority_hosts
  high_priority-max available h i e = In-select _ available h i e

  pick-panics_iff :
      (cluster : String) (index : Dict ℕ) (available : List ByoHost)
      → ((pick q cluster index available).0 ≡ panic) ↔ (
          (available ≢ [])
          × (length (high_priority_hosts q available) ≤ current_index q cluster index))
  unfolding pick take_turn
  pick-panics_iff cluster index [] = (λ e. absurd (cc), λ h. absurd (h.0 refl))
  pick-panics_iff cluster index (x ∷ available) =
      let tops = high_priority_hosts q (x ∷ available) in
      let i = current_index q cluster index in
      (
        λ e. (λ n. absurd (cc), panic-past tops i (take_turn-panic cluster index tops e)),
        λ h. rw (get_elem?-eq_none tops i h.1, take_turn) refl,
      )

  -- A selected host is in the list, has no machine, and states at least the amount of each resource
  -- that the machine requires.
  pub selected-Fits :
      (hosts : List ByoHost) (cluster : String) (required : Option (Dict Quantity)) (index : Dict ℕ)
      (h : ByoHost)
      → (select_host_for_claim q hosts cluster required index).0 ≡ host h
      → Fits q required h × In h hosts
  unfolding select_host_for_claim
  selected-Fits hosts cluster required index h e =
      let top = pick-host cluster index (available_hosts q required hosts) h e in
      let m = (high_priority-max (available_hosts q required hosts) h top.0 top.1).1 in
      let passed = In-select (is_candidate q required) hosts h m.0 m.1 in
      (is_candidate-Fits q required h passed.0, passed.1)

  -- No available host with the required capacity has a greater priority than the selected one.
  pub selected-best :
      (hosts : List ByoHost) (cluster : String) (required : Option (Dict Quantity)) (index : Dict ℕ)
      (h other : ByoHost) (i : ℕ)
      → (select_host_for_claim q hosts cluster required index).0 ≡ host h
      → get_elem? hosts i ≡ some other
      → is_candidate q required other ≡ true
      → get_priority other ≤ℤ get_priority h
  unfolding select_host_for_claim
  selected-best hosts cluster required index h other i e at fits =
      let available = available_hosts q required hosts in
      let top = pick-host cluster index available h e in
      let best = (high_priority-max available h top.0 top.1).0 in
      let m = select-In (is_candidate q required) hosts other i at fits in
      let bound = max_priority-bound (pos 0) available m.0 other m.1 in ground (arith, best, bound)

  pub select-panics_iff :
      (hosts : List ByoHost) (cluster : String) (required : Option (Dict Quantity)) (index : Dict ℕ)
      → ((select_host_for_claim q hosts cluster required index).0 ≡ panic) ↔ (
          (available_hosts q required hosts ≢ [])
          × (length (high_priority_hosts q (available_hosts q required hosts))
              ≤ current_index q cluster index))
  unfolding select_host_for_claim
  select-panics_iff hosts cluster required index =
      pick-panics_iff cluster index (available_hosts q required hosts)
