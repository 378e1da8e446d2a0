-- ===== src/Selection/Rounds.antt =====
-- Successive selections for one cluster: the turns that `roundRobinIndex` counts.
use cluster_api_provider_bri.Prelude.{
  ℕ, zero, suc, ◌+◌, ◌%◌, ◌<◌, ◌≡◌, ◌≢◌, refl, sym, ap, ◌∙◌, pos, String, true, Option, none, some,
  List, [], ◌∷◌, length, get_elem?, get_elem?-lt_length, arith,
}
use mathlib.Core.Option.{none-ne-some}
use native.Mathlib.Nat.{mod-lt, mod-eq_of_lt, mod-add-mod, add-zero, add_assoc}
use native.Mathlib.Numerals.{add-one}
use text.Mathlib.TextPositions.{eq_refl}
use cluster_api_provider_bri.Prelude.Dict.{Dict, lookup, insert, lookup-insert}
use cluster_api_provider_bri.Api.Quantity.{Quantity, QuantityOps}
use cluster_api_provider_bri.Api.Host.{ByoHost, get_priority}
use cluster_api_provider_bri.Selection.Choice.{select-panics_iff}
use cluster_api_provider_bri.Selection.{
  panic, host, is_candidate, max_priority, available_hosts, high_priority_hosts, current_index,
  take_turn, pick, select_host_for_claim,
}

module _ (q : QuantityOps) where
  -- The hosts of the highest priority that the selection turns among.
  abbrev pub tops : List ByoHost → Option (Dict Quantity) → List ByoHost
  tops hosts required = high_priority_hosts q (available_hosts q required hosts)

  -- What `roundRobinIndex` holds after some selections from the same list.
  pub rounds : List ByoHost → String → Option (Dict Quantity) → Dict ℕ → ℕ → Dict ℕ
  rounds hosts cluster required index zero = index
  rounds hosts cluster required index (suc n) =
      (select_host_for_claim q hosts cluster required (rounds hosts cluster required index n)).1

  current_index-insert :
      (cluster : String) (index : Dict ℕ) (n : ℕ)
      → current_index q cluster (insert cluster n index) ≡ n
  current_index-insert cluster index n = rw (lookup-insert, eq_refl) refl

  pick-turn :
      (cluster : String) (index : Dict ℕ) (available : List ByoHost) (h : ByoHost)
      → get_elem? (high_priority_hosts q available) (current_index q cluster index) ≡ some h
      → available ≢ []
      → pick q cluster index available ≡ (
        host h,
        insert cluster
            ((current_index q cluster index + 1) % length (high_priority_hosts q available))
            index,
      )
  unfolding pick take_turn
  pick-turn cluster index [] h e n = absurd (n refl)
  pick-turn cluster index (x ∷ available) h e n = rw (e, take_turn) refl

  one_top :
      (b : ByoHost) (p : ℕ) (required : Option (Dict Quantity))
      → is_candidate q required b ≡ true
      → get_priority b ≡ pos p
      → tops (b ∷ []) required ≡ b ∷ []
  unfolding available_hosts high_priority_hosts max_priority
  one_top b p required fb pb = ground arith

  available_one :
      (b : ByoHost) (required : Option (Dict Quantity))
      → is_candidate q required b ≡ true
      → available_hosts q required (b ∷ []) ≢ []
  unfolding available_hosts
  available_one b required fb = ground arith

  two_tops :
      (a b : ByoHost) (p : ℕ) (required : Option (Dict Quantity))
      → is_candidate q required a ≡ true
      → is_candidate q required b ≡ true
      → get_priority a ≡ pos p
      → get_priority b ≡ pos p
      → tops (a ∷ b ∷ []) required ≡ a ∷ b ∷ []
  unfolding available_hosts high_priority_hosts max_priority
  two_tops a b p required fa fb pa pb = ground arith

  tops-nil : high_priority_hosts q [] ≡ []
  unfolding high_priority_hosts
  tops-nil = refl

  nonempty :
      (available : List ByoHost) (i : ℕ) (h : ByoHost)
      → get_elem? (high_priority_hosts q available) i ≡ some h
      → available ≢ []
  nonempty [] i h e _ = none-ne-some h (rw tops-nil at e)
  nonempty (x ∷ available) i h e p = cc

  select-turn :
      (hosts : List ByoHost) (cluster : String) (required : Option (Dict Quantity)) (index : Dict ℕ)
      (h : ByoHost)
      → get_elem? (tops hosts required) (current_index q cluster index) ≡ some h
      → select_host_for_claim q hosts cluster required index ≡ (
        host h,
        insert cluster ((current_index q cluster index + 1) % length (tops hosts required)) index,
      )
  unfolding select_host_for_claim
  select-turn hosts cluster required index h e =
      pick-turn cluster index (available_hosts q required hosts) h e (nonempty _ _ h e)

  module _ (hosts : List ByoHost) (cluster : String) (required : Option (Dict Quantity))
      (index : Dict ℕ) (within : current_index q cluster index < length (tops hosts required)) where
    turn-lt :
        (n : ℕ)
        → (current_index q cluster index + n) % length (tops hosts required)
          < length (tops hosts required)
    turn-lt n = mod-lt _ (omega arith)

    rounds-index :
        (n : ℕ)
        → current_index q cluster (rounds hosts cluster required index n)
          ≡ (current_index q cluster index + n) % length (tops hosts required)
    unfolding rounds
    rounds-index zero = rw add-zero (sym (mod-eq_of_lt within))
    rounds-index (suc n) =
        let (h, at) = get_elem?-lt_length (tops hosts required) _ (turn-lt n) in
        let ih = rounds-index n in
        let turn =
          select-turn hosts cluster required (rounds hosts cluster required index n) h (rw ih at) in
        ap (λ r. current_index q cluster r.1) turn
        ∙ current_index-insert cluster _ _
        ∙ rw (ih, mod-add-mod, add_assoc, add-one)

    -- From an index in range, repeated selections from the same hosts never panic: the selection
    -- after n others takes the host n places further round the hosts of the highest priority.
    pub round_robin :
        (n : ℕ)
        → (h : ByoHost) × (get_elem?
              (tops hosts required)
              ((current_index q cluster index + n) % length (tops hosts required))
            ≡ some h)
          × ((select_host_for_claim q hosts cluster required
                (rounds hosts cluster required index n)).0
              ≡ host h)
    round_robin n =
        let (h, at) = get_elem?-lt_length (tops hosts required) _ (turn-lt n) in
        (
          h,
          at,
          rw (
              select-turn hosts cluster required (rounds hosts cluster required index n) h
                (rw (rounds-index n) at)),
        )

  -- Two available hosts of one priority, of at least 0, and no selection for the cluster before:
  -- the first selection takes the first host, and once that host has left the list of the free
  -- hosts, the next selection for the cluster panics although the second host is free.
  pub second_claim_panics :
      (a b : ByoHost) (p : ℕ) (cluster : String) (required : Option (Dict Quantity))
      (index : Dict ℕ)
      → is_candidate q required a ≡ true
      → is_candidate q required b ≡ true
      → get_priority a ≡ pos p
      → get_priority b ≡ pos p
      → lookup cluster index ≡ none
      → let first = select_host_for_claim q (a ∷ b ∷ []) cluster required index in
        (first.0 ≡ host a) × ((select_host_for_claim q (b ∷ []) cluster required first.1).0 ≡ panic)
  second_claim_panics a b p cluster required index fa fb pa pb fresh =
      let two = two_tops a b p required fa fb pa pb in
      let one = one_top b p required fb pb in
      let turn = select-turn (a ∷ b ∷ []) cluster required index a (rw (two, fresh) refl) in
      let at_one : current_index q cluster
            (select_host_for_claim q (a ∷ b ∷ []) cluster required index).1
          ≡ 1 =
        ap (λ r. current_index q cluster r.1) turn
        ∙ current_index-insert cluster _ _
        ∙ rw (two, fresh) refl in
      (
        ap (λ r. r.0) turn,
        (select-panics_iff q (b ∷ []) cluster required _).1
            (available_one b required fb, omega (arith, ap length one, at_one)),
      )
