-- ===== src/Tests/Selecting.antt =====
-- The selection tried on two hosts.
use cluster_api_provider_bri.Prelude.{
  ◌≡◌, refl, ◌+◌, ◌%◌, ◌≤ℤ◌, pos, none, some, true, List, [], ◌∷◌, length, get_elem?, In, arith,
}
use cluster_api_provider_bri.Prelude.Dict.{Dict, lookup}
use cluster_api_provider_bri.Api.Host.{
  ByoHost, is_available, get_priority, matches_requirements, matches_selector, matches_capacity,
}
use cluster_api_provider_bri.Api.Quantity.{Quantity}
use cluster_api_provider_bri.Selection.{
  host, panic, is_candidate, max_priority, available_hosts, high_priority_hosts, current_index,
  select_host_for_claim,
}
use cluster_api_provider_bri.Selection.Fitting.{Fits}
use cluster_api_provider_bri.Selection.Choice.{selected-Fits, selected-best}
use cluster_api_provider_bri.Selection.Rounds.{tops, rounds, round_robin, second_claim_panics}
use cluster_api_provider_bri.Tests.{quantities, host_a, host_b}

abbrev pool : List ByoHost
pool = host_a ∷ host_b ∷ []

first_host : (select_host_for_claim quantities pool "c" none []).0 ≡ host host_a
unfolding select_host_for_claim get_priority is_available lookup
first_host = refl

-- Eight CPUs are required; the hosts state twelve.
abbrev eight_cpus : Dict Quantity
eight_cpus = ("cpu", "8") ∷ []

fitting_host : (select_host_for_claim quantities pool "c" (some eight_cpus) []).0 ≡ host host_a
unfolding select_host_for_claim get_priority is_available matches_requirements matches_selector
    matches_capacity lookup
fitting_host = refl

selected-Fits_example : Fits quantities (some eight_cpus) host_a × In host_a pool
selected-Fits_example = selected-Fits quantities pool "c" (some eight_cpus) [] host_a fitting_host

b_fits : is_candidate quantities none host_b ≡ true
unfolding is_candidate is_available
b_fits = refl

a_fits : is_candidate quantities none host_a ≡ true
unfolding is_candidate is_available
a_fits = refl

selected-best_example : get_priority host_b ≤ℤ get_priority host_a
selected-best_example =
    selected-best quantities pool "c" none [] host_a host_b 1 first_host refl b_fits

two_hosts : length (tops quantities pool none) ≡ 2
unfolding available_hosts high_priority_hosts max_priority is_candidate is_available get_priority
two_hosts = refl

round_robin_example :
    (h : ByoHost) × (get_elem?
        (tops quantities pool none)
        ((current_index quantities "c" [] + 3) % length (tops quantities pool none))
      ≡ some h)
    × ((select_host_for_claim quantities pool "c" none (rounds quantities pool "c" none [] 3)).0
        ≡ host h)
unfolding lookup
round_robin_example = round_robin quantities pool "c" none [] (rw two_hosts (omega arith)) 3

priority_zero : (h : ByoHost) → h.spec.priority ≡ none → get_priority h ≡ pos 0
unfolding get_priority
priority_zero h e = rw e refl

second_claim_panics_example :
    let first = select_host_for_claim quantities pool "c" none [] in
    (first.0 ≡ host host_a)
    × ((select_host_for_claim quantities (host_b ∷ []) "c" none first.1).0 ≡ panic)
unfolding lookup
second_claim_panics_example =
    second_claim_panics quantities host_a host_b 0 "c" none [] a_fits b_fits
      (priority_zero host_a refl) (priority_zero host_b refl) refl
