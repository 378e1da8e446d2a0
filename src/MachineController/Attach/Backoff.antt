-- ===== src/MachineController/Attach/Backoff.antt =====
-- How long and how often `attachByoHost` sleeps.
use cluster_api_provider_bri.Prelude.{
  Option, none, some, ℕ, zero, suc, ◌+◌, ◌-◌, ◌≤◌, List, [], ◌∷◌, length, arith,
}
use cluster_api_provider_bri.Api.Meta.{Error, Result, ok, err}
use cluster_api_provider_bri.Api.Conditions.{ConditionOps}
use cluster_api_provider_bri.Api.Quantity.{QuantityOps}
use cluster_api_provider_bri.Api.Host.{ByoHost}
use cluster_api_provider_bri.Selection.{Selection, nil, panic, host}
use cluster_api_provider_bri.MachineController.Server.{Server, Scope, World, max_retries}
use cluster_api_provider_bri.MachineController.Lease.{exponential_backoff}
use cluster_api_provider_bri.MachineController.Attach.{
  Attempt, attached, retry, refused, Attached, next_turn, selected_turn, attach_loop, attach_listed,
  attach_selected, attach_byo_host,
}

abbrev pub sum : List ℕ → ℕ
sum [] = 0
sum (n ∷ ns) = n + sum ns

-- What the turns that are left can sleep.
turns : ℕ → ℕ
turns zero = 0
turns (suc left) = exponential_backoff (max_retries - suc left) + turns left

-- The time slept grows by at most `bound`, and its entries by at most `left`.
abbrev Within : {S : Type 0} → ℕ → ℕ → World S → World S → Type 0
Within left bound w v =
    (sum v.slept ≤ sum w.slept + bound) × (length v.slept ≤ length w.slept + left)

module _ {S : Type 0} (a : Server S) (c : ConditionOps) (q : QuantityOps) (p : Scope) where
  next_turn-Within :
      (again : World S → World S × Attached) (n left bound : ℕ) (w : World S) (r : S × Attempt)
      → ((v : World S) → Within left bound v (again v).0)
      → Within (suc left) (exponential_backoff n + bound) w (next_turn a c q p again n w r).0
  unfolding next_turn
  next_turn-Within again n left bound w (s, attached h) later = (omega arith, omega arith)
  next_turn-Within again n left bound w (s, retry) later =
      let rest = later (record w { server = s; slept = exponential_backoff n ∷ w.slept }) in
      (omega (arith, rest.0), omega (arith, rest.1))
  next_turn-Within again n left bound w (s, refused e) later = (omega arith, omega arith)
  next_turn-Within again n left bound w (s, Attempt.crashed) later = (omega arith, omega arith)

  selected_turn-Within :
      (again : World S → World S × Attached) (n left bound : ℕ) (w : World S) (chosen : Selection)
      → ((v : World S) → Within left bound v (again v).0)
      → Within
          (suc left)
          (exponential_backoff n + bound)
          w
          (selected_turn a c q p again n w chosen).0
  unfolding selected_turn
  selected_turn-Within again n left bound w nil later = (omega arith, omega arith)
  selected_turn-Within again n left bound w panic later = (omega arith, omega arith)
  selected_turn-Within again n left bound w (host h) later =
      next_turn-Within again n left bound w _ later

  attach_loop-Within :
      (left : ℕ) (hosts : List ByoHost) (w : World S)
      → Within left (turns left) w (attach_loop a c q p left hosts w).0
  unfolding attach_loop turns
  attach_loop-Within zero hosts w = (omega arith, omega arith)
  attach_loop-Within (suc left) hosts w =
      selected_turn-Within (attach_loop a c q p left hosts) (max_retries - suc left) left
        (turns left) _ _ (λ v. attach_loop-Within left hosts v)

  attach_listed-Within :
      (w : World S) (r : S × Result {0} (List ByoHost))
      → Within 5 1500000000 w (attach_listed a c q p w r).0
  unfolding attach_listed turns exponential_backoff
  attach_listed-Within w (s, err e) = (omega arith, omega arith)
  attach_listed-Within w (s, ok []) = (omega arith, omega arith)
  attach_listed-Within w (s, ok (h ∷ hosts)) =
      attach_loop-Within max_retries (h ∷ hosts) (record w { server = s })

  attach_selected-Within :
      (e : Option Error) (w : World S) → Within 5 1500000000 w (attach_selected a c q p e w).0
  unfolding attach_selected
  attach_selected-Within (some e) w = (omega arith, omega arith)
  attach_selected-Within none w = attach_listed-Within w _

  -- `attachByoHost` sleeps at most five times, and at most a second and a half over all.
  pub attach_bounded :
      (w : World S)
      → let slept = (attach_byo_host a c q p w).0.slept in
        (sum slept ≤ sum w.slept + 1500000000) × (length slept ≤ length w.slept + 5)
  unfolding attach_byo_host
  attach_bounded w = attach_selected-Within _ w
