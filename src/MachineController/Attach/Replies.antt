-- ===== src/MachineController/Attach/Replies.antt =====
-- The machine in the replies of `attachByoHost` without a host.
use cluster_api_provider_bri.Prelude.{
  ◌≡◌, refl, ℕ, zero, suc, ◌-◌, Option, none, some, List, [], ◌∷◌,
}
use cluster_api_provider_bri.Api.Meta.{Error, Result, ok, err}
use cluster_api_provider_bri.Api.Conditions.{ConditionOps}
use cluster_api_provider_bri.Api.Quantity.{QuantityOps}
use cluster_api_provider_bri.Api.Host.{ByoHost}
use cluster_api_provider_bri.Selection.{Selection, nil, panic, host}
use cluster_api_provider_bri.MachineController.Server.{Server, Scope, World, max_retries}
use cluster_api_provider_bri.MachineController.Attach.{
  Attempt, attached, retry, refused, Attached, replied, mark_unavailable, next_turn, selected_turn,
  attach_loop, attach_listed, attach_selected, attach_byo_host,
}

-- A reply leaves it as ready as it was.
abbrev pub KeepsReady : Scope → Attached → Type 0
KeepsReady p (replied m r) = m.status.ready ≡ p.byo_machine.status.ready
KeepsReady p _ = Unit

module _ {S : Type 0} (a : Server S) (c : ConditionOps) (q : QuantityOps) (p : Scope) where
  next_turn-KeepsReady :
      (again : World S → World S × Attached) (n : ℕ) (w : World S) (r : S × Attempt)
      → ((v : World S) → KeepsReady p (again v).1)
      → KeepsReady p (next_turn a c q p again n w r).1
  unfolding next_turn
  next_turn-KeepsReady again n w (s, attached h) later = tt
  next_turn-KeepsReady again n w (s, retry) later = later _
  next_turn-KeepsReady again n w (s, refused e) later = refl
  next_turn-KeepsReady again n w (s, Attempt.crashed) later = tt

  selected_turn-KeepsReady :
      (again : World S → World S × Attached) (n : ℕ) (w : World S) (chosen : Selection)
      → ((v : World S) → KeepsReady p (again v).1)
      → KeepsReady p (selected_turn a c q p again n w chosen).1
  unfolding selected_turn
  selected_turn-KeepsReady again n w nil later = refl
  selected_turn-KeepsReady again n w panic later = tt
  selected_turn-KeepsReady again n w (host h) later = next_turn-KeepsReady again n w _ later

  attach_loop-KeepsReady :
      (left : ℕ) (hosts : List ByoHost) (w : World S)
      → KeepsReady p (attach_loop a c q p left hosts w).1
  unfolding attach_loop
  attach_loop-KeepsReady zero hosts w = refl
  attach_loop-KeepsReady (suc left) hosts w =
      selected_turn-KeepsReady (attach_loop a c q p left hosts) (max_retries - suc left) _ _
        (λ v. attach_loop-KeepsReady left hosts v)

  attach_listed-KeepsReady :
      (w : World S) (r : S × Result {0} (List ByoHost)) → KeepsReady p (attach_listed a c q p w r).1
  unfolding attach_listed mark_unavailable
  attach_listed-KeepsReady w (s, err e) = refl
  attach_listed-KeepsReady w (s, ok []) = refl
  attach_listed-KeepsReady w (s, ok (h ∷ hosts)) =
      attach_loop-KeepsReady max_retries (h ∷ hosts) (record w { server = s })

  attach_selected-KeepsReady :
      (e : Option Error) (w : World S) → KeepsReady p (attach_selected a c q p e w).1
  unfolding attach_selected
  attach_selected-KeepsReady (some e) w = refl
  attach_selected-KeepsReady none w = attach_listed-KeepsReady w _

  pub attach-KeepsReady : (w : World S) → KeepsReady p (attach_byo_host a c q p w).1
  unfolding attach_byo_host
  attach-KeepsReady w = attach_selected-KeepsReady _ w
