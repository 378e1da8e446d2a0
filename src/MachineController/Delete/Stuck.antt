-- ===== src/MachineController/Delete/Stuck.antt =====
-- The deletion of a machine, with the ByoHost controller beside it and no agent.
use cluster_api_provider_bri.Prelude.{◌≡◌, refl, ℤ}
use cluster_api_provider_bri.Api.Conditions.{ConditionOps}
use cluster_api_provider_bri.Api.Host.{ByoHost}
use cluster_api_provider_bri.HostController.{Env, handle}
use cluster_api_provider_bri.MachineController.Server.{Server}
use cluster_api_provider_bri.MachineController.Delete.{marked}

-- The labels and the deletion time are those of the other host.
pub record IsKept (h k : ByoHost) : Type 0 where
  pub labels : k.meta.labels ≡ h.meta.labels
  pub deletion : k.meta.deletion_timestamp ≡ h.meta.deletion_timestamp

abbrev kept : {h : ByoHost} → IsKept h h
kept = record { labels = refl; deletion = refl }

-- The hosts that the two controllers make of a host: the machine's controller marks it, and the
-- host's controller reconciles it, at any time and with any replies.
pub data Reaches (c : ConditionOps) (h : ByoHost) : ByoHost → Type 0 where
  start : Reaches c h h
  marks : {k : ByoHost} → Reaches c h k → Reaches c h (marked k)
  reconciles :
      {k : ByoHost} (env : Env) (timeout : ℤ)
      → Reaches c h k
      → Reaches c h (handle c env timeout k).host
