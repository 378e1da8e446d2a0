-- ===== src/Admission/Webhook.antt =====
-- Deleting a ByoHost over the life of its claim.
use cluster_api_provider_bri.Prelude.{◌≡◌, refl, String, none, some}
use cluster_api_provider_bri.Api.Meta.{ObjectReference, Result, ok, FinalizerOps}
use cluster_api_provider_bri.Api.Conditions.{ConditionOps}
use cluster_api_provider_bri.Api.Quantity.{QuantityOps}
use cluster_api_provider_bri.Api.Host.{ByoHost}
use cluster_api_provider_bri.MachineController.Server.{Server, Scope, World}
use cluster_api_provider_bri.MachineController.Attach.{attached_to, attach_byo_host}
use cluster_api_provider_bri.MachineController.Attach.Claims.{attach-IsClaimed}
use cluster_api_provider_bri.MachineController.Delete.{reconcile_delete}
use cluster_api_provider_bri.MachineController.Delete.Finalizer.{host_of, delete-IsMarked}
use cluster_api_provider_bri.Admission.{allowed, denied_with, delete, handle_delete, handle}

bound_denied :
    (h : ByoHost) (ref : ObjectReference) (user : String) (new : Result {0} ByoHost)
    → h.status.machine_ref ≡ some ref
    → handle delete user new (ok h) ≡ denied_with
unfolding handle handle_delete
bound_denied h ref user new bound = rw bound refl

free_allowed :
    (h : ByoHost) (user : String) (new : Result {0} ByoHost)
    → h.status.machine_ref ≡ none
    → handle delete user new (ok h) ≡ allowed
unfolding handle handle_delete
free_allowed h user new free = rw free refl

-- A host that `attachByoHost` returns cannot be deleted, whoever asks; once the deletion of a machine
-- that it is attached to has been reconciled, and the host is not being deleted already, it can.
pub deletion_follows_claim :
    {S : Type 0} (a : Server S) (c : ConditionOps) (q : QuantityOps) (f : FinalizerOps) (p : Scope)
    (w : World S) (h : ByoHost) (deleted : Scope) (later : World S) (user : String)
    (new : Result {0} ByoHost)
    → (attach_byo_host a c q p w).1 ≡ attached_to h
    → deleted.byo_host ≡ some h
    → h.meta.deletion_timestamp ≡ none
    → (handle delete user new (ok h) ≡ denied_with)
      × (k : ByoHost) × (host_of (reconcile_delete a f deleted later) ≡ some k)
      × (handle delete user new (ok k) ≡ allowed)
deletion_follows_claim a c q f p w h deleted later user new attached held alive =
    let claimed = attach-IsClaimed a c q p w h attached in
    let marked = delete-IsMarked a f deleted h later held alive in
    (
      bound_denied h _ user new claimed.0.machine_ref,
      marked.0,
      marked.1,
      free_allowed marked.0 user new marked.2.no_machine,
    )
