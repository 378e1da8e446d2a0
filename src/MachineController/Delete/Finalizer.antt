-- ===== src/MachineController/Delete/Finalizer.antt =====
-- When the deletion of a machine drops its finalizer.
use cluster_api_provider_bri.Prelude.{
  ℕ, ◌≡◌, refl, ◌∙◌, ap, inl, inr, String, Bool, false, not, ◌||◌, Option, none, some, List, [],
  is_some, Bool-cases, if◌then◌else◌,
}
use cluster_api_provider_bri.Prelude.Dict.{lookup, lookup-insert, lookup-erase}
use cluster_api_provider_bri.Api.Names.{
  host_cleanup_annotation, host_lease_annotation_key, machine_finalizer,
}
use cluster_api_provider_bri.Api.Meta.{ObjectReference, Error, FinalizerOps}
use cluster_api_provider_bri.Api.Host.{ByoHost}
use cluster_api_provider_bri.MachineController.Server.{
  Server, Scope, World, Ended, returned, crashed, set_host,
}
use cluster_api_provider_bri.MachineController.Delete.{
  marked, mark_host_for_cleanup, complete, complete_cleanup, released, timed_out, start_cleanup,
  delete_deleting, delete_since, delete_with, delete_attached, reconcile_delete,
}

abbrev pub finalizers_of : {S : Type 0} → Ended S → List String → List String
finalizers_of (returned w p r) other = p.byo_machine.meta.finalizers
finalizers_of (crashed w) other = other

abbrev pub host_of : {S : Type 0} → Ended S → Option ByoHost
host_of (returned w p r) = p.byo_host
host_of (crashed w) = none

-- The host is gone for the machine: it is being deleted, and has no machine or is late.
abbrev pub gone : ByoHost → (ℕ → Bool) → Bool
gone h late = elim h.meta.deletion_timestamp [
  | none ↦ false
  | some deleted ↦ not (is_some h.status.machine_ref) || late deleted
]

module _ {S : Type 0} (a : Server S) (f : FinalizerOps) where
  deleting-finalizers :
      (p : Scope) (deleted : ℕ) (ref : Option ObjectReference) (w : World S)
      → finalizers_of (delete_deleting a f p deleted ref w) [] ≡ (
          if not (is_some ref) || timed_out a f deleted (a.now w.server).1
          then f.remove_finalizer machine_finalizer p.byo_machine.meta.finalizers
          else p.byo_machine.meta.finalizers)
  unfolding delete_deleting complete complete_cleanup
  deleting-finalizers p deleted none w = refl
  deleting-finalizers p deleted (some _) w =
      elim (Bool-cases (timed_out a f deleted (a.now w.server).1)) [
        | inl late ↦ rw late refl
        | inr early ↦ rw early refl
      ]

  released-finalizers :
      (p : Scope) (w : World S) (r : (S × ByoHost) × Option Error)
      → finalizers_of (released a f p w r) [] ≡ p.byo_machine.meta.finalizers
  unfolding released start_cleanup
  released-finalizers p w ((s, h), some e) = refl
  released-finalizers p w ((s, h), none) = refl

  released-host :
      (p : Scope) (w : World S) (r : (S × ByoHost) × Option Error)
      → host_of (released a f p w r) ≡ some r.0.1
  unfolding released
  released-host p w ((s, h), some e) = refl
  released-host p w ((s, h), none) = refl

  since-finalizers :
      (p : Scope) (h : ByoHost) (since : Option ℕ) (w : World S)
      → h.meta.deletion_timestamp ≡ since
      → finalizers_of (delete_since a f p h since w) [] ≡ (
          if gone h (λ d. timed_out a f d (a.now w.server).1)
          then f.remove_finalizer machine_finalizer p.byo_machine.meta.finalizers
          else p.byo_machine.meta.finalizers)
  unfolding delete_since
  since-finalizers p h none w e = rw e (released-finalizers p w _)
  since-finalizers p h (some d) w e = rw e (deleting-finalizers p d h.status.machine_ref w)

  attached-delete :
      (p : Scope) (h : ByoHost) (w : World S)
      → p.byo_host ≡ some h
      → reconcile_delete a f p w ≡ delete_with a f p (some h) w
  unfolding reconcile_delete delete_attached
  attached-delete p h w held = ap (λ o. delete_attached a f p o w) held

  -- While a host is attached, the deletion of the machine drops the finalizer exactly when the host
  -- is being deleted itself and has no machine any more, or is so for more than five minutes.
  pub delete-finalizers :
      (p : Scope) (h : ByoHost) (w : World S)
      → p.byo_host ≡ some h
      → finalizers_of (reconcile_delete a f p w) [] ≡ (
          if gone h (λ d. timed_out a f d (a.now w.server).1)
          then f.remove_finalizer machine_finalizer p.byo_machine.meta.finalizers
          else p.byo_machine.meta.finalizers)
  unfolding delete_with
  delete-finalizers p h w held =
      ap (λ r. finalizers_of r []) (attached-delete p h w held)
      ∙ since-finalizers (set_host h p) h h.meta.deletion_timestamp w refl

  since-host :
      (p : Scope) (h : ByoHost) (w : World S)
      → h.meta.deletion_timestamp ≡ none
      → host_of (delete_since a f p h h.meta.deletion_timestamp w) ≡ some (marked h)
  unfolding delete_since mark_host_for_cleanup
  since-host p h w alive = rw alive (released-host p w _)

  delete-host :
      (p : Scope) (h : ByoHost) (w : World S)
      → p.byo_host ≡ some h
      → h.meta.deletion_timestamp ≡ none
      → host_of (reconcile_delete a f p w) ≡ some (marked h)
  unfolding delete_with
  delete-host p h w held alive =
      ap host_of (attached-delete p h w held) ∙ since-host (set_host h p) h w alive

-- A host that is marked for its cleanup: it has no machine and no lease, and keeps its labels.
pub record IsMarked (before h : ByoHost) : Type 0 where
  pub no_machine : h.status.machine_ref ≡ none
  pub cleanup : lookup host_cleanup_annotation h.meta.annotations ≡ some ""
  pub no_lease : lookup host_lease_annotation_key h.meta.annotations ≡ none
  pub labels : h.meta.labels ≡ before.meta.labels

marked-IsMarked : (h : ByoHost) → IsMarked h (marked h)
unfolding marked
marked-IsMarked h = record {
  no_machine = refl;
  cleanup = simp (lookup-erase, lookup-insert);
  no_lease = simp lookup-erase;
  labels = refl;
}

-- The deletion of a machine whose host is not being deleted leaves the host in memory marked for
-- its cleanup.
pub delete-IsMarked :
    {S : Type 0} (a : Server S) (f : FinalizerOps) (p : Scope) (h : ByoHost) (w : World S)
    → p.byo_host ≡ some h
    → h.meta.deletion_timestamp ≡ none
    → (k : ByoHost) × (host_of (reconcile_delete a f p w) ≡ some k) × IsMarked h k
delete-IsMarked a f p h w held alive =
    (marked h, delete-host a f p h w held alive, marked-IsMarked h)
