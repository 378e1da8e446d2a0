-- ===== src/MachineController/Delete.antt =====
-- Deleting a machine: `reconcileDelete` and `markHostForCleanup` of
-- controllers/infrastructure/byomachine_controller.go.
pub mod Finalizer
pub mod Stuck
use cluster_api_provider_bri.Prelude.{
  ℕ, ◌+◌, ◌*◌, ltb, String, Bool, true, false, Option, none, some, List, [], ◌∷◌, str_eq,
  if◌then◌else◌,
}
use cluster_api_provider_bri.Prelude.Dict.{insert, erase}
use cluster_api_provider_bri.Api.Names.{
  host_cleanup_annotation, host_lease_annotation_key, machine_finalizer,
}
use cluster_api_provider_bri.Api.Meta.{
  ObjectReference, Error, Result, ok, err, Reply, done, requeue, fail, minute, FinalizerOps,
}
use cluster_api_provider_bri.Api.Host.{ByoHost}
use cluster_api_provider_bri.Api.Machine.{ByoMachine}
use cluster_api_provider_bri.MachineController.Server.{
  Server, Scope, World, Ended, returned, on_server, set_host, set_byo_machine, requeue_for_byohost,
}

abbrev pub host_cleanup_timeout : ℕ
host_cleanup_timeout = 5 * minute

-- What `markHostForCleanup` makes of the host in memory.
unfoldable pub marked : ByoHost → ByoHost
marked h = record h {
  meta = record (h.meta) {
    annotations =
        erase host_lease_annotation_key (insert host_cleanup_annotation "" h.meta.annotations);
  };
  status = record (h.status) { machine_ref = none };
}

abbrev pub refers_to : String → Option ObjectReference → Bool
refers_to uid none = false
refers_to uid (some ref) = str_eq ref.uid uid

-- The first host whose machine reference has the UID.
unfoldable pub find_by_uid : String → List ByoHost → Option ByoHost
find_by_uid uid [] = none
find_by_uid uid (h ∷ hosts) =
    if refers_to uid h.status.machine_ref then some h else find_by_uid uid hosts

unfoldable pub start_cleanup : ByoMachine → ByoMachine
start_cleanup m = record m { status = record (m.status) { cleanup_started = true } }

unfoldable pub mark_host_for_cleanup :
    {S : Type 0} → Server S → ByoHost → S → (S × ByoHost) × Option Error
unfolding marked
mark_host_for_cleanup a h s = let r = a.patch_host h (marked h) s in ((r.0, marked h), r.1)

module _ {S : Type 0} (a : Server S) (f : FinalizerOps) where
  unfoldable pub complete_cleanup : ByoMachine → ByoMachine
  complete_cleanup m = record m {
    meta = record (m.meta) { finalizers = f.remove_finalizer machine_finalizer m.meta.finalizers };
    status = record (m.status) { cleanup_completed = true; node_ref = none };
  }

  unfoldable pub complete : Scope → World S → Ended S
  unfolding complete_cleanup
  complete p w = returned w (set_byo_machine (complete_cleanup p.byo_machine) p) done

  unfoldable pub released : Scope → World S → (S × ByoHost) × Option Error → Ended S
  unfolding start_cleanup
  released p w ((s, h), some e) = returned (on_server s w) (set_host h p) (fail e)
  released p w ((s, h), none) =
      returned (on_server s w) (set_host h (set_byo_machine (start_cleanup p.byo_machine) p))
        (requeue requeue_for_byohost)

  -- `cleanupDuration > hostCleanupTimeout`
  unfoldable pub timed_out : ℕ → ℕ → Bool
  timed_out deleted now = ltb (deleted + host_cleanup_timeout) now

  -- The host is being deleted since the time given.
  unfoldable pub delete_deleting : Scope → ℕ → Option ObjectReference → World S → Ended S
  unfolding complete timed_out
  delete_deleting p deleted none w = complete p w
  delete_deleting p deleted (some _) w =
      let t = a.now w.server in
      if timed_out deleted t.1
      then complete p (on_server t.0 w)
      else returned (on_server t.0 w) p (requeue requeue_for_byohost)

  unfoldable pub delete_since : Scope → ByoHost → Option ℕ → World S → Ended S
  unfolding delete_deleting released mark_host_for_cleanup
  delete_since p h (some deleted) w = delete_deleting p deleted h.status.machine_ref w
  delete_since p h none w = released p w (mark_host_for_cleanup a h w.server)

  unfoldable pub delete_with : Scope → Option ByoHost → World S → Ended S
  unfolding delete_since complete
  delete_with p none w = complete p w
  delete_with p (some h) w = delete_since (set_host h p) h h.meta.deletion_timestamp w

  unfoldable pub delete_listed : Scope → World S → S × Result {0} (List ByoHost) → Ended S
  unfolding delete_with find_by_uid
  delete_listed p w (s, err e) = returned (on_server s w) p (fail e)
  delete_listed p w (s, ok hosts) =
      delete_with p (find_by_uid p.byo_machine.meta.uid hosts) (on_server s w)

  unfoldable pub delete_attached : Scope → Option ByoHost → World S → Ended S
  unfolding delete_with delete_listed
  delete_attached p (some h) w = delete_with p (some h) w
  delete_attached p none w = delete_listed p w (a.list_hosts w.server)

  -- `reconcileDelete`
  unfoldable pub reconcile_delete : Scope → World S → Ended S
  unfolding delete_attached
  reconcile_delete p w = delete_attached p p.byo_host w
