-- ===== src/MachineController/Reconcile.antt =====
-- `Reconcile` of controllers/infrastructure/byomachine_controller.go, from the fetched ByoMachine on,
-- and the mappings of a ByoHost and a Cluster to requests.
use cluster_api_provider_bri.Prelude.{
  ℕ, String, ◌<>◌, true, Option, none, some, List, [], ◌∷◌, map, if◌then◌else◌, is_some, str_eq,
}
use cluster_api_provider_bri.Api.Names.{cluster_or_resource_paused}
use cluster_api_provider_bri.Api.Meta.{
  ObjectReference, Result, ok, err, is_not_found, Reply, done, fail, FinalizerOps,
}
use cluster_api_provider_bri.Api.Conditions.{ConditionOps}
use cluster_api_provider_bri.Api.Quantity.{QuantityOps}
use cluster_api_provider_bri.Api.Host.{ByoHost}
use cluster_api_provider_bri.Api.Machine.{ByoMachine, ByoCluster, Machine, Cluster}
use cluster_api_provider_bri.MachineController.Server.{
  Server, Scope, World, Ended, returned, on_server, set_host,
}
use cluster_api_provider_bri.MachineController.Provision.{mark_waiting}
use cluster_api_provider_bri.MachineController.Delete.{reconcile_delete}
use cluster_api_provider_bri.MachineController.Normal.{set_paused_condition, reconcile_normal}

-- How `Reconcile` ends: with a reply, or with a panic.
pub data Replied (S : Type 0) : Type 0 where
  replied : World S → Reply → Replied S
  crashed : World S → Replied S

abbrev pub first : List ByoHost → Option ByoHost
first [] = none
first (h ∷ hosts) = some h

-- A request is the name of an object, its namespace first.
abbrev pub Request : Type 0
Request = String × String

abbrev pub request_for : String → ObjectReference → List Request
request_for expected_kind ref =
    if str_eq ref.kind expected_kind then (ref.namespace, ref.name) ∷ [] else []

-- `ByoHostToByoMachineMapFunc`; the group and the kind of the reference stand in `kind`.
unfoldable pub byo_host_to_byo_machine : String → ByoHost → List Request
byo_host_to_byo_machine expected_kind h = elim h.status.machine_ref [
  | none ↦ []
  | some ref ↦ request_for expected_kind ref
]

-- `ClusterToByoMachines`, of the cluster's deletion time and the reply to `List`.
unfoldable pub cluster_to_byo_machines : Option ℕ → Result {0} (List ByoMachine) → List Request
cluster_to_byo_machines (some _) machines = []
cluster_to_byo_machines none (err _) = []
cluster_to_byo_machines none (ok machines) = map (λ m. (m.meta.namespace, m.meta.name)) machines

module _ {S : Type 0} (a : Server S) (c : ConditionOps) (q : QuantityOps) (f : FinalizerOps) where
  -- `FetchAttachedByoHost`
  unfoldable pub attached_of : S × Result {0} (List ByoHost) → S × Result {0} (Option ByoHost)
  attached_of (s, err e) = (s, err e)
  attached_of (s, ok hosts) = (s, ok (first hosts))

  unfoldable pub fetch_attached_byo_host : ByoMachine → S → S × Result {0} (Option ByoHost)
  unfolding attached_of
  fetch_attached_byo_host m s =
      attached_of (a.list_attached (m.meta.namespace <> ("." <> m.meta.name)) s)

  -- The error of the pause of the host is only logged.
  unfoldable pub pause_host : Scope → Option ByoHost → World S → Ended S
  unfolding mark_waiting set_paused_condition
  pause_host p none w = returned w (mark_waiting c cluster_or_resource_paused p) done
  pause_host p (some h) w =
      let r = set_paused_condition a true h w.server in
      returned (on_server r.0.0 w) (mark_waiting c cluster_or_resource_paused (set_host r.0.1 p))
        done

  unfoldable pub reconcile_scope : Scope → World S → Ended S
  unfolding pause_host reconcile_delete reconcile_normal
  reconcile_scope p w =
      if a.is_paused p.cluster p.byo_machine
      then pause_host p p.byo_host w
      else if is_some p.byo_machine.meta.deletion_timestamp
      then reconcile_delete a f p w
      else reconcile_normal a c q f p w

  -- The deferred patch of the ByoMachine, whose error is returned where there is no other.
  unfoldable pub patch_machine : ByoMachine → Ended S → Replied S
  patch_machine before (Ended.crashed w) = Replied.crashed w
  patch_machine before (returned w p r) =
      let patch = a.patch_byo_machine before p.byo_machine w.server in
      replied (on_server patch.0 w)
        (elim r.error [ some e ↦ r | none ↦ record r { error = patch.1 } ])

  abbrev pub scope_of : Cluster → Machine → ByoCluster → ByoMachine → Option ByoHost → Scope
  scope_of cluster machine byo_cluster m host = record {
    cluster = cluster;
    machine = machine;
    byo_cluster = byo_cluster;
    byo_machine = m;
    byo_host = host;
  }

  -- Past the deferred patch, an error of the list of hosts returns without a change of the machine.
  unfoldable pub with_attached :
      Cluster
      → Machine
      → ByoCluster
      → ByoMachine
      → World S
      → S × Result {0} (Option ByoHost)
      → Replied S
  unfolding patch_machine reconcile_scope
  with_attached cluster machine byo_cluster m w (s, err e) =
      patch_machine m
        (returned (on_server s w) (scope_of cluster machine byo_cluster m none) (fail e))
  with_attached cluster machine byo_cluster m w (s, ok host) =
      patch_machine m
        (reconcile_scope (scope_of cluster machine byo_cluster m host) (on_server s w))

  unfoldable pub with_byo_cluster :
      Cluster → Machine → ByoMachine → World S → S × Result {0} ByoCluster → Replied S
  unfolding with_attached fetch_attached_byo_host
  with_byo_cluster cluster machine m w (s, err e) = replied (on_server s w) done
  with_byo_cluster cluster machine m w (s, ok byo_cluster) =
      with_attached cluster machine byo_cluster m w (fetch_attached_byo_host m s)

  unfoldable pub with_cluster :
      Machine → ByoMachine → World S → S × Result {0} (Option Cluster) → Replied S
  unfolding with_byo_cluster
  with_cluster machine m w (s, err e) = replied (on_server s w) (fail e)
  with_cluster machine m w (s, ok none) = replied (on_server s w) done
  with_cluster machine m w (s, ok (some cluster)) =
      with_byo_cluster cluster machine m w (a.get_byo_cluster m cluster s)

  unfoldable pub with_machine : ByoMachine → World S → S × Result {0} (Option Machine) → Replied S
  unfolding with_cluster
  with_machine m w (s, err e) = replied (on_server s w) (fail e)
  with_machine m w (s, ok none) = replied (on_server s w) done
  with_machine m w (s, ok (some machine)) = with_cluster machine m w (a.get_cluster m s)

  unfoldable pub with_byo_machine : World S → S × Result {0} ByoMachine → Replied S
  unfolding with_machine
  with_byo_machine w (s, err e) = replied (on_server s w) (if is_not_found e then done else fail e)
  with_byo_machine w (s, ok m) = with_machine m w (a.get_owner_machine m s)

  -- `Reconcile`, of the request's namespace and name.
  unfoldable pub reconcile : Request → World S → Replied S
  unfolding with_byo_machine
  reconcile request w = with_byo_machine w (a.get_byo_machine request.0 request.1 w.server)
