-- ===== src/ClusterController.antt =====
-- controllers/infrastructure/byocluster_controller.go. A patch helper, which fails only on an object
-- that cannot be converted, is taken to be made; the conditions of a ByoCluster, whose summary is set
-- with the patch, are left out.
pub mod Deletion
use cluster_api_provider_bri.Prelude.{
  ℕ, ◌==◌, ◌*◌, String, Bool, true, Option, none, some, List, [], ◌∷◌, if◌then◌else◌, is_some,
}
use cluster_api_provider_bri.Prelude.Dict.{Dict}
use cluster_api_provider_bri.Api.Meta.{
  Error, Result, ok, err, is_not_found, Reply, done, requeue, fail, second, FinalizerOps,
}
use cluster_api_provider_bri.Api.Names.{cluster_name_label, cluster_finalizer}
use cluster_api_provider_bri.Api.Machine.{ByoMachine, ByoCluster, Cluster}

abbrev pub default_api_endpoint_port : ℕ
default_api_endpoint_port = 6443

-- The calls over the state `S` of the world outside.
pub record ClusterServer (S : Type 0) : Type 0 where
  pub get_byo_cluster : String → String → S → S × Result {0} ByoCluster
  pub get_owner_cluster : ByoCluster → S → S × Result {0} (Option Cluster)
  pub is_paused : Cluster → ByoCluster → Bool
  -- in a namespace, with labels
  pub list_machines : String → Dict String → S → S × Result {0} (List ByoMachine)
  pub patch : ByoCluster → ByoCluster → S → S × Option Error

module _ {S : Type 0} (a : ClusterServer S) (f : FinalizerOps) where
  -- The state, the object in memory and what is returned.
  abbrev pub Outcome : Type 0
  Outcome = S × ByoCluster × Reply

  abbrev pub set_finalizers : List String → ByoCluster → ByoCluster
  set_finalizers l c = record c { meta = record (c.meta) { finalizers = l } }

  -- `GetByoMachinesInCluster`
  unfoldable pub get_byo_machines_in_cluster :
      String → String → S → S × Result {0} (List ByoMachine)
  get_byo_machines_in_cluster namespace name =
      a.list_machines namespace ((cluster_name_label, name) ∷ [])

  -- While there are machines the deletion waits.
  unfoldable pub machines_listed : ByoCluster → S × Result {0} (List ByoMachine) → Outcome
  machines_listed c (s, err e) = (s, c, fail e)
  machines_listed c (s, ok []) =
      (s, set_finalizers (f.remove_finalizer cluster_finalizer c.meta.finalizers) c, done)
  machines_listed c (s, ok (_ ∷ _)) = (s, c, requeue (10 * second))

  -- `reconcileDelete`
  unfoldable pub reconcile_delete : ByoCluster → S → Outcome
  unfolding machines_listed get_byo_machines_in_cluster
  reconcile_delete c s =
      machines_listed c (get_byo_machines_in_cluster c.meta.namespace c.meta.name s)

  -- `reconcileNormal`
  unfoldable pub reconcile_normal : ByoCluster → S → Outcome
  reconcile_normal c s =
      let g = set_finalizers (f.add_finalizer cluster_finalizer c.meta.finalizers) c in
      let port = g.spec.endpoint_port in
      (
        s,
        record g {
          spec = record (g.spec) {
            endpoint_port = if port == 0 then default_api_endpoint_port else port;
          };
          ready = true;
        },
        done,
      )

  unfoldable pub handle : ByoCluster → S → Outcome
  unfolding reconcile_delete reconcile_normal
  handle c s =
      if is_some c.meta.deletion_timestamp then reconcile_delete c s else reconcile_normal c s

  -- What the reconcile leaves: the state, the object that was patched, and what is returned.
  abbrev pub Ended : Type 0
  Ended = S × Option ByoCluster × Reply

  -- The deferred patch: its error is returned where there is no other.
  unfoldable pub deferred_patch : ByoCluster → Outcome → Ended
  deferred_patch before (s, c, r) = (
    (a.patch before c s).0,
    some c,
    elim r.error [ some e ↦ r | none ↦ record r { error = (a.patch before c s).1 } ],
  )

  unfoldable pub owner_found : ByoCluster → S × Result {0} (Option Cluster) → Ended
  unfolding deferred_patch handle
  owner_found c (s, err e) = (s, none, fail e)
  owner_found c (s, ok none) = (s, none, done)
  owner_found c (s, ok (some cluster)) =
      if a.is_paused cluster c then (s, none, done) else deferred_patch c (handle c s)

  unfoldable pub byo_cluster_found : S × Result {0} ByoCluster → Ended
  unfolding owner_found
  byo_cluster_found (s, err e) = (s, none, if is_not_found e then done else fail e)
  byo_cluster_found (s, ok c) = owner_found c (a.get_owner_cluster c s)

  -- `Reconcile`
  unfoldable pub reconcile : String → String → S → Ended
  unfolding byo_cluster_found
  reconcile namespace name s = byo_cluster_found (a.get_byo_cluster namespace name s)
