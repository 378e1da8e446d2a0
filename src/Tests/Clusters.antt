-- ===== src/Tests/Clusters.antt =====
-- A ByoCluster that is being deleted, without machines.
use text.Mathlib.TextEquality.{eq_iff}
use cluster_api_provider_bri.Prelude.{
  ℕ, suc, ◌≡◌, refl, String, true, false, List, none, some, [], ◌∷◌, arith,
}
use cluster_api_provider_bri.Api.Meta.{ok, has, done}
use cluster_api_provider_bri.Api.Names.{cluster_finalizer}
use cluster_api_provider_bri.Api.Machine.{ByoCluster}
use cluster_api_provider_bri.ClusterController.{ClusterServer, reconcile}
use cluster_api_provider_bri.ClusterController.Deletion.{IsEmptied, finalizer_dropped}
use cluster_api_provider_bri.Tests.{meta_of, scope, finalizers}

abbrev deleted_cluster : ByoCluster
deleted_cluster = record ((scope none).byo_cluster) {
  meta = record (meta_of "c" [] []) {
    deletion_timestamp = some 1;
    finalizers = cluster_finalizer ∷ [];
  };
}

abbrev freed_cluster : ByoCluster
freed_cluster = record deleted_cluster { meta = record (deleted_cluster.meta) { finalizers = [] } }

-- The state counts the patches.
abbrev cluster_server : ClusterServer ℕ
cluster_server = record {
  get_byo_cluster = λ namespace name s. (s, ok deleted_cluster);
  get_owner_cluster = λ c s. (s, ok (some ((scope none).cluster)));
  is_paused = λ k c. false;
  list_machines = λ namespace labels s. (s, ok []);
  patch = λ before c s. (suc s, none);
}

added : (x : String) (l : List String) → has x (finalizers.add_finalizer x l) ≡ true
added x l = ground (arith, eq_iff x x)

cluster_reconciled :
    reconcile cluster_server finalizers "default" "c" 0 ≡ (1, some freed_cluster, done)
unfolding reconcile
cluster_reconciled = refl

finalizer_dropped_example : IsEmptied cluster_server finalizers deleted_cluster
finalizer_dropped_example =
    finalizer_dropped cluster_server finalizers added "default" "c" 0 0 1 deleted_cluster
      freed_cluster done refl refl cluster_reconciled refl
