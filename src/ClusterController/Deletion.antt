-- ===== src/ClusterController/Deletion.antt =====
-- What has been looked for when the finalizer of a ByoCluster goes.
use mathlib.Core.Path.{subst}
use mathlib.Core.Bool.{true≢false}
use cluster_api_provider_bri.Prelude.{
  ◌≡◌, refl, sym, ap, ◌∙◌, inl, inr, String, true, false, Option, none, some, List, [], ◌∷◌,
  is_some, Bool-cases,
}
use cluster_api_provider_bri.Api.Meta.{Result, ok, err, Reply, has, FinalizerOps}
use cluster_api_provider_bri.Api.Names.{cluster_name_label, cluster_finalizer}
use cluster_api_provider_bri.Api.Machine.{ByoMachine, ByoCluster, Cluster}
use cluster_api_provider_bri.ClusterController.{
  ClusterServer, Ended, machines_listed, get_byo_machines_in_cluster, reconcile_delete,
  reconcile_normal, handle, deferred_patch, owner_found, byo_cluster_found, reconcile,
}

module _ {S : Type 0} (a : ClusterServer S) (f : FinalizerOps) where
  abbrev Keeps : ByoCluster → Type 0
  Keeps c = has cluster_finalizer c.meta.finalizers ≡ true

  -- The cluster is being deleted, and a list of the machines that are labelled with the name of the
  -- ByoCluster was empty.
  pub record IsEmptied (c : ByoCluster) : Type 0 where
    pub deleted : is_some c.meta.deletion_timestamp ≡ true
    pub before : S
    pub after : S
    pub listed :
        a.list_machines c.meta.namespace ((cluster_name_label, c.meta.name) ∷ []) before
        ≡ (after, ok [])

  abbrev Lost : ByoCluster → ByoCluster → Type 0
  Lost c d = has cluster_finalizer d.meta.finalizers ≡ false → IsEmptied c

  kept-Lost : (c d : ByoCluster) → Keeps d → Lost c d
  kept-Lost c d keeps lost = absurd (true≢false (sym keeps ∙ lost))

  abbrev Watched : ByoCluster → Ended a f → Type 0
  Watched c (s, none, r) = Unit {0}
  Watched c (s, some d, r) = Lost c d

  machines_listed-Lost :
      (c : ByoCluster) (s : S) (r : S × Result {0} (List ByoMachine))
      → is_some c.meta.deletion_timestamp ≡ true
      → Keeps c
      → get_byo_machines_in_cluster a f c.meta.namespace c.meta.name s ≡ r
      → Lost c (machines_listed a f c r).1
  unfolding machines_listed get_byo_machines_in_cluster
  machines_listed-Lost c s (t, err e) deleted keeps call = kept-Lost c c keeps
  machines_listed-Lost c s (t, ok (_ ∷ _)) deleted keeps call = kept-Lost c c keeps
  machines_listed-Lost c s (t, ok []) deleted keeps call =
      λ lost. record { deleted = deleted; before = s; after = t; listed = call }

  handle-Lost :
      ((x : String) (l : List String) → has x (f.add_finalizer x l) ≡ true)
      → (c : ByoCluster) (s : S) → Keeps c
      → Lost c (handle a f c s).1
  unfolding handle reconcile_delete reconcile_normal
  handle-Lost added c s keeps = elim (Bool-cases (is_some c.meta.deletion_timestamp)) [
    | inl deleted ↦ rw deleted (machines_listed-Lost c s _ deleted keeps refl)
    | inr live ↦
        rw live
          (kept-Lost c (reconcile_normal a f c s).1 (added cluster_finalizer c.meta.finalizers))
  ]

  owner_found-Watched :
      ((x : String) (l : List String) → has x (f.add_finalizer x l) ≡ true)
      → (c : ByoCluster) (r : S × Result {0} (Option Cluster)) → Keeps c
      → Watched c (owner_found a f c r)
  unfolding owner_found deferred_patch
  owner_found-Watched added c (s, err e) keeps = tt
  owner_found-Watched added c (s, ok none) keeps = tt
  owner_found-Watched added c (s, ok (some cluster)) keeps =
      elim (Bool-cases (a.is_paused cluster c)) [
        | inl paused ↦ rw paused tt
        | inr running ↦ rw running (handle-Lost added c s keeps)
      ]

-- A reconcile that patches away the finalizer that a ByoCluster had is one of a ByoCluster that is
-- being deleted, and the list of the machines in its namespace with its own name in the label for the
-- cluster's name was empty. `AddFinalizer` is taken to leave the finalizer in the list.
pub finalizer_dropped :
    {S : Type 0} (a : ClusterServer S) (f : FinalizerOps)
    → ((x : String) (l : List String) → has x (f.add_finalizer x l) ≡ true)
    → (namespace name : String) (s t u : S) (c d : ByoCluster) (r : Reply)
    → a.get_byo_cluster namespace name s ≡ (t, ok c)
    → has cluster_finalizer c.meta.finalizers ≡ true
    → reconcile a f namespace name s ≡ (u, some d, r)
    → has cluster_finalizer d.meta.finalizers ≡ false
    → IsEmptied a f c
unfolding reconcile byo_cluster_found
finalizer_dropped a f added namespace name s t u c d r found keeps ends =
    subst (Watched a f c) (sym (ap (byo_cluster_found a f) found) ∙ ends)
      (owner_found-Watched a f added c (a.get_owner_cluster c t) keeps)
