-- ===== src/MachineController/Attach/Claims.antt =====
-- What is true of a host that `attachByoHost` returns.
use cluster_api_provider_bri.Prelude.{
  ◌≡◌, refl, ◌∙◌, inl, inr, ℕ, zero, suc, ◌-◌, String, true, false, Option, none, some, List, [],
  ◌∷◌, str_eq, is_some, Bool-cases, if_false,
}
use cluster_api_provider_bri.Prelude.Dict.{Dict, lookup, lookup-insert, lookup-erase}
use cluster_api_provider_bri.Api.Names.{
  cluster_name_label, attached_byo_machine_label, end_point_ip_annotation,
  bundle_lookup_base_registry_annotation, k8s_version_annotation, host_lease_annotation_key,
}
use cluster_api_provider_bri.Api.Meta.{ObjectReference, Error, Result, ok, err, is_not_found}
use cluster_api_provider_bri.Api.Conditions.{ConditionOps}
use cluster_api_provider_bri.Api.Quantity.{QuantityOps}
use cluster_api_provider_bri.Api.Host.{ByoHost, is_tls_bootstrap}
use cluster_api_provider_bri.Api.Machine.{ByoMachine}
use cluster_api_provider_bri.Selection.{Selection, nil, panic, host}
use cluster_api_provider_bri.MachineController.Server.{
  Server, Scope, World, before_plus, max_retries,
}
use cluster_api_provider_bri.MachineController.Lease.{
  Acquired, acquired, held, error, unleased, release_lease,
}
use cluster_api_provider_bri.MachineController.Lease.Laws.{release_lease_host}
use cluster_api_provider_bri.MachineController.Attach.{
  Attempt, attached, retry, refused, attached_label, cluster_label, reference_to, set_owner,
  version_annotation, sync_spec, patched, patch_claim, with_secret, with_data_secret, claim,
  refetched, leased_turn, lease_and_claim, after_clearing, clear_stale, check_owner, check_claimed,
  fetched, attempt, Attached, attached_to, next_turn, selected_turn, attach_loop, attach_listed,
  attach_selected, attach_byo_host,
}

-- A host that belongs to the machine of the scope.
pub record IsClaimed (p : Scope) (h : ByoHost) : Type 0 where
  pub machine_ref : h.status.machine_ref ≡ some (reference_to p.byo_machine)
  pub cluster : lookup cluster_name_label h.meta.labels ≡ some (cluster_label p.byo_machine)
  pub machine :
      lookup attached_byo_machine_label h.meta.labels ≡ some (attached_label p.byo_machine)
  pub endpoint : lookup end_point_ip_annotation h.meta.annotations ≡ some p.cluster.endpoint
  pub registry :
      lookup bundle_lookup_base_registry_annotation h.meta.annotations
      ≡ some p.byo_cluster.spec.bundle_lookup_base_registry
  pub join_mode : h.spec.join_mode ≡ p.byo_machine.spec.join_mode
  pub kube_proxy :
      is_tls_bootstrap p.byo_machine.spec.join_mode ≡ true → h.spec.manage_kube_proxy ≡ true
  pub has_secret : (secret : ObjectReference) × (h.spec.bootstrap_secret ≡ some secret)

version_annotation_keeps :
    (k : String) (v : Option String) (d : Dict String)
    → str_eq k8s_version_annotation k ≡ false
    → lookup k (version_annotation v d) ≡ lookup k d
unfolding version_annotation
version_annotation_keeps k none d other = refl
version_annotation_keeps k (some v) d other =
    lookup-insert k k8s_version_annotation (before_plus v) d ∙ if_false _ _ other

sync_spec-IsClaimed :
    (p : Scope) (secret : ObjectReference) (h : ByoHost)
    → IsClaimed p (sync_spec p secret (set_owner p.byo_machine h))
unfolding sync_spec set_owner
sync_spec-IsClaimed p secret h = record {
  machine_ref = refl;
  cluster = simp lookup-insert;
  machine = simp lookup-insert;
  endpoint = simp (lookup-insert, version_annotation_keeps);
  registry = simp lookup-insert;
  join_mode = refl;
  kube_proxy = λ tls. rw tls refl;
  has_secret = (secret, refl);
}

abbrev pub NoLease : ByoHost → Type 0
NoLease h = lookup host_lease_annotation_key h.meta.annotations ≡ none

unleased-IsClaimed :
    {S : Type 0} (a : Server S) (p : Scope) (h : ByoHost)
    → IsClaimed p h
    → IsClaimed p (unleased a h) × NoLease (unleased a h)
unleased-IsClaimed a p h claimed = (
  record {
    machine_ref = claimed.machine_ref;
    cluster = claimed.cluster;
    machine = claimed.machine;
    endpoint =
        lookup-erase end_point_ip_annotation host_lease_annotation_key h.meta.annotations
        ∙ claimed.endpoint;
    registry =
        lookup-erase bundle_lookup_base_registry_annotation host_lease_annotation_key
          h.meta.annotations
        ∙ claimed.registry;
    join_mode = claimed.join_mode;
    kube_proxy = claimed.kube_proxy;
    has_secret = claimed.has_secret;
  },
  lookup-erase host_lease_annotation_key host_lease_annotation_key h.meta.annotations,
)

-- A turn of the loop that gives a host gives one that is claimed and has no lease.
abbrev Claims : Scope → Attempt → Type 0
Claims p (attached h) = IsClaimed p h × NoLease h
Claims p _ = Unit

module _ {S : Type 0} (a : Server S) (p : Scope) where
  released-Claims :
      (h : ByoHost) (s : S)
      → IsClaimed p h
      → IsClaimed p (release_lease a h s).0.1 × NoLease (release_lease a h s).0.1
  released-Claims h s claimed = elim (release_lease_host a h s) [
    | inl same ↦ rw same.0 (claimed, same.1)
    | inr gone ↦ rw gone (unleased-IsClaimed a p h claimed)
  ]

  patched-Claims :
      (h : ByoHost) (r : S × Option Error) → IsClaimed p h → Claims p (patched a p h r).1
  unfolding patched
  patched-Claims h (s, none) claimed = released-Claims h s claimed
  patched-Claims h (s, some _) claimed = tt

  patch_claim-Claims :
      (before h : ByoHost) (secret : ObjectReference) (s : S)
      → Claims p (patch_claim a p before secret (set_owner p.byo_machine h) s).1
  unfolding patch_claim
  patch_claim-Claims before h secret s =
      patched-Claims (sync_spec p secret (set_owner p.byo_machine h)) _
        (sync_spec-IsClaimed p secret h)

  with_secret-Claims :
      (before h : ByoHost) (r : S × Option (Result {0} (String × String)))
      → Claims p (with_secret a p before (set_owner p.byo_machine h) r).1
  unfolding with_secret
  with_secret-Claims before h (s, none) = tt
  with_secret-Claims before h (s, some (err e)) = tt
  with_secret-Claims before h (s, some (ok found)) = patch_claim-Claims before h _ s

  with_data_secret-Claims :
      (before h : ByoHost) (name : Option String) (s : S)
      → Claims p (with_data_secret a p before (set_owner p.byo_machine h) name s).1
  unfolding with_data_secret
  with_data_secret-Claims before h none s = tt
  with_data_secret-Claims before h (some name) s = patch_claim-Claims before h _ s

  claim-Claims : (h : ByoHost) (s : S) → Claims p (claim a p h s).1
  unfolding claim
  claim-Claims h s = elim (Bool-cases (is_tls_bootstrap p.byo_machine.spec.join_mode)) [
    | inl tls ↦ rw tls (with_secret-Claims h h _)
    | inr kubeadm ↦ rw kubeadm (with_data_secret-Claims h h p.machine.data_secret_name s)
  ]

  refetched-Claims : (h : ByoHost) (r : S × Result {0} ByoHost) → Claims p (refetched a p h r).1
  unfolding refetched
  refetched-Claims h (s, err _) = tt
  refetched-Claims h (s, ok latest) = claim-Claims latest s

  leased_turn-Claims : (r : (S × ByoHost) × Acquired) → Claims p (leased_turn a p r).1
  unfolding leased_turn
  leased_turn-Claims ((s, h), acquired) = refetched-Claims h _
  leased_turn-Claims ((s, h), held) = tt
  leased_turn-Claims ((s, h), error _) = tt

  lease_and_claim-Claims : (h : ByoHost) (s : S) → Claims p (lease_and_claim a p h s).1
  unfolding lease_and_claim
  lease_and_claim-Claims h s = leased_turn-Claims _

  after_clearing-Claims : (r : S × Result {0} ByoHost) → Claims p (after_clearing a p r).1
  unfolding after_clearing
  after_clearing-Claims (s, err _) = tt
  after_clearing-Claims (s, ok latest) = lease_and_claim-Claims latest s

  check_owner-Claims :
      (h : ByoHost) (r : S × Result {0} ByoMachine) → Claims p (check_owner a p h r).1
  unfolding check_owner clear_stale
  check_owner-Claims h (s, err e) = elim (Bool-cases (is_not_found e)) [
    | inl gone ↦ rw gone (after_clearing-Claims _)
    | inr kept ↦ rw kept tt
  ]
  check_owner-Claims h (s, ok m) = elim (Bool-cases (is_some m.meta.deletion_timestamp)) [
    | inl deleted ↦ rw deleted (lease_and_claim-Claims h s)
    | inr alive ↦ rw alive tt
  ]

  check_claimed-Claims :
      (h : ByoHost) (ref : Option ObjectReference) (s : S) → Claims p (check_claimed a p h ref s).1
  unfolding check_claimed
  check_claimed-Claims h none s = lease_and_claim-Claims h s
  check_claimed-Claims h (some ref) s = check_owner-Claims h _

  fetched-Claims : (r : S × Result {0} ByoHost) → Claims p (fetched a p r).1
  unfolding fetched
  fetched-Claims (s, err _) = tt
  fetched-Claims (s, ok latest) = check_claimed-Claims latest latest.status.machine_ref s

  attempt-Claims : (h : ByoHost) (s : S) → Claims p (attempt a p h s).1
  unfolding attempt
  attempt-Claims h s = fetched-Claims _

abbrev AttachClaims : Scope → Attached → Type 0
AttachClaims p (attached_to h) = IsClaimed p h × NoLease h
AttachClaims p _ = Unit

module _ {S : Type 0} (a : Server S) (c : ConditionOps) (q : QuantityOps) (p : Scope) where
  next_turn-Claims :
      (again : World S → World S × Attached) (n : ℕ) (w : World S) (r : S × Attempt)
      → ((v : World S) → AttachClaims p (again v).1)
      → Claims p r.1
      → AttachClaims p (next_turn a c q p again n w r).1
  unfolding next_turn
  next_turn-Claims again n w (s, attached h) later claimed = claimed
  next_turn-Claims again n w (s, retry) later claimed = later _
  next_turn-Claims again n w (s, refused e) later claimed = tt
  next_turn-Claims again n w (s, Attempt.crashed) later claimed = tt

  selected_turn-Claims :
      (again : World S → World S × Attached) (n : ℕ) (w : World S) (chosen : Selection)
      → ((v : World S) → AttachClaims p (again v).1)
      → AttachClaims p (selected_turn a c q p again n w chosen).1
  unfolding selected_turn
  selected_turn-Claims again n w nil later = tt
  selected_turn-Claims again n w panic later = tt
  selected_turn-Claims again n w (host h) later =
      next_turn-Claims again n w _ later (attempt-Claims a p h w.server)

  attach_loop-Claims :
      (left : ℕ) (hosts : List ByoHost) (w : World S)
      → AttachClaims p (attach_loop a c q p left hosts w).1
  unfolding attach_loop
  attach_loop-Claims zero hosts w = tt
  attach_loop-Claims (suc left) hosts w =
      selected_turn-Claims (attach_loop a c q p left hosts) (max_retries - suc left) _ _
        (λ v. attach_loop-Claims left hosts v)

  attach_listed-Claims :
      (w : World S) (r : S × Result {0} (List ByoHost))
      → AttachClaims p (attach_listed a c q p w r).1
  unfolding attach_listed
  attach_listed-Claims w (s, err e) = tt
  attach_listed-Claims w (s, ok []) = tt
  attach_listed-Claims w (s, ok (h ∷ hosts)) =
      attach_loop-Claims max_retries (h ∷ hosts) (record w { server = s })

  attach_selected-Claims :
      (e : Option Error) (w : World S) → AttachClaims p (attach_selected a c q p e w).1
  unfolding attach_selected
  attach_selected-Claims (some e) w = tt
  attach_selected-Claims none w = attach_listed-Claims w _

  attach-AttachClaims : (w : World S) → AttachClaims p (attach_byo_host a c q p w).1
  unfolding attach_byo_host
  attach-AttachClaims w = attach_selected-Claims _ w

  -- Whatever the API server replies and other clients write, a host that `attachByoHost` returns
  -- refers to the machine, bears its label and the cluster's, has the endpoint and the registry of
  -- the cluster, a bootstrap secret and the machine's join mode, manages the kube-proxy in TLS
  -- bootstrap mode, and holds no lease any more.
  pub attach-IsClaimed :
      (w : World S) (h : ByoHost)
      → (attach_byo_host a c q p w).1 ≡ attached_to h
      → IsClaimed p h × NoLease h
  attach-IsClaimed w h e = let claims = attach-AttachClaims w in rw e at claims
