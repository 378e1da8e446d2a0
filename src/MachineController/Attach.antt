-- ===== src/MachineController/Attach.antt =====
-- Claiming a host for a machine: `attachByoHost` of controllers/infrastructure/byomachine_controller.go.
-- A patch helper, which fails only on an object that cannot be converted, is taken to be made.
pub mod Claims
pub mod Backoff
pub mod Replies
use cluster_api_provider_bri.Prelude.{
  ℕ, zero, suc, ◌-◌, String, ◌<>◌, Bool, true, false, ◌||◌, Option, none, some, List, [], ◌∷◌,
  if◌then◌else◌, is_some, str_eq,
}
use cluster_api_provider_bri.Prelude.Dict.{Dict, lookup, insert}
use cluster_api_provider_bri.Api.Names.{
  cluster_name_label, attached_byo_machine_label, end_point_ip_annotation, k8s_version_annotation,
  bundle_lookup_base_registry_annotation, byo_host_ready, byo_hosts_unavailable,
}
use cluster_api_provider_bri.Api.Meta.{
  ObjectReference, Error, failed, Result, ok, err, is_not_found, Reply, done, fail,
}
use cluster_api_provider_bri.Api.Conditions.{ConditionOps, severity_info}
use cluster_api_provider_bri.Api.Quantity.{Quantity, QuantityOps}
use cluster_api_provider_bri.Api.Host.{ByoHost, ByoHostSpec, JoinMode, is_tls_bootstrap}
use cluster_api_provider_bri.Api.Machine.{ByoMachine, Machine}
use cluster_api_provider_bri.Selection.{Selection, nil, panic, host, select_host_for_claim}
use cluster_api_provider_bri.MachineController.Server.{
  Server, Scope, World, with_host_annotations, with_machine_ref, before_plus, requeue_for_byohost,
  max_retries,
}
use cluster_api_provider_bri.MachineController.Lease.{
  Acquired, acquired, held, error, exponential_backoff, try_acquire_lease, release_lease,
}

-- One turn of the loop: a host, `continue`, a `return` with an error, or a nil pointer followed.
pub data Attempt : Type 0 where
  attached : ByoHost → Attempt
  retry : Attempt
  refused : Error → Attempt
  crashed : Attempt

abbrev pub attached_label : ByoMachine → String
attached_label m = m.meta.namespace <> "." <> m.meta.name

-- `byoMachine.Labels[ClusterNameLabel]`, "" where it is missing.
abbrev pub cluster_label : ByoMachine → String
cluster_label m = elim (lookup cluster_name_label m.meta.labels) [ none ↦ "" | some v ↦ v ]

abbrev pub reference_to : ByoMachine → ObjectReference
reference_to m = record {
  api_version = m.api_version;
  kind = m.kind;
  namespace = m.meta.namespace;
  name = m.meta.name;
  uid = m.meta.uid;
}

abbrev pub secret_reference : String → String → ObjectReference
secret_reference namespace name = record {
  api_version = "";
  kind = "Secret";
  namespace = namespace;
  name = name;
  uid = "";
}

-- The machine's labels, save the cluster's, over those of the host.
unfoldable pub sync_labels : Dict String → Dict String → Dict String
sync_labels [] labels = labels
sync_labels ((k, v) ∷ machine) labels =
    sync_labels machine (if str_eq k cluster_name_label then labels else insert k v labels)

-- The machine reference and the two labels.
unfoldable pub set_owner : ByoMachine → ByoHost → ByoHost
set_owner m h = record h {
  meta = record (h.meta) {
    labels =
        insert attached_byo_machine_label (attached_label m)
          (insert cluster_name_label (cluster_label m) h.meta.labels);
  };
  status = record (h.status) { machine_ref = some (reference_to m) };
}

unfoldable pub version_annotation : Option String → Dict String → Dict String
version_annotation none d = d
version_annotation (some v) d = insert k8s_version_annotation (before_plus v) d

-- What is copied from the machine and its cluster once the bootstrap secret is known.
unfoldable pub sync_spec : Scope → ObjectReference → ByoHost → ByoHost
unfolding sync_labels version_annotation
sync_spec p secret h = record h {
  spec = record (h.spec) {
    bootstrap_secret = some secret;
    join_mode = p.byo_machine.spec.join_mode;
    download_mode = p.byo_machine.spec.download_mode;
    kubernetes_version = p.byo_machine.spec.kubernetes_version;
    manage_kube_proxy =
        is_tls_bootstrap p.byo_machine.spec.join_mode || p.byo_machine.spec.manage_kube_proxy;
    labels = sync_labels p.machine.labels h.spec.labels;
  };
  meta = record (h.meta) {
    annotations =
        insert bundle_lookup_base_registry_annotation p.byo_cluster.spec.bundle_lookup_base_registry
          (version_annotation p.machine.version
            (insert end_point_ip_annotation p.cluster.endpoint h.meta.annotations));
  };
}

module _ {S : Type 0} (a : Server S) (p : Scope) where
  -- `_ = r.releaseLease(…)` before the next turn
  abbrev pub give_up : ByoHost → S → Attempt → S × Attempt
  give_up h s result = ((release_lease a h s).0.0, result)

  -- After the last patch.
  unfoldable pub patched : ByoHost → S × Option Error → S × Attempt
  patched h (s, some _) = give_up h s retry
  patched h (s, none) = let r = release_lease a h s in (r.0.0, attached r.0.1)

  unfoldable pub patch_claim : ByoHost → ObjectReference → ByoHost → S → S × Attempt
  unfolding patched
  patch_claim before secret h s =
      patched (sync_spec p secret h) (a.patch_host before (sync_spec p secret h) s)

  unfoldable pub with_secret :
      ByoHost → ByoHost → S × Option (Result {0} (String × String)) → S × Attempt
  unfolding patch_claim
  with_secret before h (s, none) = (s, crashed)
  with_secret before h (s, some (err e)) = give_up h s (refused e)
  with_secret before h (s, some (ok found)) =
      patch_claim before (secret_reference found.0 found.1) h s

  -- Without the data secret's name the pointer is nil.
  unfoldable pub with_data_secret : ByoHost → ByoHost → Option String → S → S × Attempt
  unfolding patch_claim
  with_data_secret before h none s = (s, crashed)
  with_data_secret before h (some name) s =
      patch_claim before (secret_reference p.byo_machine.meta.namespace name) h s

  unfoldable pub claim : ByoHost → S → S × Attempt
  unfolding with_secret with_data_secret
  claim h s =
      if is_tls_bootstrap p.byo_machine.spec.join_mode
      then with_secret h (set_owner p.byo_machine h)
          (a.tls_bootstrap_secret p (set_owner p.byo_machine h) s)
      else with_data_secret h (set_owner p.byo_machine h) p.machine.data_secret_name s

  unfoldable pub refetched : ByoHost → S × Result {0} ByoHost → S × Attempt
  unfolding claim
  refetched h (s, err _) = give_up h s retry
  refetched h (s, ok latest) = claim latest s

  unfoldable pub leased_turn : (S × ByoHost) × Acquired → S × Attempt
  unfolding refetched
  leased_turn ((s, h), acquired) = refetched h (a.get_host h.meta.namespace h.meta.name s)
  leased_turn ((s, h), held) = (s, retry)
  leased_turn ((s, h), error _) = (s, retry)

  unfoldable pub lease_and_claim : ByoHost → S → S × Attempt
  unfolding leased_turn
  lease_and_claim h s = leased_turn (
      try_acquire_lease a h p.byo_machine.meta.name
        ("byomachine-controller-" <> p.byo_machine.meta.name) s)

  unfoldable pub after_clearing : S × Result {0} ByoHost → S × Attempt
  unfolding lease_and_claim
  after_clearing (s, err _) = (s, retry)
  after_clearing (s, ok latest) = lease_and_claim latest s

  -- The reference of a machine that is gone is cleared; an error of that patch is only logged.
  unfoldable pub clear_stale : ByoHost → S → S × Attempt
  unfolding after_clearing
  clear_stale h s =
      after_clearing
        (a.get_host h.meta.namespace h.meta.name (a.patch_host h (with_machine_ref none h) s).0)

  unfoldable pub check_owner : ByoHost → S × Result {0} ByoMachine → S × Attempt
  unfolding clear_stale lease_and_claim
  check_owner h (s, err e) = if is_not_found e then clear_stale h s else (s, retry)
  check_owner h (s, ok m) =
      if is_some m.meta.deletion_timestamp then lease_and_claim h s else (s, retry)

  unfoldable pub check_claimed : ByoHost → Option ObjectReference → S → S × Attempt
  unfolding check_owner lease_and_claim
  check_claimed h none s = lease_and_claim h s
  check_claimed h (some ref) s = check_owner h (a.get_byo_machine ref.namespace ref.name s)

  unfoldable pub fetched : S × Result {0} ByoHost → S × Attempt
  unfolding check_claimed
  fetched (s, err _) = (s, retry)
  fetched (s, ok latest) = check_claimed latest latest.status.machine_ref s

  -- One turn of the loop, with the host that was selected.
  unfoldable pub attempt : ByoHost → S → S × Attempt
  unfolding fetched
  attempt selected s = fetched (a.get_host selected.meta.namespace selected.meta.name s)

-- What `attachByoHost` returns: the scope's host, or the scope's machine and a reply.
pub data Attached : Type 0 where
  attached_to : ByoHost → Attached
  replied : ByoMachine → Reply → Attached
  crashed : Attached

abbrev pub requeue_failed : String → Reply
requeue_failed text = record { requeue_after = requeue_for_byohost; error = some (failed text) }

-- The condition of a machine that finds no host.
unfoldable pub mark_unavailable : ConditionOps → ByoMachine → ByoMachine
mark_unavailable c m = record m {
  status = record (m.status) {
    conditions =
        c.mark_false byo_host_ready byo_hosts_unavailable severity_info m.status.conditions;
  };
}

module _ {S : Type 0} (a : Server S) (c : ConditionOps) (q : QuantityOps) (p : Scope) where
  abbrev pub sleep : ℕ → S → World S → World S
  sleep n s w = record w { server = s; slept = exponential_backoff n ∷ w.slept }

  abbrev pub to_server : S → World S → World S
  to_server s w = record w { server = s }

  unfoldable pub next_turn :
      (World S → World S × Attached) → ℕ → World S → S × Attempt → World S × Attached
  next_turn again n w (s, attached h) = (to_server s w, attached_to h)
  next_turn again n w (s, retry) = again (sleep n s w)
  next_turn again n w (s, refused e) = (to_server s w, replied p.byo_machine (fail e))
  next_turn again n w (s, crashed) = (to_server s w, crashed)

  unfoldable pub selected_turn :
      (World S → World S × Attached) → ℕ → World S → Selection → World S × Attached
  unfolding next_turn
  selected_turn again n w nil = (w, replied p.byo_machine (requeue_failed "no host selected"))
  selected_turn again n w panic = (w, crashed)
  selected_turn again n w (host h) = next_turn again n w (attempt a p h w.server)

  -- The loop, with the turns that are left; the turn's number is `max_retries - left`.
  unfoldable pub attach_loop : ℕ → List ByoHost → World S → World S × Attached
  unfolding selected_turn
  attach_loop zero hosts w =
      (w, replied p.byo_machine (requeue_failed "failed to attach byohost after all retries"))
  attach_loop (suc left) hosts w =
      let r =
        select_host_for_claim q hosts (cluster_label p.byo_machine)
          p.byo_machine.spec.capacity_requirements w.index in
      selected_turn (attach_loop left hosts) (max_retries - suc left) (record w { index = r.1 }) r.0

  unfoldable pub attach_listed : World S → S × Result {0} (List ByoHost) → World S × Attached
  unfolding attach_loop mark_unavailable
  attach_listed w (s, err e) = (
    to_server s w,
    replied p.byo_machine (record { requeue_after = requeue_for_byohost; error = some e }),
  )
  attach_listed w (s, ok []) =
      (to_server s w, replied (mark_unavailable c p.byo_machine) (requeue_failed "no hosts found"))
  attach_listed w (s, ok (h ∷ hosts)) = attach_loop max_retries (h ∷ hosts) (to_server s w)

  abbrev selector_failure : Option (Dict String) → Option Error
  selector_failure none = none
  selector_failure (some selector) = a.selector_error (some selector)

  unfoldable pub attach_selected : Option Error → World S → World S × Attached
  unfolding attach_listed
  attach_selected (some e) w = (w, replied p.byo_machine (fail e))
  attach_selected none w = attach_listed w (a.list_free p.byo_machine.spec.selector w.server)

  -- `attachByoHost`
  unfoldable pub attach_byo_host : World S → World S × Attached
  unfolding attach_selected
  attach_byo_host w = attach_selected (selector_failure p.byo_machine.spec.selector) w
