-- ===== src/MachineController/Normal.antt =====
-- A machine that is not being deleted: `reconcileNormal` of
-- controllers/infrastructure/byomachine_controller.go and the steps that it calls before and after
-- a host is attached.
pub mod Parts
pub mod Readiness
use cluster_api_provider_bri.Prelude.{
  ltb, String, Bool, true, false, not, ◌&&◌, ◌||◌, Option, none, some, [], ◌∷◌, str_eq, starts_with,
  if◌then◌else◌, is_some,
}
use cluster_api_provider_bri.Prelude.Dict.{Dict, lookup, insert, erase}
use cluster_api_provider_bri.Api.Names.{
  paused_annotation, remediation_annotation, machine_finalizer, k8s_version_annotation,
  waiting_for_cluster_infrastructure, waiting_for_bootstrap_data_secret,
  installation_secret_not_available,
}
use cluster_api_provider_bri.Api.Meta.{
  ObjectReference, Error, failed, Result, ok, err, is_not_found, Reply, done, requeue, fail,
  FinalizerOps,
}
use cluster_api_provider_bri.Api.Conditions.{ConditionOps}
use cluster_api_provider_bri.Api.Quantity.{QuantityOps}
use cluster_api_provider_bri.Api.Host.{ByoHost, HostInfo, is_tls_bootstrap}
use cluster_api_provider_bri.Api.Machine.{ByoMachine}
use cluster_api_provider_bri.MachineController.Server.{
  Server, Scope, World, Node, Ended, returned, on_server, set_host, set_byo_machine,
  with_host_annotations, before_plus, requeue_installer_config_time,
}
use cluster_api_provider_bri.MachineController.Attach.{
  Attached, attached_to, replied, attach_byo_host,
}
use cluster_api_provider_bri.MachineController.Delete.{mark_host_for_cleanup}
use cluster_api_provider_bri.MachineController.Provision.{mark_waiting, update_node_provider_id}

-- A step of the reconcile: what it leaves, and an error that ends it; or a panic.
pub data Part (S : Type 0) : Type 0 where
  proceeds : World S → Scope → Part S
  stops : World S → Scope → Error → Part S
  crashed : World S → Part S

abbrev pub is_proxy : String → Bool
is_proxy k =
    starts_with k "infrastructure.cluster.x-k8s.io/http-proxy"
    || starts_with k "infrastructure.cluster.x-k8s.io/https-proxy"
    || starts_with k "infrastructure.cluster.x-k8s.io/no-proxy"

-- The proxy annotations of the cluster, over those given.
unfoldable pub propagate : Dict String → Dict String → Dict String
propagate [] d = d
propagate ((k, v) ∷ cluster) d = propagate cluster (if is_proxy k then insert k v d else d)

abbrev pub is_empty_info : HostInfo → Bool
is_empty_info i = str_eq i.os_name "" && str_eq i.os_image "" && str_eq i.architecture ""

unfoldable pub set_host_info : ByoHost → ByoMachine → ByoMachine
set_host_info h m =
    if is_empty_info m.status.host_info
    then record m { status = record (m.status) { host_info = h.status.host_details } }
    else m

module _ {S : Type 0} (a : Server S) where
  unfoldable pub of_error : World S → Scope → Option Error → Part S
  of_error w p none = proceeds w p
  of_error w p (some e) = stops w p e

  unfoldable pub mark_part : Scope → ByoHost → World S → Part S
  unfolding of_error mark_host_for_cleanup
  mark_part p h w =
      let r = mark_host_for_cleanup a h w.server in
      of_error (on_server r.0.0 w) (set_host r.0.1 p) r.1

  unfoldable pub check_node : Scope → ByoHost → World S → S × Result {0} Node → Part S
  unfolding mark_part
  check_node p h w (s, err _) = mark_part p h (on_server s w)
  check_node p h w (s, ok node) =
      if is_some node.deletion_timestamp
      then mark_part p h (on_server s w)
      else proceeds (on_server s w) p

  unfoldable pub remediate_node : Scope → ByoHost → Option ObjectReference → World S → Part S
  unfolding check_node
  remediate_node p h none w = proceeds w p
  remediate_node p h (some ref) w = check_node p h w (a.get_management_node ref.name w.server)

  unfoldable pub remediate_host : Scope → Option ByoHost → World S → Part S
  unfolding remediate_node
  remediate_host p none w = proceeds w p
  remediate_host p (some h) w =
      if is_some h.status.machine_ref
      then remediate_node p h p.byo_machine.status.node_ref w
      else proceeds w p

  -- The block for a machine that MachineHealthCheck remediates.
  unfoldable pub remediate : Scope → World S → Part S
  unfolding remediate_host
  remediate p w =
      if is_some (lookup remediation_annotation p.machine.annotations)
      then remediate_host p p.byo_host w
      else proceeds w p

  -- `setPausedConditionForByoHost`
  unfoldable pub paused_host : Bool → ByoHost → ByoHost
  paused_host true h = with_host_annotations (insert paused_annotation "" h.meta.annotations) h
  paused_host false h = with_host_annotations (erase paused_annotation h.meta.annotations) h

  unfoldable pub set_paused_condition : Bool → ByoHost → S → (S × ByoHost) × Option Error
  unfolding paused_host
  set_paused_condition paused h s =
      let r = a.patch_host h (paused_host paused h) s in ((r.0, paused_host paused h), r.1)

  unfoldable pub resume : Scope → Option ByoHost → World S → Part S
  unfolding set_paused_condition of_error
  resume p none w = proceeds w p
  resume p (some h) w =
      let r = set_paused_condition false h w.server in
      of_error (on_server r.0.0 w) (set_host r.0.1 p) r.1

  unfoldable pub generated : Scope → Dict String → Result {0} (Unit {0}) → World S → Part S
  unfolding of_error
  generated p d (err e) w = stops w p e
  generated p d (ok _) w =
      let r = a.create_installer_config d w.server in of_error (on_server r.0 w) p r.1

  -- Without a version the pointer is nil.
  unfoldable pub from_template : Scope → Option String → World S → S × Option Error → Part S
  unfolding generated propagate
  from_template p version w (s, some e) = stops (on_server s w) p e
  from_template p none w (s, none) = crashed (on_server s w)
  from_template p (some v) w (s, none) =
      let d =
        propagate p.byo_cluster.meta.annotations
          (insert k8s_version_annotation (before_plus v) []) in
      generated p d (a.generate_template d) (on_server s w)

  unfoldable pub config_of : Scope → World S → S × Option Error → Part S
  unfolding from_template
  config_of p w (s, none) = proceeds (on_server s w) p
  config_of p w (s, some e) =
      if is_not_found e
      then from_template p p.machine.version w (a.get_installer_template s)
      else stops (on_server s w) p e

  -- `createInstallerConfig`
  unfoldable pub create_installer_config : Scope → World S → Part S
  unfolding config_of
  create_installer_config p w = config_of p w (a.get_installer_config w.server)

  unfoldable pub configure : Scope → World S → Part S
  unfolding create_installer_config
  configure p w =
      if is_some p.byo_machine.spec.installer_ref then create_installer_config p w else proceeds w p

  unfoldable pub secret_found :
      ByoHost → S × Result {0} (Option ObjectReference) → (S × ByoHost) × Reply
  secret_found h (s, err e) = ((s, h), fail e)
  secret_found h (s, ok none) =
      ((s, h), fail (failed "installation secret not set on ready installerconfig"))
  secret_found h (s, ok (some ref)) =
      let k = record h { spec = record (h.spec) { installation_secret = some ref } } in
      let r = a.patch_host h k s in ((r.0, k), record { requeue_after = 0; error = r.1 })

  unfoldable pub config_ready : ByoHost → S × Result {0} Bool → (S × ByoHost) × Reply
  unfolding secret_found
  config_ready h (s, err e) = ((s, h), fail e)
  config_ready h (s, ok ready) =
      if ready
      then secret_found h (a.installation_secret s)
      else ((s, h), requeue requeue_installer_config_time)

  -- `setInstallationSecretForByoHost`
  unfoldable pub set_installation_secret : ByoHost → S → (S × ByoHost) × Reply
  unfolding config_ready
  set_installation_secret h s = config_ready h (a.installer_config_ready s)

  unfoldable pub and_then : (Scope → World S → Ended S) → Part S → Ended S
  and_then next (proceeds w p) = next p w
  and_then next (stops w p e) = returned w p (fail e)
  and_then next (crashed w) = Ended.crashed w

module _ {S : Type 0} (a : Server S) (c : ConditionOps) (q : QuantityOps) (f : FinalizerOps) where
  unfoldable pub after_secret : Scope → World S → (S × ByoHost) × Reply → Ended S
  unfolding update_node_provider_id
  after_secret p w ((s, h), r) =
      if is_some r.error || ltb 0 r.requeue_after
      then returned (on_server s w) (set_host h p) r
      else update_node_provider_id a c (set_host h p) h (on_server s w)

  unfoldable pub with_host : Scope → ByoHost → World S → Ended S
  unfolding after_secret set_installation_secret set_host_info
  with_host p h w =
      let k = set_byo_machine (set_host_info h p.byo_machine) p in
      if is_some p.byo_machine.spec.installer_ref && not (is_some h.spec.installation_secret)
      then after_secret k w (set_installation_secret a h w.server)
      else update_node_provider_id a c k h w

  unfoldable pub after_attach : Scope → World S × Attached → Ended S
  unfolding with_host
  after_attach p (w, attached_to h) =
      with_host (set_host h (mark_waiting c installation_secret_not_available p)) h w
  after_attach p (w, replied m r) = returned w (set_byo_machine m p) r
  after_attach p (w, Attached.crashed) = Ended.crashed w

  unfoldable pub find_host : Scope → Option ByoHost → World S → Ended S
  unfolding with_host after_attach
  find_host p (some h) w = with_host p h w
  find_host p none w = after_attach p (attach_byo_host a c q p w)

  unfoldable pub check_ready : Scope → World S → Ended S
  unfolding find_host
  check_ready p w =
      if not p.cluster.infrastructure_ready
      then returned w (mark_waiting c waiting_for_cluster_infrastructure p) done
      else if not (is_tls_bootstrap p.byo_machine.spec.join_mode)
          && not (is_some p.machine.data_secret_name)
      then returned w (mark_waiting c waiting_for_bootstrap_data_secret p) done
      else find_host p p.byo_host w

  unfoldable pub add_machine_finalizer : ByoMachine → ByoMachine
  add_machine_finalizer m = record m {
    meta = record (m.meta) { finalizers = f.add_finalizer machine_finalizer m.meta.finalizers };
  }

  unfoldable pub after_resume : Scope → World S → Ended S
  unfolding check_ready configure and_then
  after_resume p w = and_then a check_ready (configure a p w)

  unfoldable pub after_remediation : Scope → World S → Ended S
  unfolding after_resume resume and_then
  after_remediation p w = and_then a after_resume (resume a p p.byo_host w)

  -- `reconcileNormal`
  unfoldable pub reconcile_normal : Scope → World S → Ended S
  unfolding after_remediation remediate and_then add_machine_finalizer
  reconcile_normal p w =
      and_then a after_remediation
        (remediate a (set_byo_machine (add_machine_finalizer p.byo_machine) p) w)
