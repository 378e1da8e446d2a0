-- ===== src/Agent/Cleanup.antt =====
-- `hostCleanUp` and the functions under it.
pub mod Laws
use cluster_api_provider_bri.Prelude.{
  ℕ, zero, suc, String, Bool, true, false, not, Option, none, some, List, [], ◌∷◌, ◌++◌, map,
  if◌then◌else◌,
}
use cluster_api_provider_bri.Prelude.Dict.{Dict, lookup, erase}
use cluster_api_provider_bri.Api.Names.{
  host_cleanup_annotation, cleanup_started_at_annotation, force_cleanup_annotation,
  end_point_ip_annotation, k8s_version_annotation, bundle_lookup_base_registry_annotation,
  cluster_name_label, attached_byo_machine_label, k8s_node_bootstrap_succeeded,
  k8s_components_installation_succeeded, k8s_node_absent,
}
use cluster_api_provider_bri.Api.Meta.{Error, Result, ok, err}
use cluster_api_provider_bri.Api.Conditions.{ConditionOps, severity_info}
use cluster_api_provider_bri.Api.Host.{ByoHost}
use cluster_api_provider_bri.Agent.State.{
  Action, run_cmd, remove_file, remove_all, delete_node, delete_ip, remove_machine_id, Agent, Env,
  act, with_conditions, installed, ◌>=>◌, parse_script,
}

abbrev pub kubeadm_reset_command : String
kubeadm_reset_command = "kubeadm reset --force"

abbrev pub machine_id_file : String
machine_id_file = "/run/cluster-api/machine-id"

abbrev pub bootstrap_sentinel_file : String
bootstrap_sentinel_file = "/run/cluster-api/bootstrap-success.complete"

abbrev pub files_to_remove : List String
files_to_remove =
    "/etc/kubernetes/bootstrap-kubeconfig" ∷ "/etc/kubernetes/kubelet.conf"
    ∷ "/etc/kubernetes/pki/ca.crt" ∷ "/var/lib/kubelet/config.yaml"
    ∷ "/etc/kubernetes/kube-proxy.kubeconfig" ∷ "/var/lib/kube-proxy/kube-proxy-config.yaml"
    ∷ "/etc/systemd/system/kubelet.service" ∷ "/etc/systemd/system/kube-proxy.service" ∷ []

abbrev pub dirs_to_remove : List String
dirs_to_remove =
    "/var/lib/kubelet" ∷ "/var/lib/kube-proxy" ∷ "/var/lib/etcd" ∷ "/etc/kubernetes"
    ∷ "/run/kubernetes" ∷ []

abbrev when : Bool → Action → List Action
when true a = a ∷ []
when false a = []

-- The actions of `resetNode`. Every error on the way is logged and dropped.
unfoldable pub reset_actions : Env → ByoHost → List Action
reset_actions env h =
    when env.kubeadm_found (run_cmd kubeadm_reset_command)
    ++ (run_cmd "systemctl stop kubelet" ∷ run_cmd "systemctl stop containerd" ∷ [])
    ++ when h.spec.manage_kube_proxy (run_cmd "systemctl stop kube-proxy")
    ++ map remove_file files_to_remove
    ++ (run_cmd "systemctl daemon-reload" ∷ [])
    ++ map remove_all dirs_to_remove
    ++ when env.node_exists (delete_node h.meta.name)

-- The function returns nil on its one way out.
unfoldable pub reset_node : Env → Agent → Agent × Option Error
unfolding reset_actions
reset_node env s = (act (reset_actions env s.host) s, none)

-- The loop of `resetNodeWithRetry`, with the attempts left. The context is not cancelled.
unfoldable pub reset_node_with_retry : Env → ℕ → Option Error → Agent → Agent × Option Error
unfolding reset_node
reset_node_with_retry env zero last_err s = (s, last_err)
reset_node_with_retry env (suc attempts) last_err s = elim (reset_node env s).1 [
  | none ↦ ((reset_node env s).0, none)
  | some e ↦ reset_node_with_retry env attempts (some e) (reset_node env s).0
]

unfoldable pub remove_sentinel_file : Env → Agent → Agent × Option Error
remove_sentinel_file env s =
    if env.sentinel_missing
    then (s, none)
    else (act (remove_file bootstrap_sentinel_file ∷ []) s, env.remove_sentinel)

unfoldable pub delete_ip_of : Env → Option String → Agent → Agent × Option Error
delete_ip_of env none s = (s, none)
delete_ip_of env (some ip) s =
    if env.vip_config ip then (act (delete_ip ip ∷ []) s, env.delete_ip_error ip) else (s, none)

unfoldable pub delete_endpoint_ip : Env → Agent → Agent × Option Error
unfolding delete_ip_of
delete_endpoint_ip env s =
    delete_ip_of env (lookup end_point_ip_annotation s.host.meta.annotations) s

abbrev pub cleared_annotations : Dict String → Dict String
cleared_annotations a = erase bundle_lookup_base_registry_annotation (
    erase k8s_version_annotation (
      erase force_cleanup_annotation (
        erase cleanup_started_at_annotation
          (erase host_cleanup_annotation (erase end_point_ip_annotation a)))))

unfoldable pub remove_annotations : ByoHost → ByoHost
remove_annotations h = record h {
  meta = record (h.meta) {
    labels = erase attached_byo_machine_label (erase cluster_name_label h.meta.labels);
    annotations = cleared_annotations h.meta.annotations;
  };
  spec = record (h.spec) { bootstrap_secret = none };
  status = record (h.status) { machine_ref = none };
}

module _ (c : ConditionOps) (env : Env) where
  abbrev pub mark_absent : String → Agent → Agent
  mark_absent t = with_conditions (c.mark_false t k8s_node_absent severity_info)

  -- The uninstall script is parsed and not run.
  unfoldable pub check_uninstall : Option String → ByoHost → Option Error
  unfolding parse_script
  check_uninstall none h = none
  check_uninstall (some script) h = elim (parse_script env script h.meta.name) [
    | ok _ ↦ none
    | err e ↦ some e
  ]

  -- Where the components are installed: the check of the uninstall script, and the condition.
  unfoldable pub uninstall : Agent → Agent × Option Error
  unfolding check_uninstall
  uninstall s =
      if not (installed c s.host)
      then (s, none)
      else (if env.skip_k8s_installation
          then (mark_absent k8s_components_installation_succeeded s, none)
          else elim (check_uninstall s.host.spec.uninstallation_script s.host) [
            | none ↦ (mark_absent k8s_components_installation_succeeded s, none)
            | some e ↦ (s, some e)
          ])

  -- The last part of `hostCleanUp`, which cannot fail.
  unfoldable pub forget_machine : Agent → Agent
  unfolding remove_annotations
  forget_machine s =
      let h = record (s.host) {
        spec = record (s.host.spec) { installation_secret = none; uninstallation_script = none };
      } in
      let t = mark_absent k8s_node_bootstrap_succeeded (record s { host = remove_annotations h }) in
      record t {
        machine_id = if env.machine_id_removed then none else t.machine_id;
        actions = t.actions ++ (remove_machine_id machine_id_file ∷ []);
      }

  unfoldable pub host_clean_up : Agent → Agent × Option Error
  unfolding reset_node_with_retry uninstall remove_sentinel_file delete_endpoint_ip forget_machine
  host_clean_up s =
      (uninstall
          >=> (λ t. (mark_absent k8s_node_bootstrap_succeeded t, none))
          >=> remove_sentinel_file env
          >=> delete_endpoint_ip env
          >=> (λ t. (forget_machine t, none)))
        (reset_node_with_retry env 3 none s).0
