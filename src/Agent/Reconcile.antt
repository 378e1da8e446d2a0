-- ===== src/Agent/Reconcile.antt =====
-- `Reconcile`, `reconcileNormal` and `reconcileDelete` of the host agent.
use cluster_api_provider_bri.Prelude.{
  String, Bool, false, not, ◌&&◌, ◌||◌, Option, none, some, [], ◌∷◌, ◌++◌, str_eq, if◌then◌else◌,
}
use cluster_api_provider_bri.Api.Names.{
  k8s_node_bootstrap_succeeded, k8s_components_installation_succeeded,
  bootstrap_data_secret_unavailable, k8s_installation_secret_unavailable,
  clean_k8s_directories_failed, cloud_init_execution_failed,
}
use cluster_api_provider_bri.Api.Meta.{ObjectReference, Error, Result, ok, err, Reply, done, fail}
use cluster_api_provider_bri.Api.Conditions.{ConditionOps, severity_info, severity_error}
use cluster_api_provider_bri.Api.Host.{is_tls_bootstrap, is_offline}
use cluster_api_provider_bri.Agent.State.{
  Agent, Env, Step, ◌>=>◌, act, clean_k8s_directories, execute_bootstrap, run, mkdir_step,
  write_step, patch_provider_id, write_machine_id, with_conditions, bootstrapped, installed,
}
use cluster_api_provider_bri.Agent.Cleanup.{host_clean_up, mark_absent, reset_node, machine_id_file}
use cluster_api_provider_bri.Agent.Tls.{
  generate_provider_id, kube_proxy_config_path, bootstrap_k8s_node_tls,
}
use cluster_api_provider_bri.Agent.Tls.Texts.{default_kube_proxy_config, kube_proxy_service}
use cluster_api_provider_bri.Agent.Install.{execute_installer_controller}

-- `patchLocalNodeProviderID`; its error is only logged.
unfoldable pub patch_local_node_provider_id : Env → Agent → Agent
unfolding generate_provider_id
patch_local_node_provider_id env s = elim env.local_provider_id [
  | err _ ↦ s
  | ok id ↦
      if str_eq id (generate_provider_id s.host.meta.name)
      then s
      else act (patch_provider_id (generate_provider_id s.host.meta.name) ∷ []) s
]

-- The default configuration is written where there is none.
abbrev pub write_default_config : Env → Step
write_default_config env s =
    if env.kube_proxy_config_missing
    then (mkdir_step env "/etc/kubernetes"
          >=> write_step env kube_proxy_config_path "0644" default_kube_proxy_config)
        s
    else (s, none)

-- `startKubeProxyIfNeeded`
unfoldable pub start_kube_proxy_if_needed : Env → Step
start_kube_proxy_if_needed env s =
    if not s.host.spec.manage_kube_proxy
    then (s, none)
    else elim (run env "systemctl is-active --quiet kube-proxy" s).1 [
      | none ↦ ((run env "systemctl is-active --quiet kube-proxy" s).0, none)
      | some _ ↦
          (write_default_config env
              >=> write_step env "/etc/systemd/system/kube-proxy.service" "0644" kube_proxy_service
              >=> run env "systemctl daemon-reload"
              >=> run env "systemctl enable --now kube-proxy")
            (run env "systemctl is-active --quiet kube-proxy" s).0
    ]

abbrev pub Outcome : Type 0
Outcome = Agent × Reply

module _ (c : ConditionOps) (env : Env) where
  abbrev mark : String → Agent → Agent
  mark t = with_conditions (c.mark_true t)

  abbrev mark_false : String → String → String → Agent → Agent
  mark_false t reason severity = with_conditions (c.mark_false t reason severity)

  -- A cleanup, and the conditions that are marked once it has succeeded.
  unfoldable pub clean_and : (Agent → Agent) → Agent × Option Error → Outcome
  clean_and marks (s, none) = (marks s, done)
  clean_and marks (s, some e) = (s, fail e)

  -- The branch without a MachineRef: a host that seems bootstrapped cleans itself.
  unfoldable pub wait_for_machine : Agent → Outcome
  unfolding clean_and host_clean_up
  wait_for_machine s =
      if bootstrapped c s.host || installed c s.host
      then clean_and
          (λ t.
            mark_absent c env k8s_components_installation_succeeded
              (mark_absent c env k8s_node_bootstrap_succeeded t))
          (host_clean_up c env s)
      else (s, done)

  -- What follows a successful bootstrap.
  unfoldable pub record_bootstrap : ObjectReference → Agent → Agent
  unfolding patch_local_node_provider_id start_kube_proxy_if_needed
  record_bootstrap ref s =
      let t = mark k8s_node_bootstrap_succeeded s in
      let u =
        if is_tls_bootstrap t.host.spec.join_mode then t else patch_local_node_provider_id env t in
      let v = record u {
        machine_id = if env.machine_id_written then some ref.uid else u.machine_id;
        actions = u.actions ++ (write_machine_id machine_id_file ∷ []);
      } in
      if is_tls_bootstrap v.host.spec.join_mode && v.host.spec.manage_kube_proxy
      then (start_kube_proxy_if_needed env v).0
      else v

  -- `bootstrapK8sNode`
  unfoldable pub bootstrap_k8s_node : Step
  unfolding bootstrap_k8s_node_tls
  bootstrap_k8s_node s =
      if is_tls_bootstrap s.host.spec.join_mode
      then bootstrap_k8s_node_tls env s
      else (act (execute_bootstrap ∷ []) s, env.execute_bootstrap_error)

  unfoldable pub after_bootstrap : ObjectReference → Agent × Option Error → Outcome
  unfolding record_bootstrap reset_node
  after_bootstrap ref (s, none) = (record_bootstrap ref s, done)
  after_bootstrap ref (s, some e) = (
    mark_false k8s_node_bootstrap_succeeded cloud_init_execution_failed severity_error
        (reset_node env s).0,
    fail e,
  )

  unfoldable pub clean_and_bootstrap : ObjectReference → Agent → Outcome
  unfolding after_bootstrap bootstrap_k8s_node
  clean_and_bootstrap ref s =
      let t = act (clean_k8s_directories ∷ []) s in
      elim env.clean_directories [
        | some e ↦ (
          mark_false k8s_node_bootstrap_succeeded clean_k8s_directories_failed severity_error t,
          fail e,
        )
        | none ↦ after_bootstrap ref (bootstrap_k8s_node t)
      ]

  unfoldable pub after_install : ObjectReference → Agent × Option Error → Outcome
  unfolding clean_and_bootstrap
  after_install ref (s, none) =
      clean_and_bootstrap ref (mark k8s_components_installation_succeeded s)
  after_install ref (s, some e) = (s, fail e)

  -- The choice by the installation secret.
  unfoldable pub install_by_secret : ObjectReference → Option ObjectReference → Agent → Outcome
  unfolding after_install execute_installer_controller clean_and_bootstrap
  install_by_secret ref (some _) s = after_install ref (execute_installer_controller c env s)
  install_by_secret ref none s =
      if is_tls_bootstrap s.host.spec.join_mode && is_offline s.host.spec.download_mode
      then clean_and_bootstrap ref (mark k8s_components_installation_succeeded s)
      else (
        mark_false k8s_components_installation_succeeded k8s_installation_secret_unavailable
            severity_info s,
        done,
      )

  unfoldable pub install : ObjectReference → Agent → Outcome
  unfolding install_by_secret clean_and_bootstrap
  install ref s =
      if env.skip_k8s_installation || installed c s.host
      then clean_and_bootstrap ref s
      else install_by_secret ref s.host.spec.installation_secret s

  unfoldable pub bootstrap : ObjectReference → Result {0} String → Agent → Outcome
  unfolding install
  bootstrap ref (err e) s = (s, fail e)
  bootstrap ref (ok _) s = install ref s

  -- Whether the file holds another machine's UID.
  unfoldable pub is_other_machine : ObjectReference → Option String → Bool
  is_other_machine ref none = false
  is_other_machine ref (some text) = not (str_eq (env.trim_space text) ref.uid)

  unfoldable pub reconcile_bound : ObjectReference → Agent → Outcome
  unfolding is_other_machine clean_and host_clean_up bootstrap
  reconcile_bound ref s =
      if is_other_machine ref s.machine_id
      then clean_and (mark_absent c env k8s_node_bootstrap_succeeded) (host_clean_up c env s)
      else (if bootstrapped c s.host then (s, done) else bootstrap ref env.bootstrap_script s)

  unfoldable pub reconcile_secret : ObjectReference → Option ObjectReference → Agent → Outcome
  unfolding reconcile_bound
  reconcile_secret ref (some _) s = reconcile_bound ref s
  reconcile_secret ref none s = (
    mark_false k8s_node_bootstrap_succeeded bootstrap_data_secret_unavailable severity_info s,
    done,
  )

  unfoldable pub normal_of : Option ObjectReference → Agent → Outcome
  unfolding wait_for_machine reconcile_secret
  normal_of none s = wait_for_machine s
  normal_of (some ref) s = reconcile_secret ref s.host.spec.bootstrap_secret s

  unfoldable pub reconcile_normal : Agent → Outcome
  unfolding normal_of
  reconcile_normal s = normal_of s.host.status.machine_ref s
