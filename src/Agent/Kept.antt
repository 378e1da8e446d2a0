-- ===== src/Agent/Kept.antt =====
-- The steps of a bootstrap act on the machine; they leave the host in memory and the file with the
-- machine's UID as they are.
use mathlib.Core.Path.{subst}
use cluster_api_provider_bri.Prelude.{
  ◌≡◌, refl, sym, ap, ◌∙◌, String, Bool, true, false, not, Option, none, some, List, [], ◌∷◌,
  str_eq, if◌then◌else◌, ◌++◌, ◌&&◌, Bool-cases, inl, inr, if_true,
}
use cluster_api_provider_bri.Api.Names.{k8s_node_bootstrap_succeeded}
use cluster_api_provider_bri.Api.Meta.{ObjectReference, Error, Result, ok, err}
use cluster_api_provider_bri.Api.Conditions.{ConditionOps}
use cluster_api_provider_bri.Api.Host.{is_tls_bootstrap}
use cluster_api_provider_bri.Agent.State.{
  Agent, Env, Step, ◌>=>◌, and_then, act, mkdir, write_file, run, mkdir_step, write_step,
  execute_bootstrap, patch_provider_id, write_machine_id, with_conditions,
}
use cluster_api_provider_bri.Agent.Cleanup.{machine_id_file}
use cluster_api_provider_bri.Agent.Tls.{
  generate_provider_id, kube_proxy_config_path, ca_paths, write_ca_at, write_ca_paths, write_ca,
  ca_cert_data, bootstrap_k8s_node_tls,
}
use cluster_api_provider_bri.Agent.Tls.Texts.{default_kube_proxy_config, kube_proxy_service}
use cluster_api_provider_bri.Agent.Tls.Started.{bootstrap_tls_ok}
use cluster_api_provider_bri.Agent.Reconcile.{
  patch_local_node_provider_id, start_kube_proxy_if_needed, write_default_config, record_bootstrap,
  bootstrap_k8s_node,
}

pub record IsSame (s t : Agent) : Type 0 where
  pub host : t.host ≡ s.host
  pub machine_id : t.machine_id ≡ s.machine_id

abbrev pub Keeps : Step → Type 0
Keeps f = (s : Agent) → IsSame s (f s).0

pub same : (s : Agent) → IsSame s s
same s = record { host = refl; machine_id = refl }

pub joined : (s t u : Agent) → IsSame s t → IsSame t u → IsSame s u
joined s t u p q = record { host = q.host ∙ p.host; machine_id = q.machine_id ∙ p.machine_id }

reply-Keeps :
    (g : Step) (s t : Agent) (r : Option Error) → Keeps g → IsSame s t → IsSame s (and_then r g t).0
reply-Keeps g s t none kept p = joined s t (g t).0 p (kept t)
reply-Keeps g s t (some e) kept p = p

then-Keeps : (f g : Step) → Keeps f → Keeps g → Keeps (f >=> g)
then-Keeps f g p q s = reply-Keeps g s (f s).0 (f s).1 q (p s)

branch-IsSame : (b : Bool) (s t u : Agent) → IsSame s t → IsSame s u → IsSame s (if b then t else u)
branch-IsSame true s t u p q = p
branch-IsSame false s t u p q = q

module _ (env : Env) where
  run-Keeps : (cmd : String) → Keeps (run env cmd)
  run-Keeps cmd s = record { host = refl; machine_id = refl }

  write-Keeps : (path permissions text : String) → Keeps (write_step env path permissions text)
  write-Keeps path permissions text s = record { host = refl; machine_id = refl }

  mkdir-Keeps : (dir : String) → Keeps (mkdir_step env dir)
  mkdir-Keeps dir s = record { host = refl; machine_id = refl }

  ca_at-IsSame :
      (content dir path : String) (s : Agent) (r : Option Error)
      → IsSame s (elim r as (λ x. Agent) [
        | some _ ↦ act (mkdir dir ∷ []) s
        | none ↦ act (mkdir dir ∷ write_file path "0644" content ∷ []) s
      ])
  ca_at-IsSame content dir path s none = record { host = refl; machine_id = refl }
  ca_at-IsSame content dir path s (some e) = record { host = refl; machine_id = refl }

  ca_paths-IsSame :
      (content : String) (ps : List (String × String)) (s : Agent)
      → IsSame s (write_ca_paths env content ps s)
  unfolding write_ca_paths write_ca_at
  ca_paths-IsSame content [] s = same s
  ca_paths-IsSame content ((dir, path) ∷ ps) s =
      joined s (write_ca_at env content (dir, path) s)
        (write_ca_paths env content ps (write_ca_at env content (dir, path) s))
        (ca_at-IsSame content dir path s (env.mkdir_error dir))
        (ca_paths-IsSame content ps (write_ca_at env content (dir, path) s))

  write_ca-IsSame : (content : String) (s : Agent) → IsSame s (write_ca env content s)
  unfolding write_ca
  write_ca-IsSame content s =
      branch-IsSame (str_eq content "") s s (write_ca_paths env content ca_paths s) (same s)
        (ca_paths-IsSame content ca_paths s)

  -- A bootstrap that succeeds.
  tls-IsSame :
      (s : Agent)
      → (bootstrap_k8s_node_tls env s).1 ≡ none
      → IsSame s (bootstrap_k8s_node_tls env s).0
  tls-IsSame s success =
      let r = bootstrap_tls_ok env s success in
      let before = write_ca-IsSame (ca_cert_data env r.0.contents) s in
      record {
        host = ap (λ t. t.host) r.1 ∙ before.host;
        machine_id = ap (λ t. t.machine_id) r.1 ∙ before.machine_id;
      }

  pub node-IsSame :
      (c : ConditionOps) (s : Agent)
      → (bootstrap_k8s_node c env s).1 ≡ none
      → IsSame s (bootstrap_k8s_node c env s).0
  unfolding bootstrap_k8s_node
  node-IsSame c s success = elim (Bool-cases (is_tls_bootstrap s.host.spec.join_mode)) [
    | inl tls ↦
        let r =
          if_true (bootstrap_k8s_node_tls env s)
            (act (execute_bootstrap ∷ []) s, env.execute_bootstrap_error) tls in
        subst (λ x. IsSame s x.0) (sym r) (tls-IsSame s (ap (λ x. x.1) (sym r) ∙ success))
    | inr other ↦ rw other (record { host = refl; machine_id = refl })
  ]

  branch-Keeps : (b : Bool) (f : Step) → Keeps f → Keeps (λ s. if b then f s else (s, none))
  branch-Keeps true f kept s = kept s
  branch-Keeps false f kept s = same s

  service-Keeps : Keeps (
      write_default_config env
      >=> write_step env "/etc/systemd/system/kube-proxy.service" "0644" kube_proxy_service
      >=> run env "systemctl daemon-reload"
      >=> run env "systemctl enable --now kube-proxy")
  service-Keeps =
      let config : Keeps (write_default_config env) =
        branch-Keeps env.kube_proxy_config_missing
          (mkdir_step env "/etc/kubernetes"
            >=> write_step env kube_proxy_config_path "0644" default_kube_proxy_config)
          (then-Keeps (mkdir_step env "/etc/kubernetes")
            (write_step env kube_proxy_config_path "0644" default_kube_proxy_config)
            (mkdir-Keeps "/etc/kubernetes")
            (write-Keeps kube_proxy_config_path "0644" default_kube_proxy_config)) in
      let unit =
        write_step env "/etc/systemd/system/kube-proxy.service" "0644" kube_proxy_service in
      then-Keeps (write_default_config env >=> unit >=> run env "systemctl daemon-reload")
        (run env "systemctl enable --now kube-proxy")
        (then-Keeps (write_default_config env >=> unit) (run env "systemctl daemon-reload")
          (then-Keeps (write_default_config env) unit config
            (write-Keeps "/etc/systemd/system/kube-proxy.service" "0644" kube_proxy_service))
          (run-Keeps "systemctl daemon-reload"))
        (run-Keeps "systemctl enable --now kube-proxy")

  answered-IsSame :
      (f : Step) (s t : Agent) (r : Option Error)
      → Keeps f
      → IsSame s t
      → IsSame s (elim r as (λ x. Agent × Option Error) [ none ↦ (t, none) | some _ ↦ f t ]).0
  answered-IsSame f s t none kept p = p
  answered-IsSame f s t (some e) kept p = joined s t (f t).0 p (kept t)

  start_kube_proxy-Keeps : Keeps (start_kube_proxy_if_needed env)
  unfolding start_kube_proxy_if_needed
  start_kube_proxy-Keeps s = elim (Bool-cases (not s.host.spec.manage_kube_proxy)) [
    | inl unmanaged ↦ rw unmanaged (same s)
    | inr managed ↦ rw managed (
        answered-IsSame
          (write_default_config env
            >=> write_step env "/etc/systemd/system/kube-proxy.service" "0644" kube_proxy_service
            >=> run env "systemctl daemon-reload"
            >=> run env "systemctl enable --now kube-proxy")
          s (run env "systemctl is-active --quiet kube-proxy" s).0
          (env.run_cmd_error "systemctl is-active --quiet kube-proxy") service-Keeps
          (run-Keeps "systemctl is-active --quiet kube-proxy" s))
  ]

  id_found-IsSame :
      (s : Agent) (id : String) (r : Result {0} String)
      → IsSame s (elim r as (λ x. Agent) [
        | err _ ↦ s
        | ok found ↦ if str_eq found id then s else act (patch_provider_id id ∷ []) s
      ])
  id_found-IsSame s id (err _) = same s
  id_found-IsSame s id (ok found) =
      branch-IsSame (str_eq found id) s s (act (patch_provider_id id ∷ []) s) (same s)
        (record { host = refl; machine_id = refl })

  provider_id-IsSame : (s : Agent) → IsSame s (patch_local_node_provider_id env s)
  unfolding patch_local_node_provider_id
  provider_id-IsSame s =
      id_found-IsSame s (generate_provider_id s.host.meta.name) env.local_provider_id

  -- What is recorded of a bootstrap: the condition, and the file with the machine's UID.
  pub record_bootstrap-host :
      (c : ConditionOps) (ref : ObjectReference) (s : Agent)
      → ((record_bootstrap c env ref s).host
          ≡ (with_conditions (c.mark_true k8s_node_bootstrap_succeeded) s).host)
        × ((record_bootstrap c env ref s).machine_id
            ≡ (if env.machine_id_written then some ref.uid else s.machine_id))
  unfolding record_bootstrap
  record_bootstrap-host c ref s =
      let t = with_conditions (c.mark_true k8s_node_bootstrap_succeeded) s in
      let u =
        if is_tls_bootstrap t.host.spec.join_mode then t else patch_local_node_provider_id env t in
      let p : IsSame t u =
        branch-IsSame (is_tls_bootstrap t.host.spec.join_mode) t t
          (patch_local_node_provider_id env t) (same t) (provider_id-IsSame t) in
      let v : Agent = record u {
        machine_id = if env.machine_id_written then some ref.uid else u.machine_id;
        actions = u.actions ++ (write_machine_id machine_id_file ∷ []);
      } in
      let q : IsSame v (record_bootstrap c env ref s) =
        branch-IsSame (is_tls_bootstrap v.host.spec.join_mode && v.host.spec.manage_kube_proxy) v
          (start_kube_proxy_if_needed env v).0 v (start_kube_proxy-Keeps v) (same v) in
      (
        q.host ∙ p.host,
        q.machine_id ∙ ap (λ m. if env.machine_id_written then some ref.uid else m) p.machine_id,
      )
