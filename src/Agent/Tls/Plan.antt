-- ===== src/Agent/Tls/Plan.antt =====
-- The plan of a TLS bootstrap as one list of actions, and the bootstrap as its execution.
use mathlib.Core.Path.{fun_ext, ap₂}
use mathlib.Core.List.{append_assoc}
use cluster_api_provider_bri.Prelude.{
  ◌≡◌, refl, ap, String, ◌∙◌, Bool, true, false, Option, none, some, List, [], ◌∷◌, ◌++◌,
  if◌then◌else◌,
}
use cluster_api_provider_bri.Prelude.Dict.{Dict, lookup}
use cluster_api_provider_bri.Api.Meta.{ObjectReference, Error, ok}
use cluster_api_provider_bri.Api.Host.{ByoHost}
use cluster_api_provider_bri.Agent.State.{
  Action, run_cmd, mkdir, write_file, KubeConfig, Agent, Env, Step, ◌>=>◌, and_then, act, run,
  mkdir_step, write_step,
}
use cluster_api_provider_bri.Agent.Tls.{
  kube_proxy_config_path, value_or, proxy_kubeconfig, kubelet_args, ca_cert_data, write_ca,
  write_bootstrap_kubeconfig, write_proxy_kubeconfig, write_configs, prepare_configs, start_kubelet,
  start_kube_proxy, bootstrap_from, with_secret_data, bootstrap_with, bootstrap_k8s_node_tls,
}
use cluster_api_provider_bri.Agent.Tls.Texts.{
  default_kubelet_config, default_kube_proxy_config, kube_proxy_service, kubelet_service,
}

abbrev pub kubeconfig_actions : Option String → List Action
kubeconfig_actions none = []
kubeconfig_actions (some text) =
    mkdir "/etc/kubernetes" ∷ write_file "/etc/kubernetes/bootstrap-kubeconfig" "0600" text ∷ []

abbrev kube_proxy_actions : Bool → List Action
kube_proxy_actions false = []
kube_proxy_actions true =
    write_file "/etc/systemd/system/kube-proxy.service" "0644" kube_proxy_service
    ∷ run_cmd "systemctl daemon-reload"
    ∷ run_cmd "systemctl enable --now kube-proxy"
    ∷ []

module _ (env : Env) where
  abbrev pub config_actions : Dict String → KubeConfig → List Action
  config_actions d k =
      mkdir "/var/lib/kubelet"
      ∷ write_file "/var/lib/kubelet/config.yaml" "0644"
          (value_or default_kubelet_config "kubelet-config.yaml" d)
      ∷ mkdir "/var/lib/kube-proxy"
      ∷ write_file kube_proxy_config_path "0644"
          (value_or default_kube_proxy_config "kube-proxy-config.yaml" d)
      ∷ mkdir "/etc/kubernetes"
      ∷ write_file "/etc/kubernetes/kube-proxy.kubeconfig" "0600" (proxy_kubeconfig env k)
      ∷ []

  abbrev pub kubelet_actions : ByoHost → List Action
  kubelet_actions h =
      mkdir "/etc/kubernetes/manifests"
      ∷ mkdir "/var/lib/kubelet/pki"
      ∷ mkdir "/var/lib/kube-proxy"
      ∷ write_file "/etc/systemd/system/kubelet.service" "0644" (kubelet_service (kubelet_args h))
      ∷ run_cmd "systemctl daemon-reload"
      ∷ run_cmd "systemctl enable --now kubelet"
      ∷ []

  -- The actions of a bootstrap that succeeds, after the step for the certificate.
  abbrev pub plan : Dict String → KubeConfig → ByoHost → List Action
  plan d k h =
      kubeconfig_actions (lookup "bootstrap-kubeconfig" d)
      ++ (config_actions d k ++ (kubelet_actions h ++ kube_proxy_actions h.spec.manage_kube_proxy))

  abbrev pub answer : Action → Option Error
  answer (run_cmd cmd) = env.run_cmd_error cmd
  answer (mkdir dir) = env.mkdir_error dir
  answer (write_file path _ _) = env.write_file_error path
  answer _ = none

  -- The actions in their order, up to the first that fails.
  unfoldable pub perform : List Action → Step
  perform [] s = (s, none)
  perform (a ∷ actions) s = and_then (answer a) (perform actions) (act (a ∷ []) s)

  and_then_assoc :
      (r : Option Error) (f g : Step) (s : Agent)
      → and_then (and_then r f s).1 g (and_then r f s).0 ≡ and_then r (f >=> g) s
  and_then_assoc none f g s = refl
  and_then_assoc (some e) f g s = refl

  perform-append :
      (before after : List Action) → (perform before >=> perform after) ≡ perform (before ++ after)
  unfolding perform
  perform-append [] after = refl
  perform-append (a ∷ before) after = fun_ext λ s.
      and_then_assoc (answer a) (perform before) (perform after) (act (a ∷ []) s)
      ∙ ap (λ f. and_then (answer a) f (act (a ∷ []) s)) (perform-append before after)

  -- Steps that perform lists of actions perform them joined.
  both :
      {f g : Step} (before after : List Action)
      → f ≡ perform before
      → g ≡ perform after
      → (f >=> g) ≡ perform (before ++ after)
  both before after p q = ap₂ ◌>=>◌ p q ∙ perform-append before after

  nothing-performs : (λ s. (s, none)) ≡ perform []
  unfolding perform
  nothing-performs = refl

  one : (r : Option Error) (s : Agent) → (s, r) ≡ and_then r (λ t. (t, none)) s
  one none s = refl
  one (some e) s = refl

  mkdir-performs : (dir : String) → mkdir_step env dir ≡ perform (mkdir dir ∷ [])
  unfolding perform
  mkdir-performs dir = fun_ext λ s. one (env.mkdir_error dir) (act (mkdir dir ∷ []) s)

  write-performs :
      (path permissions content : String)
      → write_step env path permissions content ≡ perform (write_file path permissions content ∷ [])
  unfolding perform
  write-performs path permissions content =
      fun_ext
        λ s. one (env.write_file_error path) (act (write_file path permissions content ∷ []) s)

  run-performs : (cmd : String) → run env cmd ≡ perform (run_cmd cmd ∷ [])
  unfolding perform
  run-performs cmd = fun_ext λ s. one (env.run_cmd_error cmd) (act (run_cmd cmd ∷ []) s)

  write_bootstrap_kubeconfig-performs :
      (text : Option String)
      → write_bootstrap_kubeconfig env text ≡ perform (kubeconfig_actions text)
  unfolding write_bootstrap_kubeconfig
  write_bootstrap_kubeconfig-performs none = nothing-performs
  write_bootstrap_kubeconfig-performs (some text) =
      both _ _ (mkdir-performs _) (write-performs _ _ _)

  start_kube_proxy-performs :
      (h : ByoHost) → start_kube_proxy env h ≡ perform (kube_proxy_actions h.spec.manage_kube_proxy)
  unfolding start_kube_proxy
  start_kube_proxy-performs h = by_flag h.spec.manage_kube_proxy
    where
      by_flag :
          (b : Bool)
          → (λ s.
              if b
              then (write_step env "/etc/systemd/system/kube-proxy.service" "0644"
                      kube_proxy_service
                    >=> run env "systemctl daemon-reload"
                    >=> run env "systemctl enable --now kube-proxy")
                  s
              else (s, none))
            ≡ perform (kube_proxy_actions b)
      by_flag false = nothing-performs
      by_flag true = both _ _ (both _ _ (write-performs _ _ _) (run-performs _)) (run-performs _)

  start_kubelet-performs : (h : ByoHost) → start_kubelet env h ≡ perform (kubelet_actions h)
  unfolding start_kubelet
  start_kubelet-performs h =
      both _ _
        (both _ _
          (both _ _ (both _ _ (both _ _ (mkdir-performs _) (mkdir-performs _)) (mkdir-performs _))
            (write-performs _ _ _))
          (run-performs _))
        (run-performs _)

  module _ (d : Dict String) (k : KubeConfig) (loaded : env.byoh_config ≡ ok k) where
    write_proxy_kubeconfig-performs :
        write_proxy_kubeconfig env env.byoh_config
        ≡ perform (
            write_file "/etc/kubernetes/kube-proxy.kubeconfig" "0600" (proxy_kubeconfig env k) ∷ [])
    unfolding write_proxy_kubeconfig
    write_proxy_kubeconfig-performs = ap (write_proxy_kubeconfig env) loaded ∙ write-performs _ _ _

    write_configs-performs :
        write_configs env d
        ≡ perform (kubeconfig_actions (lookup "bootstrap-kubeconfig" d) ++ config_actions d k)
    unfolding write_configs prepare_configs
    write_configs-performs =
        both _ _
          (both _ _
            (both _ _
              (both _ _
                (both _ _
                  (both _ _ (write_bootstrap_kubeconfig-performs (lookup "bootstrap-kubeconfig" d))
                    (mkdir-performs _))
                  (write-performs _ _ _))
                (mkdir-performs _))
              (write-performs _ _ _))
            (mkdir-performs _))
          write_proxy_kubeconfig-performs
        ∙ ap perform (simp (append_assoc))

    bootstrap_from-performs :
        (s : Agent)
        → bootstrap_from env d s ≡ perform (plan d k s.host) (write_ca env (ca_cert_data env d) s)
    unfolding bootstrap_from
    bootstrap_from-performs s =
        ap (λ (f : Step). f (write_ca env (ca_cert_data env d) s))
          (both _ _ (both _ _ write_configs-performs (start_kubelet-performs s.host))
              (start_kube_proxy-performs s.host)
            ∙ ap perform (simp (append_assoc)))

-- On a machine whose agent can load its own kubeconfig, and with the bootstrap secret at hand, a TLS
-- bootstrap does the step for the certificate and then performs the plan: each action once, in the
-- plan's order, up to the first that fails, whose error it returns.
pub bootstrap_tls-performs :
    (env : Env) (s : Agent) (ref : ObjectReference) (d : Dict String) (k : KubeConfig)
    → s.host.spec.bootstrap_secret ≡ some ref
    → env.get_secret ref.namespace ref.name ≡ ok d
    → env.byoh_config ≡ ok k
    → bootstrap_k8s_node_tls env s
      ≡ perform env (plan env d k s.host) (write_ca env (ca_cert_data env d) s)
unfolding bootstrap_k8s_node_tls bootstrap_with with_secret_data
bootstrap_tls-performs env s ref d k named read loaded =
    ap (λ r. bootstrap_with env r s) named
    ∙ ap (λ r. with_secret_data env r s) read
    ∙ bootstrap_from-performs env d k loaded s
