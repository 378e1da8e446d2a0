-- ===== src/Agent/Tls.antt =====
-- `bootstrapK8sNodeTLS` of agent/reconciler/host_reconciler.go: the files that a TLS bootstrap writes
-- to the machine, and the start of the kubelet. An error keeps its kind; the text that is put before a
-- wrapped one is left out.
pub mod Texts
pub mod Plan
pub mod Started
use cluster_api_provider_bri.Prelude.{
  String, ◌<>◌, Option, none, some, List, [], ◌∷◌, ◌++◌, map, if◌then◌else◌, str_eq, join,
}
use cluster_api_provider_bri.Prelude.Dict.{Dict, lookup}
use cluster_api_provider_bri.Api.Meta.{ObjectReference, failed, Result, ok, err}
use cluster_api_provider_bri.Api.Host.{ByoHost, Taint}
use cluster_api_provider_bri.Agent.State.{
  ClusterEntry, AuthInfo, KubeConfig, Agent, Env, Step, ◌>=>◌, act, mkdir, write_file, run,
  mkdir_step, write_step,
}
use Texts.{
  default_kubelet_config, default_kube_proxy_config, kube_proxy_service, kubelet_service,
  kube_proxy_kubeconfig,
}

-- common.GenerateProviderID
unfoldable pub generate_provider_id : String → String
generate_provider_id hostname = "byoh://" <> hostname

abbrev pub kube_proxy_config_path : String
kube_proxy_config_path = "/var/lib/kube-proxy/kube-proxy-config.yaml"

-- `data[key]`, with a text for a key that is missing
abbrev pub value_or : String → String → Dict String → String
value_or default key d = elim (lookup key d) [ none ↦ default | some v ↦ v ]

-- The first entry with a certificate.
unfoldable pub first_ca : List ClusterEntry → String
first_ca [] = ""
first_ca (c ∷ cs) =
    let rest = first_ca cs in
    if str_eq c.certificate_authority_data "" then rest else c.certificate_authority_data

-- The last entry that is not empty, encoded; what was there before where all are empty.
unfoldable pub last_encoded {ℓ} : {A : Type ℓ} → Env → (A → String) → String → List A → String
last_encoded env field last [] = last
last_encoded env field last (x ∷ xs) =
    last_encoded env field (if str_eq (field x) "" then last else env.encode_to_string (field x)) xs

unfoldable pub last_server : String → List ClusterEntry → String
last_server last [] = last
last_server last (c ∷ cs) = last_server c.server cs

-- The kubeconfig of kube-proxy, from the agent's own.
unfoldable pub proxy_kubeconfig : Env → KubeConfig → String
unfolding last_encoded last_server kube_proxy_kubeconfig
proxy_kubeconfig env c =
    kube_proxy_kubeconfig (last_encoded env (λ e. e.certificate_authority_data) "" c.clusters)
      (last_server "" c.clusters)
      (last_encoded env (λ a. a.client_certificate_data) "" c.auth_infos)
      (last_encoded env (λ a. a.client_key_data) "" c.auth_infos)

abbrev label_text : String × String → String
label_text label = label.0 <> ("=" <> label.1)

-- A taint without a value is given its key as value.
abbrev taint_text : Taint → String
taint_text t =
    t.key <> ("=" <> ((if str_eq t.value "" then t.key else t.value) <> (":" <> t.effect)))

unfoldable pub label_args : Dict String → List String
label_args [] = []
label_args (l ∷ ls) = ("--node-labels=" <> join "," (map label_text (l ∷ ls))) ∷ []

unfoldable pub taint_args : List Taint → List String
taint_args [] = []
taint_args (t ∷ ts) = ("--register-with-taints=" <> join "," (map taint_text (t ∷ ts))) ∷ []

-- The kubelet's arguments.
unfoldable pub kubelet_args : ByoHost → List String
unfolding generate_provider_id label_args taint_args
kubelet_args h =
    ("--bootstrap-kubeconfig=/etc/kubernetes/bootstrap-kubeconfig"
      ∷ "--kubeconfig=/etc/kubernetes/kubelet.conf"
      ∷ "--cert-dir=/var/lib/kubelet/pki"
      ∷ "--config=/var/lib/kubelet/config.yaml"
      ∷ "--rotate-certificates=true"
      ∷ "--rotate-server-certificates=true"
      ∷ "--pod-manifest-path=/etc/kubernetes/manifests"
      ∷ ("--provider-id=" <> generate_provider_id h.meta.name)
      ∷ [])
    ++ (label_args h.spec.labels ++ taint_args h.spec.taints)

-- The paths of the certificate, each with its directory.
abbrev pub ca_paths : List (String × String)
ca_paths =
    ("/etc/kubernetes/pki", "/etc/kubernetes/pki/ca.crt")
    ∷ ("/etc/kubernetes/ssl", "/etc/kubernetes/ssl/ca.pem")
    ∷ ("/etc/kubernetes/pki", "/etc/kubernetes/pki/ca-certificates.crt")
    ∷ ("/etc/ssl/certs", "/etc/ssl/certs/ca-certificates.crt")
    ∷ []

module _ (env : Env) where
  -- `extractCACertificate`
  unfoldable pub extract_ca_certificate : String → String
  unfolding first_ca
  extract_ca_certificate text = elim (env.load_kubeconfig text) [
    | err _ ↦ ""
    | ok c ↦ first_ca c.clusters
  ]

  -- The certificate of the secret, or that of its kubeconfig.
  unfoldable pub certificate_of : Option String → String → String
  unfolding extract_ca_certificate
  certificate_of none direct = direct
  certificate_of (some text) direct =
      if str_eq direct "" then extract_ca_certificate text else direct

  unfoldable pub ca_cert_data : Dict String → String
  unfolding certificate_of
  ca_cert_data d = certificate_of (lookup "bootstrap-kubeconfig" d) (value_or "" "ca.crt" d)

  -- The certificate at one path; an error is logged, and the loop goes on.
  unfoldable pub write_ca_at : String → String × String → Agent → Agent
  write_ca_at content (dir, path) s = elim (env.mkdir_error dir) [
    | some _ ↦ act (mkdir dir ∷ []) s
    | none ↦ act (mkdir dir ∷ write_file path "0644" content ∷ []) s
  ]

  unfoldable pub write_ca_paths : String → List (String × String) → Agent → Agent
  unfolding write_ca_at
  write_ca_paths content [] s = s
  write_ca_paths content (p ∷ ps) s = write_ca_paths content ps (write_ca_at content p s)

  unfoldable pub write_ca : String → Agent → Agent
  unfolding write_ca_paths
  write_ca content s = if str_eq content "" then s else write_ca_paths content ca_paths s

  unfoldable pub write_bootstrap_kubeconfig : Option String → Step
  write_bootstrap_kubeconfig none s = (s, none)
  write_bootstrap_kubeconfig (some text) s =
      (mkdir_step env "/etc/kubernetes"
          >=> write_step env "/etc/kubernetes/bootstrap-kubeconfig" "0600" text)
        s

  -- The kubeconfig of kube-proxy, where the agent's own can be loaded.
  unfoldable pub write_proxy_kubeconfig : Result {0} KubeConfig → Step
  unfolding proxy_kubeconfig
  write_proxy_kubeconfig (err e) s = (s, some e)
  write_proxy_kubeconfig (ok c) s =
      write_step env "/etc/kubernetes/kube-proxy.kubeconfig" "0600" (proxy_kubeconfig env c) s

  unfoldable pub prepare_configs : Dict String → Step
  unfolding write_bootstrap_kubeconfig
  prepare_configs d =
      write_bootstrap_kubeconfig (lookup "bootstrap-kubeconfig" d)
      >=> mkdir_step env "/var/lib/kubelet"
      >=> write_step env "/var/lib/kubelet/config.yaml" "0644"
          (value_or default_kubelet_config "kubelet-config.yaml" d)
      >=> mkdir_step env "/var/lib/kube-proxy"
      >=> write_step env kube_proxy_config_path "0644"
          (value_or default_kube_proxy_config "kube-proxy-config.yaml" d)
      >=> mkdir_step env "/etc/kubernetes"

  unfoldable pub write_configs : Dict String → Step
  unfolding prepare_configs write_proxy_kubeconfig
  write_configs d = prepare_configs d >=> write_proxy_kubeconfig env.byoh_config

  unfoldable pub start_kubelet : ByoHost → Step
  unfolding kubelet_args kubelet_service
  start_kubelet h =
      mkdir_step env "/etc/kubernetes/manifests"
      >=> mkdir_step env "/var/lib/kubelet/pki"
      >=> mkdir_step env "/var/lib/kube-proxy"
      >=> write_step env "/etc/systemd/system/kubelet.service" "0644"
          (kubelet_service (kubelet_args h))
      >=> run env "systemctl daemon-reload"
      >=> run env "systemctl enable --now kubelet"

  unfoldable pub start_kube_proxy : ByoHost → Step
  unfolding kube_proxy_service
  start_kube_proxy h s =
      if h.spec.manage_kube_proxy
      then (write_step env "/etc/systemd/system/kube-proxy.service" "0644" kube_proxy_service
            >=> run env "systemctl daemon-reload"
            >=> run env "systemctl enable --now kube-proxy")
          s
      else (s, none)

  unfoldable pub bootstrap_from : Dict String → Step
  unfolding ca_cert_data write_ca write_configs start_kubelet start_kube_proxy
  bootstrap_from d s =
      (write_configs d >=> start_kubelet s.host >=> start_kube_proxy s.host)
        (write_ca (ca_cert_data d) s)

  unfoldable pub with_secret_data : Result {0} (Dict String) → Step
  unfolding bootstrap_from
  with_secret_data (err e) s = (s, some e)
  with_secret_data (ok d) s = bootstrap_from d s

  unfoldable pub bootstrap_with : Option ObjectReference → Step
  unfolding with_secret_data
  bootstrap_with none s = (s, some (failed "bootstrap secret is required for TLS Bootstrap mode"))
  bootstrap_with (some ref) s = with_secret_data (env.get_secret ref.namespace ref.name) s

  unfoldable pub bootstrap_k8s_node_tls : Step
  unfolding bootstrap_with
  bootstrap_k8s_node_tls s = bootstrap_with s.host.spec.bootstrap_secret s
