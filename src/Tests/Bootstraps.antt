-- ===== src/Tests/Bootstraps.antt =====
-- The TLS bootstrap tried on a machine on which every action succeeds.
use cluster_api_provider_bri.Prelude.{◌≡◌, refl, String, none, [], ◌∷◌}
use cluster_api_provider_bri.Prelude.Dict.{Dict, lookup}
use cluster_api_provider_bri.Agent.State.{KubeConfig, act}
use cluster_api_provider_bri.Agent.Tls.{
  ca_cert_data, write_ca, write_proxy_kubeconfig, prepare_configs, write_bootstrap_kubeconfig,
  write_configs, start_kubelet, start_kube_proxy, bootstrap_from, with_secret_data, bootstrap_with,
  bootstrap_k8s_node_tls,
}
use cluster_api_provider_bri.Agent.Tls.Plan.{plan, perform, bootstrap_tls-performs}
use cluster_api_provider_bri.Agent.Tls.Started.{Given, bootstrap_tls_ok}
use cluster_api_provider_bri.Tests.{secret}
use cluster_api_provider_bri.Tests.Agents.{env, held}

abbrev contents : Dict String
contents = ("bootstrap-kubeconfig", "kubeconfig") ∷ []

abbrev config : KubeConfig
config = record { clusters = []; auth_infos = [] }

bootstrap_tls-performs_example :
    bootstrap_k8s_node_tls env held
    ≡ perform env
        (plan env contents config held.host)
        (write_ca env (ca_cert_data env contents) held)
bootstrap_tls-performs_example =
    bootstrap_tls-performs env held secret contents config refl refl refl

held_bootstraps : (bootstrap_k8s_node_tls env held).1 ≡ none
unfolding bootstrap_k8s_node_tls bootstrap_with with_secret_data bootstrap_from start_kube_proxy
    write_bootstrap_kubeconfig write_proxy_kubeconfig write_configs prepare_configs start_kubelet
    lookup
held_bootstraps = refl

bootstrap_tls_ok_example :
    (g : Given env held) × ((bootstrap_k8s_node_tls env held).0
      ≡ act
          (plan env g.contents g.config held.host)
          (write_ca env (ca_cert_data env g.contents) held))
bootstrap_tls_ok_example = bootstrap_tls_ok env held held_bootstraps
