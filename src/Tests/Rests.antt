-- ===== src/Tests/Rests.antt =====
-- A host of a TLS bootstrap with its components installed, before the agent has written its file.
use cluster_api_provider_bri.Prelude.{◌≡◌, refl, true, false, none, some, [], ◌∷◌}
use cluster_api_provider_bri.Prelude.Dict.{lookup}
use cluster_api_provider_bri.Api.Names.{k8s_components_installation_succeeded}
use cluster_api_provider_bri.Api.Meta.{done}
use cluster_api_provider_bri.Api.Host.{JoinMode}
use cluster_api_provider_bri.Agent.State.{Agent, bootstrapped}
use cluster_api_provider_bri.Agent.Tls.{
  write_proxy_kubeconfig, prepare_configs, write_bootstrap_kubeconfig, write_configs, start_kubelet,
  start_kube_proxy, bootstrap_from, with_secret_data, bootstrap_with, bootstrap_k8s_node_tls,
}
use cluster_api_provider_bri.Agent.Reconcile.{is_other_machine, reconcile_normal}
use cluster_api_provider_bri.Agent.Settled.{bootstrap_rests}
use cluster_api_provider_bri.Tests.{listed, listed-Laws, machine_reference, secret}
use cluster_api_provider_bri.Tests.Agents.{env, agent_of}

abbrev fresh : Agent
fresh = agent_of (some machine_reference) (
    record {
      kind = k8s_components_installation_succeeded;
      status = true;
      severity = "";
      reason = "";
    }
    ∷ [])

abbrev installed_agent : Agent
installed_agent = record fresh {
  host = record (fresh.host) {
    spec = record (fresh.host.spec) {
      join_mode = JoinMode.tls_bootstrap;
      manage_kube_proxy = true;
    };
  };
  machine_id = none;
}

no_file : is_other_machine listed env machine_reference installed_agent.machine_id ≡ false
unfolding is_other_machine
no_file = refl

bootstraps : (reconcile_normal listed env installed_agent).1 ≡ done
unfolding reconcile_normal bootstrap_k8s_node_tls bootstrap_with with_secret_data bootstrap_from
    start_kube_proxy write_bootstrap_kubeconfig write_proxy_kubeconfig write_configs prepare_configs
    start_kubelet lookup
bootstraps = refl

bootstrap_rests_example :
    let t = (reconcile_normal listed env installed_agent).0 in
    (bootstrapped listed t.host ≡ true) × (reconcile_normal listed env t ≡ (t, done))
bootstrap_rests_example =
    bootstrap_rests listed listed-Laws env installed_agent machine_reference secret refl refl refl
      no_file refl bootstraps
