-- ===== src/Tests/Agents.antt =====
-- The agent tried on a machine on which every command succeeds.
use cluster_api_provider_bri.Prelude.{
  ◌≡◌, ◌↔◌, ◌⊎◌, refl, true, false, Option, none, some, [], ◌∷◌, ◌==◌, if◌then◌else◌,
}
use cluster_api_provider_bri.Prelude.Dict.{lookup}
use cluster_api_provider_bri.Api.Names.{k8s_node_bootstrap_succeeded}
use cluster_api_provider_bri.Api.Meta.{ObjectReference, Error, ok, err, not_found, done}
use cluster_api_provider_bri.Api.Conditions.{Conditions}
use cluster_api_provider_bri.Agent.State.{Agent, Env, parse_script}
use cluster_api_provider_bri.Agent.Cleanup.{
  reset_node_with_retry, reset_node, reset_actions, remove_sentinel_file, delete_endpoint_ip,
  delete_ip_of, uninstall, check_uninstall, forget_machine, host_clean_up,
}
use cluster_api_provider_bri.Agent.Cleanup.Laws.{
  IsClean, Keeps, host_clean_up-IsClean, host_clean_up_failed,
}
use cluster_api_provider_bri.Agent.Install.{execute_installer_controller}
use cluster_api_provider_bri.Agent.Install.Retries.{execute_ok_iff}
use cluster_api_provider_bri.Agent.Reconcile.{is_other_machine, reconcile_normal}
use cluster_api_provider_bri.Agent.Lifecycle.{mismatch-IsClean}
use cluster_api_provider_bri.Tests.{listed, listed-Laws, host_with, machine_reference, secret}

abbrev pub env_with : Option Error → Env
env_with sentinel = record {
  skip_k8s_installation = false;
  kubeadm_found = true;
  node_exists = true;
  parse_template = λ script name. ok script;
  sentinel_missing = false;
  remove_sentinel = sentinel;
  vip_config = λ ip. true;
  delete_ip_error = λ ip. none;
  machine_id_removed = true;
  machine_id_written = true;
  trim_space = λ s. s;
  bootstrap_script = ok "";
  installation_scripts = ok ("install", "uninstall");
  run_install = λ n. if◌then◌else◌ {A = Option Error} (n == 1) none (some not_found);
  clean_directories = none;
  execute_bootstrap_error = none;
  get_secret = λ namespace name. ok (("bootstrap-kubeconfig", "kubeconfig") ∷ []);
  load_kubeconfig = λ text. err not_found;
  byoh_config = ok (record { clusters = []; auth_infos = [] });
  encode_to_string = λ t. t;
  local_provider_id = ok "byoh://a";
  kube_proxy_config_missing = false;
  run_cmd_error = λ cmd. none;
  mkdir_error = λ d. none;
  write_file_error = λ f. none;
}

abbrev pub env : Env
env = env_with none

abbrev bad_env : Env
bad_env = env_with (some not_found)

abbrev pub ready : Conditions
ready =
    record { kind = k8s_node_bootstrap_succeeded; status = true; severity = ""; reason = "" } ∷ []

abbrev pub agent_of : Option ObjectReference → Conditions → Agent
agent_of ref conditions = record {
  host = record (host_with "a" [] [] ref conditions) {
    spec = record ((host_with "a" [] [] ref conditions).spec) { bootstrap_secret = some secret };
  };
  machine_id = some "u";
  actions = [];
}

abbrev zombie : Agent
zombie = agent_of none ready

abbrev pub held : Agent
held = agent_of (some machine_reference) ready

abbrev other : ObjectReference
other = record machine_reference { uid = "v" }

abbrev stolen : Agent
stolen = agent_of (some other) ready

zombie_cleans : (host_clean_up listed env zombie).1 ≡ none
unfolding host_clean_up reset_node_with_retry reset_node reset_actions uninstall check_uninstall
    remove_sentinel_file delete_endpoint_ip delete_ip_of forget_machine parse_script lookup
zombie_cleans = refl

stolen_cleans : (host_clean_up listed env stolen).1 ≡ none
unfolding host_clean_up reset_node_with_retry reset_node reset_actions uninstall check_uninstall
    remove_sentinel_file delete_endpoint_ip delete_ip_of forget_machine parse_script lookup
stolen_cleans = refl

stolen_fails : (host_clean_up listed bad_env stolen).1 ≡ some not_found
unfolding host_clean_up reset_node_with_retry reset_node reset_actions uninstall check_uninstall
    remove_sentinel_file delete_endpoint_ip delete_ip_of forget_machine parse_script lookup
stolen_fails = refl

host_clean_up-IsClean_example : IsClean listed (host_clean_up listed env zombie).0.host
host_clean_up-IsClean_example = host_clean_up-IsClean listed listed-Laws env zombie zombie_cleans

host_clean_up_failed_example :
    Keeps listed listed-Laws bad_env stolen (host_clean_up listed bad_env stolen).0
host_clean_up_failed_example =
    host_clean_up_failed listed listed-Laws bad_env stolen not_found stolen_fails

script_parsed : parse_script env "install" zombie.host.meta.name ≡ ok "install"
unfolding parse_script
script_parsed = refl

execute_ok_iff_example :
    ((execute_installer_controller listed env zombie).1 ≡ none)
    ↔ ((env.run_install 0 ≡ none) ⊎ (env.run_install 1 ≡ none) ⊎ (env.run_install 2 ≡ none))
execute_ok_iff_example =
    execute_ok_iff listed env zombie "install" "uninstall" "install" refl script_parsed

is_stolen : is_other_machine listed env other stolen.machine_id ≡ true
unfolding is_other_machine
is_stolen = refl

mismatch-IsClean_example :
    IsClean listed (reconcile_normal listed env stolen).0.host
    × ((reconcile_normal listed env stolen).1 ≡ done)
mismatch-IsClean_example =
    mismatch-IsClean listed listed-Laws env stolen other secret refl refl is_stolen stolen_cleans
