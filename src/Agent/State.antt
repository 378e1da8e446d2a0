-- ===== src/Agent/State.antt =====
-- What the agent works on: the ByoHost in memory, the file that holds the machine's UID, and the
-- trace of the actions on the machine; and what answers it from outside.
use cluster_api_provider_bri.Prelude.{ℕ, String, Bool, Option, none, some, List, [], ◌∷◌, ◌++◌}
use cluster_api_provider_bri.Prelude.Dict.{Dict}
use cluster_api_provider_bri.Api.Names.{
  k8s_node_bootstrap_succeeded, k8s_components_installation_succeeded,
}
use cluster_api_provider_bri.Api.Meta.{Error, failed, Result, ok, err}
use cluster_api_provider_bri.Api.Conditions.{Conditions, ConditionOps}
use cluster_api_provider_bri.Api.Host.{ByoHost}

pub data Action : Type 0 where
  run_cmd remove_file remove_all mkdir : String → Action
  -- `WriteToFile` of a path, the permissions and the content
  write_file : String → String → String → Action
  delete_node delete_ip patch_provider_id write_machine_id remove_machine_id : String → Action
  clean_k8s_directories execute_bootstrap : Action

-- `clientcmdapi.Config`, the fields that the code reads; the maps in the order in which they are
-- gone through.
pub record ClusterEntry : Type 0 where
  pub server : String
  pub certificate_authority_data : String

pub record AuthInfo : Type 0 where
  pub client_certificate_data : String
  pub client_key_data : String

pub record KubeConfig : Type 0 where
  pub clusters : List ClusterEntry
  pub auth_infos : List AuthInfo

pub record Agent : Type 0 where
  pub host : ByoHost
  pub machine_id : Option String
  pub actions : List Action

pub record Env : Type 0 where
  pub skip_k8s_installation : Bool
  -- `exec.LookPath("kubeadm")` finds a path
  pub kubeadm_found : Bool
  -- `Get` of the Node object
  pub node_exists : Bool
  -- `TemplateParser.ParseTemplate` of a script, with the download path and the host's name
  pub parse_template : String → String → Result {0} String
  pub sentinel_missing : Bool
  pub remove_sentinel : Option Error
  -- `vip.NewConfig` succeeds, and the error of `DeleteIP`
  pub vip_config : String → Bool
  pub delete_ip_error : String → Option Error
  pub machine_id_removed : Bool
  pub machine_id_written : Bool
  pub trim_space : String → String
  -- the data "value" of the bootstrap secret; "install" and "uninstall" of the installation secret
  pub bootstrap_script : Result {0} String
  pub installation_scripts : Result {0} (String × String)
  -- the reply to the n-th run of the install script
  pub run_install : ℕ → Option Error
  pub clean_directories : Option Error
  -- the reply of `ScriptExecutor.Execute`
  pub execute_bootstrap_error : Option Error
  -- `Get` of a secret by its namespace and name: its data
  pub get_secret : String → String → Result {0} (Dict String)
  -- `clientcmd.Load` of a text, `LoadFromFile` of the agent's own kubeconfig, and
  -- `base64.StdEncoding.EncodeToString`
  pub load_kubeconfig : String → Result {0} KubeConfig
  pub byoh_config : Result {0} KubeConfig
  pub encode_to_string : String → String
  -- the provider ID of the local Node, where kubelet.conf gives a client and the Node is found
  pub local_provider_id : Result {0} String
  pub kube_proxy_config_missing : Bool
  -- the replies of `CmdRunner.RunCmd`, `FileWriter.MkdirIfNotExists` and `WriteToFile`
  pub run_cmd_error : String → Option Error
  pub mkdir_error : String → Option Error
  pub write_file_error : String → Option Error

abbrev pub act : List Action → Agent → Agent
act actions s = record s { actions = s.actions ++ actions }

abbrev pub with_conditions : (Conditions → Conditions) → Agent → Agent
with_conditions f s = record s {
  host = record (s.host) {
    status = record (s.host.status) { conditions = f s.host.status.conditions };
  };
}

abbrev pub bootstrapped : ConditionOps → ByoHost → Bool
bootstrapped c h = c.is_true k8s_node_bootstrap_succeeded h.status.conditions

abbrev pub installed : ConditionOps → ByoHost → Bool
installed c h = c.is_true k8s_components_installation_succeeded h.status.conditions

-- A step that may fail, and `if err := …; err != nil { return err }` after it.
abbrev pub Step : Type 0
Step = Agent → Agent × Option Error

abbrev pub and_then : Option Error → Step → Step
and_then none g s = g s
and_then (some e) g s = (s, some e)

infixl 5 ◌>=>◌
abbrev pub ◌>=>◌ : Step → Step → Step
◌>=>◌ f g s = and_then (f s).1 g (f s).0

-- `parseScript`, which replaces the parser's error by its own.
unfoldable pub parse_script : Env → String → String → Result {0} String
parse_script env script hostname = elim (env.parse_template script hostname) [
  | ok text ↦ ok text
  | err _ ↦ err (failed "unable to apply install parsed template to the data object")
]

abbrev pub run : Env → String → Step
run env cmd s = (act (run_cmd cmd ∷ []) s, env.run_cmd_error cmd)

abbrev pub mkdir_step : Env → String → Step
mkdir_step env dir s = (act (mkdir dir ∷ []) s, env.mkdir_error dir)

abbrev pub write_step : Env → String → String → String → Step
write_step env path permissions content s =
    (act (write_file path permissions content ∷ []) s, env.write_file_error path)
