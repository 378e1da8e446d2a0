-- ===== src/MachineController/Tls.antt =====
-- The secret for a TLS bootstrap: `createBootstrapSecretTLSBootstrap` of
-- controllers/infrastructure/byomachine_controller.go. This file has what the function calls; the
-- children follow its parts.
pub mod Texts
pub mod Extract
pub mod Sources
pub mod Configs
pub mod Secrets
mod Kept
pub mod Agreement
use cluster_api_provider_bri.Prelude.{ℕ, String, Option, List}
use cluster_api_provider_bri.Prelude.Dict.{Dict}
use cluster_api_provider_bri.Api.Meta.{Error, Result}
use cluster_api_provider_bri.Api.Machine.{ByoMachine}
use cluster_api_provider_bri.Tokens.{TokenOps, TokenSecret, BootstrapKubeconfig}

-- A DaemonSet, with the arguments of each of its containers.
pub record DaemonSet : Type 0 where
  pub name : String
  pub containers : List (List String)

-- `rest.Config`: the certificate in memory, and the file of one.
pub record RestConfig : Type 0 where
  pub ca_data : Option String
  pub ca_file : String

-- The secret that is made; its owner is the machine.
pub record Secret : Type 0 where
  pub name : String
  pub namespace : String
  pub owner : ByoMachine
  pub contents : Dict String

-- The libraries' parsers: the certificates of the clusters and the tokens of the users of a
-- kubeconfig, the submatches of a regular expression, and base64.
pub record Parsers : Type 0 where
  pub unmarshal_clusters : String → Result {0} (List String)
  pub unmarshal_users : String → Result {0} (List String)
  pub find_submatch : String → String → List String
  pub encode_to_string : String → String
  pub decode_string : String → Result {0} String
  pub tokens : TokenOps

-- The calls over the state `S` of the world outside, each of which may change it.
pub record TlsServer (S : Type 0) : Type 0 where
  pub now : S → S × ℕ
  pub get_bootstrap_kubeconfig : String → String → S → S × Result {0} BootstrapKubeconfig
  pub list_bootstrap_kubeconfigs : String → S → S × Result {0} (List BootstrapKubeconfig)
  pub get_secret : String → String → S → S × Result {0} (Dict String)
  pub rest_config : S → S × Result {0} RestConfig
  pub generate_token : S → S × Result {0} String
  pub create_token_secret : TokenSecret → S → S × Option Error
  pub read_file : String → S → S × Result {0} String
  -- `getRemoteClient`, and the calls of that client in the namespace kube-system
  pub get_remote_client : S → S × Option Error
  pub get_config_map : String → S → S × Result {0} (Dict String)
  pub list_daemon_sets : S → S × Result {0} (List DaemonSet)
  pub get_cluster_ip : String → S → S × Result {0} String
  pub create_secret : Secret → S → S × Option Error
