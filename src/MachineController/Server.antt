-- ===== src/MachineController/Server.antt =====
-- What the ByoMachine controller calls outside, and what it works on: the clients of the management
-- and of the workload cluster, the clock, and the objects of one reconcile (byomachine_scope.go).
use Prim.Native.Char.{code}
use cluster_api_provider_bri.Prelude.{ℕ, ◌==◌, ◌*◌, String, Bool, Option, some, List, if◌then◌else◌}
use cluster_api_provider_bri.Prelude.Dict.{Dict}
use cluster_api_provider_bri.Api.Meta.{Error, Result, ObjectReference, Reply, second}
use cluster_api_provider_bri.Api.Host.{ByoHost}
use cluster_api_provider_bri.Api.Machine.{ByoMachine, ByoCluster, Machine, Cluster}

abbrev pub requeue_for_byohost : ℕ
requeue_for_byohost = 10 * second

abbrev pub requeue_installer_config_time : ℕ
requeue_installer_config_time = 10 * second

abbrev pub max_retries : ℕ
max_retries = 5

-- `lockInfo`; the time is counted in nanoseconds.
pub record LockInfo : Type 0 where
  pub holder : String
  pub acquire_time : ℕ
  pub machine_name : String

-- A Node of the workload cluster.
pub record Node : Type 0 where
  pub name : String
  pub provider_id : String
  pub deletion_timestamp : Option ℕ

-- `byoMachineScope`
pub record Scope : Type 0 where
  pub cluster : Cluster
  pub machine : Machine
  pub byo_cluster : ByoCluster
  pub byo_machine : ByoMachine
  pub byo_host : Option ByoHost

-- The calls, over the state `S` of the world outside. Every call may change it: other clients write
-- between two calls of this one. `patch_host before after` sends the difference, as a patch helper
-- made at `before` does.
pub record Server (S : Type 0) : Type 0 where
  pub now : S → S × ℕ
  pub marshal : LockInfo → Result {0} String
  pub unmarshal : String → Option LockInfo
  pub get_host : String → String → S → S × Result {0} ByoHost
  pub get_byo_machine : String → String → S → S × Result {0} ByoMachine
  pub update_host : ByoHost → S → S × Option Error
  pub patch_host : ByoHost → ByoHost → S → S × Option Error
  -- The three `List` calls: by the label of the machine; all; by the machine's selector, those
  -- without the label of a cluster.
  -- The error of `LabelSelectorAsSelector`, for a selector that does not parse.
  pub selector_error : Option (Dict String) → Option Error
  pub list_attached : String → S → S × Result {0} (List ByoHost)
  pub list_hosts : S → S × Result {0} (List ByoHost)
  pub list_free : Option (Dict String) → S → S × Result {0} (List ByoHost)
  pub get_management_node : String → S → S × Result {0} Node
  pub get_remote_client : S → S × Option Error
  pub get_node : String → String → S → S × Result {0} Node
  -- `util.GetOwnerMachine` and `util.GetClusterFromMetadata`, which may find nothing; the `ByoCluster`
  -- that the cluster names; `annotations.IsPaused`
  pub get_owner_machine : ByoMachine → S → S × Result {0} (Option Machine)
  pub get_cluster : ByoMachine → S → S × Result {0} (Option Cluster)
  pub get_byo_cluster : ByoMachine → Cluster → S → S × Result {0} ByoCluster
  pub is_paused : Cluster → ByoMachine → Bool
  pub patch_byo_machine : ByoMachine → ByoMachine → S → S × Option Error
  pub patch_node : Node → Node → S → S × Option Error
  -- `regexp.MatchString`, of a pattern and a text
  pub match_string : String → String → Result {0} Bool
  -- `createBootstrapSecretTLSBootstrap`, filled in by the module Tls: the secret's namespace and name,
  -- or `none` where a nil pointer is followed
  pub tls_bootstrap_secret : Scope → ByoHost → S → S × Option (Result {0} (String × String))
  -- `getInstallerConfig`, the status of the object it finds, and the creation of one from its
  -- template with the annotations given
  pub get_installer_config : S → S × Option Error
  pub get_installer_template : S → S × Option Error
  pub generate_template : Dict String → Result {0} (Unit {0})
  pub create_installer_config : Dict String → S → S × Option Error
  pub installer_config_ready : S → S × Result {0} Bool
  -- `status.installationSecret`, where it is set
  pub installation_secret : S → S × Result {0} (Option ObjectReference)

-- The world outside, with the controller's own memory: the indices of the selection, and the time
-- that it slept between two attempts, the last first.
pub record World (S : Type 0) : Type 0 where
  pub server : S
  pub index : Dict ℕ
  pub slept : List ℕ

-- How a reconcile ends: with the objects in memory and its reply, or with a panic.
pub data Ended (S : Type 0) : Type 0 where
  returned : World S → Scope → Reply → Ended S
  crashed : World S → Ended S

abbrev pub on_server : {S : Type 0} → S → World S → World S
on_server s w = record w { server = s }

abbrev pub set_host : ByoHost → Scope → Scope
set_host h p = record p { byo_host = some h }

abbrev pub set_byo_machine : ByoMachine → Scope → Scope
set_byo_machine m p = record p { byo_machine = m }

abbrev pub with_host_annotations : Dict String → ByoHost → ByoHost
with_host_annotations a h = record h { meta = record (h.meta) { annotations = a } }

abbrev pub with_machine_ref : Option ObjectReference → ByoHost → ByoHost
with_machine_ref ref h = record h { status = record (h.status) { machine_ref = ref } }

-- `strings.Split(version, "+")[0]`
unfoldable pub before_plus : String → String
before_plus String.[] = ""
before_plus (String.◌∷◌ c s) =
    let rest = before_plus s in if code c == 43 then "" else String.◌∷◌ c rest
