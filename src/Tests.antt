-- ===== src/Tests.antt =====
-- The data on which the theorems are tried: two hosts, a machine and its cluster, an agent that
-- nothing fails, and an API server that stores one host.
pub mod Selecting
pub mod Hosts
pub mod Agents
pub mod Bootstraps
pub mod Rests
pub mod Secrets
pub mod Machines
pub mod Leases
pub mod Installers
pub mod Clusters
pub mod Flags
pub mod Gpus
pub mod Registrations
pub mod Renewals
pub mod Scripts
pub mod Registries
use cluster_api_provider_bri.Prelude.{
  ◌≡◌, refl, ℕ, ◌==◌, ◌*◌, ℤ, pos, pos_part, compare, String, Bool, true, false, Option, none, some,
  List, [], ◌∷◌, str_eq, if◌then◌else◌,
}
use cluster_api_provider_bri.Prelude.Dict.{Dict}
use cluster_api_provider_bri.Api.Names.{
  attached_byo_machine_label, cluster_name_label, host_cleanup_annotation, end_point_ip_annotation,
}
use cluster_api_provider_bri.Api.Meta.{
  Error, ObjectReference, ObjectMeta, Error, not_found, failed, Result, ok, err, second,
  FinalizerOps,
}
use cluster_api_provider_bri.Api.Conditions.{Condition, Conditions, ConditionOps, ConditionLaws}
use cluster_api_provider_bri.Api.Quantity.{Quantity, QuantityOps}
use cluster_api_provider_bri.Api.Host.{
  ByoHost, ByoHostSpec, ByoHostStatus, HostInfo, JoinMode, DownloadMode,
}
use cluster_api_provider_bri.Api.Machine.{
  ByoMachine, ByoMachineSpec, ByoMachineStatus, ByoCluster, Machine, Cluster,
}
use cluster_api_provider_bri.HostController
use cluster_api_provider_bri.Agent.State
use cluster_api_provider_bri.MachineController.Server.{LockInfo, Node, Server, Scope, World}

-- Conditions kept with the newest first.
abbrev holds : String → Conditions → Bool
holds t [] = false
holds t (k ∷ s) = if str_eq k.kind t then k.status else holds t s

abbrev reason_of : String → Conditions → String
reason_of t [] = ""
reason_of t (k ∷ s) = if str_eq k.kind t then k.reason else reason_of t s

abbrev pub listed : ConditionOps
listed = record {
  mark_true = λ t s. record { kind = t; status = true; severity = ""; reason = "" } ∷ s;
  mark_false = λ t r v s. record { kind = t; status = false; severity = v; reason = r } ∷ s;
  is_true = holds;
  get_reason = reason_of;
}

pub listed-Laws : ConditionLaws listed
listed-Laws = record {
  is_true-mark_true = λ t u s. refl;
  is_true-mark_false = λ t u r v s. refl;
  get_reason-mark_false = λ t u r v s. refl;
}

abbrev amount : Quantity → ℤ
amount q = if str_eq q "8" then pos 8 else if str_eq q "12" then pos 12 else pos 0

abbrev pub quantities : QuantityOps
quantities = record {
  cmp = λ a b. compare (pos_part (amount a)) (pos_part (amount b));
  value = amount;
}

abbrev pub finalizers : FinalizerOps
finalizers = record { add_finalizer = λ f fs. f ∷ fs; remove_finalizer = λ f fs. [] }

abbrev pub no_info : HostInfo
no_info = record { os_name = ""; os_image = ""; architecture = "" }

abbrev pub meta_of : String → Dict String → Dict String → ObjectMeta
meta_of name labels annotations = record {
  name = name;
  namespace = "default";
  uid = "u";
  labels = labels;
  annotations = annotations;
  finalizers = [];
  deletion_timestamp = none;
}

abbrev pub empty_spec : ByoHostSpec
empty_spec = record {
  bootstrap_secret = none;
  installation_secret = none;
  uninstallation_script = none;
  join_mode = JoinMode.kubeadm;
  download_mode = DownloadMode.unset;
  kubernetes_version = "";
  manage_kube_proxy = false;
  capacity = ("cpu", "12") ∷ [];
  labels = [];
  taints = [];
  priority = none;
}

abbrev pub status_of : Option ObjectReference → Conditions → ByoHostStatus
status_of ref conditions = record {
  machine_ref = ref;
  conditions = conditions;
  host_details = no_info;
  network = [];
}

abbrev pub host_with :
    String → Dict String → Dict String → Option ObjectReference → Conditions → ByoHost
host_with name labels annotations ref conditions = record {
  meta = meta_of name labels annotations;
  spec = empty_spec;
  status = status_of ref conditions;
}

abbrev pub host_a : ByoHost
host_a = host_with "a" [] [] none []

abbrev pub host_b : ByoHost
host_b = host_with "b" [] [] none []

abbrev pub machine_reference : ObjectReference
machine_reference = record {
  api_version = "v1";
  kind = "ByoMachine";
  namespace = "default";
  name = "m";
  uid = "u";
}

abbrev pub secret : ObjectReference
secret = record { api_version = ""; kind = "Secret"; namespace = "default"; name = "s"; uid = "" }

abbrev pub byo_machine : ByoMachine
byo_machine = record {
  api_version = "v1";
  kind = "ByoMachine";
  meta = meta_of "m" ((cluster_name_label, "c") ∷ []) [];
  spec = record {
    selector = none;
    provider_id = "";
    installer_ref = none;
    bootstrap_config_ref = none;
    join_mode = JoinMode.kubeadm;
    download_mode = DownloadMode.unset;
    kubernetes_version = "v1.26.6";
    manage_kube_proxy = false;
    capacity_requirements = none;
  };
  status = record {
    host_info = no_info;
    ready = false;
    conditions = [];
    cleanup_started = false;
    cleanup_completed = false;
    node_ref = none;
    addresses = [];
  };
}

abbrev pub scope : Option ByoHost → Scope
scope h = record {
  cluster = record {
    name = "c";
    endpoint = "10.0.0.1:6443";
    endpoint_host = "10.0.0.1";
    endpoint_port = 6443;
    paused = false;
    infrastructure_ready = true;
  };
  machine = record {
    labels = [];
    annotations = [];
    data_secret_name = some "s";
    version = some "v1.26.6";
  };
  byo_cluster = record {
    meta = meta_of "c" [] [];
    spec = record {
      endpoint_host = "10.0.0.1";
      endpoint_port = 6443;
      bundle_lookup_base_registry = "r";
    };
    ready = true;
  };
  byo_machine = byo_machine;
  byo_host = h;
}

-- A lock is written as its holder, and read as one taken at the time 0.
abbrev pub lock_text : LockInfo → String
lock_text k = k.holder

-- A server that keeps one host in its state.
abbrev pub server_over :
    {S : Type 0}
    → (S → S × ℕ)
    → (S → ByoHost)
    → (ByoHost → S → S × Option Error)
    → (ByoHost → S → S × Option Error)
    → (LockInfo → Result {0} String)
    → (String → Option LockInfo)
    → Server S
server_over now get update patch marshal unmarshal = record {
  now = now;
  marshal = marshal;
  unmarshal = unmarshal;
  get_host = λ namespace name s. (s, ok (get s));
  get_byo_machine = λ namespace name s. (s, err not_found);
  update_host = update;
  patch_host = λ before h s. patch h s;
  selector_error = λ selector. none;
  list_attached = λ label s. (s, ok []);
  list_hosts = λ s. (s, ok (get s ∷ []));
  list_free = λ selector s. (s, ok (get s ∷ []));
  get_management_node = λ name s. (s, err not_found);
  get_remote_client = λ s. (s, none);
  get_node = λ name namespace s.
      (s, ok (record { name = name; provider_id = ""; deletion_timestamp = none }));
  match_string = λ pattern text. ok true;
  get_owner_machine = λ m s. (s, ok none);
  get_cluster = λ m s. (s, ok none);
  get_byo_cluster = λ m k s. (s, err not_found);
  is_paused = λ k m. false;
  patch_byo_machine = λ before m s. (s, none);
  patch_node = λ before n s. (s, none);
  tls_bootstrap_secret = λ p h s. (s, some (ok ("default", "tls")));
  get_installer_config = λ s. (s, none);
  get_installer_template = λ s. (s, none);
  generate_template = λ d. ok tt;
  create_installer_config = λ d s. (s, none);
  installer_config_ready = λ s. (s, ok true);
  installation_secret = λ s. (s, ok none);
}

abbrev pub server_at :
    ℕ → (LockInfo → Result {0} String) → (String → Option LockInfo) → Server ByoHost
server_at time = server_over (λ s. (s, time)) (λ s. s) (λ h s. (h, none)) (λ h s. (h, none))

abbrev pub world : ByoHost → World ByoHost
world h = record { server = h; index = []; slept = [] }
