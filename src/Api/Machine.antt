-- ===== src/Api/Machine.antt =====
-- `ByoMachine` and `ByoCluster` (apis/infrastructure/v1beta1), and the fields of Cluster API's own
-- `Machine` and `Cluster` that the controllers read.
use cluster_api_provider_bri.Prelude.{ℕ, String, Bool, Option, List}
use cluster_api_provider_bri.Prelude.Dict.{Dict}
use cluster_api_provider_bri.Api.Meta.{ObjectMeta, ObjectReference}
use cluster_api_provider_bri.Api.Conditions.{Conditions}
use cluster_api_provider_bri.Api.Quantity.{Quantity}
use cluster_api_provider_bri.Api.Host.{JoinMode, DownloadMode, HostInfo}

pub record ByoMachineSpec : Type 0 where
  pub selector : Option (Dict String)
  pub provider_id : String
  pub installer_ref : Option ObjectReference
  pub bootstrap_config_ref : Option ObjectReference
  pub join_mode : JoinMode
  pub download_mode : DownloadMode
  pub kubernetes_version : String
  pub manage_kube_proxy : Bool
  pub capacity_requirements : Option (Dict Quantity)

-- A `clusterv1.MachineAddress` of type ExternalIP, the one type that the code makes.
pub record MachineAddress : Type 0 where
  pub kind : String
  pub address : String

pub record ByoMachineStatus : Type 0 where
  pub host_info : HostInfo
  pub ready : Bool
  pub conditions : Conditions
  pub cleanup_started : Bool
  pub cleanup_completed : Bool
  pub node_ref : Option ObjectReference
  pub addresses : List MachineAddress

pub record ByoMachine : Type 0 where
  pub api_version : String
  pub kind : String
  pub meta : ObjectMeta
  pub spec : ByoMachineSpec
  pub status : ByoMachineStatus

pub record ByoClusterSpec : Type 0 where
  pub endpoint_host : String
  pub endpoint_port : ℕ
  pub bundle_lookup_base_registry : String

pub record ByoCluster : Type 0 where
  pub meta : ObjectMeta
  pub spec : ByoClusterSpec
  pub ready : Bool

-- `clusterv1.Machine`
pub record Machine : Type 0 where
  pub labels : Dict String
  pub annotations : Dict String
  pub data_secret_name : Option String
  pub version : Option String

-- `clusterv1.Cluster`; `endpoint` is `Spec.ControlPlaneEndpoint.String()`, its host and port follow.
pub record Cluster : Type 0 where
  pub name : String
  pub endpoint : String
  pub endpoint_host : String
  pub endpoint_port : ℕ
  pub paused : Bool
  pub infrastructure_ready : Bool
