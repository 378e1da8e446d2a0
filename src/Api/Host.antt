-- ===== src/Api/Host.antt =====
-- `ByoHost` (apis/infrastructure/v1beta1/byohost_types.go).
use cluster_api_provider_bri.Prelude.{
  ℤ, pos, Ordering, String, Bool, true, false, not, ◌&&◌, Option, none, some, List, [], ◌∷◌, str_eq,
  is_some,
}
use cluster_api_provider_bri.Prelude.Dict.{Dict, lookup}
use cluster_api_provider_bri.Api.Meta.{ObjectMeta, ObjectReference}
use cluster_api_provider_bri.Api.Conditions.{Conditions}
use cluster_api_provider_bri.Api.Quantity.{Quantity, QuantityOps}

pub data JoinMode : Type 0 where
  unset kubeadm tls_bootstrap : JoinMode

pub data DownloadMode : Type 0 where
  unset offline online : DownloadMode

abbrev pub is_tls_bootstrap : JoinMode → Bool
is_tls_bootstrap tls_bootstrap = true
is_tls_bootstrap _ = false

abbrev pub is_offline : DownloadMode → Bool
is_offline offline = true
is_offline _ = false

pub record Taint : Type 0 where
  pub key : String
  pub value : String
  pub effect : String

pub record ByoHostSpec : Type 0 where
  pub bootstrap_secret : Option ObjectReference
  pub installation_secret : Option ObjectReference
  pub uninstallation_script : Option String
  pub join_mode : JoinMode
  pub download_mode : DownloadMode
  pub kubernetes_version : String
  pub manage_kube_proxy : Bool
  pub capacity : Dict Quantity
  pub labels : Dict String
  pub taints : List Taint
  pub priority : Option ℤ

pub record HostInfo : Type 0 where
  pub os_name : String
  pub os_image : String
  pub architecture : String

pub record NetworkStatus : Type 0 where
  pub connected : Bool
  pub ip_addrs : List String
  pub mac_addr : String
  pub network_interface_name : String
  pub is_default : Bool

pub record ByoHostStatus : Type 0 where
  pub machine_ref : Option ObjectReference
  pub conditions : Conditions
  pub host_details : HostInfo
  pub network : List NetworkStatus

pub record ByoHost : Type 0 where
  pub meta : ObjectMeta
  pub spec : ByoHostSpec
  pub status : ByoHostStatus

unfoldable pub is_available : ByoHost → Bool
is_available host = not (is_some host.status.machine_ref)

-- The default of the pointer is 0.
unfoldable pub get_priority : ByoHost → ℤ
get_priority host = elim host.spec.priority [ none ↦ pos 0 | some p ↦ p ]

-- `host.Spec.Labels[key]` is "" for a key that is missing.
unfoldable pub matches_selector : ByoHost → Dict String → Bool
matches_selector host [] = true
matches_selector host ((key, value) ∷ selector) =
    str_eq (elim (lookup key host.spec.labels) [ none ↦ "" | some v ↦ v ]) value
    && matches_selector host selector

abbrev pub enough : QuantityOps → Option Quantity → Quantity → Bool
enough q none required = false
enough q (some available) required = elim (q.cmp available required) [
  | Ordering.lt ↦ false
  | _ ↦ true
]

unfoldable pub matches_capacity : QuantityOps → ByoHost → Dict Quantity → Bool
matches_capacity q host [] = true
matches_capacity q host ((name, required) ∷ capacity) =
    enough q (lookup name host.spec.capacity) required && matches_capacity q host capacity

unfoldable pub matches_requirements : QuantityOps → ByoHost → Dict String → Dict Quantity → Bool
unfolding matches_selector matches_capacity
matches_requirements q host selector capacity =
    matches_selector host selector && matches_capacity q host capacity
