-- ===== src/Api/Names.antt =====
-- The annotation, label, condition and reason names of apis/infrastructure/v1beta1 and of Cluster API.
use cluster_api_provider_bri.Prelude.{String}

-- byohost_types.go
abbrev pub host_cleanup_annotation : String
host_cleanup_annotation = "byoh.infrastructure.cluster.x-k8s.io/unregistering"

abbrev pub end_point_ip_annotation : String
end_point_ip_annotation = "byoh.infrastructure.cluster.x-k8s.io/endpointip"

abbrev pub k8s_version_annotation : String
k8s_version_annotation = "byoh.infrastructure.cluster.x-k8s.io/k8sversion"

abbrev pub attached_byo_machine_label : String
attached_byo_machine_label = "byoh.infrastructure.cluster.x-k8s.io/byomachine-name"

abbrev pub bundle_lookup_base_registry_annotation : String
bundle_lookup_base_registry_annotation = "byoh.infrastructure.cluster.x-k8s.io/bundle-registry"

-- byohost_controller.go
abbrev pub force_cleanup_audit_annotation : String
force_cleanup_audit_annotation = "byoh.infrastructure.cluster.x-k8s.io/force-cleanup-audit"

abbrev pub cleanup_started_at_annotation : String
cleanup_started_at_annotation = "byoh.infrastructure.cluster.x-k8s.io/cleanup-started-at"

abbrev pub force_cleanup_annotation : String
force_cleanup_annotation = "byoh.infrastructure.cluster.x-k8s.io/force-cleanup"

-- byomachine_controller.go
abbrev pub host_lease_annotation_key : String
host_lease_annotation_key = "byohost.infrastructure.cluster.x-k8s.io/lease"

-- Cluster API
abbrev pub cluster_name_label : String
cluster_name_label = "cluster.x-k8s.io/cluster-name"

abbrev pub paused_annotation : String
paused_annotation = "cluster.x-k8s.io/paused"

abbrev pub remediation_annotation : String
remediation_annotation = "cluster.x-k8s.io/remediation-for"

abbrev pub machine_finalizer : String
machine_finalizer = "byomachine.infrastructure.cluster.x-k8s.io"

abbrev pub cluster_finalizer : String
cluster_finalizer = "byocluster.infrastructure.cluster.x-k8s.io"

-- condition_consts.go: condition types
abbrev pub k8s_node_bootstrap_succeeded : String
k8s_node_bootstrap_succeeded = "K8sNodeBootstrapSucceeded"

abbrev pub k8s_components_installation_succeeded : String
k8s_components_installation_succeeded = "K8sComponentsInstallationSucceeded"

abbrev pub byo_host_ready : String
byo_host_ready = "BYOHostReady"

-- condition_consts.go: reasons
abbrev pub bootstrap_data_secret_unavailable : String
bootstrap_data_secret_unavailable = "BootstrapDataSecretUnavailable"

abbrev pub k8s_installation_secret_unavailable : String
k8s_installation_secret_unavailable = "K8sInstallationSecretUnavailable"

abbrev pub clean_k8s_directories_failed : String
clean_k8s_directories_failed = "CleanK8sDirectoriesFailed"

abbrev pub cloud_init_execution_failed : String
cloud_init_execution_failed = "CloudInitExecutionFailed"

abbrev pub k8s_node_absent : String
k8s_node_absent = "K8sNodeAbsent"

abbrev pub k8s_components_installation_failed : String
k8s_components_installation_failed = "K8sComponentsInstallationFailed"

abbrev pub waiting_for_cluster_infrastructure : String
waiting_for_cluster_infrastructure = "WaitingForClusterInfrastructure"

abbrev pub waiting_for_bootstrap_data_secret : String
waiting_for_bootstrap_data_secret = "WaitingForBootstrapDataSecret"

abbrev pub waiting_for_node_ref : String
waiting_for_node_ref = "WaitingForNodeRef"

abbrev pub byo_hosts_unavailable : String
byo_hosts_unavailable = "BYOHostsUnavailable"

abbrev pub installation_secret_not_available : String
installation_secret_not_available = "InstallationSecretNotAvailable"

abbrev pub cluster_or_resource_paused : String
cluster_or_resource_paused = "ClusterOrResourcePaused"
