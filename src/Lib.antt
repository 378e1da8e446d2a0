-- ===== src/Lib.antt =====
-- Verification of the Bring Your Own Host provider for Cluster API.
--
-- The program. A pool of machines, each with an agent, joins and leaves workload clusters. The
-- objects live in the API server of a management cluster: a ByoHost for each machine of the pool,
-- a ByoMachine for each node that a cluster wants, a ByoCluster for each cluster. The ByoMachine
-- controller claims a free ByoHost for a ByoMachine, and marks it for cleanup when the ByoMachine
-- goes. The agent on the machine installs and bootstraps a claimed host and cleans a marked one.
-- The ByoHost controller forces the cleanup of a marked host whose agent does not answer. An
-- admission controller approves the certificates of agents and kubelets, and a webhook guards the
-- deletion of hosts. These interact through the fields of the ByoHost alone: machine reference,
-- labels, annotations, conditions. Further controllers make the secrets that a host is installed and
-- bootstrapped from, and set the endpoint and the finalizer of a ByoCluster.
--
-- The files.
--   Prelude: shared names, tests, lists, texts, Go's `int64`, maps as association lists.
--   Api: the types of apis/infrastructure/v1beta1 and what is used of Kubernetes and Cluster API.
--     Conditions, quantities and finalizers are records of operations, with their laws.
--   Selection: `selectHostForClaim` of controllers/infrastructure/byomachine_controller.go. The map
--     `roundRobinIndex` is passed along; an index out of range is the constructor `panic`.
--   HostController: controllers/infrastructure/byohost_controller.go. `handle` is the body of
--     `Reconcile`, `reconcile` adds the fetch and the deferred patch.
--   Agent: agent/reconciler/host_reconciler.go. The state `Agent` holds the host in memory, the file
--     with the machine's UID, and the trace of the actions on the machine; `Env` holds the replies.
--     Tls is `bootstrapK8sNodeTLS`, with the texts of the files and of the units that it writes.
--     Flags is `labelFlags` of agent/main.go, Registration agent/registration/host_registrar.go,
--     Gpu agent/gpu.go. Lifecycle and Settled are about two reconciles in a row.
--   MachineController: the rest of controllers/infrastructure/byomachine_controller.go, with
--     byomachine_scope.go. `Server` is the record of the calls, over a state that every call may
--     change, as other clients write between two calls. Lease, Attach, Delete, Provision, Normal
--     and Reconcile follow the functions of these names. Lease/System is the step relation of
--     several controllers on one host, Lease/Lock the abstract lock that it refines. Tls is
--     `createBootstrapSecretTLSBootstrap`: Sources are the places where it looks for a certificate
--     and a kubeconfig, Configs the configurations that it adds, Secrets the whole function.
--   CloudInit: agent/cloudinit, the encodings, the commands, the file writer and `Execute`.
--   Admission: controllers/infrastructure/byoadmission_controller.go and
--     apis/infrastructure/v1beta1/byohost_webhook.go.
--   Installer: installer/registry.go, the versions and systems that have an installer; Creation is
--     installer/installer.go and installer/bundle_downloader.go.
--   Tokens: common/bootstraptoken/token.go; Kubeconfigs is
--     controllers/infrastructure/bootstrapkubeconfig_controller.go.
--   InstallerController: controllers/infrastructure/k8sinstallerconfig_controller.go.
--   ClusterController: controllers/infrastructure/byocluster_controller.go.
--   Tests: a condition store, an API server that keeps one host, and the theorems at concrete data.
--
-- Bounds and fuel. The loops over lists are structural. The loop of `attachByoHost` runs on the
-- turns that are left, from MaxRetries, and the retries of the agent on theirs, as in the source:
-- no fuel is invented. Durations of the cleanup timeout wrap as `int64`; times are natural numbers
-- of nanoseconds.
--
-- Not modelled: events and log lines, the conversion of objects by patch helpers, which is taken to
-- succeed, the summary of the conditions of a ByoCluster, the helpers of the two TLS functions that
-- nothing calls, the texts of the install scripts, the start of the agent and its certificates,
-- its drift detector, capacity and metrics, the templates, generated code and start-up wiring. A Go map is visited in the order of its list.
pub mod Prelude
pub mod Api
pub mod Selection
pub mod HostController
pub mod Agent
pub mod MachineController
pub mod CloudInit
pub mod Admission
pub mod Installer
pub mod Tokens
pub mod InstallerController
pub mod ClusterController
pub mod Tests
