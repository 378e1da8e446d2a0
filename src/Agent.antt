-- ===== src/Agent.antt =====
-- The host agent: agent/reconciler/host_reconciler.go, the label flag of agent/main.go,
-- agent/registration/host_registrar.go and agent/gpu.go.
pub mod State
pub mod Cleanup
pub mod Install
pub mod Tls
pub mod Flags
pub mod Gpu
pub mod Registration
pub mod Reconcile
pub mod Main
mod Kept
pub mod Settled
pub mod Lifecycle
