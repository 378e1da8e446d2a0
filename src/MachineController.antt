-- ===== src/MachineController.antt =====
-- The ByoMachine controller: controllers/infrastructure/byomachine_controller.go.
pub mod Server
pub mod Lease
pub mod Attach
pub mod Tls
pub mod Delete
pub mod Provision
pub mod Normal
pub mod Reconcile
