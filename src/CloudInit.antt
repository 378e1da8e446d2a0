-- ===== src/CloudInit.antt =====
-- The execution of a bootstrap script: agent/cloudinit.
pub mod Command
pub mod Encoding
pub mod FileWriter
pub mod Script
