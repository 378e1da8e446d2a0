-- ===== src/Api.antt =====
-- The API objects of apis/infrastructure/v1beta1, and what the controllers see of the API server.
pub mod Meta
pub mod Names
pub mod Conditions
pub mod Quantity
pub mod Host
pub mod Machine
