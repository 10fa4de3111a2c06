-- ===== src/Service.antt =====
-- The control plane of the server.
pub mod FilterUpdates
mod Examples
