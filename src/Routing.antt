-- ===== src/Routing.antt =====
-- internal/inference/routing: the order of the upstream accounts, their leases and the sticky sessions.
pub mod Pool
pub mod Session
mod Examples
