-- ===== src/Quota.antt =====
-- internal/inference/quota: the quota windows, the policy and the reservation amounts.
pub mod Calendar
pub mod Window
pub mod Reservation
pub mod Policy
mod Examples
