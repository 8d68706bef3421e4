-- ===== src/Accounting.antt =====
-- internal/inference/accounting: prices, charges, wallet, overage, settlement, reconciliation.
pub mod Pricing
pub mod Overage
pub mod Wallet
pub mod Settlement
pub mod Reconciliation
mod Examples
