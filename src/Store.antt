-- ===== src/Store.antt =====
-- internal/inference/postgres: the tables of the inference module and the transactions over them.
pub mod Lease
pub mod Table
pub mod Wallet
pub mod Quota
