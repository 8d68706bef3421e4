-- ===== src/Domain.antt =====
-- internal/inference/domain: the error codes, the fixed-point money types and the shared shapes of
-- the inference module.
pub mod Errors
pub mod Credit
pub mod Money
pub mod Rate
pub mod Usage
mod Examples
