-- ===== src/Llm.antt =====
-- internal/llm: the pool of the upstream keys.
pub mod KeyPool
mod Examples
