-- ===== src/Guarded.antt =====
-- src/grpo_guard/adapters/guarded_update.py: the part of the guard that owns the optimizer.
pub mod Nonce
pub mod Wal
pub mod Batch
pub mod Step
pub mod Run
pub mod Claims
pub mod Consume
pub mod Update
pub mod Outcome
pub mod Once
pub mod Recovery
pub mod Materialized
pub mod Burned
pub mod Adapter
pub mod Promotion
