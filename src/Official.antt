-- ===== src/Official.antt =====
-- src/grpo_guard/adapters/guarded_grpo_trainer.py: the guard over TRL's own trainer.
pub mod Rows
pub mod Rollout
pub mod Kept
pub mod RowRecorded
pub mod Recorded
pub mod Match
pub mod Available
pub mod Step
pub mod Consumed
pub mod Verified
pub mod Checked
pub mod Runs
pub mod Exhausted
pub mod Gate
pub mod Advantages
