-- ===== src/Rules.antt =====
-- src/grpo_guard/validators/rules.py, one module for each family of rules.
pub mod Base
pub mod Policy
pub mod Tokens
pub mod Masks
pub mod Logprobs
pub mod Data
pub mod Table
pub mod Codes
