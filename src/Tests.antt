-- ===== src/Tests.antt =====
-- Runs of the definitions on concrete inputs.
pub mod Sample
pub mod Validator
pub mod Store
pub mod Handles
pub mod Guarded
pub mod Log
pub mod Seal
pub mod Adapter
pub mod Resume
pub mod Canary
pub mod Official
pub mod Control
pub mod Tools
pub mod Loss
pub mod Runtime
