-- ===== src/Schema.antt =====
-- The data model of src/grpo_guard/schema: references, events, envelopes, manifests, decisions.
pub mod Refs
pub mod Decision
pub mod Double
pub mod Events
pub mod Envelope
pub mod Seal
pub mod Sealing
