-- ===== src/Schema/Refs.antt =====
-- src/grpo_guard/schema/artifacts.py: references to events, envelopes, manifests and artifacts.
use grpo_guard.Prelude.{List, Option, String, ℕ}

pub record EventRef : Type 0 where
  pub uri : String
  pub event_id : String
  pub event_sha256 : String

pub record EnvelopeRef : Type 0 where
  pub uri : String
  pub envelope_id : String
  pub envelope_sha256 : String

pub record ManifestRef : Type 0 where
  pub uri : String
  pub manifest_id : String
  pub sha256 : String

pub record ArtifactRef : Type 0 where
  pub uri : String
  pub media_type : String
  pub dtype : Option String
  pub shape : Option (List ℕ)
  pub num_bytes : ℕ
  pub sha256 : String
  pub producer_event_id : String
