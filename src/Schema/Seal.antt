-- ===== src/Schema/Seal.antt =====
-- EventBase.seal, is_sealed and verify_seal of events.py, and those of TrajectoryEnvelope.
-- `dumps` is canonical_dumps over pydantic's `model_dump` without the hash field; `sha256` is
-- hashlib's digest in hexadecimal. Both are parameters.
use grpo_guard.Prelude.{Bool, List, String, false, if◌then◌else◌, is_empty, not, ℕ, ◌is◌}
use grpo_guard.Prelude.Result.{Result, err, ok, value_error}
use grpo_guard.Schema.Envelope.{TrajectoryEnvelope}
use grpo_guard.Schema.Events.{Event, base_of, with_base}
use grpo_guard.Schema.Refs.{EnvelopeRef}

abbrev pub Bytes : Type 0
Bytes = List ℕ

unfoldable pub is_sealed : Event → Bool
is_sealed e = not (is_empty (base_of e).event_sha256)

module _ (sha256 : Bytes → String) (dumps : Event → Bytes) where
  unfoldable pub seal : Event → Result Event
  seal e =
      if not (is_empty (base_of e).event_sha256)
      then err value_error
      else ok (with_base e (record (base_of e) { event_sha256 = sha256 (dumps e) }))

  unfoldable pub verify_seal : Event → Bool
  verify_seal e =
      if is_empty (base_of e).event_sha256
      then false
      else sha256 (dumps e) is (base_of e).event_sha256

module _ (sha256 : Bytes → String) (dumps : TrajectoryEnvelope → Bytes) where
  unfoldable pub seal_envelope : TrajectoryEnvelope → Result TrajectoryEnvelope
  seal_envelope e =
      if not (is_empty e.envelope_sha256)
      then err value_error
      else ok (record e { envelope_sha256 = sha256 (dumps e) })

  unfoldable pub verify_seal_envelope : TrajectoryEnvelope → Bool
  verify_seal_envelope e =
      if is_empty e.envelope_sha256 then false else sha256 (dumps e) is e.envelope_sha256

unfoldable pub ref : String → TrajectoryEnvelope → Result EnvelopeRef
ref uri e =
    if is_empty e.envelope_sha256
    then err value_error
    else ok (record { uri = uri; envelope_id = e.envelope_id; envelope_sha256 = e.envelope_sha256 })
