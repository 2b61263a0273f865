-- ===== src/Schema/Sealing.antt =====
-- `seal` and `verify_seal` of the events. `dumps` leaves the hash field out, and a digest is no
-- empty text: these are the two facts about the serialization and hashlib that the laws use.
use grpo_guard.Prelude.{String, ap, arith, eq_iff, eq_refl, false, is_empty, refl, true, ◌≡◌}
use grpo_guard.Prelude.Result.{err, ok, value_error}
use grpo_guard.Schema.Events.{
  Event, EventBase, base_of, generation, reward, scoring, sync, training_step, update, update_input,
  validation_decision, with_base,
}
use grpo_guard.Schema.Seal.{Bytes, is_sealed, seal, verify_seal}

module _ (sha256 : Bytes → String) (dumps : Event → Bytes) where
  -- The serialization does not read the hash field.
  abbrev pub IgnoresHash : Type 0
  IgnoresHash =
      (e : Event) (h : String)
      → dumps (with_base e (record (base_of e) { event_sha256 = h })) ≡ dumps e

  base_of-with_base : (e : Event) (b : EventBase) → base_of (with_base e b) ≡ b
  base_of-with_base (sync e) b = refl
  base_of-with_base (update e) b = refl
  base_of-with_base (update_input e) b = refl
  base_of-with_base (generation e) b = refl
  base_of-with_base (scoring e) b = refl
  base_of-with_base (reward e) b = refl
  base_of-with_base (validation_decision e) b = refl
  base_of-with_base (training_step e) b = refl

  -- An event that `seal` returned is sealed and verifies; and it cannot be sealed again.
  pub seal-verify_seal :
      (e sealed : Event)
      → IgnoresHash
      → ((bytes : Bytes) → is_empty (sha256 bytes) ≡ false)
      → seal sha256 dumps e ≡ ok sealed
      → (is_sealed sealed ≡ true)
        × (verify_seal sha256 dumps sealed ≡ true)
        × (seal sha256 dumps sealed ≡ err value_error)
  unfolding seal verify_seal is_sealed
  seal-verify_seal e sealed ignores digests h =
      let hash = sha256 (dumps e) in
      let built : sealed ≡ with_base e (record (base_of e) { event_sha256 = hash }) =
        ground (arith, h) in
      let stored : (base_of sealed).event_sha256 ≡ hash = rw built (
        ap (λ b. b.event_sha256)
          (base_of-with_base e (record (base_of e) { event_sha256 = hash }))) in
      let same : dumps sealed ≡ dumps e = rw built (ignores e hash) in
      (
        rw (stored, digests (dumps e)) refl,
        rw (stored, digests (dumps e), same) (eq_refl hash),
        rw (stored, digests (dumps e)) refl,
      )

  -- Two events that verify and carry one hash have payloads with one digest: a change of a sealed
  -- event's payload under its hash either fails `verify_seal` or is a collision of the digest.
  pub verify_seal-digest :
      (e f : Event)
      → verify_seal sha256 dumps e ≡ true
      → verify_seal sha256 dumps f ≡ true
      → (base_of e).event_sha256 ≡ (base_of f).event_sha256
      → sha256 (dumps e) ≡ sha256 (dumps f)
  unfolding verify_seal
  verify_seal-digest e f h k same = ground (
    arith,
    h,
    k,
    same,
    eq_iff (sha256 (dumps e)) (base_of e).event_sha256,
    eq_iff (sha256 (dumps f)) (base_of f).event_sha256,
  )
