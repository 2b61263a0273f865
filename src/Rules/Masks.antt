-- ===== src/Rules/Masks.antt =====
-- The M rules of validators/rules.py: producer masks against the rebuilt ones.
use grpo_guard.Align.{Alignment, mask_from_artifact_bytes}
use grpo_guard.ArtifactStore.{eq_bytes, get}
use grpo_guard.Context.{ValidationContext}
use grpo_guard.Prelude.{
  Bool, List, Option, String, [], any, false, if◌then◌else◌, length, none, not, slice, some, take,
  true, ℕ, ◌-◌, ◌==◌, ◌||◌, ◌∷◌,
}
use grpo_guard.Prelude.Int.{leb_ℤ, slice_index, ℤ}
use grpo_guard.Prelude.Result.{
  Result, alignment_error, empty_completion_error, err, file_not_found_error, hash_mismatch_error,
  ok, value_error,
}
use grpo_guard.Rules.Base.{RuleResult, Verdict, _gen, fires_if, quarantined, rejected}
use grpo_guard.Rules.Tokens.{_alignment, alignment_verdict, element_count}
use grpo_guard.Schema.Decision.{Code, m001, m002, m003, m004, m005}
use grpo_guard.Schema.Events.{GenerationEvent}
use grpo_guard.Schema.Refs.{ArtifactRef}
use grpo_guard.Schema.Seal.{Bytes}
use grpo_guard.Prelude.Maybe.{◌>>=◌}

-- `except (HashMismatchError, FileNotFoundError): return None` round a read
abbrev pub unreadable_skips {ℓ} : {A : Type ℓ} → Result A → (A → Verdict) → Verdict
unreadable_skips (ok a) k = k a
unreadable_skips (err hash_mismatch_error) k = ok none
unreadable_skips (err file_not_found_error) k = ok none
unreadable_skips (err e) k = err e

-- `except AlignmentError: return None` round `_alignment`
abbrev pub misaligned_skips : Result Alignment → (Alignment → Verdict) → Verdict
misaligned_skips (ok a) k = k a
misaligned_skips (err empty_completion_error) k = ok none
misaligned_skips (err alignment_error) k = ok none
misaligned_skips (err e) k = err e

abbrev is_set : ℕ → Bool
is_set b = not (b == 0)

pub data MaskCheck : Type 0 where
  prompt padding canonical : MaskCheck

module _ (sha256 : Bytes → String) where
  -- mask_from_artifact_bytes(ctx.store.get(ref), expected_len)
  unfoldable pub read_mask : ValidationContext → ArtifactRef → ℕ → Result (List ℕ)
  read_mask ctx r expected_len = elim (get sha256 ctx.store r) [
    | err e ↦ err e
    | ok bytes ↦ mask_from_artifact_bytes bytes expected_len
  ]

  -- The length test on the service logprobs, which M001 and L004 both make.
  unfoldable pub service_length : Code → ValidationContext → GenerationEvent → Alignment → Verdict
  service_length c ctx gen align = elim gen.service_behavior_logprobs [
    | none ↦ ok none
    | some r ↦
        unreadable_skips (get sha256 ctx.store r) (λ bytes.
          ok (fires_if (not (element_count r bytes == align.completion_len)) (rejected c)))
  ]

  -- M001 from the point where the alignment is known.
  unfoldable pub mask_shapes : ValidationContext → GenerationEvent → Alignment → Verdict
  unfolding service_length
  mask_shapes ctx gen align =
      unreadable_skips (read_mask ctx gen.completion_target_mask align.total) (λ target.
        unreadable_skips (read_mask ctx gen.loss_mask (align.total - 1)) (λ loss.
          if not (length target == align.total) || not (length loss == align.total - 1)
          then ok (some (rejected m001))
          else service_length m001 ctx gen align))

  unfoldable pub m001_mask_shape_mismatch : ValidationContext → Verdict
  unfolding mask_shapes
  m001_mask_shape_mismatch ctx = elim (_gen ctx) [
    | none ↦ ok none
    | some gen ↦ alignment_verdict m001 (_alignment sha256 ctx) (mask_shapes ctx gen)
  ]

  -- `for s, e in padding_spans: if target[s:e].any()`
  unfoldable pub padding_selected : List (List ℤ) → List ℕ → Result Bool
  padding_selected [] target = ok false
  padding_selected ((s ∷ e ∷ []) ∷ rest) target =
      if any is_set (slice (slice_index (length target) s) (slice_index (length target) e) target)
      then ok true
      else padding_selected rest target
  padding_selected ([] ∷ rest) target = err value_error
  padding_selected ((s ∷ []) ∷ rest) target = err value_error
  padding_selected ((s ∷ e ∷ x ∷ xs) ∷ rest) target = err value_error

  -- `_mask_violation` from the point where the target mask is known.
  unfoldable pub check_target :
      MaskCheck → ValidationContext → GenerationEvent → Alignment → List ℕ → Verdict
  check_target prompt ctx gen align target =
      ok (fires_if (any is_set (take align.prompt_len target)) (rejected m002))
  check_target padding ctx gen align target = elim (padding_selected gen.padding_spans target) [
    | err e ↦ err e
    | ok b ↦ ok (fires_if b (rejected m003))
  ]
  check_target canonical ctx gen align target =
      unreadable_skips (read_mask ctx gen.loss_mask (align.total - 1)) (λ loss. ok (
        fires_if
          (not (eq_bytes target align.completion_target_mask)
            || not (eq_bytes loss align.loss_mask))
          (rejected m004)))

  unfoldable pub _mask_violation : MaskCheck → ValidationContext → Verdict
  unfolding check_target
  _mask_violation check ctx = elim (_gen ctx) [
    | none ↦ ok none
    | some gen ↦ misaligned_skips (_alignment sha256 ctx) (λ align.
        unreadable_skips (read_mask ctx gen.completion_target_mask align.total)
          (check_target check ctx gen align))
  ]

  unfoldable pub m002_prompt_selected : ValidationContext → Verdict
  unfolding _mask_violation
  m002_prompt_selected ctx = _mask_violation prompt ctx

  unfoldable pub m003_padding_selected : ValidationContext → Verdict
  unfolding _mask_violation
  m003_padding_selected ctx = _mask_violation padding ctx

  unfoldable pub m004_canonical_mask_mismatch : ValidationContext → Verdict
  unfolding _mask_violation
  m004_canonical_mask_mismatch ctx = _mask_violation canonical ctx

unfoldable pub m005_empty_completion : ValidationContext → Option RuleResult
m005_empty_completion ctx = do
  gen ← _gen ctx
  fires_if (leb_ℤ gen.completion_span.1 gen.completion_span.0) (quarantined m005)
