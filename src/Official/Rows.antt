-- ===== src/Official/Rows.antt =====
-- _align_checks, _logprob_length_check, _masked_real and _span of guarded_grpo_trainer.py. A row of
-- token ids, of mask entries or of float32 values is the list of its numbers or bit patterns.
use grpo_guard.Align.{fill, reconstruct_alignment}
use grpo_guard.ArtifactStore.{eq_bytes}
use grpo_guard.Prelude.{
  Bool, List, Option, [], any, false, if◌then◌else◌, length, ltb, none, not, replicate, slice, some,
  ℕ, ◌&&◌, ◌++◌, ◌+◌, ◌==◌, ◌∷◌,
}
use grpo_guard.Prelude.Int.{pos}
use grpo_guard.Prelude.Result.{err, ok}

abbrev pub Row : Type 0
Row = List ℕ

pub data Violation : Type 0 where
  m005_empty_completion m001_mask_shape_mismatch align_failure : Violation
  m004_canonical_mask_mismatch : Violation

-- expected = zeros(T); expected[P:] = 1
abbrev pub expected_mask : ℕ → ℕ → Row
expected_mask p n = fill 0 p n 1 (replicate n 0)

unfoldable pub _align_checks : Row → Row → List Violation
unfolding eq_bytes
_align_checks prompt_ids completion_ids =
    let p = length prompt_ids in
    let n = length prompt_ids + length completion_ids in
    if length completion_ids == 0
    then m005_empty_completion ∷ []
    else if ltb n 2
    then m001_mask_shape_mismatch ∷ []
    else (elim (reconstruct_alignment n (pos p) (pos n) [] (pos 0)) [
      | err e ↦ align_failure ∷ []
      | ok alignment ↦
          if not (eq_bytes alignment.completion_target_mask (expected_mask p n))
          then m004_canonical_mask_mismatch ∷ []
          else []
    ])

-- Whether L004 fires.
unfoldable pub _logprob_length_check : Row → Option Row → Bool
_logprob_length_check completion_ids none = false
_logprob_length_check completion_ids (some logprobs) =
    not (length logprobs == length completion_ids)

-- a[m.astype(bool)], of two arrays of one length
unfoldable pub select : Row → Row → Row
select [] xs = []
select (m ∷ ms) [] = []
select (m ∷ ms) (x ∷ xs) = if m == 0 then select ms xs else x ∷ select ms xs

unfoldable pub _masked_real : Row → Option Row → Row
_masked_real padded none = padded
_masked_real padded (some mask) =
    if length mask == length padded then select mask padded else padded

-- mask.astype(bool).any()
abbrev pub any_set : Row → Bool
any_set = any (λ m. not (m == 0))

-- The last two cases of `_span`, without a mask over the whole sequence.
unfoldable pub span_by_completion : Row → ℕ → ℕ → Option Row → Row
span_by_completion row p c none = slice p (p + c) row
span_by_completion row p c (some cmask) =
    if length cmask == length row && any_set cmask then select cmask row else slice p (p + c) row

abbrev pub span_by_attention : Row → ℕ → ℕ → Option Row → Option Row → Row
span_by_attention row p c cmask none = span_by_completion row p c cmask
span_by_attention row p c cmask (some attn) =
    if length attn == length row
    then slice p (p + c) (select attn row)
    else span_by_completion row p c cmask

unfoldable pub _span : Option Row → ℕ → ℕ → Option Row → Option Row → Option Row
_span none p c cmask attn = none
_span (some row) p c cmask attn =
    if length row == c then some row else some (span_by_attention row p c cmask attn)

-- np.concatenate([pm, cm]) if both are there
abbrev pub attention : Option Row → Option Row → Option Row
attention none cm = none
attention (some pm) none = none
attention (some pm) (some cm) = some (pm ++ cm)
