-- ===== src/Align.antt =====
-- src/grpo_guard/validators/align.py: the canonical masks, rebuilt from spans. An int8 array is
-- the list of its bytes; a span is a pair of Python integers.
pub mod Canonical
use grpo_guard.Prelude.{
  Bool, List, [], all, drop, false, if◌then◌else◌, leb, length, ltb, not, replicate, suc, zero, ℕ,
  ◌&&◌, ◌+◌, ◌-◌, ◌==◌, ◌||◌, ◌∷◌,
}
use grpo_guard.Prelude.Int.{leb_ℤ, ltb_ℤ, negsuc, pos, pos_part, ℤ}
use grpo_guard.Prelude.Result.{
  Result, alignment_error, empty_completion_error, err, ok, raise_if, value_error, ◌>>=◌, ◌>>◌,
}
use grpo_guard.Schema.Seal.{Bytes}

pub record Alignment : Type 0 where
  pub total : ℕ
  pub prompt_len : ℕ
  pub completion_len : ℕ
  pub completion_target_mask : List ℕ
  pub loss_mask : List ℕ
  pub prediction_positions : List ℤ
  pub padding_within_completion : Bool

-- target[s:e] = v, where the entry at hand has position i
unfoldable pub fill : ℕ → ℕ → ℕ → ℕ → List ℕ → List ℕ
fill i s e v [] = []
fill i s e v (x ∷ xs) = (if leb s i && ltb i e then v else x) ∷ fill (i + 1) s e v xs

-- The loop over padding_spans; a span that has not two entries cannot be unpacked.
unfoldable pub apply_padding : ℕ → ℤ → ℤ → List (List ℤ) → Bool → List ℕ → Result (Bool × List ℕ)
apply_padding n start end [] within target = ok (within, target)
apply_padding n start end ((s ∷ e ∷ []) ∷ rest) within target =
    if not (leb_ℤ (pos 0) s && (ltb_ℤ s e && leb_ℤ e (pos n)))
    then err alignment_error
    else apply_padding n start end rest (within || (ltb_ℤ s end && ltb_ℤ start e))
        (fill 0 (pos_part s) (pos_part e) 0 target)
apply_padding n start end ([] ∷ rest) within target = err value_error
apply_padding n start end ((s ∷ []) ∷ rest) within target = err value_error
apply_padding n start end ((s ∷ e ∷ x ∷ xs) ∷ rest) within target = err value_error

-- list(range(first - 1, first - 1 + count))
unfoldable pub positions_from : ℕ → ℕ → List ℤ
positions_from first zero = []
positions_from zero (suc count) = negsuc 0 ∷ positions_from 1 count
positions_from (suc first) (suc count) = pos first ∷ positions_from (suc (suc first)) count

unfoldable pub reconstruct_alignment : ℕ → ℤ → ℤ → List (List ℤ) → ℤ → Result Alignment
reconstruct_alignment n start end padding_spans prompt_start = do
  raise_if
      (not (
        leb_ℤ (pos 0) prompt_start
        && (leb_ℤ prompt_start start && (leb_ℤ start end && leb_ℤ end (pos n)))))
      alignment_error
  let p = pos_part start
  let c = pos_part end - pos_part start
  raise_if (leb c 0) empty_completion_error
  padded ← apply_padding n start end padding_spans false (fill 0 p (pos_part end) 1 (replicate n 0))
  raise_if (leb n 1) alignment_error
  ok (record {
    total = n;
    prompt_len = p;
    completion_len = c;
    completion_target_mask = padded.1;
    loss_mask = drop 1 padded.1;
    prediction_positions = positions_from p c;
    padding_within_completion = padded.0;
  })

abbrev pub is_binary : ℕ → Bool
is_binary b = b == 0 || b == 1

unfoldable pub mask_from_artifact_bytes : Bytes → ℕ → Result (List ℕ)
mask_from_artifact_bytes bytes expected_len = do
  raise_if (not (length bytes == expected_len)) alignment_error
  raise_if (not (all is_binary bytes)) alignment_error
  ok bytes
