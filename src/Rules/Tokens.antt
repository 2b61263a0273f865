-- ===== src/Rules/Tokens.antt =====
-- The T rules of validators/rules.py, and the alignment of the envelope's generation event.
use grpo_guard.Align.{Alignment, reconstruct_alignment}
use grpo_guard.ArtifactStore.{get, verify}
use grpo_guard.Context.{ValidationContext}
use grpo_guard.Prelude.{
  List, Option, String, [], all, if◌then◌else◌, length, none, not, some, ℕ, ◌*◌, ◌/◌, ◌is◌, ◌||◌,
  ◌∷◌,
}
use grpo_guard.Prelude.Int.{pos}
use grpo_guard.Prelude.Result.{Result, alignment_error, empty_completion_error, err, ok}
use grpo_guard.Rules.Base.{RuleResult, Verdict, _gen, as_update_input, fires_if, rejected}
use grpo_guard.Schema.Decision.{Code, t001, t002, t003, t004, t005}
use grpo_guard.Schema.Events.{GenerationEvent}
use grpo_guard.Schema.Refs.{ArtifactRef}
use grpo_guard.Schema.Seal.{Bytes}
use grpo_guard.Prelude.Maybe.{◌>>=◌}

-- _BYTES_PER_ELEMENT.get(dtype)
unfoldable pub bytes_per_element : String → Option ℕ
bytes_per_element d =
    if d is "int8" || d is "uint8"
    then some 1
    else if d is "int16" || (d is "float16" || d is "bf16")
    then some 2
    else if d is "int32" || d is "float32"
    then some 4
    else if d is "int64" || d is "float64"
    then some 8
    else none

abbrev pub product : List ℕ → ℕ
product [] = 1
product (d ∷ ds) = d * product ds

-- ref.dtype or ""
abbrev pub or_empty : Option String → String
or_empty none = ""
or_empty (some s) = s

-- `if ref.shape`: neither None nor empty
abbrev pub element_count_by_shape : Option (List ℕ) → ℕ → ℕ
element_count_by_shape (some (d ∷ ds)) n = product (d ∷ ds)
element_count_by_shape _ n = n

unfoldable pub element_count : ArtifactRef → Bytes → ℕ
element_count r bytes = elim (bytes_per_element (or_empty r.dtype)) [
  | some bpe ↦ length bytes / bpe
  | none ↦ element_count_by_shape r.shape (length bytes)
]

unfoldable pub t002_tokenizer_mismatch : ValidationContext → Option RuleResult
t002_tokenizer_mismatch ctx = do
  gen ← _gen ctx
  man ← ctx.policy_manifest
  fires_if (not (gen.tokenizer_sha256 is man.tokenizer_sha256)) (rejected t002)

unfoldable pub t003_chat_template_mismatch : ValidationContext → Option RuleResult
t003_chat_template_mismatch ctx = do
  gen ← _gen ctx
  man ← ctx.policy_manifest
  fires_if (not (gen.chat_template_sha256 is man.chat_template_sha256)) (rejected t003)

unfoldable pub t004_token_sequence_mismatch : ValidationContext → Option RuleResult
t004_token_sequence_mismatch ctx = do
  gen ← _gen ctx
  ev ← ctx.update_input_event
  upd ← as_update_input ev
  fires_if (not (upd.sequence_token_ids.sha256 is gen.sequence_token_ids.sha256)) (rejected t004)

-- The artifacts that T001 hashes again.
abbrev pub generation_refs : GenerationEvent → List ArtifactRef
generation_refs gen =
    gen.sequence_token_ids
    ∷ gen.completion_target_mask
    ∷ gen.loss_mask
    ∷ (elim gen.service_behavior_logprobs [ none ↦ [] | some r ↦ r ∷ [] ])

module _ (sha256 : Bytes → String) where
  unfoldable pub t001_artifact_hash_mismatch : ValidationContext → Option RuleResult
  t001_artifact_hash_mismatch ctx = do
    gen ← _gen ctx
    fires_if (not (all (verify sha256 ctx.store) (generation_refs gen))) (rejected t001)

  -- `get` raises only the two errors that `_alignment` turns into AlignmentError.
  unfoldable pub _alignment : ValidationContext → Result Alignment
  _alignment ctx = elim (_gen ctx) [
    | none ↦ err alignment_error
    | some gen ↦ elim (get sha256 ctx.store gen.sequence_token_ids) [
      | err _ ↦ err alignment_error
      | ok seq ↦
          reconstruct_alignment (element_count gen.sequence_token_ids seq) gen.completion_span.0
            gen.completion_span.1 gen.padding_spans (pos 0)
    ]
  ]

-- The `except` clauses of T005 and M001 round `_alignment`.
abbrev pub alignment_verdict : Code → Result Alignment → (Alignment → Verdict) → Verdict
alignment_verdict c (ok a) k = k a
alignment_verdict c (err empty_completion_error) k = ok none
alignment_verdict c (err alignment_error) k = ok (some (rejected c))
alignment_verdict c (err e) k = err e

unfoldable pub t005_span_out_of_range : (Bytes → String) → ValidationContext → Verdict
t005_span_out_of_range sha256 ctx = elim (_gen ctx) [
  | none ↦ ok none
  | some gen ↦ alignment_verdict t005 (_alignment sha256 ctx) (λ _. ok none)
]
