-- ===== src/Rules/Logprobs.antt =====
-- The L rules of validators/rules.py: provenance and length of the behavior logprobs.
use grpo_guard.Align.{Alignment}
use grpo_guard.ArtifactStore.{get}
use grpo_guard.Context.{ValidationContext, event}
use grpo_guard.Prelude.{
  Bool, Option, String, if◌then◌else◌, is_some, ltb, none, not, some, true, ◌&&◌, ◌==◌, ◌is◌, ◌||◌,
}
use grpo_guard.Prelude.Result.{ok}
use grpo_guard.Rules.Base.{
  RuleResult, Verdict, _authoritative_ref, _gen, _scoring, as_generation, as_scoring,
  as_update_input, fires_if, quarantined, rejected,
}
use grpo_guard.Rules.Masks.{misaligned_skips, service_length, unreadable_skips}
use grpo_guard.Rules.Tokens.{_alignment, element_count}
use grpo_guard.Schema.Decision.{l001, l002, l003, l004, l005, l006, l007, l008}
use grpo_guard.Schema.Envelope.{LogprobSource, exact_behavior_scorer, generation_service}
use grpo_guard.Schema.Events.{Event, ScoringEvent, base_of}
use grpo_guard.Schema.Seal.{Bytes}
use grpo_guard.Prelude.Maybe.{◌>>=◌}

unfoldable pub l001_missing_behavior_logprob : ValidationContext → Option RuleResult
l001_missing_behavior_logprob ctx = do
  gen ← _gen ctx
  fires_if (not (is_some gen.service_behavior_logprobs) && not (is_some (_scoring ctx)))
      (rejected l001)

-- The branch of L002 for each declared source; the third branch of the code is for a source that
-- the type of the field rules out.
abbrev pub source_mismatch : LogprobSource → ValidationContext → Event → Bool
source_mismatch generation_service ctx ev =
    (not (is_some (as_generation ev))
      || not ((base_of ev).event_id is ctx.envelope.generation_event.event_id))
    || (elim (_gen ctx) [ none ↦ true | some gen ↦ not (is_some gen.service_behavior_logprobs) ])
source_mismatch exact_behavior_scorer ctx ev = not (is_some (as_scoring ev))

abbrev pub source_verdict : ValidationContext → Option Event → Option RuleResult
source_verdict ctx none = some (rejected l002)
source_verdict ctx (some ev) =
    fires_if (source_mismatch ctx.envelope.training_contract.behavior_logprob_source ctx ev)
      (rejected l002)

-- The contract's reference is never None: the field has no default.
unfoldable pub l002_source_event_mismatch : ValidationContext → Option RuleResult
l002_source_event_mismatch ctx = source_verdict ctx (event ctx (_authoritative_ref ctx).event_id)

unfoldable pub l003_scorer_policy_mismatch : ValidationContext → Option RuleResult
l003_scorer_policy_mismatch ctx = do
  sc ← _scoring ctx
  gen ← _gen ctx
  if not (sc.scorer_policy_version == gen.behavior_policy_version)
      then some (rejected l003)
      else if not (sc.scorer_checkpoint_manifest_sha256 is gen.checkpoint_manifest_sha256)
      then some (rejected l003)
      else fires_if (not (sc.token_artifact_sha256 is gen.sequence_token_ids.sha256))
          (rejected l003)

module _ (sha256 : Bytes → String) where
  -- The test on the scorer's logprobs; after it L004 goes on with the service logprobs.
  unfoldable pub scorer_length :
      ValidationContext → Option ScoringEvent → Alignment → Verdict → Verdict
  scorer_length ctx none align rest = rest
  scorer_length ctx (some sc) align rest =
      unreadable_skips (get sha256 ctx.store sc.behavior_logprobs) (λ bytes.
        if not (element_count sc.behavior_logprobs bytes == align.completion_len)
        then ok (some (rejected l004))
        else rest)

  unfoldable pub l004_token_logprob_length_mismatch : ValidationContext → Verdict
  unfolding scorer_length service_length
  l004_token_logprob_length_mismatch ctx = elim (_gen ctx) [
    | none ↦ ok none
    | some gen ↦ misaligned_skips (_alignment sha256 ctx) (λ align.
        if align.padding_within_completion
        then ok (some (quarantined l004))
        else scorer_length ctx (_scoring ctx) align (service_length sha256 l004 ctx gen align))
  ]

unfoldable pub l005_scoring_after_update : ValidationContext → Option RuleResult
l005_scoring_after_update ctx = do
  sc ← _scoring ctx
  upd ← ctx.update_input_event
  fires_if (ltb (base_of upd).lifecycle_seq sc.lifecycle_seq) (rejected l005)

unfoldable pub l006_unsupported_provenance : ValidationContext → Option RuleResult
l006_unsupported_provenance ctx = do
  sc ← _scoring ctx
  fires_if (not (sc.source_generation_event.event_id is ctx.envelope.generation_event.event_id))
      (quarantined l006)

unfoldable pub l007_authoritative_source_ambiguous : ValidationContext → Option RuleResult
l007_authoritative_source_ambiguous ctx = do
  gen ← _gen ctx
  fires_if
      (is_some gen.service_behavior_logprobs
        && (is_some (_scoring ctx)
            && not ctx.envelope.training_contract.diagnostic_non_authoritative_logprobs_allowed))
      (rejected l007)

unfoldable pub l008_nonauthoritative_logprob_consumed : ValidationContext → Option RuleResult
l008_nonauthoritative_logprob_consumed ctx = do
  ev ← ctx.update_input_event
  upd ← as_update_input ev
  fires_if
      (not (upd.authoritative_behavior_logprob_event.event_id is (_authoritative_ref ctx).event_id))
      (rejected l008)
