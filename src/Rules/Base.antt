-- ===== src/Rules/Base.antt =====
-- What the rules of validators/rules.py share: results, and the events that an envelope names.
-- The `detail` texts are messages for a reader and are not modelled.
use grpo_guard.Context.{ValidationContext, event}
use grpo_guard.Prelude.{Bool, Option, false, none, some, true}
use grpo_guard.Prelude.Result.{Result}
use grpo_guard.Schema.Decision.{Code, Decision, ValidationDecision, allow, quarantine, reject}
use grpo_guard.Schema.Events.{
  Event, GenerationEvent, RewardEvent, ScoringEvent, UpdateInputEvent, generation, reward, scoring,
  update_input, validation_decision,
}
use grpo_guard.Schema.Refs.{EventRef}
use grpo_guard.Prelude.Maybe.{◌>>=◌}

pub record RuleResult : Type 0 where
  pub code : Code
  pub decision : Decision

-- What a call of a rule gives: an exception, None, or a result.
abbrev pub Verdict : Type 0
Verdict = Result (Option RuleResult)

abbrev pub rejected : Code → RuleResult
rejected c = record { code = c; decision = reject }

abbrev pub quarantined : Code → RuleResult
quarantined c = record { code = c; decision = quarantine }

-- `if b: return r`, and None otherwise
abbrev pub fires_if : Bool → RuleResult → Option RuleResult
fires_if true r = some r
fires_if false r = none

-- isinstance(ev, GenerationEvent), and so on
abbrev pub as_generation : Event → Option GenerationEvent
as_generation (generation e) = some e
as_generation _ = none

abbrev pub as_scoring : Event → Option ScoringEvent
as_scoring (scoring e) = some e
as_scoring _ = none

abbrev pub as_reward : Event → Option RewardEvent
as_reward (reward e) = some e
as_reward _ = none

abbrev pub as_update_input : Event → Option UpdateInputEvent
as_update_input (update_input e) = some e
as_update_input _ = none

-- getattr(ev, "decision_payload", None)
abbrev pub as_decision : Event → Option ValidationDecision
as_decision (validation_decision e) = some e.decision_payload
as_decision _ = none

abbrev pub is_allow : Decision → Bool
is_allow allow = true
is_allow _ = false

unfoldable pub _gen : ValidationContext → Option GenerationEvent
unfolding event
_gen ctx = do ev ← event ctx ctx.envelope.generation_event.event_id; as_generation ev

unfoldable pub _scoring : ValidationContext → Option ScoringEvent
unfolding event
_scoring ctx = do r ← ctx.envelope.scoring_event; ev ← event ctx r.event_id; as_scoring ev

unfoldable pub _reward : ValidationContext → Option RewardEvent
unfolding event
_reward ctx = do r ← ctx.envelope.reward_event; ev ← event ctx r.event_id; as_reward ev

unfoldable pub _authoritative_ref : ValidationContext → EventRef
_authoritative_ref ctx = ctx.envelope.training_contract.authoritative_behavior_logprob_event
