-- ===== src/Validator.antt =====
-- src/grpo_guard/validators/validator.py: run the rules of a stage, aggregate, seal the decision.
-- Parameters: `sha256`, `dumps` (see Schema/Seal), `rules_sha256` for ruleset_sha256() and `now` for
-- _now_utc(). `ctx.notes` is not modelled.
pub mod Aggregate
pub mod Decide
pub mod Trust
pub mod Gaps
pub mod Answers
use grpo_guard.Context.{ValidationContext, event}
use grpo_guard.Prelude.{List, Option, String, [], map, none, some, sorted_set, suc, ℕ, ◌++◌, ◌∷◌}
use grpo_guard.Prelude.Dict.{values}
use grpo_guard.Prelude.Int.{ltb_ℤ, pos, pos_part}
use grpo_guard.Prelude.Result.{Result, ok, raise_if, value_error, ◌>>=◌, ◌>>◌}
use grpo_guard.Rules.Base.{RuleResult}
use grpo_guard.Rules.Policy.{_policy_lag}
use grpo_guard.Rules.Table.{rules_by_stage, run_rule}
use grpo_guard.Schema.Decision.{
  Code, Decision, ValidationDecision, ValidationStage, allow, quarantine, reject,
}
use grpo_guard.Schema.Envelope.{TrajectoryEnvelope}
use grpo_guard.Schema.Events.{Event, ValidationDecisionEvent, base_of, validation_decision}
use grpo_guard.Schema.Refs.{EventRef}
use grpo_guard.Schema.Seal.{Bytes, seal}
use Prim.Native.Nat.{max}
use Prim.Native.String.{◌++◌ as text_append}

-- The three lists that the loop of `validate_envelope` fills.
pub record Fired : Type 0 where
  pub rejects : List Code
  pub quarantines : List Code
  pub checked : List Code

-- One round of the loop, after the rule has returned.
abbrev pub note_result : Code → Option RuleResult → Fired → Fired
note_result c none f = record f { checked = f.checked ++ c ∷ [] }
note_result c (some r) f = elim r.decision [
  | reject ↦ record f { checked = f.checked ++ c ∷ []; rejects = f.rejects ++ r.code ∷ [] }
  | quarantine ↦ record f {
    checked = f.checked ++ c ∷ [];
    quarantines = f.quarantines ++ r.code ∷ [];
  }
  | allow ↦ record f { checked = f.checked ++ c ∷ [] }
]

abbrev pub nothing_fired : Fired
nothing_fired = record { rejects = []; quarantines = []; checked = [] }

-- The decision and its reason codes.
abbrev pub conclude : Fired → Decision × List Code
conclude f = elim f.rejects [
  | c ∷ cs ↦ (reject, f.rejects)
  | [] ↦ elim f.quarantines [ c ∷ cs ↦ (quarantine, f.quarantines) | [] ↦ (allow, f.checked) ]
]

module _ (sha256 : Bytes → String) where
  unfoldable pub run_rules : ValidationContext → List Code → Fired → Result Fired
  run_rules ctx [] f = ok f
  run_rules ctx (c ∷ cs) f = do
    result ← run_rule sha256 c ctx
    run_rules ctx cs (note_result c result f)

abbrev pub id_of : Option EventRef → List String
id_of none = []
id_of (some r) = r.event_id ∷ []

-- The ids of the events that the decision names, where the envelope has them.
abbrev pub checked_event_ids : TrajectoryEnvelope → List String
checked_event_ids env =
    env.generation_event.event_id
    ∷ (id_of env.scoring_event ++ (id_of env.reward_event ++ id_of env.parent_identity_decision))

-- {ctx.events[eid].event_sha256 for eid in ids if eid in ctx.events}
unfoldable pub event_hashes : ValidationContext → List String → List String
unfolding event
event_hashes ctx [] = []
event_hashes ctx (eid ∷ ids) =
    let rest = event_hashes ctx ids in
    elim (event ctx eid) [ none ↦ rest | some ev ↦ (base_of ev).event_sha256 ∷ rest ]

unfoldable pub artifact_hashes : List Event → List String
artifact_hashes [] = []
artifact_hashes (ev ∷ evs) =
    map (λ r. r.sha256) ((base_of ev).input_artifacts ++ (base_of ev).output_artifacts)
    ++ artifact_hashes evs

-- max([e.lifecycle_seq for e in events] + [-1]) + 1
unfoldable pub next_seq : List Event → ℕ
next_seq [] = 0
next_seq (ev ∷ evs) = max (suc (base_of ev).lifecycle_seq) (next_seq evs)

-- The lag that the decision reports: the protocol's bound, unless the generation event is there.
unfoldable pub observed_lag : ValidationContext → ℕ
observed_lag ctx = elim (_policy_lag ctx) [
  | some lag ↦ lag
  | none ↦ pos_part ctx.protocol.max_policy_lag_versions
]

module _ (sha256 : Bytes → String) (dumps : Event → Bytes) (rules_sha256 now : String) where
  abbrev pub decision_payload_of :
      ValidationContext → ValidationStage → String → Fired → ValidationDecision
  decision_payload_of ctx stage version fired = record {
    decision = (conclude fired).0;
    validation_stage = stage;
    reason_codes = (conclude fired).1;
    checked_ruleset_sha256 = rules_sha256;
    checked_event_sha256s = sorted_set (event_hashes ctx (checked_event_ids ctx.envelope));
    checked_artifact_sha256s = sorted_set (artifact_hashes (values ctx.events));
    observed_policy_lag = observed_lag ctx;
    validator_version = version;
  }

  abbrev pub decision_event :
      ValidationContext → ValidationStage → String → Fired → ValidationDecisionEvent
  decision_event ctx stage version fired = record {
    base = record {
      schema_version = "1.0";
      event_id = text_append "vdec-" ctx.envelope.envelope_id;
      run_id = ctx.envelope.run_id;
      component_id = "validator";
      lifecycle_seq = next_seq (values ctx.events);
      created_at_utc = now;
      input_events = ctx.envelope.generation_event ∷ [];
      input_artifacts = [];
      output_artifacts = [];
      event_sha256 = "";
    };
    decision_payload = decision_payload_of ctx stage version fired;
  }

  -- The model of the decision refuses a negative observed_policy_lag, which it is built with.
  unfoldable pub validate_envelope : ValidationContext → ValidationStage → String → Result Event
  validate_envelope ctx stage version = do
    fired ← run_rules sha256 ctx (rules_by_stage stage) nothing_fired
    raise_if (ltb_ℤ ctx.protocol.max_policy_lag_versions (pos 0)) value_error
    seal sha256 dumps (validation_decision (decision_event ctx stage version fired))
