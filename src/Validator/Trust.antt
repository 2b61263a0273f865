-- ===== src/Validator/Trust.antt =====
-- What an envelope that the validator allows is known to satisfy: the rules of the table taken
-- together, in terms of hashes, spans, masks and events.
mod Table
pub mod Policy
pub mod Masks
pub mod Data
use grpo_guard.Context.{ValidationContext}
use grpo_guard.Prelude.{All, String, arith, refl, some, ◌≡◌}
use grpo_guard.Prelude.Result.{ok}
use grpo_guard.Rules.Base.{_gen, as_decision}
use grpo_guard.Rules.Table.{all_rules, rules_by_stage}
use grpo_guard.Schema.Decision.{
  ValidationDecision, allow, d001, d002, d003, d004, full_pre_update, l001, l002, l003, l004, l006,
  l007, m001, m004, m005, p001, p002, p003, p004, p005, p006, p007, p009, r002, r003, r004, r005,
  r006, r008, t001, t002, t003, t005,
}
use grpo_guard.Schema.Events.{Event, GenerationEvent}
use grpo_guard.Schema.Seal.{Bytes}
use grpo_guard.Validator.{validate_envelope}
use grpo_guard.Validator.Decide.{Silent, validate_envelope-IsJustified}
use grpo_guard.Validator.Trust.Data.{
  PromptBound, RewardBound, ScorerBound, SourceBound, Silent-PromptBound, Silent-RewardBound,
  Silent-ScorerBound, Silent-SourceBound,
}
use grpo_guard.Validator.Trust.Masks.{
  LengthsBound, MasksBound, Silent-LengthsBound, Silent-MasksBound,
}
use grpo_guard.Validator.Trust.Policy.{
  LagBound, PolicyBound, SyncBound, Silent-LagBound, Silent-PolicyBound, Silent-SyncBound,
}
use grpo_guard.Validator.Trust.Table.{at_code}

module _ (sha256 : Bytes → String) (ctx : ValidationContext) (gen : GenerationEvent) where
  -- The lineage that an allowed pre-update envelope has, around its generation event.
  pub record IsTrustworthy : Type 0 where
    pub policy : PolicyBound sha256 ctx gen
    pub synced : SyncBound sha256 ctx gen
    pub lag_bound : LagBound sha256 ctx gen
    pub masks : MasksBound sha256 ctx gen
    pub lengths : LengthsBound sha256 ctx gen masks.a
    pub source : SourceBound sha256 ctx gen
    pub scorer : ScorerBound sha256 ctx gen
    pub prompt : PromptBound sha256 ctx gen
    pub reward : RewardBound sha256 ctx gen

  Silent-IsTrustworthy : _gen ctx ≡ some gen → All (Silent sha256 ctx) all_rules → IsTrustworthy
  Silent-IsTrustworthy g h =
      let s = at_code (Silent sha256 ctx) h in
      let m = Silent-MasksBound sha256 ctx gen g (s t001) (s t005) (s m004) (s m005) in
      record {
        policy = Silent-PolicyBound sha256 ctx gen g (s p001) (s p002) (s t002) (s t003);
        synced = Silent-SyncBound sha256 ctx gen g (s p003) (s p007);
        lag_bound = Silent-LagBound sha256 ctx gen g (s p004) (s p005) (s p006) (s p009);
        masks = m;
        lengths = Silent-LengthsBound sha256 ctx gen m.a g m.aligned (s t001) (s m001) (s l004);
        source = Silent-SourceBound sha256 ctx gen g (s l002);
        scorer = Silent-ScorerBound sha256 ctx gen g (s l001) (s l003) (s l006) (s l007);
        prompt = Silent-PromptBound sha256 ctx gen g (s d001) (s d002) (s d003) (s d004);
        reward =
            Silent-RewardBound sha256 ctx gen (s r002) (s r003) (s r004) (s r005) (s r006) (s r008);
      }

stage_rules : rules_by_stage full_pre_update ≡ all_rules
unfolding rules_by_stage
stage_rules = refl

-- If the full pre-update validation returns an ALLOW decision for an envelope whose generation
-- event is in the context: there is a policy manifest, with the generation's checkpoint, tokenizer
-- and template; the generation's sync event is a terminal success that is not numbered after the
-- generation; the contract's protocol is the context's, and the lag is inside the bound of its
-- mode; the token sequence and the two masks are read intact, the masks are the canonical ones, and
-- no padding lies inside the completion; the service's logprobs, where the generation has any, are
-- read intact and have the completion's length, and so have a scorer's where its artifact can be
-- read; the authoritative event is of the class that the contract's source names, and there is at
-- least one source of logprobs; a scoring event, where there is one, is about the same policy,
-- checkpoint, tokens and generation; the prompt is in the declared split, in at most one registered
-- split where there is a split registry, and has the declared content where the split declares a
-- digest and the prompt can be read; an envelope at the pre-update stage has a reward event and a
-- parent decision that allowed, and one at the pre-reward stage has no reward event; and the
-- reward, where the envelope's reward event is in the context, is of the registered verifier where
-- there is a registry, is not by the evaluation's protocol where there is one, and after a failure
-- of the infrastructure, a timeout or an invalid run no component of it exceeds 1e-9 in absolute
-- value.
pub allow-IsTrustworthy :
    (sha256 : Bytes → String) (dumps : Event → Bytes) (rules_sha256 now : String)
    (ctx : ValidationContext) (version : String) (gen : GenerationEvent) (ev : Event)
    (p : ValidationDecision)
    → validate_envelope sha256 dumps rules_sha256 now ctx full_pre_update version ≡ ok ev
    → as_decision ev ≡ some p
    → p.decision ≡ allow
    → _gen ctx ≡ some gen
    → IsTrustworthy sha256 ctx gen
allow-IsTrustworthy sha256 dumps rules_sha256 now ctx version gen ev p ran payload allowed g =
    let (q, eq, justified) =
      validate_envelope-IsJustified sha256 dumps rules_sha256 now ctx full_pre_update version ev
        ran in
    let same : q ≡ p = ground (arith, eq, payload) in
    Silent-IsTrustworthy sha256 ctx gen g
      (rw stage_rules at ((justified.on_allow (rw same allowed)).1))
