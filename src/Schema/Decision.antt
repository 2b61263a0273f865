-- ===== src/Schema/Decision.antt =====
-- src/grpo_guard/schema/decisions.py: decisions, stages and the reason codes of the rule table.
use grpo_guard.Prelude.{List, String, ℕ}

pub data Decision : Type 0 where
  allow quarantine reject : Decision

pub data ValidationStage : Type 0 where
  identity_pre_reward full_pre_update : ValidationStage

-- The keys of ALL_RULES, named by their short codes, in the order of `sorted`.
pub data Code : Type 0 where
  d001 d002 d003 d004 : Code
  l001 l002 l003 l004 l005 l006 l007 l008 : Code
  m001 m002 m003 m004 m005 : Code
  p001 p002 p003 p004 p005 p006 p007 p008 p009 : Code
  r001 r002 r003 r004 r005 r006 r008 : Code
  t001 t002 t003 t004 t005 : Code

pub record ValidationDecision : Type 0 where
  pub decision : Decision
  pub validation_stage : ValidationStage
  pub reason_codes : List Code
  pub checked_ruleset_sha256 : String
  pub checked_event_sha256s : List String
  pub checked_artifact_sha256s : List String
  pub observed_policy_lag : ℕ
  pub validator_version : String
