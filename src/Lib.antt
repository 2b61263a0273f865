-- ===== src/Lib.antt =====
-- GRPO-Guard: the trajectory contract, its validator, and the guard around the optimizer's step.
--
-- A rollout of a GRPO training run leaves sealed events, artifacts that are addressed by their
-- digest, and an envelope that names them. The validator runs a table of rules over an envelope and
-- seals a decision. Only an allowed envelope becomes a handle, and only handles reach the
-- optimizer: each is used once, under a nonce of a shared registry and a record in an update log.
--
-- The files, and the code under src/grpo_guard that each is about:
--   Prelude            lists, texts, integers, dicts, results, and actions that may raise
--   Prelude.Decimal, Prelude.Words   numbers as texts, and as little-endian bytes
--   Prelude.Order, Prelude.Sort   the order of event keys and `sorted`
--   Schema.Refs, Schema.Decision, Schema.Double, Schema.Events, Schema.Envelope
--                      schema/artifacts.py, decisions.py, events.py, envelope.py, manifests.py
--   Schema.Seal, Schema.Sealing   seal, is_sealed and verify_seal of events and envelopes
--   ArtifactStore      store/artifact_store.py: put, get, verify
--   AppendLog          store/append_log.py: acquire_lease, append, append_provenance_edge, get
--   Reducer            store/reducer.py: reduce_sync; Reducer.Update: reduce_update
--   Align              validators/align.py: reconstruct_alignment, mask_from_artifact_bytes
--   Context, Rules     validators/context.py and validators/rules.py: a definition for each rule, named
--                      as its function is; Rules.Table is ALL_RULES and the stages
--   Validator          validators/validator.py: the loop (run_rules), the aggregation (conclude) and
--                      validate_envelope
--   Resume             resume.py: analyze_training, write_recovery_plan
--   Canary             canary.py: sketch, calibrate, check
--   Official.Rows, Official.Rollout, Official.Match, Official.Step
--                      adapters/guarded_grpo_trainer.py: the guard over TRL's own trainer, from the
--                      recorded rollouts to the capability of the optimizer
--   Control            adapters/trl_control.py: TrlControlAdapter; Control.Sync: do_sync and the canary
--                      of a training step, of examples/countdown/rl_training_loop.py
--   Runtime            adapters/vllm_runtime.py: emit_generation
--   Loss               adapters/grpo_loss.py: _stack_batches, _forward_chunk, _loss_from_batches;
--                      Loss.Arrays: the operations of numpy and torch that it uses
--   Tools              adapters/tool_env.py: ToolEnv and validate_tool_trajectory
--   Guarded.Nonce, Guarded.Wal, Guarded.Batch, Guarded.Step, Guarded.Run
--                      adapters/guarded_update.py: NonceRegistry, UpdateWal, materialize, the
--                      preconditions of guarded_optimizer_step, and its other phases
--   Guarded.Adapter, Guarded.Promotion
--                      adapters/guarded_update.py: GuardedUpdateAdapter, atomic_checkpoint_promotion
--   The other modules hold the proofs and are named for what they prove; Tests has runs on
--   concrete inputs.
--
-- How the code is modelled. A class is a record, a literal type a data type. An exception is a value
-- of Error: a function that may raise returns Result, and one that also changes state returns the
-- result beside the state that it leaves, also when it raises. A dict is an association list. A
-- float is its binary64 value. Loops are structural recursion over the list that the
-- code iterates. Only Loss.Arrays.chunks and the digits of a number use fuel, the length of the list
-- and the number itself: a piece has at least one entry where its size is positive, and a number has
-- fewer digits than its value and one more; so every definition is total. The loss is over an abstract
-- arithmetic, and what a theorem needs of it is a record of laws, IsOrdered. Python integers that cannot be negative by
-- the schema are natural numbers, the others are ℤ; subtraction of naturals stands only where the
-- code takes the maximum with 0 or has compared before.
--
-- Parameters, for code outside the repository: sha256 for hashlib, dumps for the canonical JSON of
-- a model without its hash field, encode for UTF-8, the time and the digest of the rule
-- table, generate for the model server, Trainer for torch's model and
-- optimizer, the loss and the checkpoint callback, Torch for the arithmetic of the loss, and the model's
-- log-probabilities. A theorem
-- that needs more of them says so in a hypothesis.
--
-- Not modelled: log and detail messages, timestamps as such, errors of the file system and of SQLite
-- other than a missing file, what the canonical JSON raises on NaN and infinities, a shape of an
-- artifact with negative entries, the migration of old registry files, the quantiles that the loss reports, the shape [-1] of the
-- loss mask of an empty sequence, the attestation of a runtime, the reward verifiers, the other example
-- runs, fault injection, replay, and the command line.
pub mod Prelude
pub mod Schema
pub mod ArtifactStore
pub mod Align
pub mod Context
pub mod Rules
pub mod Validator
pub mod Reducer
pub mod AppendLog
pub mod Resume
pub mod Canary
pub mod Guarded
pub mod Tests
pub mod Official
pub mod Control
pub mod Tools
pub mod Loss
pub mod Runtime
