-- ===== src/Control.antt =====
-- src/grpo_guard/adapters/trl_control.py: the producer of sync and update events. The adapter numbers
-- its events by its own counter, or by the `next_lifecycle` that the training runs hand to it.
-- The parameters are hashlib's digest, the serialization of an event, and the time.
pub mod Trail
pub mod Reduced
pub mod Sync
pub mod Written
pub mod Reported
pub mod Verdict
use grpo_guard.AppendLog.{AppendLog, LogFiles, append}
use grpo_guard.Prelude.{
  Bool, List, Option, String, [], false, if◌then◌else◌, is_empty, none, slice, some, true, ℕ, ◌++◌,
  ◌+◌, ◌∷◌,
}
use grpo_guard.Prelude.Decimal.{decimal, decimal_4}
use grpo_guard.Prelude.Dict.{values}
use grpo_guard.Prelude.Int.{pos, ℤ}
use grpo_guard.Prelude.Result.{err, ok}
use grpo_guard.Schema.Events.{
  Event, SyncEvent, SyncEventType, UpdateEvent, canary_mismatch, canary_passed, runtime_loaded,
  sync, sync_attempt_superseded, sync_failed, sync_quarantined, sync_reconciled_canary_passed,
  sync_requested, sync_retryable_old, sync_started, sync_unknown, update, update_committed,
}
use grpo_guard.Schema.Refs.{EventRef}
use grpo_guard.Schema.Seal.{Bytes}
use grpo_guard.Validator.{next_seq}
use grpo_guard.Prelude.Action.{Action, pure, ◌>>=◌, ◌>>◌}
use Prim.Native.String.{◌++◌ as text_append, slice as text_slice}

-- A TrlControlAdapter, with the files of its log. `from_log` says that it has a seq_provider.
pub record Control : Type 0 where
  pub log : AppendLog
  pub files : LogFiles
  pub run_id : String
  pub component_id : String
  pub seq : ℕ
  pub from_log : Bool

-- max([e["lifecycle_seq"] for e in log_.iterate()] + [-1]) + 1
unfoldable pub next_lifecycle : LogFiles → ℕ
unfolding next_seq
next_lifecycle d = next_seq (values d.event_files)

unfoldable pub take_seq : Action Control ℕ
take_seq s = elim s.from_log [
  | true ↦ (ok (next_lifecycle s.files), s)
  | false ↦ (ok (s.seq + 1), record s { seq = s.seq + 1 })
]

unfoldable pub event_type_name : SyncEventType → String
event_type_name sync_requested = "sync_requested"
event_type_name sync_started = "sync_started"
event_type_name runtime_loaded = "runtime_loaded"
event_type_name canary_passed = "canary_passed"
event_type_name canary_mismatch = "canary_mismatch"
event_type_name sync_unknown = "sync_unknown"
event_type_name sync_reconciled_canary_passed = "sync_reconciled_canary_passed"
event_type_name sync_retryable_old = "sync_retryable_old"
event_type_name sync_quarantined = "sync_quarantined"
event_type_name sync_failed = "sync_failed"
event_type_name sync_attempt_superseded = "sync_attempt_superseded"

-- The arguments of `_sync` that its callers vary.
pub record SyncCall : Type 0 where
  pub sync_id : String
  pub attempt : ℕ
  pub lease_epoch : ℕ
  pub policy_version : ℕ
  pub checkpoint_sha : String
  pub required_epoch : Option ℤ

abbrev pub join : List String → String
join [] = ""
join (s ∷ ss) = text_append s (join ss)

-- sync_id or f"sync-run-{policy_version}"
abbrev pub chosen_id : Option String → ℕ → String
chosen_id none version = text_append "sync-run-" (decimal version)
chosen_id (some id) version = if is_empty id then text_append "sync-run-" (decimal version) else id

abbrev pub choose_id : Option String → SyncCall → SyncCall
choose_id given call = record call { sync_id = chosen_id given call.policy_version }

-- The event id reads the adapter's own counter before the number is taken.
abbrev pub sync_event_id : String → SyncEventType → ℕ → String
sync_event_id sync_id t n = join (sync_id ∷ "-" ∷ event_type_name t ∷ "-" ∷ decimal_4 n ∷ [])

module _ (sha256 : Bytes → String) (dumps : Event → Bytes) (now : String) where
  abbrev pub sync_draft :
      Control → SyncEventType → SyncCall → Option ℕ → Option ℤ → Option String → ℕ → SyncEvent
  sync_draft s t call load_epoch version detail number = record {
    base = record {
      schema_version = "1.0";
      event_id = sync_event_id call.sync_id t s.seq;
      run_id = s.run_id;
      component_id = s.component_id;
      lifecycle_seq = number;
      created_at_utc = now;
      input_events = [];
      input_artifacts = [];
      output_artifacts = [];
      event_sha256 = "";
    };
    event_type = t;
    sync_id = call.sync_id;
    attempt = call.attempt;
    supersedes_attempt = none;
    lease_epoch = call.lease_epoch;
    idempotency_key =
        join (s.run_id ∷ ":" ∷ decimal call.policy_version ∷ ":" ∷ "rollout-gpu1" ∷ []);
    source_policy_version = call.policy_version;
    source_checkpoint_manifest_sha256 = call.checkpoint_sha;
    target_runtime_id = "rollout-gpu1";
    previous_runtime_load_epoch = none;
    observed_runtime_load_epoch = load_epoch;
    observed_policy_version = version;
    upstream_adapter_id = "trl-vllm-server";
    upstream_operation = "update_named_param";
    compatibility_profile_sha256 = "profile";
    status_detail = detail;
  }

  abbrev pub sealed_sync : SyncEvent → SyncEvent
  sealed_sync e = record e { base = record e.base { event_sha256 = sha256 (dumps (sync e)) } }

  -- self.log.append(ev, required_epoch=…)
  unfoldable pub log_event : Event → Option ℤ → Action Control (Unit {0})
  log_event ev required s =
      let (answer, files') = append s.log ev required s.files in
      (elim answer [ ok _ ↦ ok tt | err e ↦ err e ], record s { files = files' })

  unfoldable pub _sync :
      SyncEventType → SyncCall → Option ℕ → Option ℤ → Option String → Action Control SyncEvent
  _sync t call load_epoch version detail s =
      (do
        number ← take_seq
        let ev : SyncEvent = sealed_sync (sync_draft s t call load_epoch version detail number)
        log_event (sync ev) call.required_epoch
        pure ev)
        s

  -- The two events of `sync_begin`, under an id that is chosen.
  unfoldable pub sync_phases : SyncCall → Action Control (SyncEvent × SyncEvent)
  sync_phases call = do
    requested ← _sync sync_requested call none none none
    started ← _sync sync_started call none none none
    pure (requested, started)

  unfoldable pub sync_begin : Option String → SyncCall → Action Control (SyncEvent × SyncEvent)
  sync_begin given call = sync_phases (choose_id given call)

  -- A phase that reports what the runtime was observed to hold.
  abbrev pub observed : SyncEventType → SyncCall → String → Action Control SyncEvent
  observed t call detail =
      _sync t call (some (call.policy_version + 1)) (some (pos call.policy_version)) (some detail)

  unfoldable pub sync_complete : SyncCall → ℕ → String → Action Control SyncEvent
  sync_complete call calls digest =
      observed runtime_loaded call
        (join ("observed " ∷ decimal calls ∷ " update_named_param calls, digest " ∷ digest ∷ []))

  unfoldable pub record_sync_failed : SyncCall → String → Action Control SyncEvent
  record_sync_failed call error =
      _sync sync_failed call none none (some (text_append "sync failed: " (text_slice error 0 200)))

  -- `drift` is the text of the dict.
  unfoldable pub record_canary_passed : SyncCall → String → Action Control SyncEvent
  record_canary_passed call drift = observed canary_passed call (text_append "canary drift " drift)

  unfoldable pub record_canary_mismatch : SyncCall → String → Action Control SyncEvent
  record_canary_mismatch call drift =
      observed canary_mismatch call (text_append "canary MISMATCH drift " drift)

  abbrev pub update_draft :
      Control
      → String
      → String
      → ℕ
      → ℕ
      → ℕ
      → List String
      → String
      → Option EventRef
      → ℕ
      → UpdateEvent
  update_draft s update_id transaction lease parent output envelopes checkpoint input number =
      record {
        base = record {
          schema_version = "1.0";
          event_id = text_append "upd-commit-" update_id;
          run_id = s.run_id;
          component_id = s.component_id;
          lifecycle_seq = number;
          created_at_utc = now;
          input_events = [];
          input_artifacts = [];
          output_artifacts = [];
          event_sha256 = "";
        };
        event_type = update_committed;
        update_id = update_id;
        transaction_id = transaction;
        attempt = 1;
        supersedes_attempt = none;
        lease_epoch = lease;
        idempotency_key = join (s.run_id ∷ ":" ∷ update_id ∷ []);
        parent_policy_version = parent;
        output_policy_version = some (pos output);
        input_preupdate_envelope_sha256s = envelopes;
        update_input_event = input;
        gradient_accumulation_microbatches = 1;
        optimizer_step_count_delta = 1;
        trajectory_use_policy = "consume_once_v01";
        checkpoint_manifest_sha256 = some checkpoint;
        optimizer_state_artifact = none;
        failure_code = none;
      }

  unfoldable pub record_update_committed :
      String
      → String
      → ℕ
      → ℕ
      → ℕ
      → List String
      → String
      → Option EventRef
      → Option ℤ
      → Action Control UpdateEvent
  record_update_committed update_id transaction lease parent output envelopes checkpoint input
        required s =
      (do
        number ← take_seq
        let draft : UpdateEvent =
            update_draft s update_id transaction lease parent output envelopes checkpoint input
              number
        let ev : UpdateEvent = record draft {
          base = record draft.base { event_sha256 = sha256 (dumps (update draft)) };
        }
        log_event (update ev) required
        pure ev)
        s
