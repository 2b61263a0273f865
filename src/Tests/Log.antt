-- ===== src/Tests/Log.antt =====
-- The event log and the reducers on a sync of two events.
use grpo_guard.AppendLog.{AppendLog, LogFiles, acquire_lease, append, check_lease, get_event}
use grpo_guard.AppendLog.Fencing.{stale_writer_fenced, still}
use grpo_guard.AppendLog.Writes.{append-get_event}
use grpo_guard.Prelude.{
  All, Option, String, [], if◌then◌else◌, insert_by, lt_key, lt_text, none, refl, some, sort_by,
  true, ℕ, ◌is◌, ◌∷◌, ◌≡◌,
}
use grpo_guard.Prelude.Dict.{insert, lookup}
use grpo_guard.Prelude.Int.{pos}
use grpo_guard.Prelude.Result.{Error, err, ok}
use grpo_guard.Reducer.{
  SyncState, fold_sync, is_superseded, is_sync_terminal, next_sync_state, reduce_sync,
  same_sync_type, state_canary_passed, sync_round,
}
use grpo_guard.Reducer.Conflict.{covered, reduce_sync-settles}
use grpo_guard.Reducer.Order.{reduce_sync-Perm}
use grpo_guard.Schema.Events.{
  Event, SyncEvent, UpdateEvent, UpdateEventType, base_of, sync, sync_requested,
  sync_terminal_failure, sync_terminal_success, update_committed, update_started,
}
use grpo_guard.Schema.Seal.{is_sealed}
use grpo_guard.Tests.Sample.{sample_base, sample_sync}
use mathlib.Core.List.{Permᴰ}

abbrev writer : AppendLog
writer = record { run_id = "run-0"; lease_id = "w" }

abbrev no_files : LogFiles
no_files = record { event_files = []; edge_files = []; lease_file = none }

abbrev leased : LogFiles
leased = record no_files { lease_file = some (record { lease_id = "w"; epoch = 1 }) }

sample_appends : (append writer (sync sample_sync) (some (pos 1)) leased).0 ≡ ok (sync sample_sync)
unfolding append is_sealed lookup insert
sample_appends = refl

append-get_event_example :
    (found : Event) × (get_event (append writer (sync sample_sync) (some (pos 1)) leased).1 "sync-0"
      ≡ ok found)
    × ((base_of found).event_sha256 ≡ "e")
    × ((is_sealed (sync sample_sync) ≡ true)
        × ("run-0" ≡ writer.run_id)
        × (check_lease writer (some (pos 1)) leased.lease_file ≡ ok tt))
append-get_event_example =
    append-get_event writer (sync sample_sync) (sync sample_sync) (some (pos 1)) leased
      sample_appends

-- The event that is there, and another that is given under its id.
abbrev holding : LogFiles
holding = record leased { event_files = ("sync-0", sync sample_sync) ∷ [] }

abbrev forged_sync : SyncEvent
forged_sync = record sample_sync { base = record sample_sync.base { event_sha256 = "f" } }

held_event : get_event holding "sync-0" ≡ ok (sync sample_sync)
unfolding get_event lookup
held_event = refl

first_lease : (acquire_lease writer no_files).0 ≡ ok 1
unfolding acquire_lease
first_lease = refl

second_lease : (acquire_lease writer (acquire_lease writer no_files).1).0 ≡ ok 2
unfolding acquire_lease
second_lease = refl

stale_writer_fenced_example :
    let d = (acquire_lease writer (acquire_lease writer no_files).1).1 in
    (e : Error) × (append writer (sync sample_sync) (some (pos 1)) d ≡ (err e, d))
stale_writer_fenced_example =
    stale_writer_fenced writer writer writer (sync sample_sync) 1 2 no_files
      (acquire_lease writer no_files).1 (acquire_lease writer (acquire_lease writer no_files).1).1
      first_lease (still (acquire_lease writer no_files).1) second_lease
      (still (acquire_lease writer (acquire_lease writer no_files).1).1)

-- The sync was requested before its canary passed.
abbrev requested_sync : SyncEvent
requested_sync = record sample_sync { base = sample_base "sync-a" 0; event_type = sync_requested }

abbrev sync_log : String → Option SyncEvent
sync_log id =
    if id is "sync-0"
    then some sample_sync
    else if id is "sync-a"
    then some requested_sync
    else none

reduce_sync-Perm_example :
    reduce_sync (sample_sync ∷ requested_sync ∷ [])
    ≡ reduce_sync (requested_sync ∷ sample_sync ∷ [])
reduce_sync-Perm_example =
    reduce_sync-Perm sync_log (sample_sync ∷ requested_sync ∷ [])
      (requested_sync ∷ sample_sync ∷ []) (refl, (refl, tt)) (Permᴰ.swap refl refl)

abbrev passed_state : SyncState
passed_state = record {
  sync_id = "s";
  state = state_canary_passed;
  attempt = 1;
  load_epoch = some 1;
  observed_policy_version = some (pos 0);
  terminal = true;
  events = "sync-a" ∷ "sync-0" ∷ [];
}

sample_reduces : reduce_sync (sample_sync ∷ requested_sync ∷ []) ≡ ok passed_state
unfolding reduce_sync fold_sync sync_round next_sync_state is_sync_terminal is_superseded
    sync_terminal_success sync_terminal_failure sort_by insert_by lt_key lt_text same_sync_type
sample_reduces = refl

reduce_sync-settles_example :
    (t : Option SyncEvent) × All
      (λ ev. covered t passed_state.attempt ev ≡ true)
      (sample_sync ∷ requested_sync ∷ [])
reduce_sync-settles_example =
    reduce_sync-settles (sample_sync ∷ requested_sync ∷ []) passed_state sample_reduces

abbrev update_event : String → ℕ → UpdateEventType → UpdateEvent
update_event id seq type = record {
  base = sample_base id seq;
  event_type = type;
  update_id = "u";
  transaction_id = "t";
  attempt = 1;
  supersedes_attempt = none;
  lease_epoch = 1;
  idempotency_key = "k";
  parent_policy_version = 0;
  output_policy_version = none;
  input_preupdate_envelope_sha256s = [];
  update_input_event = none;
  gradient_accumulation_microbatches = 1;
  optimizer_step_count_delta = 1;
  trajectory_use_policy = "once";
  checkpoint_manifest_sha256 = none;
  optimizer_state_artifact = none;
  failure_code = none;
}

abbrev update_log : String → Option UpdateEvent
update_log id =
    if id is "u-0"
    then some (update_event "u-0" 0 update_started)
    else if id is "u-1"
    then some (update_event "u-1" 1 update_committed)
    else none
