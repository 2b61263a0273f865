-- ===== src/Tests/Control.antt =====
-- A sync of one parameter on the log of a run, by an adapter that numbers its events from the log.
use grpo_guard.AppendLog.{append}
use grpo_guard.Control.{
  Control, SyncCall, _sync, choose_id, chosen_id, event_type_name, log_event, next_lifecycle,
  record_canary_mismatch, record_canary_passed, sync_begin, sync_complete, sync_phases, take_seq,
}
use grpo_guard.Control.Sync.{Push, do_sync, push_all, push_and_report, record_verdict}
use grpo_guard.Control.Trail.{Rising, state_after}
use grpo_guard.Control.Verdict.{event_ids, mismatch_conflicts, passed_settles}
use grpo_guard.Prelude.{
  All, Bool, List, String, [], arith, false, none, refl, some, true, ◌++◌, ◌∷◌, ◌≡◌,
}
use grpo_guard.Prelude.Decimal.{decimal, decimal_4}
use grpo_guard.Prelude.Dict.{insert, lookup}
use grpo_guard.Prelude.Int.{pos}
use grpo_guard.Prelude.Result.{Error, Result, conflicting_commit, err, ok}
use grpo_guard.Reducer.{reduce_sync, state_canary_passed}
use grpo_guard.Schema.Events.{SyncEvent}
use grpo_guard.Schema.Seal.{is_sealed}
use grpo_guard.Tests.Sample.{toy_dumps, toy_sha256}
use grpo_guard.Validator.{next_seq}

abbrev control : Control
control = record {
  log = record { run_id = "run-0"; lease_id = "w" };
  files = record {
    event_files = [];
    edge_files = [];
    lease_file = some (record { lease_id = "w"; epoch = 1 });
  };
  run_id = "run-0";
  component_id = "trl_control";
  seq = 0;
  from_log = true;
}

abbrev sync_call : SyncCall
sync_call = record {
  sync_id = "";
  attempt = 1;
  lease_epoch = 1;
  policy_version = 3;
  checkpoint_sha = "c";
  required_epoch = some (pos 1);
}

abbrev pushes : List Push
pushes = ("w", ok tt) ∷ []

abbrev describe : Error → String
describe e = "error"

abbrev digest_of : List String → String
digest_of names = "digest"

abbrev synced : Result (List SyncEvent) × Control
synced = do_sync toy_sha256 toy_dumps "" describe digest_of none sync_call pushes control

abbrev judged : Bool → Result (List SyncEvent) × Control
judged passes =
    record_verdict toy_sha256 toy_dumps "" describe digest_of (choose_id none sync_call) passes "d"
      "r" synced.1

-- The list that a run returned.
abbrev listed : Result (List SyncEvent) → List SyncEvent
listed (ok l) = l
listed (err e) = []

sync_runs : synced ≡ (ok (listed synced.0), synced.1)
unfolding do_sync sync_begin record_verdict sync_phases _sync take_seq log_event append is_sealed
    toy_sha256 next_lifecycle next_seq lookup insert event_type_name decimal decimal_4
    push_and_report push_all sync_complete record_canary_passed record_canary_mismatch
sync_runs = refl

pass_runs : judged true ≡ (ok (listed (judged true).0), (judged true).1)
unfolding do_sync sync_begin record_verdict sync_phases _sync take_seq log_event append is_sealed
    toy_sha256 next_lifecycle next_seq lookup insert event_type_name decimal decimal_4
    push_and_report push_all sync_complete record_canary_passed record_canary_mismatch
pass_runs = refl

mismatch_runs : judged false ≡ (ok (listed (judged false).0), (judged false).1)
unfolding do_sync sync_begin record_verdict sync_phases _sync take_seq log_event append is_sealed
    toy_sha256 next_lifecycle next_seq lookup insert event_type_name decimal decimal_4
    push_and_report push_all sync_complete record_canary_passed record_canary_mismatch
mismatch_runs = refl

pass_rises : Rising (listed synced.0 ++ listed (judged true).0)
unfolding do_sync sync_begin record_verdict sync_phases _sync take_seq log_event append is_sealed
    toy_sha256 next_lifecycle next_seq lookup insert event_type_name decimal decimal_4
    push_and_report push_all sync_complete record_canary_passed record_canary_mismatch
pass_rises = ground arith

mismatch_rises : Rising (listed synced.0 ++ listed (judged false).0)
unfolding do_sync sync_begin record_verdict sync_phases _sync take_seq log_event append is_sealed
    toy_sha256 next_lifecycle next_seq lookup insert event_type_name decimal decimal_4
    push_and_report push_all sync_complete record_canary_passed record_canary_mismatch
mismatch_rises = ground arith

passed_settles_example :
    All (λ p. p.1 ≡ ok tt) pushes
    × (reduce_sync (listed synced.0 ++ listed (judged true).0)
        ≡ ok (
            state_after
              (chosen_id none 3)
              state_canary_passed
              1
              (some 4)
              (some (pos 3))
              true
              (event_ids (listed synced.0 ++ listed (judged true).0))))
passed_settles_example =
    passed_settles toy_sha256 toy_dumps "" none sync_call "d" "r" describe digest_of pushes control
      (listed synced.0) synced.1 (listed (judged true).0) (judged true).1 sync_runs pass_rises
      pass_runs

mismatch_conflicts_example :
    reduce_sync (listed synced.0 ++ listed (judged false).0) ≡ err conflicting_commit
mismatch_conflicts_example =
    mismatch_conflicts toy_sha256 toy_dumps "" none sync_call "d" "r" describe digest_of pushes
      control (listed synced.0) synced.1 (listed (judged false).0) (judged false).1 sync_runs
      mismatch_rises mismatch_runs
