-- ===== src/Reducer.antt =====
-- src/grpo_guard/store/reducer.py: the state of a sync and of an update, folded from its events in
-- the order of (lifecycle_seq, event_id). The name of a state is a text in the code.
pub mod Update
pub mod Order
pub mod Conflict
use grpo_guard.Prelude.{
  Bool, List, Option, String, [], false, if◌then◌else◌, is_empty, ltb, none, not, some, sort_by,
  true, ℕ, ◌&&◌, ◌++◌, ◌==◌, ◌is◌, ◌||◌, ◌∷◌,
}
use grpo_guard.Prelude.Int.{ℤ}
use grpo_guard.Prelude.Result.{Result, conflicting_commit, err, ok, value_error}
use grpo_guard.Schema.Events.{
  SyncEvent, SyncEventType, canary_mismatch, canary_passed, runtime_loaded, sync_attempt_superseded,
  sync_failed, sync_quarantined, sync_reconciled_canary_passed, sync_requested, sync_retryable_old,
  sync_started, sync_terminal_failure, sync_terminal_success, sync_unknown,
}

pub data SyncStateName : Type 0 where
  sync_new state_requested state_started state_loaded state_canary_passed : SyncStateName
  state_unknown state_reconciled_canary_passed state_retryable_old : SyncStateName
  state_quarantined state_failed state_superseded : SyncStateName

pub record SyncState : Type 0 where
  pub sync_id : String
  pub state : SyncStateName
  pub attempt : ℕ
  pub load_epoch : Option ℕ
  pub observed_policy_version : Option ℤ
  pub terminal : Bool
  pub events : List String

-- The variables of the loop: the state, `terminal_reached` and `latest_attempt`.
pub record SyncFold : Type 0 where
  pub folded : SyncState
  pub terminal_reached : Option SyncEvent
  pub latest_attempt : ℕ

abbrev pub start_sync : SyncFold
start_sync = record {
  folded = record {
    sync_id = "";
    state = sync_new;
    attempt = 0;
    load_epoch = none;
    observed_policy_version = none;
    terminal = false;
    events = [];
  };
  terminal_reached = none;
  latest_attempt = 0;
}

abbrev pub sync_key : SyncEvent → ℕ × String
sync_key ev = (ev.lifecycle_seq, ev.event_id)

unfoldable pub is_sync_terminal : SyncEventType → Bool
is_sync_terminal t = sync_terminal_success t || sync_terminal_failure t

-- ev.event_type == other.event_type, of two terminal types
unfoldable pub same_sync_type : SyncEventType → SyncEventType → Bool
same_sync_type sync_requested sync_requested = true
same_sync_type sync_started sync_started = true
same_sync_type runtime_loaded runtime_loaded = true
same_sync_type canary_passed canary_passed = true
same_sync_type canary_mismatch canary_mismatch = true
same_sync_type sync_unknown sync_unknown = true
same_sync_type sync_reconciled_canary_passed sync_reconciled_canary_passed = true
same_sync_type sync_retryable_old sync_retryable_old = true
same_sync_type sync_quarantined sync_quarantined = true
same_sync_type sync_failed sync_failed = true
same_sync_type sync_attempt_superseded sync_attempt_superseded = true
same_sync_type _ _ = false

-- The chain of `elif`s; a type that it does not name leaves the state.
unfoldable pub next_sync_state : SyncEventType → SyncStateName → SyncStateName
next_sync_state canary_passed s = state_canary_passed
next_sync_state sync_reconciled_canary_passed s = state_reconciled_canary_passed
next_sync_state sync_retryable_old s = state_retryable_old
next_sync_state sync_quarantined s = state_quarantined
next_sync_state sync_failed s = state_failed
next_sync_state sync_unknown s = state_unknown
next_sync_state runtime_loaded s = state_loaded
next_sync_state sync_started s = state_started
next_sync_state sync_requested s = state_requested
next_sync_state _ s = s

abbrev pub or_else {ℓ} : {A : Type ℓ} → Option A → Option A → Option A
or_else none b = b
or_else (some a) b = some a

-- terminal_reached is not None and ev.attempt == terminal_reached.attempt
abbrev pub sync_settled : SyncEvent → Option SyncEvent → Option SyncEvent
sync_settled ev none = none
sync_settled ev (some t) = if ev.attempt == t.attempt then some t else none

-- The body of the loop after its `continue`s.
abbrev pub record_sync : SyncEvent → SyncFold → SyncFold
record_sync ev f = record {
  folded = record f.folded {
    state = next_sync_state ev.event_type f.folded.state;
    attempt = ev.attempt;
    load_epoch = or_else ev.observed_runtime_load_epoch f.folded.load_epoch;
    observed_policy_version = or_else ev.observed_policy_version f.folded.observed_policy_version;
    terminal = f.folded.terminal || is_sync_terminal ev.event_type;
    events = f.folded.events ++ ev.event_id ∷ [];
  };
  terminal_reached = if is_sync_terminal ev.event_type then some ev else f.terminal_reached;
  latest_attempt = ev.attempt;
}

unfoldable pub is_superseded : SyncEventType → Bool
is_superseded sync_attempt_superseded = true
is_superseded _ = false

-- One round, once the id of the state is set.
unfoldable pub sync_round : SyncEvent → SyncFold → Result SyncFold
sync_round ev f =
    if not (ev.sync_id is f.folded.sync_id)
    then err value_error
    else if is_superseded ev.event_type
    then ok (record f { folded = record f.folded { state = state_superseded } })
    else if ltb ev.attempt f.latest_attempt
    then ok f
    else (elim (sync_settled ev f.terminal_reached) [
      | some t ↦
          if is_sync_terminal ev.event_type && not (same_sync_type ev.event_type t.event_type)
          then err conflicting_commit
          else ok (record f { latest_attempt = ev.attempt })
      | none ↦ ok (record_sync ev f)
    ])

-- `if not state.sync_id: state.sync_id = ev.sync_id`
abbrev pub with_sync_id : SyncEvent → SyncFold → SyncFold
with_sync_id ev f =
    if is_empty f.folded.sync_id
    then record f { folded = record f.folded { sync_id = ev.sync_id } }
    else f

unfoldable pub fold_sync : List SyncEvent → SyncFold → Result SyncFold
fold_sync [] f = ok f
fold_sync (ev ∷ evs) f = elim (sync_round ev (with_sync_id ev f)) [
  | err e ↦ err e
  | ok g ↦ fold_sync evs g
]

unfoldable pub reduce_sync : List SyncEvent → Result SyncState
reduce_sync evs = elim (fold_sync (sort_by sync_key evs) start_sync) [
  | err e ↦ err e
  | ok f ↦ ok f.folded
]
