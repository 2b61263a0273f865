-- ===== src/Reducer/Update.antt =====
-- reduce_update of src/grpo_guard/store/reducer.py, which has the shape of reduce_sync.
use grpo_guard.Prelude.{
  Bool, List, Option, String, [], false, if◌then◌else◌, is_empty, ltb, none, not, some, sort_by,
  true, ℕ, ◌&&◌, ◌++◌, ◌==◌, ◌is◌, ◌||◌, ◌∷◌,
}
use grpo_guard.Prelude.Int.{ℤ}
use grpo_guard.Prelude.Result.{Result, conflicting_commit, err, ok, value_error}
use grpo_guard.Reducer.{or_else}
use grpo_guard.Schema.Events.{
  UpdateEvent, UpdateEventType, update_aborted, update_attempt_superseded, update_committed,
  update_prepared, update_restored_parent, update_started, update_terminal_failure,
  update_terminal_success, update_unknown,
}

pub data UpdateStateName : Type 0 where
  update_new state_update_started state_prepared state_committed : UpdateStateName
  state_update_unknown state_restored_parent state_aborted : UpdateStateName
  state_update_superseded : UpdateStateName

pub record UpdateState : Type 0 where
  pub update_id : String
  pub state : UpdateStateName
  pub attempt : ℕ
  pub output_policy_version : Option ℤ
  pub terminal : Bool
  pub events : List String

pub record UpdateFold : Type 0 where
  pub update_state : UpdateState
  pub update_terminal : Option UpdateEvent
  pub update_latest : ℕ

abbrev pub start_update : UpdateFold
start_update = record {
  update_state = record {
    update_id = "";
    state = update_new;
    attempt = 0;
    output_policy_version = none;
    terminal = false;
    events = [];
  };
  update_terminal = none;
  update_latest = 0;
}

abbrev pub update_key : UpdateEvent → ℕ × String
update_key ev = (ev.lifecycle_seq, ev.event_id)

unfoldable pub is_update_terminal : UpdateEventType → Bool
is_update_terminal t = update_terminal_success t || update_terminal_failure t

unfoldable pub same_update_type : UpdateEventType → UpdateEventType → Bool
same_update_type update_started update_started = true
same_update_type update_prepared update_prepared = true
same_update_type update_unknown update_unknown = true
same_update_type update_committed update_committed = true
same_update_type update_restored_parent update_restored_parent = true
same_update_type update_aborted update_aborted = true
same_update_type update_attempt_superseded update_attempt_superseded = true
same_update_type _ _ = false

unfoldable pub next_update_state : UpdateEventType → UpdateStateName → UpdateStateName
next_update_state update_committed s = state_committed
next_update_state update_restored_parent s = state_restored_parent
next_update_state update_aborted s = state_aborted
next_update_state update_unknown s = state_update_unknown
next_update_state update_prepared s = state_prepared
next_update_state update_started s = state_update_started
next_update_state _ s = s

abbrev pub update_settled : UpdateEvent → Option UpdateEvent → Option UpdateEvent
update_settled ev none = none
update_settled ev (some t) = if ev.attempt == t.attempt then some t else none

abbrev pub record_update : UpdateEvent → UpdateFold → UpdateFold
record_update ev f = record {
  update_state = record f.update_state {
    state = next_update_state ev.event_type f.update_state.state;
    attempt = ev.attempt;
    output_policy_version = or_else ev.output_policy_version f.update_state.output_policy_version;
    terminal = f.update_state.terminal || is_update_terminal ev.event_type;
    events = f.update_state.events ++ ev.event_id ∷ [];
  };
  update_terminal = if is_update_terminal ev.event_type then some ev else f.update_terminal;
  update_latest = ev.attempt;
}

unfoldable pub is_update_superseded : UpdateEventType → Bool
is_update_superseded update_attempt_superseded = true
is_update_superseded _ = false

unfoldable pub update_round : UpdateEvent → UpdateFold → Result UpdateFold
update_round ev f =
    if not (ev.update_id is f.update_state.update_id)
    then err value_error
    else if is_update_superseded ev.event_type
    then ok (record f { update_state = record f.update_state { state = state_update_superseded } })
    else if ltb ev.attempt f.update_latest
    then ok f
    else (elim (update_settled ev f.update_terminal) [
      | some t ↦
          if is_update_terminal ev.event_type && not (same_update_type ev.event_type t.event_type)
          then err conflicting_commit
          else ok (record f { update_latest = ev.attempt })
      | none ↦ ok (record_update ev f)
    ])

abbrev pub with_update_id : UpdateEvent → UpdateFold → UpdateFold
with_update_id ev f =
    if is_empty f.update_state.update_id
    then record f { update_state = record f.update_state { update_id = ev.update_id } }
    else f

unfoldable pub fold_update : List UpdateEvent → UpdateFold → Result UpdateFold
fold_update [] f = ok f
fold_update (ev ∷ evs) f = elim (update_round ev (with_update_id ev f)) [
  | err e ↦ err e
  | ok g ↦ fold_update evs g
]

unfoldable pub reduce_update : List UpdateEvent → Result UpdateState
reduce_update evs = elim (fold_update (sort_by update_key evs) start_update) [
  | err e ↦ err e
  | ok f ↦ ok f.update_state
]
