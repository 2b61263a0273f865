-- ===== src/Tools/Contract.antt =====
-- What a trajectory that passes looks like.
use grpo_guard.Prelude.{
  Bool, Bool-cases, List, String, [], arith, contains, false, is_nil, not, refl, true, ℕ, ◌&&◌,
  ◌++◌, ◌is◌, ◌∙◌, ◌∷◌, ◌≡◌,
}
use grpo_guard.Tools.{
  ToolCall, ToolResult, ToolViolation, TrajectoryTurn, calls_of, check_calls, check_result,
  check_results, check_turns, duplicate_tool_call, empty_action, results_of,
  validate_tool_trajectory, when,
}
use grpo_guard.Tools.Trajectory.{
  acting, all_call_ids, all_result_ids, answering, answers, answers-same, call_ids, distinct,
  distinct-++, fresh, fresh-++, fresh-cons, fresh-push, fresh_nil, push, result_ids, set-same,
}

is_nil-++ : (v w : List ToolViolation) → is_nil (v ++ w) ≡ (is_nil v && is_nil w)
is_nil-++ [] w = refl
is_nil-++ (x ∷ v) w = refl

check_calls-set :
    (i : ℕ) (calls : List ToolCall) (seen : List String)
    → (check_calls i calls seen).1 ≡ push (call_ids calls) seen
unfolding check_calls
check_calls-set i [] seen = refl
check_calls-set i (call ∷ calls) seen = check_calls-set i calls (call.call_id ∷ seen)

check_results-set :
    (i : ℕ) (version : String) (known : List String) (rs : List ToolResult) (seen : List String)
    → (check_results i version known rs seen).1 ≡ push (result_ids rs) seen
unfolding check_results
check_results-set i version known [] seen = refl
check_results-set i version known (r ∷ rs) seen =
    check_results-set i version known rs (r.call_id ∷ seen)

check_calls-nil :
    (i : ℕ) (calls : List ToolCall) (seen : List String)
    → is_nil (check_calls i calls seen).0
      ≡ (fresh seen (call_ids calls) && distinct (call_ids calls))
unfolding check_calls
check_calls-nil i [] seen = refl
check_calls-nil i (call ∷ calls) seen = ground (
  arith,
  check_calls-nil i calls (call.call_id ∷ seen),
  fresh-cons call.call_id seen (call_ids calls),
  is_nil-++ (when (contains call.call_id seen) (duplicate_tool_call i call.call_id))
      (check_calls i calls (call.call_id ∷ seen)).0,
)

is_nil-when : (b : Bool) (v : ToolViolation) → is_nil (when b v) ≡ not b
is_nil-when true v = refl
is_nil-when false v = refl

check_result-nil :
    (i : ℕ) (version : String) (known seen : List String) (r : ToolResult)
    → is_nil (check_result i version known seen r)
      ≡ (contains r.call_id known && (r.state_version is version) && not (contains r.call_id seen))
unfolding check_result
check_result-nil i version known seen r = ground (
  arith,
  Bool-cases (contains r.call_id known),
  Bool-cases (r.state_version is version),
  Bool-cases (contains r.call_id seen),
)

check_results-nil :
    (i : ℕ) (version : String) (known : List String) (rs : List ToolResult) (seen : List String)
    → is_nil (check_results i version known rs seen).0
      ≡ (answers version known rs && fresh seen (result_ids rs) && distinct (result_ids rs))
unfolding check_results
check_results-nil i version known [] seen = refl
check_results-nil i version known (r ∷ rs) seen = ground (
  arith,
  check_results-nil i version known rs (r.call_id ∷ seen),
  fresh-cons r.call_id seen (result_ids rs),
  check_result-nil i version known seen r,
  is_nil-++ (check_result i version known seen r)
      (check_results i version known rs (r.call_id ∷ seen)).0,
)

is_nil_4 :
    (a b c d : List ToolViolation)
    → is_nil (a ++ b ++ c ++ d) ≡ (is_nil a && is_nil b && is_nil c && is_nil d)
is_nil_4 a b c d = ground (arith, is_nil-++ a (b ++ c ++ d), is_nil-++ b (c ++ d), is_nil-++ c d)

-- The tests of the first turn and of the others, sorted by what they ask for.
regroup :
    (n a b c d e f g h i j k l m : Bool)
    → (n && (a && b) && (c && d && e) && (f && (g && h && i) && j && (k && l && m)))
      ≡ (n && f && (a && g && (b && i && h)) && (c && j) && (d && k && (e && m && l)))
regroup false a b c d e f g h i j k l m = refl
regroup true false b c d e f g h i j k l m = ground arith
regroup true true false c d e f g h i j k l m = ground arith
regroup true true true false d e f g h i j k l m = ground arith
regroup true true true true false e f g h i j k l m = ground arith
regroup true true true true true false f g h i j k l m = ground arith
regroup true true true true true true f g h i j k l m = ground arith

check_turns-nil :
    (version : String) (turns : List TrajectoryTurn) (seen resolved earlier : List String)
    → ((x : String) → contains x seen ≡ contains x earlier)
    → is_nil (check_turns version turns seen resolved) ≡ (
        acting turns
        && (fresh seen (all_call_ids turns) && distinct (all_call_ids turns))
        && answering version earlier turns
        && (fresh resolved (all_result_ids turns) && distinct (all_result_ids turns)))
unfolding check_turns
check_turns-nil version [] seen resolved earlier same = refl
check_turns-nil version (turn ∷ turns) seen resolved earlier same =
    let ids = call_ids (calls_of turn) in
    let given = result_ids (results_of turn) in
    is_nil_4 (when (is_nil turn.action_tokens) (empty_action turn.index))
      (check_calls turn.index (calls_of turn) seen).0
      (check_results turn.index version (check_calls turn.index (calls_of turn) seen).1
        (results_of turn) resolved).0
      _
    ∙ rw
        (
          is_nil-when (is_nil turn.action_tokens) (empty_action turn.index),
          check_results-set turn.index version (check_calls turn.index (calls_of turn) seen).1
              (results_of turn) resolved,
          check_calls-set turn.index (calls_of turn) seen,
          check_calls-nil turn.index (calls_of turn) seen,
          check_results-nil turn.index version (push ids seen) (results_of turn) resolved,
          answers-same version (push ids seen) (earlier ++ ids) (results_of turn)
              (set-same ids seen earlier same),
          check_turns-nil version turns (push ids seen) (push given resolved) (earlier ++ ids)
              (set-same ids seen earlier same),
          fresh-++ seen ids (all_call_ids turns),
          distinct-++ ids (all_call_ids turns),
          fresh-++ resolved given (all_result_ids turns),
          distinct-++ given (all_result_ids turns),
          fresh-push ids seen (all_call_ids turns),
          fresh-push given resolved (all_result_ids turns),
        )
        (regroup (not (is_nil turn.action_tokens)) (fresh seen ids) (distinct ids)
          (answers version (earlier ++ ids) (results_of turn)) (fresh resolved given)
          (distinct given) (acting turns) (fresh seen (all_call_ids turns))
          (fresh ids (all_call_ids turns)) (distinct (all_call_ids turns))
          (answering version (earlier ++ ids) turns) (fresh resolved (all_result_ids turns))
          (fresh given (all_result_ids turns)) (distinct (all_result_ids turns)))

-- A tool trajectory passes exactly if every turn has tokens to train on, no call id and no result
-- id occurs twice in it, and every result answers a call of its own turn or of an earlier one in
-- the environment's version.
pub validate_tool_trajectory_iff :
    (turns : List TrajectoryTurn) (version : String)
    → is_nil (validate_tool_trajectory turns version) ≡ (
        acting turns
        && distinct (all_call_ids turns)
        && answering version [] turns
        && distinct (all_result_ids turns))
unfolding validate_tool_trajectory
validate_tool_trajectory_iff turns version =
    check_turns-nil version turns [] [] [] (λ x. refl)
    ∙ rw (fresh_nil (all_call_ids turns), fresh_nil (all_result_ids turns)) refl
