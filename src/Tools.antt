-- ===== src/Tools.antt =====
-- src/grpo_guard/adapters/tool_env.py: the calculator of the tool-use runs, and the contract over a
-- trajectory of tool calls. A violation is a constructor in place of its text.
pub mod Trajectory
pub mod Contract
pub mod Order
use Prim.Native.String.{◌++◌ as text_append}
use grpo_guard.Prelude.{
  Bool, List, Option, String, [], contains, false, if◌then◌else◌, is_nil, none, not, some, true, ℕ,
  ◌++◌, ◌is◌, ◌∷◌,
}
use grpo_guard.Prelude.Decimal.{str_ℤ}
use grpo_guard.Prelude.Dict.{Dict, insert, lookup}
use grpo_guard.Prelude.Int.{pos, ℤ, ◌*ℤ◌, ◌+ℤ◌}

pub record ToolCall : Type 0 where
  pub call_id : String
  pub name : String
  pub args : Dict ℤ

pub record ToolResult : Type 0 where
  pub call_id : String
  pub state_version : String
  pub observation : String

pub record TrajectoryTurn : Type 0 where
  pub index : ℕ
  pub action_tokens : List ℕ
  pub tool_calls : Option (List ToolCall)
  pub results : Option (List ToolResult)

-- A ToolEnv: its version and the results that it has given.
pub record ToolEnv : Type 0 where
  pub version : String
  pub given : Dict String

-- call.args.get(name, 0)
abbrev pub arg : String → ToolCall → ℤ
arg name call = elim (lookup name call.args) [ none ↦ pos 0 | some n ↦ n ]

unfoldable pub observation_of : ToolCall → String
observation_of call =
    if call.name is "add"
    then str_ℤ (arg "a" call +ℤ arg "b" call)
    else if call.name is "mul"
    then str_ℤ (arg "a" call *ℤ arg "b" call)
    else text_append "unknown tool " call.name

unfoldable pub execute : ToolEnv → ToolCall → ToolResult × ToolEnv
execute env call = (
  record { call_id = call.call_id; state_version = env.version; observation = observation_of call },
  record env { given = insert call.call_id (observation_of call) env.given },
)

pub data ToolViolation : Type 0 where
  empty_action : ℕ → ToolViolation
  duplicate_tool_call orphan_tool_result duplicate_tool_result : ℕ → String → ToolViolation
  stale_observation : ℕ → String → String → ToolViolation

-- A violation if the test holds.
abbrev pub when : Bool → ToolViolation → List ToolViolation
when true v = v ∷ []
when false v = []

-- The loop over a turn's calls, with the set of the ids seen.
unfoldable pub check_calls : ℕ → List ToolCall → List String → List ToolViolation × List String
check_calls i [] seen = ([], seen)
check_calls i (call ∷ calls) seen =
    let (found, after) = check_calls i calls (call.call_id ∷ seen) in
    (when (contains call.call_id seen) (duplicate_tool_call i call.call_id) ++ found, after)

-- The three tests on a result.
unfoldable pub check_result :
    ℕ → String → List String → List String → ToolResult → List ToolViolation
check_result i version calls resolved res =
    when (not (contains res.call_id calls)) (orphan_tool_result i res.call_id)
    ++ when (not (res.state_version is version)) (stale_observation i res.call_id res.state_version)
    ++ when (contains res.call_id resolved) (duplicate_tool_result i res.call_id)

-- The loop over a turn's results, with the ids that are resolved.
unfoldable pub check_results :
    ℕ → String → List String → List ToolResult → List String → List ToolViolation × List String
check_results i version calls [] resolved = ([], resolved)
check_results i version calls (res ∷ rest) resolved =
    let (found, after) = check_results i version calls rest (res.call_id ∷ resolved) in
    (check_result i version calls resolved res ++ found, after)

abbrev pub calls_of : TrajectoryTurn → List ToolCall
calls_of turn = elim turn.tool_calls [ none ↦ [] | some calls ↦ calls ]

abbrev pub results_of : TrajectoryTurn → List ToolResult
results_of turn = elim turn.results [ none ↦ [] | some results ↦ results ]

-- The loop over the turns.
unfoldable pub check_turns :
    String → List TrajectoryTurn → List String → List String → List ToolViolation
check_turns version [] calls resolved = []
check_turns version (turn ∷ turns) calls resolved =
    let (by_calls, calls') = check_calls turn.index (calls_of turn) calls in
    let (by_results, resolved') =
      check_results turn.index version calls' (results_of turn) resolved in
    when (is_nil turn.action_tokens) (empty_action turn.index)
    ++ by_calls
    ++ by_results
    ++ check_turns version turns calls' resolved'

unfoldable pub validate_tool_trajectory : List TrajectoryTurn → String → List ToolViolation
validate_tool_trajectory turns version = check_turns version turns [] []
