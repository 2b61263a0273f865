-- ===== src/Tests/Tools.antt =====
-- A trajectory of two turns with the calculator.
use grpo_guard.Prelude.{List, String, [], is_nil, map, refl, some, ℕ, ◌&&◌, ◌∷◌, ◌≡◌}
use grpo_guard.Prelude.Decimal.{decimal, str_ℤ}
use grpo_guard.Prelude.Dict.{lookup}
use grpo_guard.Prelude.Int.{negsuc, pos, ◌+ℤ◌}
use grpo_guard.Tools.{
  ToolCall, ToolEnv, ToolResult, TrajectoryTurn, check_calls, check_result, check_results,
  check_turns, execute, observation_of, orphan_tool_result, validate_tool_trajectory,
}
use grpo_guard.Tools.Contract.{validate_tool_trajectory_iff}
use grpo_guard.Tools.Order.{result_order_ignored}
use grpo_guard.Tools.Trajectory.{acting, all_call_ids, all_result_ids, answering, answers, distinct}

abbrev tool_call : String → ToolCall
tool_call id = record { call_id = id; name = "add"; args = ("a", pos 2) ∷ ("b", negsuc 4) ∷ [] }

abbrev env : ToolEnv
env = record { version = "tool-env-v1"; given = [] }

-- 2 + -5
added : (execute env (tool_call "c1")).0.observation ≡ "-3"
unfolding execute observation_of lookup ◌+ℤ◌ str_ℤ decimal
added = refl

abbrev answer : String → ToolResult
answer id = record { call_id = id; state_version = "tool-env-v1"; observation = "-3" }

abbrev turn : ℕ → List String → List String → TrajectoryTurn
turn i calls answers = record {
  index = i;
  action_tokens = 1 ∷ [];
  tool_calls = some (map tool_call calls);
  results = some (map answer answers);
}

-- The second turn answers a call of the first; the last result has no call.
abbrev trajectory : List TrajectoryTurn
trajectory =
    turn 0 ("c1" ∷ "c2" ∷ []) ("c1" ∷ []) ∷ turn 1 ("c3" ∷ []) ("c2" ∷ "c3" ∷ "c9" ∷ []) ∷ []

found : validate_tool_trajectory trajectory "tool-env-v1" ≡ orphan_tool_result 1 "c9" ∷ []
unfolding validate_tool_trajectory check_turns check_calls check_results check_result
found = refl

validate_tool_trajectory_iff_example :
    is_nil (validate_tool_trajectory trajectory "tool-env-v1") ≡ (
      acting trajectory
      && distinct (all_call_ids trajectory)
      && answering "tool-env-v1" [] trajectory
      && distinct (all_result_ids trajectory))
validate_tool_trajectory_iff_example = validate_tool_trajectory_iff trajectory "tool-env-v1"

result_order_ignored_example :
    is_nil
      (validate_tool_trajectory (turn 0 ("c1" ∷ "c2" ∷ []) ("c1" ∷ "c2" ∷ []) ∷ []) "tool-env-v1")
    ≡ is_nil
        (validate_tool_trajectory (turn 0 ("c1" ∷ "c2" ∷ []) ("c2" ∷ "c1" ∷ []) ∷ []) "tool-env-v1")
result_order_ignored_example =
    result_order_ignored "tool-env-v1" 0 (1 ∷ []) (some (map tool_call ("c1" ∷ "c2" ∷ []))) [] []
      (answer "c1") (answer "c2") []
