-- ===== src/Tools/Order.antt =====
-- The order of the results inside a turn.
use grpo_guard.Prelude.{
  Bool-cases, List, Option, String, [], arith, contains, eq_iff, is_nil, none, refl, some, sym, ℕ,
  ◌++◌, ◌is◌, ◌∙◌, ◌∷◌, ◌≡◌,
}
use grpo_guard.Tools.{ToolCall, ToolResult, TrajectoryTurn, validate_tool_trajectory}
use grpo_guard.Tools.Contract.{validate_tool_trajectory_iff}
use grpo_guard.Tools.Trajectory.{all_result_ids, answers, call_ids, distinct, result_ids}

module _ (version : String) (xs ys : List ToolResult) (a b : ToolResult) where
  abbrev in_order : List ToolResult
  in_order = xs ++ a ∷ b ∷ ys

  abbrev swapped : List ToolResult
  swapped = xs ++ b ∷ a ∷ ys

answers-swap :
    (version : String) (known : List String) (xs ys : List ToolResult) (a b : ToolResult)
    → answers version known (in_order version xs ys a b)
      ≡ answers version known (swapped version xs ys a b)
answers-swap version known [] ys a b = ground (
  arith,
  Bool-cases (contains a.call_id known),
  Bool-cases (contains b.call_id known),
  Bool-cases (a.state_version is version),
  Bool-cases (b.state_version is version),
)
answers-swap version known (x ∷ xs) ys a b = ground (arith, answers-swap version known xs ys a b)

contains-swap :
    (version id : String) (xs ys : List ToolResult) (a b : ToolResult) (ids : List String)
    → contains id (result_ids (in_order version xs ys a b) ++ ids)
      ≡ contains id (result_ids (swapped version xs ys a b) ++ ids)
contains-swap version id [] ys a b ids =
    ground (arith, Bool-cases (id is a.call_id), Bool-cases (id is b.call_id))
contains-swap version id (x ∷ xs) ys a b ids =
    ground (arith, contains-swap version id xs ys a b ids)

distinct-swap :
    (version : String) (xs ys : List ToolResult) (a b : ToolResult) (ids : List String)
    → distinct (result_ids (in_order version xs ys a b) ++ ids)
      ≡ distinct (result_ids (swapped version xs ys a b) ++ ids)
distinct-swap version [] ys a b ids = ground (
  arith,
  eq_iff a.call_id b.call_id,
  eq_iff b.call_id a.call_id,
  Bool-cases (contains a.call_id (result_ids ys ++ ids)),
  Bool-cases (contains b.call_id (result_ids ys ++ ids)),
)
distinct-swap version (x ∷ xs) ys a b ids =
    ground
      (arith, distinct-swap version xs ys a b ids, contains-swap version x.call_id xs ys a b ids)

-- Whether a trajectory passes does not depend on the order in which two neighbouring results of
-- its first turn arrive.
pub result_order_ignored :
    (version : String) (index : ℕ) (tokens : List ℕ) (calls : Option (List ToolCall))
    (xs ys : List ToolResult) (a b : ToolResult) (turns : List TrajectoryTurn)
    → let turn : List ToolResult → TrajectoryTurn = λ results. record {
      index = index;
      action_tokens = tokens;
      tool_calls = calls;
      results = some results;
    } in
      is_nil (validate_tool_trajectory (turn (xs ++ a ∷ b ∷ ys) ∷ turns) version)
      ≡ is_nil (validate_tool_trajectory (turn (xs ++ b ∷ a ∷ ys) ∷ turns) version)
result_order_ignored version index tokens calls xs ys a b turns =
    validate_tool_trajectory_iff _ version
    ∙ rw
        (
          distinct-swap version xs ys a b (all_result_ids turns),
          answers-swap version (call_ids (elim calls [ none ↦ [] | some l ↦ l ])) xs ys a b,
        )
        refl
    ∙ sym (validate_tool_trajectory_iff _ version)
