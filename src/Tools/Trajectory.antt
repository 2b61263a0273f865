-- ===== src/Tools/Trajectory.antt =====
-- The contract of a trajectory in one description, without the validator's sets, and what it says of
-- a longer trajectory.
use grpo_guard.Prelude.{
  Bool, List, String, [], arith, contains, eq_iff, is_nil, not, refl, true, ◌&&◌, ◌++◌, ◌is◌, ◌||◌,
  ◌∷◌, ◌≡◌,
}
use grpo_guard.Tools.{ToolCall, ToolResult, TrajectoryTurn, calls_of, results_of}

-- The call ids of the whole trajectory, in order.
abbrev pub call_ids : List ToolCall → List String
call_ids [] = []
call_ids (call ∷ calls) = call.call_id ∷ call_ids calls

abbrev pub result_ids : List ToolResult → List String
result_ids [] = []
result_ids (res ∷ rest) = res.call_id ∷ result_ids rest

abbrev pub all_call_ids : List TrajectoryTurn → List String
all_call_ids [] = []
all_call_ids (turn ∷ turns) = call_ids (calls_of turn) ++ all_call_ids turns

abbrev pub all_result_ids : List TrajectoryTurn → List String
all_result_ids [] = []
all_result_ids (turn ∷ turns) = result_ids (results_of turn) ++ all_result_ids turns

abbrev pub distinct : List String → Bool
distinct [] = true
distinct (x ∷ xs) = not (contains x xs) && distinct xs

-- Every turn has tokens to train on.
abbrev pub acting : List TrajectoryTurn → Bool
acting [] = true
acting (turn ∷ turns) = not (is_nil turn.action_tokens) && acting turns

-- The results answer calls of the ids given, in the environment's version.
abbrev pub answers : String → List String → List ToolResult → Bool
answers version calls [] = true
answers version calls (res ∷ rest) =
    contains res.call_id calls && (res.state_version is version) && answers version calls rest

-- Every result answers a call of its own turn or of an earlier one.
abbrev pub answering : String → List String → List TrajectoryTurn → Bool
answering version earlier [] = true
answering version earlier (turn ∷ turns) =
    answers version (earlier ++ call_ids (calls_of turn)) (results_of turn)
    && answering version (earlier ++ call_ids (calls_of turn)) turns

-- None of the texts was seen.
abbrev pub fresh : List String → List String → Bool
fresh seen [] = true
fresh seen (x ∷ xs) = not (contains x seen) && fresh seen xs

-- A set after the texts were added.
abbrev pub push : List String → List String → List String
push [] seen = seen
push (x ∷ xs) seen = push xs (x ∷ seen)

pub contains-++ :
    (x : String) (a b : List String) → contains x (a ++ b) ≡ (contains x a || contains x b)
contains-++ x [] b = refl
contains-++ x (y ∷ a) b = ground (arith, contains-++ x a b)

pub contains-push :
    (x : String) (a seen : List String)
    → contains x (push a seen) ≡ (contains x a || contains x seen)
contains-push x [] seen = refl
contains-push x (y ∷ a) seen = ground (arith, contains-push x a (y ∷ seen))

-- Adding one text to the set.
pub fresh-cons :
    (x : String) (seen xs : List String)
    → fresh (x ∷ seen) xs ≡ (fresh seen xs && not (contains x xs))
fresh-cons x seen [] = refl
fresh-cons x seen (y ∷ xs) = ground (arith, fresh-cons x seen xs, eq_iff x y, eq_iff y x)

pub fresh-++ : (seen a b : List String) → fresh seen (a ++ b) ≡ (fresh seen a && fresh seen b)
fresh-++ seen [] b = refl
fresh-++ seen (x ∷ a) b = ground (arith, fresh-++ seen a b)

pub fresh-push : (a seen b : List String) → fresh (push a seen) b ≡ (fresh seen b && fresh a b)
fresh-push a seen [] = refl
fresh-push a seen (x ∷ b) = ground (arith, fresh-push a seen b, contains-push x a seen)

pub distinct-++ : (a b : List String) → distinct (a ++ b) ≡ (distinct a && distinct b && fresh a b)
distinct-++ [] b = ground (arith, fresh_nil b)
  where
    fresh_nil : (b : List String) → fresh [] b ≡ true
    fresh_nil [] = refl
    fresh_nil (x ∷ b) = fresh_nil b
distinct-++ (x ∷ a) b = ground (arith, distinct-++ a b, contains-++ x a b, fresh-cons x a b)

pub answers-same :
    (version : String) (a b : List String) (rs : List ToolResult)
    → ((x : String) → contains x a ≡ contains x b)
    → answers version a rs ≡ answers version b rs
answers-same version a b [] same = refl
answers-same version a b (r ∷ rs) same =
    ground (arith, answers-same version a b rs same, same r.call_id)

-- The set after a turn's calls holds the ids of the calls so far.
pub set-same :
    (ids seen earlier : List String)
    → ((x : String) → contains x seen ≡ contains x earlier)
    → (x : String) → contains x (push ids seen) ≡ contains x (earlier ++ ids)
set-same ids seen earlier same x =
    ground (arith, contains-push x ids seen, contains-++ x earlier ids, same x)

pub fresh_nil : (xs : List String) → fresh [] xs ≡ true
fresh_nil [] = refl
fresh_nil (x ∷ xs) = fresh_nil xs
