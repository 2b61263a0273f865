-- ===== src/Canary.antt =====
-- src/grpo_guard/canary.py: greedy token sketches of a fixed prompt suite, compared with a baseline.
-- `generate_fn` is a parameter: the server's answer to a prompt, in one of the two shapes that its
-- clients return.
pub mod Passed
use grpo_guard.Prelude.{List, String, [], if◌then◌else◌, ltb, suc, zero, ℕ, ◌+◌, ◌==◌, ◌∷◌}
use grpo_guard.Prelude.Int.{leb_ℤ, pos, ℤ}
use grpo_guard.Prelude.Result.{Result, err, index_error, ok, value_error}

-- The completion_ids of an answer, by its shape.
pub data Response : Type 0 where
  answer_dict : List (List ℕ) → Response
  answer_tuple : List (List ℕ) → Response

abbrev pub first_completion : List (List ℕ) → Result (List ℕ)
first_completion [] = err index_error
first_completion (ids ∷ rest) = ok ids

abbrev pub completion_of : Response → Result (List ℕ)
completion_of (answer_dict ids) = first_completion ids
completion_of (answer_tuple ids) = first_completion ids

-- CanarySuite.sketch
unfoldable pub sketch : (String → Response) → List String → Result (List (List ℕ))
sketch generate [] = ok []
sketch generate (p ∷ prompts) = elim (completion_of (generate p)) [
  | err e ↦ err e
  | ok ids ↦ elim (sketch generate prompts) [ err e ↦ err e | ok rest ↦ ok (ids ∷ rest) ]
]

-- The positions at which two sketches differ, those past the end of one of them included.
unfoldable pub _token_diff : List ℕ → List ℕ → ℕ
_token_diff [] [] = 0
_token_diff [] (y ∷ ys) = 1 + _token_diff [] ys
_token_diff (x ∷ xs) [] = 1 + _token_diff xs []
_token_diff (x ∷ xs) (y ∷ ys) = (if x == y then 0 else 1) + _token_diff xs ys

-- _token_diff over zip(baseline, sketches), which stops at the shorter one
unfoldable pub sketch_diffs : List (List ℕ) → List (List ℕ) → List ℕ
sketch_diffs [] ss = []
sketch_diffs (b ∷ bs) [] = []
sketch_diffs (b ∷ bs) (s ∷ ss) = _token_diff b s ∷ sketch_diffs bs ss

abbrev pub max_nat : ℕ → ℕ → ℕ
max_nat a b = if ltb a b then b else a

unfoldable pub fold_max : ℕ → List ℕ → ℕ
fold_max m [] = m
fold_max m (d ∷ ds) = fold_max (max_nat m d) ds

-- max(…), which raises on nothing
abbrev pub max_of : List ℕ → Result ℕ
max_of [] = err value_error
max_of (d ∷ ds) = ok (fold_max d ds)

-- The sketches of the loads from `load` on.
unfoldable pub sketches_of :
    (ℕ → String → Response) → List String → ℕ → ℕ → Result (List (List (List ℕ)))
sketches_of generate prompts load zero = ok []
sketches_of generate prompts load (suc n) = elim (sketch (generate load) prompts) [
  | err e ↦ err e
  | ok s ↦ elim (sketches_of generate prompts (suc load) n) [
    | err e ↦ err e
    | ok rest ↦ ok (s ∷ rest)
  ]
]

unfoldable pub drift_from : List (List ℕ) → ℕ → List (List (List ℕ)) → ℕ
drift_from baseline m [] = m
drift_from baseline m (s ∷ rest) = drift_from baseline (fold_max m (sketch_diffs baseline s)) rest

-- CanarySuite.calibrate, as the drift that it observes and freezes as the tolerance.
unfoldable pub calibrate : (ℕ → String → Response) → List String → ℕ → Result ℕ
calibrate generate prompts reloads = elim (sketches_of generate prompts 0 reloads) [
  | err e ↦ err e
  | ok [] ↦ err index_error
  | ok (baseline ∷ others) ↦ ok (drift_from baseline 0 others)
]

pub data CanaryVerdict : Type 0 where
  verdict_pass verdict_mismatch : CanaryVerdict

pub record CanaryResult : Type 0 where
  pub policy_version : ℕ
  pub sketches : List (List ℕ)
  pub max_token_drift : ℕ
  pub verdict : CanaryVerdict

abbrev pub verdict_of : ℕ → ℤ → CanaryVerdict
verdict_of drift tolerance = if leb_ℤ (pos drift) tolerance then verdict_pass else verdict_mismatch

-- CanarySuite.check
unfoldable pub check :
    (String → Response) → List String → ℕ → List (List ℕ) → ℤ → Result CanaryResult
check generate prompts version baseline tolerance = elim (sketch generate prompts) [
  | err e ↦ err e
  | ok ss ↦ elim (max_of (sketch_diffs baseline ss)) [
    | err e ↦ err e
    | ok drift ↦ ok (record {
      policy_version = version;
      sketches = ss;
      max_token_drift = drift;
      verdict = verdict_of drift tolerance;
    })
  ]
]
