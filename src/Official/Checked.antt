-- ===== src/Official/Checked.antt =====
-- The step seam on one batch: what a call of `_guard_pre_update` checked and what it leaves.
use grpo_guard.Official.Consumed.{Matches-row_digests, digests, row_digests}
use grpo_guard.Official.Match.{
  Columns, StepInputs, column_dict, columns_of, sample_dicts, verify_columns,
}
use grpo_guard.Official.Rollout.{Guard, RolloutRecord}
use grpo_guard.Official.Rows.{Row}
use grpo_guard.Official.Step.{_guard_pre_update, commit_matched, verify_batch}
use grpo_guard.Prelude.{
  Bool-cases, ap, true, List, Option, String, [], arith, false, if◌then◌else◌, inl, inr, is_nil,
  none, refl, some, ◌++◌, ◌∷◌, ◌≡◌, ◌∙◌, ◌⊎◌,
}
use grpo_guard.Prelude.Dict.{Dict}
use grpo_guard.Prelude.Result.{Error, Result-cases, err, ok}
use grpo_guard.Schema.Seal.{Bytes}
use grpo_guard.Official.Verified.{Verified, Verified-verify_columns, verify_columns-Verified}

module _ (sha256 : Bytes → String) where
  -- The columns that a call verifies, if it comes so far.
  abbrev pub columns_for : StepInputs → Option Columns
  columns_for (column_dict c) = some c
  columns_for (sample_dicts []) = none
  columns_for (sample_dicts (s ∷ ss)) = some (columns_of s (s ∷ ss))

  -- The digests of the real tokens of the batch's rows.
  abbrev pub digests_of : Option (List Row) → Option (List Row) → Columns → List String
  digests_of (some ps) (some qs) c = row_digests sha256 c 0 ps qs
  digests_of (some ps) none c = []
  digests_of none q c = []

  abbrev pub columns_digests : Option Columns → List String
  columns_digests none = []
  columns_digests (some c) = digests_of c.prompt_ids c.completion_ids c

  abbrev pub batch_digests : StepInputs → List String
  batch_digests x = columns_digests (columns_for x)

  -- What a call lets the trainer consume: every row of the batch, if it returns.
  unfoldable pub consumed_by : Guard → StepInputs → List String
  consumed_by g x = elim (_guard_pre_update sha256 x g).0 [ ok u ↦ batch_digests x | err e ↦ [] ]

  -- The calls of a sequence of steps, the failed ones among them, up to the first that finds no
  -- record left: from there on no call checks anything.
  unfoldable pub consumed_over : Guard → List StepInputs → List String
  consumed_over g [] = []
  consumed_over g (x ∷ xs) =
      let rest = consumed_over (_guard_pre_update sha256 x g).1 xs in
      if is_nil g.rollouts then [] else consumed_by g x ++ rest

  -- A call has no record or no sample to check and passes; or it refuses the batch and leaves the
  -- guard alone; or it has verified its columns.
  pub data Outcome (g : Guard) (x : StepInputs) : Type 0 where
    unchecked :
        (is_nil g.rollouts ≡ true) ⊎ (x ≡ sample_dicts [])
        → _guard_pre_update sha256 x g ≡ (ok tt, g)
        → Outcome g x
    refused :
        (c : Columns) (why : Error)
        → columns_for x ≡ some c
        → verify_columns sha256 g.rollouts c ≡ err why
        → ((r : List (String × RolloutRecord) × Dict RolloutRecord)
            → ¬ Verified sha256 g.rollouts c r)
        → _guard_pre_update sha256 x g ≡ (err why, g)
        → Outcome g x
    verified :
        (c : Columns) (r : List (String × RolloutRecord) × Dict RolloutRecord)
        → columns_for x ≡ some c
        → Verified sha256 g.rollouts c r
        → batch_digests x ≡ digests r.0
        → _guard_pre_update sha256 x g ≡ (ok tt, commit_matched sha256 g r.1)
        → Outcome g x

  Verified-digests_of :
      (records : List RolloutRecord) (c : Columns)
      (r : List (String × RolloutRecord) × Dict RolloutRecord)
      → Verified sha256 records c r
      → digests_of c.prompt_ids c.completion_ids c ≡ digests r.0
  Verified-digests_of records c r v =
      ap (λ p. digests_of p c.completion_ids c) v.prompt_ids
      ∙ ap (λ q. digests_of (some v.prompts) q c) v.completion_ids
      ∙ Matches-row_digests sha256 c v.matches

  verify_batch-Outcome :
      (g : Guard) (x : StepInputs) (c : Columns)
      → is_nil g.rollouts ≡ false
      → columns_for x ≡ some c
      → _guard_pre_update sha256 x g ≡ verify_batch sha256 c g
      → Outcome g x
  unfolding verify_batch
  verify_batch-Outcome g x c some_left ce same =
      elim (Result-cases (verify_columns sha256 g.rollouts c)) [
        | inl (r, e) ↦
            let v = verify_columns-Verified sha256 g.rollouts c r e in
            verified c r ce v (ap columns_digests ce ∙ Verified-digests_of g.rollouts c r v)
              (ground (arith, same, e))
        | inr (why, e) ↦
            refused c why ce e
              (λ r v. ground (arith, e, Verified-verify_columns sha256 g.rollouts c r v))
              (ground (arith, same, e))
      ]

  pub _guard_pre_update-Outcome : (g : Guard) (x : StepInputs) → Outcome g x
  unfolding _guard_pre_update
  _guard_pre_update-Outcome g (column_dict c) = elim (Bool-cases (is_nil g.rollouts)) [
    | inl empty ↦ unchecked (inl empty) (ground (arith, empty))
    | inr some_left ↦
        verify_batch-Outcome g (column_dict c) c some_left refl (ground (arith, some_left))
  ]
  _guard_pre_update-Outcome g (sample_dicts []) = unchecked (inr refl) refl
  _guard_pre_update-Outcome g (sample_dicts (s ∷ ss)) = elim (Bool-cases (is_nil g.rollouts)) [
    | inl empty ↦ unchecked (inl empty) (ground (arith, empty))
    | inr some_left ↦
        verify_batch-Outcome g (sample_dicts (s ∷ ss)) (columns_of s (s ∷ ss)) some_left refl
          (ground (arith, some_left))
  ]
