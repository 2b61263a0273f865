-- ===== src/Official/Exhausted.antt =====
-- What a step is when no recorded rollout is left.
use grpo_guard.Official.Available.{sequence_hash}
use grpo_guard.Official.Verified.{verify_columns-Verified}
use grpo_guard.Official.Consumed.{Matches, next_row, no_rows}
use grpo_guard.Official.Match.{
  Columns, StepInputs, available_from, column_dict, sample_dicts, verify_columns,
}
use grpo_guard.Official.Rollout.{Guard, RolloutRecord}
use grpo_guard.Official.Rows.{Row}
use grpo_guard.Official.Step.{_guard_pre_update, _prepare_inputs, verify_batch, verify_enabled}
use grpo_guard.Prelude.{
  List, String, [], ap, arith, false, inl, inr, is_nil, length, none, refl, some, suc, true, ℕ, ◌+◌,
  ◌∷◌, ◌≡◌, ◌≤◌,
}
use grpo_guard.Prelude.Dict.{Dict, insert, lookup, remove, values}
use grpo_guard.Prelude.Result.{Result-cases, ok}
use grpo_guard.Schema.Seal.{Bytes}
use grpo_guard.Prelude.Action.{pure}

module _ (sha256 : Bytes → String) where
  length-remove :
      (k : String) (d : Dict RolloutRecord) (r : RolloutRecord)
      → lookup k d ≡ some r
      → suc (length (remove k d)) ≡ length d
  unfolding remove lookup
  length-remove k [] r h = absurd (ground (arith, h))
  length-remove k ((j, v) ∷ d) r h = ground (arith, h, length-remove k d r)

  length-left :
      {c : Columns} {i : ℕ} {ps qs : List Row} {d : Dict RolloutRecord}
      {ms : List (String × RolloutRecord)} {left : Dict RolloutRecord}
      → Matches sha256 c i ps qs d ms left
      → length left + length ps ≡ length d
  length-left (no_rows i qs d) = omega arith
  length-left (next_row i p q ps qs d left m ms b rest) =
      omega (arith, length-left rest, length-remove m.0 d m.1 b.found)

  length-insert :
      (k : String) (r : RolloutRecord) (d : Dict RolloutRecord)
      → length (insert k r d) ≤ suc (length d)
  unfolding insert
  length-insert k r [] = omega arith
  length-insert k r ((j, v) ∷ d) = ground (arith, length-insert k r d)

  length-available_from :
      (d : Dict RolloutRecord) (rs : List RolloutRecord)
      → length (available_from d rs) ≤ length d + length rs
  unfolding available_from
  length-available_from d [] = omega arith
  length-available_from d (r ∷ rs) = omega (
    arith,
    length-available_from (insert (sequence_hash r) r d) rs,
    length-insert (sequence_hash r) r d,
  )

  none_left : (d : Dict RolloutRecord) → length d ≡ 0 → values d ≡ []
  none_left [] h = refl
  none_left ((k, v) ∷ d) h = absurd (omega (arith, h))

  passes_all :
      (g : Guard) (x : StepInputs) → g.rollouts ≡ [] → _guard_pre_update sha256 x g ≡ (ok tt, g)
  unfolding _guard_pre_update
  passes_all g (column_dict c) h = rw h refl
  passes_all g (sample_dicts []) h = refl
  passes_all g (sample_dicts (s ∷ ss)) h = rw h refl

  all_gone :
      (g : Guard) (c : Columns) (rows : List Row)
      → is_nil g.rollouts ≡ false
      → c.prompt_ids ≡ some rows
      → length rows ≡ length g.rollouts
      → (_guard_pre_update sha256 (column_dict c) g).0 ≡ ok tt
      → (_guard_pre_update sha256 (column_dict c) g).1.rollouts ≡ []
  unfolding _guard_pre_update verify_batch
  all_gone g c rows some_left pe n passed =
      elim (Result-cases (verify_columns sha256 g.rollouts c)) [
        | inl (r, e) ↦
            let v = verify_columns-Verified sha256 g.rollouts c r e in
            let same : v.prompts ≡ rows = ground (arith, v.prompt_ids, pe) in
            let short : length r.1 ≡ 0 = omega (
              arith,
              length-left v.matches,
              length-available_from [] g.rollouts,
              ap (λ (l : List Row). length l) same,
              n,
            ) in
            let none_of : values r.1 ≡ [] = none_left r.1 short in
            ground (arith, some_left, e, none_of)
        | inr (why, e) ↦ absurd (ground (arith, some_left, e, passed))
      ]

  -- After a batch with as many rows as there are recorded rollouts has passed, _prepare_inputs
  -- returns every batch, whatever its rows are, and gives it the optimizer's capability.
  pub exhausted_passes :
      (g : Guard) (c : Columns) (rows : List Row) (foreign : StepInputs)
      → is_nil g.rollouts ≡ false
      → c.prompt_ids ≡ some rows
      → length rows ≡ length g.rollouts
      → (_guard_pre_update sha256 (column_dict c) g).0 ≡ ok tt
      → _prepare_inputs sha256 (pure foreign) none (_guard_pre_update sha256 (column_dict c) g).1
        ≡ (
          ok foreign,
          record (_guard_pre_update sha256 (column_dict c) g).1 { step_capability = true },
        )
  unfolding _prepare_inputs verify_enabled
  exhausted_passes g c rows foreign some_left pe n passed =
      let gone : (_guard_pre_update sha256 (column_dict c) g).1.rollouts ≡ [] =
        all_gone g c rows some_left pe n passed in
      ground (
        arith,
        passes_all
            (record (_guard_pre_update sha256 (column_dict c) g).1 { step_capability = false })
            foreign gone,
      )
