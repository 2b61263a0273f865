-- ===== src/Official/Match.antt =====
-- The checks of `_guard_pre_update` of guarded_grpo_trainer.py: the rows of a batch are matched by
-- content to the recorded rollouts.
use grpo_guard.Official.Rollout.{RolloutRecord}
use grpo_guard.Official.Rows.{Row, _masked_real, _span, attention}
use grpo_guard.Prelude.{
  Bool, List, Option, String, [], all, false, get_elem?, if◌then◌else◌, is_some, length, ltb, map,
  none, not, some, true, ℕ, ◌++◌, ◌+◌, ◌==◌, ◌is◌, ◌||◌, ◌∷◌,
}
use grpo_guard.Prelude.Dict.{Dict, insert, lookup, remove}
use grpo_guard.Prelude.Result.{
  Result, err, guard_violation, index_error, ok, raise_if, value_error, ◌>>=◌, ◌>>◌,
}
use grpo_guard.Prelude.Words.{bytes_32}
use grpo_guard.Schema.Refs.{ArtifactRef}
use grpo_guard.Schema.Seal.{Bytes}

-- The columns of the batch; a key that is missing is None, and numpy rows are of one length.
pub record Columns : Type 0 where
  pub prompt_ids : Option (List Row)
  pub completion_ids : Option (List Row)
  pub prompt_mask : Option (List Row)
  pub completion_mask : Option (List Row)
  pub old_per_token_logps : Option (List Row)
  pub advantages : Option (List Row)

-- A dict of one sample.
pub record Sample : Type 0 where
  pub prompt_ids : Option Row
  pub completion_ids : Option Row
  pub prompt_mask : Option Row
  pub completion_mask : Option Row
  pub old_per_token_logps : Option Row
  pub advantages : Option Row

pub data StepInputs : Type 0 where
  column_dict : Columns → StepInputs
  sample_dicts : List Sample → StepInputs

-- [d[k] for d in inputs if k in d]
unfoldable pub collect : (Sample → Option Row) → List Sample → List Row
collect k [] = []
collect k (d ∷ ds) = let rest = collect k ds in elim (k d) [ none ↦ rest | some v ↦ v ∷ rest ]

-- The column of a key, where the first sample has it.
abbrev pub column : (Sample → Option Row) → Sample → List Sample → Option (List Row)
column k first all = if is_some (k first) then some (collect k all) else none

unfoldable pub columns_of : Sample → List Sample → Columns
columns_of first all = record {
  prompt_ids = column (λ s. s.prompt_ids) first all;
  completion_ids = column (λ s. s.completion_ids) first all;
  prompt_mask = column (λ s. s.prompt_mask) first all;
  completion_mask = column (λ s. s.completion_mask) first all;
  old_per_token_logps = column (λ s. s.old_per_token_logps) first all;
  advantages = column (λ s. s.advantages) first all;
}

-- np.asarray of rows that differ in length raises.
abbrev pub is_rectangular : List Row → Bool
is_rectangular [] = true
is_rectangular (r ∷ rs) = all (λ q. length q == length r) rs

unfoldable pub _as_np : Option (List Row) → Result (Option (List Row))
_as_np none = ok none
_as_np (some rows) = if is_rectangular rows then ok (some rows) else err value_error

-- a[i]
abbrev pub row_at : List Row → ℕ → Result Row
row_at rows i = elim (get_elem? rows i) [ none ↦ err index_error | some r ↦ ok r ]

-- np.asarray(a[i]) if a is not None else None
abbrev pub optional_row_at : Option (List Row) → ℕ → Result (Option Row)
optional_row_at none i = ok none
optional_row_at (some rows) i = elim (get_elem? rows i) [
  | none ↦ err index_error
  | some r ↦ ok (some r)
]

abbrev pub ref_hash : Option ArtifactRef → List String
ref_hash none = []
ref_hash (some r) = r.sha256 ∷ []

-- {r["sequence_ref"].sha256: r for r in records}: of two records with one hash the later stays.
unfoldable pub available_from : Dict RolloutRecord → List RolloutRecord → Dict RolloutRecord
available_from d [] = d
available_from d (r ∷ rs) = available_from (insert r.sequence_ref.sha256 r d) rs

-- Counter(hashes)[h]
unfoldable pub counted : String → List String → ℕ
counted h [] = 0
counted h (k ∷ ks) = (if k is h then 1 else 0) + counted h ks

-- counter[h] -= 1
unfoldable pub take_out : String → List String → List String
take_out h [] = []
take_out h (k ∷ ks) = if k is h then ks else k ∷ take_out h ks

abbrev pub advantage_hashes : List RolloutRecord → List String
advantage_hashes [] = []
advantage_hashes (r ∷ rs) = ref_hash r.advantage_ref ++ advantage_hashes rs

module _ (sha256 : Bytes → String) where
  -- The old-logprob span against the record.
  unfoldable pub span_matches : RolloutRecord → Option Row → Bool
  span_matches rec none = false
  span_matches rec (some span) = elim rec.old_logprob_ref [
    | some r ↦ sha256 (bytes_32 span) is r.sha256
    | none ↦ length span == rec.completion_len || length span == rec.completion_len + 1
  ]

  unfoldable pub check_old :
      Columns → ℕ → RolloutRecord → Option Row → Option Row → Result (Unit {0})
  check_old c i rec cm attn = elim c.old_per_token_logps [
    | none ↦ ok tt
    | some rows ↦ do
      row ← row_at rows i
      raise_if (not (span_matches rec (_span (some row) rec.prompt_len rec.completion_len cm attn)))
          guard_violation
  ]

  -- The digest of row i's real tokens.
  unfoldable pub row_hash : Row → Row → Option Row → Option Row → String
  row_hash p c pm cm = sha256 (bytes_32 (_masked_real p pm ++ _masked_real c cm))

  -- The body of the loop: the record that row i consumes.
  unfoldable pub match_row :
      Columns → ℕ → Row → Row → Dict RolloutRecord → Result (String × RolloutRecord)
  match_row c i p q available = do
    pm ← optional_row_at c.prompt_mask i
    cm ← optional_row_at c.completion_mask i
    elim (lookup (row_hash p q pm cm) available) [
      | none ↦ err guard_violation
      | some rec ↦ do check_old c i rec cm (attention pm cm); ok (row_hash p q pm cm, rec)
    ]

  -- for i in range(n_rows), from row i: the digests and records in their order, and what is left.
  unfoldable pub match_rows :
      Columns
      → ℕ
      → List Row
      → List Row
      → Dict RolloutRecord
      → Result (List (String × RolloutRecord) × Dict RolloutRecord)
  match_rows c i [] qs available = ok ([], available)
  match_rows c i (p ∷ ps) [] available = err index_error
  match_rows c i (p ∷ ps) (q ∷ qs) available = do
    found ← match_row c i p q available
    rest ← match_rows c (i + 1) ps qs (remove found.0 available)
    ok (found ∷ rest.0, rest.1)

  -- The loop over the advantages.
  unfoldable pub take_advantages : List Row → List String → Result (Unit {0})
  take_advantages [] avail = ok tt
  take_advantages (row ∷ rows) avail =
      let rest = take_advantages rows (take_out (sha256 (bytes_32 row)) avail) in
      if counted (sha256 (bytes_32 row)) avail == 0 then err guard_violation else rest

  unfoldable pub check_advantages : Option (List Row) → List RolloutRecord → Result (Unit {0})
  check_advantages none recs = ok tt
  check_advantages (some rows) recs =
      if ltb (length (advantage_hashes recs)) (length rows)
      then err guard_violation
      else take_advantages rows (advantage_hashes recs)

  -- The checks of `_guard_pre_update` on a batch of columns: what it consumes, and what is left.
  unfoldable pub verify_columns :
      List RolloutRecord → Columns → Result (List (String × RolloutRecord) × Dict RolloutRecord)
  verify_columns records c = do
    prompt_ids ← _as_np c.prompt_ids
    completion_ids ← _as_np c.completion_ids
    prompt_mask ← _as_np c.prompt_mask
    completion_mask ← _as_np c.completion_mask
    old_lp ← _as_np c.old_per_token_logps
    advantages ← _as_np c.advantages
    elim prompt_ids [
      | none ↦ err guard_violation
      | some ps ↦ elim completion_ids [
        | none ↦ err guard_violation
        | some qs ↦ do
          raise_if (ltb (length records) (length ps)) guard_violation
          matched ← match_rows c 0 ps qs (available_from [] records)
          check_advantages advantages (map (λ m. m.1) matched.0)
          ok matched
      ]
    ]
