-- ===== src/Loss.antt =====
-- src/grpo_guard/adapters/grpo_loss.py: the loss over materialized batches, cut in micro batches. The
-- numbers of torch and their operations are a parameter, and so is the model's log-probability of
-- every next token. An array of rows is a list of lists.
pub mod Arrays
pub mod Chunks
pub mod Advantages
pub mod Clip
pub mod Refused
pub mod Scatter
use grpo_guard.Loss.Arrays.{
  assign_prefix, assign_upto, chunks, concat, count_true, first_of, gather, index_put, max_list,
  pad, upto_pred, view_rows,
}
use grpo_guard.Prelude.{
  Bool, List, Option, [], drop, false, is_nil, length, ltb, map, none, not, replicate, some, take,
  true, ℕ, ◌++◌, ◌-◌, ◌==◌, ◌∷◌,
}
use grpo_guard.Prelude.Int.{pos, pos_part, ℤ}
use grpo_guard.Prelude.Result.{Result, ok, raise_if, value_error, ◌>>=◌, ◌>>◌}

-- torch's operations on float32; the comment names the call of the source.
pub record Torch (F : Type 0) : Type 0 where
  pub zero_f : F
  pub one_f : F
  -- 1e-6 and 1e-9
  pub std_floor : F
  pub count_floor : F
  pub add : F → F → F
  pub sub : F → F → F
  pub mul : F → F → F
  pub div : F → F → F
  pub min_f : F → F → F
  pub neg : F → F
  pub exp_f : F → F
  pub sqrt_f : F → F
  -- torch.clamp(ratio, 1.0 - clip_epsilon, 1.0 + clip_epsilon)
  pub clamp : F → F
  -- .mean(dim=1) and .var(dim=1, unbiased=False) of one group
  pub mean : List F → F
  pub var : List F → F
  pub sum_f : List F → F

-- A MaterializedBatch as arrays.
pub record LossBatch (F : Type 0) : Type 0 where
  pub sequence_token_ids : List ℕ
  pub loss_mask : List ℕ
  pub behavior_logprobs : List F
  pub rewards : List F

-- The arrays of `_stack_batches`.
pub record Stacked (F : Type 0) : Type 0 where
  pub seq : List (List ℕ)
  pub mask : List (List ℕ)
  pub logprobs : List (List F)
  pub rewards : List F

module _ {F : Type 0} where
  abbrev pub max_tokens : List (LossBatch F) → ℕ
  max_tokens bs = max_list (map (λ b. length b.sequence_token_ids) bs)

  abbrev pub max_logprobs : List (LossBatch F) → ℕ
  max_logprobs bs = max_list (map (λ b. length b.behavior_logprobs) bs)

  -- One turn of the first loop, for a batch of T_max tokens.
  unfoldable pub stack_row : ℕ → LossBatch F → Result (List ℕ × List ℕ × F)
  stack_row t_max b = do
    seq ← assign_prefix (length b.sequence_token_ids) 0 t_max b.sequence_token_ids
    mask ←
        assign_upto (length b.sequence_token_ids) 0 (t_max - 1)
          (upto_pred (length b.sequence_token_ids) b.loss_mask)
    one ← first_of b.rewards
    ok (seq, mask, one)

  unfoldable pub stack_rows : ℕ → List (LossBatch F) → Result (List (List ℕ × List ℕ × F))
  stack_rows t_max [] = ok []
  stack_rows t_max (b ∷ bs) = do
    row ← stack_row t_max b
    rows ← stack_rows t_max bs
    ok (row ∷ rows)

  -- np.zeros((B, T_max - 1)) refuses T_max = 0.
  unfoldable pub _stack_batches : F → List (LossBatch F) → Result (Stacked F)
  _stack_batches zero_f bs = do
    raise_if (max_tokens bs == 0) value_error
    rows ← stack_rows (max_tokens bs) bs
    ok (record {
      seq = map (λ r. r.0) rows;
      mask = map (λ r. r.1) rows;
      logprobs = map (λ b. pad zero_f (max_logprobs bs) b.behavior_logprobs) bs;
      rewards = map (λ r. r.2) rows;
    })

-- What `_forward_chunk` returns.
pub record ChunkLoss (F : Type 0) : Type 0 where
  pub loss : F
  pub ratios : List F
  pub masked_count : F

module _ {F : Type 0} (t : Torch F) where
  abbrev pub zip_with : (F → F → F) → List F → List F → List F
  zip_with f [] ys = []
  zip_with f (x ∷ xs) [] = []
  zip_with f (x ∷ xs) (y ∷ ys) = f x y ∷ zip_with f xs ys

  -- (rewards_g - mean) / std of one group
  abbrev pub group_advantages : List F → List F
  group_advantages rs =
      map (λ r. t.div (t.sub r (t.mean rs)) (t.add (t.sqrt_f (t.var rs)) t.std_floor)) rs

  unfoldable pub advantages : ℕ → List F → Result (List F)
  advantages group_size rewards = do
    groups ← view_rows group_size rewards
    ok (concat (map group_advantages groups))

  -- -torch.min(ratio, clipped) * advantage: the sign binds before the product.
  unfoldable pub per_token : F → F → F
  per_token ratio advantage = t.mul (t.neg (t.min_f ratio (t.clamp ratio))) advantage

  abbrev pub as_float : Bool → F
  as_float true = t.one_f
  as_float false = t.zero_f

  -- mask.bool()
  abbrev pub as_bool : ℕ → Bool
  as_bool n = not (n == 0)

  abbrev pub bools : List (List ℕ) → List (List Bool)
  bools rows = map (map as_bool) rows

  -- old_logps[b, : counts[b]] of every row
  abbrev pub real_logprobs : List (List Bool) → List (List F) → List (List F)
  real_logprobs [] rows = []
  real_logprobs (m ∷ ms) [] = []
  real_logprobs (m ∷ ms) (row ∷ rows) = take (count_true m) row ∷ real_logprobs ms rows

  -- advantage.unsqueeze(1), as one entry for every place of its row
  abbrev pub spread : List F → List (List Bool) → List F
  spread [] ms = []
  spread (a ∷ more) [] = []
  spread (a ∷ more) (m ∷ ms) = replicate (length m) a ++ spread more ms

  -- `new_logps seq` is the log-probability of every token after the first, by rows.
  module _ (new_logps : List (List ℕ) → List (List F)) where
    unfoldable pub _forward_chunk : Stacked F → ℕ → Result (ChunkLoss F)
    _forward_chunk s group_size = do
      let mask : List Bool = concat (bools s.mask)
      let fresh : List F = concat (new_logps s.seq)
      old ← index_put t.zero_f mask (concat (real_logprobs (bools s.mask) s.logprobs))
      let ratio : List F = map t.exp_f (zip_with t.sub fresh old)
      advantage ← advantages group_size s.rewards
      let terms : List F = zip_with per_token ratio (spread advantage (bools s.mask))
      ok (record {
        loss = t.sum_f (zip_with t.mul terms (map as_float mask));
        ratios = gather mask ratio;
        masked_count = t.sum_f (map as_float mask);
      })

    unfoldable pub _one_chunk : ℕ → List (LossBatch F) → Result (ChunkLoss F)
    _one_chunk group_size chunk = do s ← _stack_batches t.zero_f chunk; _forward_chunk s group_size

    -- The loop over the chunks after the first.
    unfoldable pub add_chunks : ℕ → List (List (LossBatch F)) → ChunkLoss F → Result (ChunkLoss F)
    add_chunks group_size [] total = ok total
    add_chunks group_size (chunk ∷ rest) total = do
      c ← _one_chunk group_size chunk
      add_chunks group_size rest (record {
        loss = t.add total.loss c.loss;
        ratios = total.ratios ++ c.ratios;
        masked_count = t.add total.masked_count c.masked_count;
      })

    abbrev pub positive : ℤ → Bool
    positive n = ltb 0 (pos_part n)

    -- The loss and the masked ratios, which the reported figures are made from.
    unfoldable pub _loss_from_batches : List (LossBatch F) → ℕ → Option ℤ → Result (F × List F)
    _loss_from_batches batches group_size max_micro_batch = do
      raise_if (is_nil batches) value_error
      let micro : ℤ = elim max_micro_batch [ none ↦ pos (length batches) | some n ↦ n ]
      raise_if (not (positive micro)) value_error
      let n : ℕ = pos_part micro
      first ← _one_chunk group_size (take n batches)
      total ← add_chunks group_size (chunks n (drop n batches)) first
      ok (t.div total.loss (t.add total.masked_count t.count_floor), total.ratios)
