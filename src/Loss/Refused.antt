-- ===== src/Loss/Refused.antt =====
-- Micro batches that cut a group.
use grpo_guard.Loss.{
  LossBatch, Stacked, Torch, _forward_chunk, _loss_from_batches, _one_chunk, _stack_batches,
  advantages, bools, max_tokens, real_logprobs, stack_row, stack_rows,
}
use grpo_guard.Loss.Arrays.{concat, index_put, view_rows}
use grpo_guard.Loss.Chunks.{length-take}
use grpo_guard.Prelude.{
  Bool-cases, List, [], ap, arith, false, inl, inr, is_nil, length, lt→ltb, map, refl, some, suc,
  sym, take, zero, ℕ, ◌%◌, ◌<◌, ◌==◌, ◌∙◌, ◌∷◌, ◌≡◌, ◌≢◌, ◌≤◌,
}
use grpo_guard.Prelude.Int.{pos}
use grpo_guard.Prelude.Result.{
  Error, Result-cases, bind-ok, err, ok, ok-injective, runtime_error, ◌>>=◌,
}

module _ {F : Type 0} (t : Torch F) (new_logps : List (List ℕ) → List (List F)) where
  stack_rows-length :
      (n : ℕ) (bs : List (LossBatch F)) (rows : List (List ℕ × List ℕ × F))
      → stack_rows n bs ≡ ok rows
      → length rows ≡ length bs
  unfolding stack_rows
  stack_rows-length n [] rows h = ground (arith, h)
  stack_rows-length n (b ∷ bs) rows h =
      let (row, e, h1) =
        bind-ok (stack_row n b) (λ row. stack_rows n bs >>= λ rows. ok (row ∷ rows)) h in
      let (more, e1, h2) = bind-ok (stack_rows n bs) (λ rows. ok (row ∷ rows)) h1 in
      let same : row ∷ more ≡ rows = ok-injective h2 in
      omega (arith, ap length same, stack_rows-length n bs more e1)

  length-map : {A B : Type 0} (f : A → B) (xs : List A) → length (map f xs) ≡ length xs
  length-map f [] = refl
  length-map f (x ∷ xs) = ap suc (length-map f xs)

  -- There is one reward for each batch.
  _stack_batches-rewards :
      (bs : List (LossBatch F)) (s : Stacked F)
      → _stack_batches t.zero_f bs ≡ ok s
      → length s.rewards ≡ length bs
  unfolding _stack_batches
  _stack_batches-rewards bs s h =
      let n = max_tokens bs in
      elim (Result-cases (stack_rows n bs)) [
        | inl (rows, e) ↦ ground (
          arith,
          e,
          h,
          Bool-cases (n == 0),
          length-map (λ (r : List ℕ × List ℕ × F). r.2) rows,
          stack_rows-length n bs rows e,
        )
        | inr (why, e) ↦ absurd (ground (arith, e, h))
      ]

  advantages-refused :
      (group_size : ℕ) (rewards : List F)
      → length rewards % group_size ≢ 0
      → advantages t group_size rewards ≡ err runtime_error
  unfolding advantages view_rows
  advantages-refused zero rewards h = refl
  advantages-refused (suc n) rewards h = ground (arith, h)

  _forward_chunk-refused :
      (s : Stacked F) (group_size : ℕ)
      → length s.rewards % group_size ≢ 0
      → (e : Error) × (_forward_chunk t new_logps s group_size ≡ err e)
  unfolding _forward_chunk
  _forward_chunk-refused s group_size h =
      elim (Result-cases (
        index_put t.zero_f (concat (bools t s.mask))
          (concat (real_logprobs t (bools t s.mask) s.logprobs)))) [
            | inl (old, e) ↦ (runtime_error, rw (e, advantages-refused group_size s.rewards h) refl)
            | inr (why, e) ↦ (why, rw e refl)
          ]

  _one_chunk-refused :
      (group_size : ℕ) (bs : List (LossBatch F))
      → length bs % group_size ≢ 0
      → (e : Error) × (_one_chunk t new_logps group_size bs ≡ err e)
  unfolding _one_chunk
  _one_chunk-refused group_size bs h = elim (Result-cases (_stack_batches t.zero_f bs)) [
    | inl (s, e) ↦
        let (why, f) =
          _forward_chunk-refused s group_size
            (λ z. h (ap (λ k. k % group_size) (sym (_stack_batches-rewards bs s e)) ∙ z)) in
        (why, rw (e, f) refl)
    | inr (why, e) ↦ (why, rw e refl)
  ]

  not_empty : (bs : List (LossBatch F)) → 0 < length bs → is_nil bs ≡ false
  not_empty [] h = absurd (omega (arith, h))
  not_empty (b ∷ bs) h = refl

  -- If the micro batch is no multiple of the group size and there are at least as many batches as
  -- it holds, _loss_from_batches raises.
  pub _loss_from_batches-refused :
      (batches : List (LossBatch F)) (group_size micro : ℕ)
      → 0 < micro
      → micro ≤ length batches
      → micro % group_size ≢ 0
      → (e : Error) × (_loss_from_batches t new_logps batches group_size (some (pos micro)) ≡ err e)
  unfolding _loss_from_batches
  _loss_from_batches-refused batches group_size micro some_rows enough h =
      let (why, e) =
        _one_chunk-refused group_size (take micro batches)
          (λ z. h (ap (λ k. k % group_size) (sym (length-take micro batches enough)) ∙ z)) in
      (
        why,
        ground (
          arith,
          e,
          lt→ltb 0 micro some_rows,
          not_empty batches (omega (arith, some_rows, enough)),
        ),
      )
