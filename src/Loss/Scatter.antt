-- ===== src/Loss/Scatter.antt =====
-- The behavior logprobs of stacked batches, as the loss reads them at the masked places.
use grpo_guard.Loss.{
  LossBatch, Stacked, Torch, _stack_batches, as_bool, bools, max_logprobs, max_tokens,
  real_logprobs, stack_row, stack_rows,
}
use grpo_guard.Loss.Arrays.{
  assign, assign_prefix, assign_upto, concat, count_true, first_of, gather, index_put, pad, scatter,
  upto_pred,
}
use grpo_guard.Loss.Chunks.{length-take, take_all}
use grpo_guard.Prelude.{
  All, Bool, List, [], ap, arith, false, length, length-append, length-replicate, map, refl,
  replicate, suc, sym, take, true, zero, ℕ, ◌++◌, ◌+◌, ◌-◌, ◌<◌, ◌==◌, ◌∙◌, ◌∷◌, ◌≡◌, ◌≤◌,
}
use grpo_guard.Prelude.Result.{ok}
use Prim.Native.Nat.{min}

module _ {F : Type 0} (t : Torch F) where
  -- A batch whose mask has one place for every token after the first, and one logprob for every
  -- masked place.
  pub record IsAligned (b : LossBatch F) : Type 0 where
    pub tokens : 0 < length b.sequence_token_ids
    pub places : length b.loss_mask + 1 ≡ length b.sequence_token_ids
    pub logprobs : length b.behavior_logprobs ≡ count_true (map (as_bool t) b.loss_mask)
    pub rewarded : 0 < length b.rewards

  abbrev pub all_logprobs : List (LossBatch F) → List F
  all_logprobs bs = concat (map (λ b. b.behavior_logprobs) bs)

  gather-scatter :
      (z : F) (mask : List Bool) (vs : List F)
      → length vs ≡ count_true mask
      → gather mask (scatter z mask vs) ≡ vs
  gather-scatter z [] [] h = refl
  gather-scatter z [] (v ∷ vs) h = absurd (omega (arith, h))
  gather-scatter z (true ∷ mask) [] h = absurd (omega (arith, h))
  gather-scatter z (true ∷ mask) (v ∷ vs) h =
      ap (λ l. v ∷ l) (gather-scatter z mask vs (omega (arith, h)))
  gather-scatter z (false ∷ mask) vs h = gather-scatter z mask vs h

  upto_pred-all : {A : Type 0} (n : ℕ) (xs : List A) → length xs + 1 ≡ n → upto_pred n xs ≡ xs
  upto_pred-all zero xs h = absurd (omega (arith, h))
  upto_pred-all (suc n) xs h = take_all n xs (omega (arith, h))

  upto_pred-length :
      {A : Type 0} (n m : ℕ) (a : A)
      → 0 < n
      → n ≤ m + 1
      → length (upto_pred n (replicate m a)) + 1 ≡ n
  upto_pred-length zero m a h k = absurd (omega (arith, h))
  upto_pred-length (suc n) m a h k =
      omega (arith, length-take n (replicate m a) (omega (arith, k, length-replicate m a)))

  assign-fits :
      {A : Type 0} (k m : ℕ) (a : A) (xs : List A)
      → length xs ≡ k
      → assign k a m xs ≡ ok (pad a m xs)
  assign-fits k m a xs h = ground (arith, h)

  first_of-some : (rs : List F) → 0 < length rs → (r : F) × (first_of rs ≡ ok r)
  first_of-some [] h = absurd (omega (arith, h))
  first_of-some (r ∷ rs) h = (r, refl)

  min-fits : (a b : ℕ) → a ≤ b → a ≡ min a b
  min-fits a b h = omega (arith, h)

  -- A row of an aligned batch, in a batch that it fits in.
  stack_row-padded :
      (n : ℕ) (b : LossBatch F)
      → IsAligned b
      → length b.sequence_token_ids ≤ n
      → (seq : List ℕ) × (one : F) × (stack_row n b ≡ ok (seq, pad 0 (n - 1) b.loss_mask, one))
  unfolding stack_row assign_prefix assign_upto
  stack_row-padded n b a h =
      let size = length b.sequence_token_ids in
      let (r, e) = first_of-some b.rewards a.rewarded in
      let places = upto_pred-all size b.loss_mask a.places in
      let seq = assign-fits (min size n) n 0 b.sequence_token_ids (min-fits size n h) in
      let fits : length b.loss_mask ≡ length (upto_pred size (replicate {A = ℕ} (n - 1) 0)) =
        omega (
          arith,
          a.places,
          upto_pred-length {A = ℕ} size (n - 1) 0 a.tokens (omega (arith, h, a.tokens)),
        ) in
      let mask =
        assign-fits (length (upto_pred size (replicate {A = ℕ} (n - 1) 0))) (n - 1) 0 b.loss_mask
          fits in
      (
        pad 0 n b.sequence_token_ids,
        r,
        rw (stack_row, assign_prefix, assign_upto, seq, places, mask, e) refl,
      )

  -- The mask of one row, seen from the stacked batch: the padding adds no place.
  count-padded :
      (n : ℕ) (mask : List ℕ)
      → count_true (map (as_bool t) (pad 0 n mask)) ≡ count_true (map (as_bool t) mask)
  count-padded n mask = go (n - length mask) mask
    where
      zeros : (k : ℕ) → count_true (map (as_bool t) (replicate k 0)) ≡ 0
      zeros zero = refl
      zeros (suc k) = zeros k

      go :
          (k : ℕ) (mask : List ℕ)
          → count_true (map (as_bool t) (mask ++ replicate k 0)) ≡ count_true (map (as_bool t) mask)
      go k [] = zeros k
      go k (zero ∷ mask) = go k mask
      go k (suc x ∷ mask) = ground (arith, go k mask)

  take-append : {A : Type 0} (k : ℕ) (xs ys : List A) → length xs ≡ k → take k (xs ++ ys) ≡ xs
  take-append zero [] ys h = refl
  take-append zero (x ∷ xs) ys h = absurd (omega (arith, h))
  take-append (suc k) [] ys h = absurd (omega (arith, h))
  take-append (suc k) (x ∷ xs) ys h = ap (λ l. x ∷ l) (take-append k xs ys (omega (arith, h)))

  -- The rows of aligned batches.
  stack_rows-padded :
      (n : ℕ) (bs : List (LossBatch F))
      → All IsAligned bs
      → All (λ b. length b.sequence_token_ids ≤ n) bs
      → (rows : List (List ℕ × List ℕ × F)) × (stack_rows n bs ≡ ok rows)
        × (map (λ r. r.1) rows ≡ map (λ b. pad 0 (n - 1) b.loss_mask) bs)
  unfolding stack_rows
  stack_rows-padded n [] a h = ([], refl, refl)
  stack_rows-padded n (b ∷ bs) a h =
      let (seq, one, e) = stack_row-padded n b (a.0) (h.0) in
      let (rows, e1, m) = stack_rows-padded n bs (a.1) (h.1) in
      (
        (seq, pad 0 (n - 1) b.loss_mask, one) ∷ rows,
        rw (stack_rows, e, e1) refl,
        ap (λ l. pad 0 (n - 1) b.loss_mask ∷ l) m,
      )

  real-padded :
      (n c : ℕ) (bs : List (LossBatch F))
      → All IsAligned bs
      → real_logprobs t
          (bools t (map (λ b. pad 0 n b.loss_mask) bs))
          (map (λ b. pad t.zero_f c b.behavior_logprobs) bs)
        ≡ map (λ b. b.behavior_logprobs) bs
  real-padded n c [] a = refl
  real-padded n c (b ∷ bs) a =
      rw
        (take-append (count_true (map (as_bool t) (pad 0 n b.loss_mask))) b.behavior_logprobs
          (replicate (c - length b.behavior_logprobs) t.zero_f)
          (a.0.logprobs ∙ sym (count-padded n b.loss_mask)))
        (ap (λ l. b.behavior_logprobs ∷ l) (real-padded n c bs (a.1)))

  count-++ : (a b : List Bool) → count_true (a ++ b) ≡ count_true a + count_true b
  count-++ [] b = omega arith
  count-++ (true ∷ a) b = omega (arith, count-++ a b)
  count-++ (false ∷ a) b = count-++ a b

  -- There are as many logprobs as masked places.
  count-all :
      (n : ℕ) (bs : List (LossBatch F))
      → All IsAligned bs
      → length (all_logprobs bs) ≡ count_true (concat (bools t (map (λ b. pad 0 n b.loss_mask) bs)))
  count-all n [] a = refl
  count-all n (b ∷ bs) a = omega (
    arith,
    length-append b.behavior_logprobs (all_logprobs bs),
    a.0.logprobs,
    count-padded n b.loss_mask,
    count-++ (map (as_bool t) (pad 0 n b.loss_mask))
        (concat (bools t (map (λ b. pad 0 n b.loss_mask) bs))),
    count-all n bs (a.1),
  )

  All-below :
      (n : ℕ) (bs : List (LossBatch F))
      → max_tokens bs ≤ n
      → All (λ b. length b.sequence_token_ids ≤ n) bs
  All-below n [] h = tt
  All-below n (b ∷ bs) h = (omega (arith, h), All-below n bs (omega (arith, h)))

  -- What the loss finds on the masked places of stacked batches.
  pub record ReadsLogprobs (bs : List (LossBatch F)) (s : Stacked F) : Type 0 where
    pub old : List F
    pub put :
        index_put t.zero_f
          (concat (bools t s.mask))
          (concat (real_logprobs t (bools t s.mask) s.logprobs))
        ≡ ok old
    pub read : gather (concat (bools t s.mask)) old ≡ all_logprobs bs

  index_put-fits :
      (z : F) (mask : List Bool) (vs : List F)
      → length vs ≡ count_true mask
      → index_put z mask vs ≡ ok (scatter z mask vs)
  unfolding index_put
  index_put-fits z mask vs h = ground (arith, h)

  -- Batches that have a mask entry for every token after the first, a logprob for every masked
  -- place and a reward are stacked without an error, and on the masked places of the padded batch,
  -- in their order, stand exactly the behavior logprobs of the batches, one after the other.
  pub stacked-ReadsLogprobs :
      (bs : List (LossBatch F))
      → 0 < length bs
      → All IsAligned bs
      → (s : Stacked F) × (_stack_batches t.zero_f bs ≡ ok s) × ReadsLogprobs bs s
  unfolding _stack_batches
  stacked-ReadsLogprobs bs some_batches a =
      let n = max_tokens bs in
      let (rows, e, masks) = stack_rows-padded n bs a (All-below n bs (omega arith)) in
      let s : Stacked F = record {
        seq = map (λ r. r.0) rows;
        mask = map (λ r. r.1) rows;
        logprobs = map (λ b. pad t.zero_f (max_logprobs bs) b.behavior_logprobs) bs;
        rewards = map (λ r. r.2) rows;
      } in
      let rebuilt : concat (real_logprobs t (bools t s.mask) s.logprobs) ≡ all_logprobs bs =
        rw masks (ap concat (real-padded (n - 1) (max_logprobs bs) bs a)) in
      let counted : length (all_logprobs bs) ≡ count_true (concat (bools t s.mask)) =
        rw masks (count-all (n - 1) bs a) in
      (
        s,
        ground (arith, e, some_tokens bs some_batches a),
        record {
          old = scatter t.zero_f (concat (bools t s.mask)) (all_logprobs bs);
          put =
              ap (index_put t.zero_f (concat (bools t s.mask))) rebuilt
              ∙ index_put-fits t.zero_f (concat (bools t s.mask)) (all_logprobs bs) counted;
          read = gather-scatter t.zero_f (concat (bools t s.mask)) (all_logprobs bs) counted;
        },
      )
    where
      some_tokens :
          (bs : List (LossBatch F))
          → 0 < length bs
          → All IsAligned bs
          → (max_tokens bs == 0) ≡ false
      some_tokens [] h a = absurd (omega (arith, h))
      some_tokens (b ∷ bs) h a = ground (arith, a.0.tokens)
