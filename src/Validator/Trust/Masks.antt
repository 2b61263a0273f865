-- ===== src/Validator/Trust/Masks.antt =====
-- What the silence of the T, M and L004 rules says of the stored bytes of a generation.
use grpo_guard.Align.{
  Alignment, apply_padding, fill, is_binary, mask_from_artifact_bytes, reconstruct_alignment,
}
use grpo_guard.Align.Canonical.{IsCanonical, reconstruct_alignment-IsCanonical}
use grpo_guard.ArtifactStore.{get, verify}
use grpo_guard.ArtifactStore.Content.{eq_bytes_sound, verify_iff}
use grpo_guard.Context.{ValidationContext}
use grpo_guard.Prelude.{
  Bool, Bool-cases, List, String, [], all, arith, false, inl, inr, length, replicate, some, true, ℕ,
  ◌&&◌, ◌-◌, ◌==◌, ◌||◌, ◌∷◌, ◌≡◌, ◌≢◌, ◌⊎◌,
}
use grpo_guard.Prelude.Int.{leb_ℤ, ltb_ℤ, negsuc, pos, pos_part, ℤ}
use grpo_guard.Prelude.Result.{Result-cases, alignment_error, empty_completion_error, err, ok}
use grpo_guard.Rules.Base.{_gen, _scoring}
use grpo_guard.Rules.Logprobs.{l004_token_logprob_length_mismatch}
use grpo_guard.Rules.Masks.{
  m001_mask_shape_mismatch, m004_canonical_mask_mismatch, m005_empty_completion, read_mask,
}
use grpo_guard.Rules.Table.{run_rule}
use grpo_guard.Rules.Tokens.{
  _alignment, element_count, generation_refs, t001_artifact_hash_mismatch, t005_span_out_of_range,
}
use grpo_guard.Schema.Decision.{l004, m001, m004, m005, t001, t005}
use grpo_guard.Schema.Events.{GenerationEvent, ScoringEvent}
use grpo_guard.Schema.Refs.{ArtifactRef}
use grpo_guard.Schema.Seal.{Bytes}
use grpo_guard.Validator.Decide.{Silent}

apply_padding-ne-empty :
    (n : ℕ) (start end : ℤ) (spans : List (List ℤ)) (w : Bool) (t : List ℕ)
    → apply_padding n start end spans w t ≢ err empty_completion_error
unfolding apply_padding
apply_padding-ne-empty n start end [] w t h = cc
apply_padding-ne-empty n start end ((s ∷ e ∷ []) ∷ rest) w t h = ground (
  arith,
  apply_padding-ne-empty n start end rest (w || (ltb_ℤ s end && ltb_ℤ start e))
      (fill 0 (pos_part s) (pos_part e) 0 t),
)
apply_padding-ne-empty n start end ([] ∷ rest) w t h = cc
apply_padding-ne-empty n start end ((s ∷ []) ∷ rest) w t h = cc
apply_padding-ne-empty n start end ((s ∷ e ∷ x ∷ xs) ∷ rest) w t h = cc

-- EmptyCompletionError is raised only for a completion that M005 quarantines.
empty_cases :
    (n : ℕ) (start end : ℤ) (spans : List (List ℤ))
    → reconstruct_alignment n start end spans (pos 0) ≡ err empty_completion_error
    → leb_ℤ end start ≡ true
unfolding reconstruct_alignment
empty_cases n (pos s) (pos e) spans h =
    ground
      (arith, apply_padding-ne-empty n (pos s) (pos e) spans false (fill 0 s e 1 (replicate n 0)))
empty_cases n (pos s) (negsuc e) spans h = ground arith
empty_cases n (negsuc s) e spans h = ground arith

module _ (sha256 : Bytes → String) (ctx : ValidationContext) (gen : GenerationEvent) where
  -- Every artifact of the generation still has the digest and size of its reference.
  pub Silent-verified :
      _gen ctx ≡ some gen
      → Silent sha256 ctx t001
      → all (verify sha256 ctx.store) (generation_refs gen) ≡ true
  unfolding run_rule t001_artifact_hash_mismatch
  Silent-verified g s = ground arith

  -- The alignment exists: its failures are reported by T005 or M005.
  alignment_of :
      _gen ctx ≡ some gen
      → Silent sha256 ctx t005
      → _alignment sha256 ctx ≢ err empty_completion_error
      → (a : Alignment) × (_alignment sha256 ctx ≡ ok a)
  unfolding run_rule t005_span_out_of_range
  alignment_of g s nonempty = ground arith

  alignment-nonempty :
      _gen ctx ≡ some gen
      → Silent sha256 ctx m005
      → _alignment sha256 ctx ≢ err empty_completion_error
  unfolding run_rule m005_empty_completion _alignment
  alignment-nonempty g s h = elim (Result-cases (get sha256 ctx.store gen.sequence_token_ids)) [
    | inr (e, failed) ↦ ground arith
    | inl (seq, read) ↦ ground (
      arith,
      empty_cases (element_count gen.sequence_token_ids seq) gen.completion_span.0
          gen.completion_span.1 gen.padding_spans,
    )
  ]

  -- The stored masks are the canonical masks of the stored sequence, byte for byte.
  pub record MasksBound : Type 0 where
    pub seq : Bytes
    pub a : Alignment
    pub seq_read : get sha256 ctx.store gen.sequence_token_ids ≡ ok seq
    pub aligned : _alignment sha256 ctx ≡ ok a
    pub canonical :
        IsCanonical
          (element_count gen.sequence_token_ids seq)
          gen.completion_span.0
          gen.completion_span.1
          gen.padding_spans
          a
    pub target_read : get sha256 ctx.store gen.completion_target_mask ≡ ok a.completion_target_mask
    pub loss_read : get sha256 ctx.store gen.loss_mask ≡ ok a.loss_mask

  seq_of :
      _gen ctx ≡ some gen
      → (a : Alignment) → _alignment sha256 ctx ≡ ok a
      → (seq : Bytes) × (get sha256 ctx.store gen.sequence_token_ids ≡ ok seq)
        × IsCanonical
            (element_count gen.sequence_token_ids seq)
            gen.completion_span.0
            gen.completion_span.1
            gen.padding_spans
            a
  unfolding _alignment
  seq_of g a h = elim (Result-cases (get sha256 ctx.store gen.sequence_token_ids)) [
    | inr (e, failed) ↦ absurd (ground arith)
    | inl (seq, read) ↦ (
      seq,
      read,
      reconstruct_alignment-IsCanonical (element_count gen.sequence_token_ids seq)
          gen.completion_span.0 gen.completion_span.1 gen.padding_spans (pos 0) a (ground arith),
    )
  ]

  -- A verified mask is read as its bytes, or refused with AlignmentError.
  read_mask-cases :
      (r : ArtifactRef) (n : ℕ)
      → verify sha256 ctx.store r ≡ true
      → ((m : List ℕ) × (read_mask sha256 ctx r n ≡ ok m) × (get sha256 ctx.store r ≡ ok m))
        ⊎ (read_mask sha256 ctx r n ≡ err alignment_error)
  unfolding read_mask mask_from_artifact_bytes
  read_mask-cases r n v =
      let (bytes, read) = verify_iff sha256 ctx.store r v in
      elim (Bool-cases (length bytes == n && all is_binary bytes)) [
        | inl fine ↦ inl (bytes, ground arith, read)
        | inr bad ↦ inr (ground arith)
      ]

  masks_read :
      (a : Alignment)
      → _gen ctx ≡ some gen
      → _alignment sha256 ctx ≡ ok a
      → verify sha256 ctx.store gen.completion_target_mask ≡ true
      → verify sha256 ctx.store gen.loss_mask ≡ true
      → Silent sha256 ctx m004
      → (get sha256 ctx.store gen.completion_target_mask ≡ ok a.completion_target_mask)
        × (get sha256 ctx.store gen.loss_mask ≡ ok a.loss_mask)
  unfolding run_rule m004_canonical_mask_mismatch
  masks_read a g al vt vl s = elim (read_mask-cases gen.completion_target_mask a.total vt) [
    | inr bad ↦ absurd (ground arith)
    | inl (t, rt, gt) ↦ elim (read_mask-cases gen.loss_mask (a.total - 1) vl) [
      | inr bad ↦ absurd (ground arith)
      | inl (l, rl, gl) ↦ (
        ground (arith, eq_bytes_sound t a.completion_target_mask),
        ground (arith, eq_bytes_sound l a.loss_mask),
      )
    ]
  ]

  pub Silent-MasksBound :
      _gen ctx ≡ some gen
      → Silent sha256 ctx t001
      → Silent sha256 ctx t005
      → Silent sha256 ctx m004
      → Silent sha256 ctx m005
      → MasksBound
  Silent-MasksBound g s1 s5 s4 m5 =
      let v = Silent-verified g s1 in
      let (a, al) = alignment_of g s5 (alignment-nonempty g m5) in
      let (seq, read, canonical) = seq_of g a al in
      let (target, loss) = masks_read a g al (ground arith) (ground arith) s4 in
      record {
        seq = seq;
        a = a;
        seq_read = read;
        aligned = al;
        canonical = canonical;
        target_read = target;
        loss_read = loss;
      }

  -- Padding lies outside the completion, and the logprobs are one number for each of its tokens:
  -- the service's, and the scorer's where their artifact can be read.
  pub record LengthsBound (a : Alignment) : Type 0 where
    pub no_padding : a.padding_within_completion ≡ false
    pub service :
        (r : ArtifactRef)
        → gen.service_behavior_logprobs ≡ some r
        → (bytes : Bytes) × (get sha256 ctx.store r ≡ ok bytes)
          × (element_count r bytes ≡ a.completion_len)
    pub scorer :
        (sc : ScoringEvent) (bytes : Bytes)
        → _scoring ctx ≡ some sc
        → get sha256 ctx.store sc.behavior_logprobs ≡ ok bytes
        → element_count sc.behavior_logprobs bytes ≡ a.completion_len

  service_bound :
      (a : Alignment) (r : ArtifactRef)
      → _gen ctx ≡ some gen
      → _alignment sha256 ctx ≡ ok a
      → gen.service_behavior_logprobs ≡ some r
      → verify sha256 ctx.store gen.completion_target_mask ≡ true
      → verify sha256 ctx.store gen.loss_mask ≡ true
      → verify sha256 ctx.store r ≡ true
      → Silent sha256 ctx m001
      → (bytes : Bytes) × (get sha256 ctx.store r ≡ ok bytes)
        × (element_count r bytes ≡ a.completion_len)
  unfolding run_rule m001_mask_shape_mismatch
  service_bound a r g al e vt vl vr s =
      elim (read_mask-cases gen.completion_target_mask a.total vt) [
        | inr bad ↦ absurd (ground arith)
        | inl (t, rt, gt) ↦ elim (read_mask-cases gen.loss_mask (a.total - 1) vl) [
          | inr bad ↦ absurd (ground arith)
          | inl (l, rl, gl) ↦
              let (bytes, read) = verify_iff sha256 ctx.store r vr in (bytes, read, ground arith)
        ]
      ]

  pub Silent-LengthsBound :
      (a : Alignment)
      → _gen ctx ≡ some gen
      → _alignment sha256 ctx ≡ ok a
      → Silent sha256 ctx t001
      → Silent sha256 ctx m001
      → Silent sha256 ctx l004
      → LengthsBound a
  unfolding run_rule l004_token_logprob_length_mismatch
  Silent-LengthsBound a g al s1 m1 s =
      let v = Silent-verified g s1 in
      record {
        no_padding = ground arith;
        service = λ r e. service_bound a r g al e (ground arith) (ground arith) (ground arith) m1;
        scorer = λ sc bytes e read. ground arith;
      }
