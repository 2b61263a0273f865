-- ===== src/Runtime/Canonical.antt =====
-- The masks of the runtime adapter, against the ones that the validator rebuilds.
use grpo_guard.Align.{Alignment, apply_padding, fill, positions_from, reconstruct_alignment}
use grpo_guard.ArtifactStore.{get}
use grpo_guard.Prelude.{
  List, String, [], ap, arith, drop, false, if◌then◌else◌, leb, length, length-append, ltb, refl,
  replicate, suc, sym, zero, ℕ, ◌&&◌, ◌++◌, ◌+◌, ◌-◌, ◌<◌, ◌∙◌, ◌∷◌, ◌≡◌, ◌≤◌,
}
use grpo_guard.Prelude.Int.{pos}
use grpo_guard.Prelude.Result.{Result, ok}
use grpo_guard.Prelude.Words.{bytes_8}
use grpo_guard.Runtime.{Runtime, Sampled, emit_generation, loss_mask_of, target_mask, tokens_of}
use grpo_guard.Runtime.Emitted.{emit_generation-Emitted}
use grpo_guard.Schema.Events.{Event, GenerationEvent}
use grpo_guard.Schema.Seal.{Bytes}

-- Past the start of the span every entry is set.
fill-inside : (i s e c : ℕ) → s ≤ i → i + c ≤ e → fill i s e 1 (replicate c 0) ≡ replicate c 1
unfolding fill
fill-inside i s e zero h k = refl
fill-inside i s e (suc c) h k =
    ground (arith, h, k, fill-inside (i + 1) s e c (omega (arith, h)) (omega (arith, k)))

fill-canonical :
    (p c i s e n : ℕ)
    → n ≡ p + c
    → s ≡ i + p
    → e ≡ i + p + c
    → fill i s e 1 (replicate n 0) ≡ replicate p 0 ++ replicate c 1
unfolding fill
fill-canonical zero c i s e n hn hs he =
    rw hn' (fill-inside i s e c (omega (arith, hs)) (omega (arith, he)))
  where
    hn' : n ≡ c
    hn' = omega (arith, hn)
fill-canonical (suc p) c i s e zero hn hs he = absurd (omega (arith, hn))
fill-canonical (suc p) c i s e (suc n) hn hs he =
    let head : (if leb s i && ltb i e then 1 else 0) ≡ 0 = ground (arith, hs) in
    ap (λ x. x ∷ fill (i + 1) s e 1 (replicate n 0)) head
    ∙ ap (λ l. 0 ∷ l)
        (fill-canonical p c (i + 1) s e n (omega (arith, hn)) (omega (arith, hs))
          (omega (arith, he)))

bytes_8-mask : (p c : ℕ) → bytes_8 (replicate p 0 ++ replicate c 1) ≡ replicate p 0 ++ replicate c 1
unfolding bytes_8
bytes_8-mask zero zero = refl
bytes_8-mask zero (suc c) = ap (λ l. 1 ∷ l) (bytes_8-mask zero c)
bytes_8-mask (suc p) c = ap (λ l. 0 ∷ l) (bytes_8-mask p c)

bytes_8-drop : (xs : List ℕ) → bytes_8 xs ≡ xs → bytes_8 (drop 1 xs) ≡ drop 1 xs
unfolding bytes_8
bytes_8-drop [] h = refl
bytes_8-drop (x ∷ xs) h = ap (drop 1) h

-- The alignment of a completion that is not empty.
abbrev pub alignment_of : Sampled → Result Alignment
alignment_of a =
    reconstruct_alignment (length (tokens_of a)) (pos (length a.prompt_ids))
      (pos (length (tokens_of a))) [] (pos 0)

alignment-masks :
    (a : Sampled)
    → 0 < length a.completion_ids
    → 1 < length (tokens_of a)
    → (al : Alignment) × (alignment_of a ≡ ok al)
      × (al.completion_target_mask ≡ target_mask a)
      × (al.loss_mask ≡ loss_mask_of a)
unfolding reconstruct_alignment apply_padding
alignment-masks a some_tokens two_tokens =
    let p = length a.prompt_ids in
    let c = length a.completion_ids in
    let n = length (tokens_of a) in
    let total = length-append a.prompt_ids a.completion_ids in
    let masks : fill 0 p n 1 (replicate n 0) ≡ target_mask a =
      fill-canonical p c 0 p n n total (omega arith) (omega (arith, total)) in
    let al : Alignment = record {
      total = n;
      prompt_len = p;
      completion_len = n - p;
      completion_target_mask = fill 0 p n 1 (replicate n 0);
      loss_mask = drop 1 (fill 0 p n 1 (replicate n 0));
      prediction_positions = positions_from p (n - p);
      padding_within_completion = false;
    } in
    (al, ground (arith, total, some_tokens, two_tokens), masks, ap (drop 1) masks)

-- What the adapter stored under the event's mask references is what the validator rebuilds from the
-- event's spans.
module _ (sha256 : Bytes → String) (dumps : Event → Bytes) (now : String) where
  -- If the runtime adapter returns a generation event, the completion is not empty and there are
  -- two tokens, then reconstruct_alignment on the event's spans returns, and under the event's
  -- mask references the store has exactly the two masks that it rebuilds.
  pub emitted_masks_canonical :
      (a : Sampled) (s after : Runtime) (ev : GenerationEvent)
      → 0 < length a.completion_ids
      → 1 < length (tokens_of a)
      → emit_generation sha256 dumps now a s ≡ (ok ev, after)
      → (al : Alignment) × (reconstruct_alignment
            (length (tokens_of a))
            (ev.completion_span.0)
            (ev.completion_span.1)
            ev.padding_spans
            (ev.prompt_span.0)
          ≡ ok al)
        × (get sha256 after.store ev.completion_target_mask ≡ ok al.completion_target_mask)
        × (get sha256 after.store ev.loss_mask ≡ ok al.loss_mask)
  emitted_masks_canonical a s after ev some_tokens two_tokens h =
      let d = emit_generation-Emitted sha256 dumps now a s after ev h in
      let (al, e, target, loss) = alignment-masks a some_tokens two_tokens in
      let mask = bytes_8-mask (length a.prompt_ids) (length a.completion_ids) in
      (
        al,
        rw (d.span, d.padding, d.prompt) e,
        rw d.target (d.arrays.target ∙ ap ok (mask ∙ sym target)),
        rw d.loss (d.arrays.loss ∙ ap ok (bytes_8-drop (target_mask a) mask ∙ sym loss)),
      )
