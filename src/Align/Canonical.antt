-- ===== src/Align/Canonical.antt =====
-- The masks that `reconstruct_alignment` rebuilds, against their description position by position.
use grpo_guard.Align.{Alignment, apply_padding, fill, positions_from, reconstruct_alignment}
use grpo_guard.Prelude.{
  Bool, Bool-cases, List, Option, [], arith, drop, false, get_elem?, get_elem?-drop_one,
  get_elem?-replicate, if◌then◌else◌, inl, inr, leb, length, length-drop, length-replicate, ltb,
  none, not, refl, replicate, some, suc, true, zero, ℕ, ◌&&◌, ◌+◌, ◌-◌, ◌<◌, ◌||◌, ◌∷◌, ◌≡◌, ◌≤◌,
}
use grpo_guard.Prelude.Int.{leb_ℤ, ltb_ℤ, negsuc, pos, pos_part, ℤ}
use grpo_guard.Prelude.Result.{Result-cases, ok}

-- Position j lies in the span [s, e).
abbrev pub in_span : ℤ → ℤ → ℕ → Bool
in_span s e j = leb_ℤ s (pos j) && ltb_ℤ (pos j) e

abbrev pub in_padding : List (List ℤ) → ℕ → Bool
in_padding [] j = false
in_padding ((s ∷ e ∷ []) ∷ rest) j = in_span s e j || in_padding rest j
in_padding (_ ∷ rest) j = in_padding rest j

-- Some padding span meets the completion [start, end).
abbrev pub overlaps : ℤ → ℤ → List (List ℤ) → Bool
overlaps start end [] = false
overlaps start end ((s ∷ e ∷ []) ∷ rest) = (ltb_ℤ s end && ltb_ℤ start e) || overlaps start end rest
overlaps start end (_ ∷ rest) = overlaps start end rest

abbrev fill_at : Bool → ℕ → Option ℕ → Option ℕ
fill_at b v none = none
fill_at b v (some x) = some (if b then v else x)

get_elem?-fill :
    (i s e v : ℕ) (xs : List ℕ) (j : ℕ)
    → get_elem? (fill i s e v xs) j ≡ fill_at (leb s (i + j) && ltb (i + j) e) v (get_elem? xs j)
unfolding fill
get_elem?-fill i s e v [] j = refl
get_elem?-fill i s e v (x ∷ xs) zero = ground arith
get_elem?-fill i s e v (x ∷ xs) (suc j) = ground (arith, get_elem?-fill (i + 1) s e v xs j)

length-fill : (i s e v : ℕ) (xs : List ℕ) → length (fill i s e v xs) ≡ length xs
unfolding fill
length-fill i s e v [] = refl
length-fill i s e v (x ∷ xs) = ground (arith, length-fill (i + 1) s e v xs)

module _ (n : ℕ) (start end : ℤ) where
  -- What the loop over the padding spans returns.
  record Padded (spans : List (List ℤ)) (w : Bool) (t : List ℕ) (r : Bool × List ℕ) : Type 0 where
    within : r.0 ≡ (w || overlaps start end spans)
    len : length r.1 ≡ length t
    at : (j : ℕ) → get_elem? r.1 j ≡ fill_at (in_padding spans j) 0 (get_elem? t j)

  abbrev is_legal : ℤ → ℤ → Bool
  is_legal s e = leb_ℤ (pos 0) s && (ltb_ℤ s e && leb_ℤ e (pos n))

  -- On a legal span the naturals that `fill` reads are the integers of the span.
  span_at :
      (s e : ℤ) (j : ℕ)
      → is_legal s e ≡ true
      → (leb (pos_part s) (0 + j) && ltb (0 + j) (pos_part e)) ≡ in_span s e j
  span_at (pos s) (pos e) j h = ground arith
  span_at (pos s) (negsuc e) j h = ground arith
  span_at (negsuc s) e j h = ground arith

  cons_cases :
      (s e : ℤ) (rest : List (List ℤ)) (w : Bool) (t : List ℕ) (r : Bool × List ℕ)
      → apply_padding n start end ((s ∷ e ∷ []) ∷ rest) w t ≡ ok r
      → (is_legal s e ≡ true)
        × (apply_padding n start end rest
              (w || (ltb_ℤ s end && ltb_ℤ start e))
              (fill 0 (pos_part s) (pos_part e) 0 t)
            ≡ ok r)
  unfolding apply_padding
  cons_cases s e rest w t r h = elim (Bool-cases (is_legal s e)) [
    | inl legal ↦ (legal, rw legal at h)
    | inr illegal ↦ absurd (let h' = rw illegal at h in cc)
  ]

  apply_padding-Padded :
      (spans : List (List ℤ)) (w : Bool) (t : List ℕ) (r : Bool × List ℕ)
      → apply_padding n start end spans w t ≡ ok r
      → Padded spans w t r
  unfolding apply_padding
  apply_padding-Padded [] w t r h = record {
    within = ground arith;
    len = ground arith;
    at = λ j. ground arith;
  }
  apply_padding-Padded ((s ∷ e ∷ []) ∷ rest) w t r h =
      let step = cons_cases s e rest w t r h in
      let ih =
        apply_padding-Padded rest (w || (ltb_ℤ s end && ltb_ℤ start e))
          (fill 0 (pos_part s) (pos_part e) 0 t) r step.1 in
      record {
        within = ground (arith, ih.within);
        len = ground (arith, ih.len, length-fill 0 (pos_part s) (pos_part e) 0 t);
        at = λ j. ground (
          arith,
          ih.at j,
          get_elem?-fill 0 (pos_part s) (pos_part e) 0 t j,
          span_at s e j step.0,
        );
      }
  apply_padding-Padded ([] ∷ rest) w t r h = cc
  apply_padding-Padded ((s ∷ []) ∷ rest) w t r h = cc
  apply_padding-Padded ((s ∷ e ∷ x ∷ xs) ∷ rest) w t r h = cc

abbrev pub bit : Bool → ℕ
bit true = 1
bit false = 0

-- i - 1 as an integer.
abbrev pub before : ℕ → ℤ
before zero = negsuc 0
before (suc i) = pos i

get_elem?-positions_from :
    (first count i : ℕ)
    → get_elem? (positions_from first count) i
      ≡ (if ltb i count then some (before (first + i)) else none)
unfolding positions_from
get_elem?-positions_from first zero i = ground arith
get_elem?-positions_from zero (suc count) zero = ground arith
get_elem?-positions_from zero (suc count) (suc i) =
    ground (arith, get_elem?-positions_from 1 count i)
get_elem?-positions_from (suc first) (suc count) zero = ground arith
get_elem?-positions_from (suc first) (suc count) (suc i) =
    ground (arith, get_elem?-positions_from (suc (suc first)) count i)

-- The layout of §7.9 for a sequence of n tokens with the completion [start, end).
pub record IsCanonical (n : ℕ) (start end : ℤ) (spans : List (List ℤ)) (a : Alignment)
    : Type 0 where
  pub total_eq : a.total ≡ n
  pub start_eq : pos a.prompt_len ≡ start
  pub end_eq : pos (a.prompt_len + a.completion_len) ≡ end
  pub nonempty : 0 < a.completion_len
  pub fits : a.prompt_len + a.completion_len ≤ n
  pub target_len : length a.completion_target_mask ≡ n
  pub target_at :
      (j : ℕ)
      → get_elem? a.completion_target_mask j
        ≡ (if ltb j n then some (bit (in_span start end j && not (in_padding spans j))) else none)
  pub loss_len : length a.loss_mask + 1 ≡ n
  pub loss_at : (j : ℕ) → get_elem? a.loss_mask j ≡ get_elem? a.completion_target_mask (suc j)
  pub positions_at :
      (i : ℕ)
      → get_elem? a.prediction_positions i
        ≡ (if ltb i a.completion_len then some (before (a.prompt_len + i)) else none)
  pub within_eq : a.padding_within_completion ≡ overlaps start end spans

abbrev spans_legal : ℕ → ℤ → ℤ → ℤ → Bool
spans_legal n start end prompt_start =
    leb_ℤ (pos 0) prompt_start
    && (leb_ℤ prompt_start start && (leb_ℤ start end && leb_ℤ end (pos n)))

abbrev blank : ℕ → ℤ → ℤ → List ℕ
blank n start end = fill 0 (pos_part start) (pos_part end) 1 (replicate n 0)

abbrev alignment_of : ℕ → ℤ → ℤ → Bool × List ℕ → Alignment
alignment_of n start end padded = record {
  total = n;
  prompt_len = pos_part start;
  completion_len = pos_part end - pos_part start;
  completion_target_mask = padded.1;
  loss_mask = drop 1 padded.1;
  prediction_positions = positions_from (pos_part start) (pos_part end - pos_part start);
  padding_within_completion = padded.0;
}

-- What a reconstruction that returned has passed.
built_from :
    (n : ℕ) (start end : ℤ) (spans : List (List ℤ)) (prompt_start : ℤ) {a : Alignment}
    → reconstruct_alignment n start end spans prompt_start ≡ ok a
    → (spans_legal n start end prompt_start ≡ true)
      × (leb (pos_part end - pos_part start) 0 ≡ false)
      × (leb n 1 ≡ false)
      × ((padded : Bool × List ℕ) × (apply_padding n start end spans false (blank n start end)
            ≡ ok padded)
          × (a ≡ alignment_of n start end padded))
unfolding reconstruct_alignment
built_from n start end spans prompt_start h =
    elim (Result-cases (apply_padding n start end spans false (blank n start end))) [
      | inl (padded, ran) ↦ (ground arith, ground arith, ground arith, (padded, ran, ground arith))
      | inr (e, failed) ↦ absurd (ground arith)
    ]

canonical_of :
    (n : ℕ) (start end : ℤ) (spans : List (List ℤ)) (prompt_start : ℤ) (padded : Bool × List ℕ)
    → spans_legal n start end prompt_start ≡ true
    → leb (pos_part end - pos_part start) 0 ≡ false
    → leb n 1 ≡ false
    → Padded n start end spans false (blank n start end) padded
    → IsCanonical n start end spans (alignment_of n start end padded)
canonical_of n (pos s) (pos e) spans prompt_start padded legal nonempty long p = record {
  total_eq = refl;
  start_eq = refl;
  end_eq = ground arith;
  nonempty = ground arith;
  fits = ground arith;
  target_len = ground (arith, p.len, length-fill 0 s e 1 (replicate n 0), length-replicate n zero);
  target_at = λ j.
      ground
        (arith, p.at j, get_elem?-fill 0 s e 1 (replicate n 0) j, get_elem?-replicate n zero j);
  loss_len = ground (
    arith,
    p.len,
    length-drop 1 padded.1,
    length-fill 0 s e 1 (replicate n 0),
    length-replicate n zero,
  );
  loss_at = λ j. get_elem?-drop_one padded.1 j;
  positions_at = λ i. get_elem?-positions_from s (e - s) i;
  within_eq = p.within;
}
canonical_of n (negsuc s) e spans prompt_start padded legal nonempty long p = absurd (ground arith)
canonical_of n (pos s) (negsuc e) spans prompt_start padded legal nonempty long p =
    absurd (ground arith)

-- A reconstruction that returns yields the layout of §7.9: spans inside the sequence, target bits
-- exactly on the completion outside every padding span, and the loss mask one position earlier.
pub reconstruct_alignment-IsCanonical :
    (n : ℕ) (start end : ℤ) (spans : List (List ℤ)) (prompt_start : ℤ) (a : Alignment)
    → reconstruct_alignment n start end spans prompt_start ≡ ok a
    → IsCanonical n start end spans a
reconstruct_alignment-IsCanonical n start end spans prompt_start a h =
    let (legal, nonempty, long, (padded, ran, built)) =
      built_from n start end spans prompt_start h in
    rw built (
      canonical_of n start end spans prompt_start padded legal nonempty long
        (apply_padding-Padded n start end spans false (blank n start end) padded ran))
