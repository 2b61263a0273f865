-- ===== src/Validator/Answers/Caught.antt =====
-- What the except clauses of the rules catch, and that padding spans that are pairs raise no more.
use grpo_guard.Align.{Alignment, apply_padding, fill}
use grpo_guard.Prelude.{Bool, List, [], arith, false, refl, true, ◌||◌, ℕ, ◌∷◌, ◌≡◌, ◌&&◌}
use grpo_guard.Prelude.Int.{ltb_ℤ, pos_part, ℤ}
use grpo_guard.Prelude.Result.{
  Result, alignment_error, empty_completion_error, err, file_not_found_error, hash_mismatch_error,
  ok,
}
use grpo_guard.Rules.Base.{Verdict}
use grpo_guard.Rules.Masks.{misaligned_skips, unreadable_skips}
use grpo_guard.Rules.Tokens.{alignment_verdict}
use grpo_guard.Schema.Decision.{Code}

-- Every span can be unpacked into two ends.
abbrev pub are_pairs : List (List ℤ) → Bool
are_pairs [] = true
are_pairs ((s ∷ e ∷ []) ∷ rest) = are_pairs rest
are_pairs _ = false

abbrev pub returns {ℓ} : {A : Type ℓ} → Result A → Bool
returns (ok a) = true
returns (err e) = false

-- What the clauses round `_alignment` catch, and those round a read.
abbrev pub is_aligned {ℓ} : {A : Type ℓ} → Result A → Bool
is_aligned (ok a) = true
is_aligned (err alignment_error) = true
is_aligned (err empty_completion_error) = true
is_aligned (err e) = false

abbrev pub is_read {ℓ} : {A : Type ℓ} → Result A → Bool
is_read (ok a) = true
is_read (err hash_mismatch_error) = true
is_read (err file_not_found_error) = true
is_read (err e) = false

pub apply_padding-is_aligned :
    (n : ℕ) (start end : ℤ) (spans : List (List ℤ)) (within : Bool) (target : List ℕ)
    → are_pairs spans ≡ true
    → is_aligned (apply_padding n start end spans within target) ≡ true
unfolding apply_padding
apply_padding-is_aligned n start end [] within target h = refl
apply_padding-is_aligned n start end ((s ∷ e ∷ []) ∷ rest) within target h = ground (
  arith,
  apply_padding-is_aligned n start end rest (within || (ltb_ℤ s end && ltb_ℤ start e))
      (fill 0 (pos_part s) (pos_part e) 0 target) h,
)
apply_padding-is_aligned n start end ([] ∷ rest) within target h = absurd (ground (arith, h))
apply_padding-is_aligned n start end ((s ∷ []) ∷ rest) within target h = absurd (ground (arith, h))
apply_padding-is_aligned n start end ((s ∷ e ∷ x ∷ xs) ∷ rest) within target h =
    absurd (ground (arith, h))

pub unreadable_skips-returns {ℓ} :
    {A : Type ℓ} (r : Result A) (k : A → Verdict)
    → is_read r ≡ true
    → ((a : A) → r ≡ ok a → returns (k a) ≡ true)
    → returns (unreadable_skips r k) ≡ true
unreadable_skips-returns (ok a) k h all_return = all_return a refl
unreadable_skips-returns (err hash_mismatch_error) k h all_return = refl
unreadable_skips-returns (err file_not_found_error) k h all_return = refl
unreadable_skips-returns (err _) k h all_return = absurd (ground (arith, h))

pub misaligned_skips-returns :
    (r : Result Alignment) (k : Alignment → Verdict)
    → is_aligned r ≡ true
    → ((a : Alignment) → r ≡ ok a → returns (k a) ≡ true)
    → returns (misaligned_skips r k) ≡ true
misaligned_skips-returns (ok a) k h all_return = all_return a refl
misaligned_skips-returns (err empty_completion_error) k h all_return = refl
misaligned_skips-returns (err alignment_error) k h all_return = refl
misaligned_skips-returns (err _) k h all_return = absurd (ground (arith, h))

pub alignment_verdict-returns :
    (c : Code) (r : Result Alignment) (k : Alignment → Verdict)
    → is_aligned r ≡ true
    → ((a : Alignment) → r ≡ ok a → returns (k a) ≡ true)
    → returns (alignment_verdict c r k) ≡ true
alignment_verdict-returns c (ok a) k h all_return = all_return a refl
alignment_verdict-returns c (err empty_completion_error) k h all_return = refl
alignment_verdict-returns c (err alignment_error) k h all_return = refl
alignment_verdict-returns c (err _) k h all_return = absurd (ground (arith, h))
