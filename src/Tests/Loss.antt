-- ===== src/Tests/Loss.antt =====
-- The loss on numbers that are -1, 0 and 1.
use grpo_guard.Loss.{
  LossBatch, Stacked, Torch, _loss_from_batches, _stack_batches, advantages, per_token,
}
use grpo_guard.Loss.Advantages.{advantages_cut, in_chunks}
use grpo_guard.Loss.Arrays.{chunks}
use grpo_guard.Loss.Clip.{IsLarger, IsOrdered, per_token-IsLarger}
use grpo_guard.Loss.Refused.{_loss_from_batches-refused}
use grpo_guard.Loss.Scatter.{IsAligned, ReadsLogprobs, stacked-ReadsLogprobs}
use grpo_guard.Prelude.{All, List, [], arith, inl, inr, refl, some, ℕ, ◌∙◌, ◌∷◌, ◌≡◌, ◌⊎◌}
use grpo_guard.Prelude.Int.{pos}
use grpo_guard.Prelude.Result.{Error, err, ok}

data Sign : Type 0 where
  minus none_at plus : Sign

abbrev neg_sign : Sign → Sign
neg_sign minus = plus
neg_sign none_at = none_at
neg_sign plus = minus

abbrev mul_sign : Sign → Sign → Sign
mul_sign minus y = neg_sign y
mul_sign none_at y = none_at
mul_sign plus y = y

abbrev min_sign : Sign → Sign → Sign
min_sign minus y = minus
min_sign none_at minus = minus
min_sign none_at none_at = none_at
min_sign none_at plus = none_at
min_sign plus y = y

-- Ratios above 0 are clipped to 0.
abbrev clamp_sign : Sign → Sign
clamp_sign plus = none_at
clamp_sign minus = minus
clamp_sign none_at = none_at

abbrev sign_torch : Torch Sign
sign_torch = record {
  zero_f = none_at;
  one_f = plus;
  std_floor = none_at;
  count_floor = none_at;
  add = λ x y. x;
  sub = λ x y. x;
  mul = mul_sign;
  div = λ x y. x;
  min_f = min_sign;
  neg = neg_sign;
  exp_f = λ x. x;
  sqrt_f = λ x. x;
  clamp = clamp_sign;
  mean = λ xs. none_at;
  var = λ xs. none_at;
  sum_f = λ xs. none_at;
}

abbrev LeSign : Sign → Sign → Type 0
LeSign x y = min_sign x y ≡ x

total_sign : (x y : Sign) → LeSign x y ⊎ LeSign y x
total_sign minus y = inl refl
total_sign none_at minus = inr refl
total_sign none_at none_at = inl refl
total_sign none_at plus = inl refl
total_sign plus minus = inr refl
total_sign plus none_at = inr refl
total_sign plus plus = inl refl

min_comm : (x y : Sign) → min_sign x y ≡ min_sign y x
min_comm minus minus = refl
min_comm minus none_at = refl
min_comm minus plus = refl
min_comm none_at minus = refl
min_comm none_at none_at = refl
min_comm none_at plus = refl
min_comm plus minus = refl
min_comm plus none_at = refl
min_comm plus plus = refl

neg_out : (x y : Sign) → mul_sign (neg_sign x) y ≡ neg_sign (mul_sign x y)
neg_out minus minus = refl
neg_out minus none_at = refl
neg_out minus plus = refl
neg_out none_at y = refl
neg_out plus y = refl

mul_none : (x : Sign) → mul_sign x none_at ≡ none_at
mul_none minus = refl
mul_none none_at = refl
mul_none plus = refl

mul_plus : (x : Sign) → mul_sign x plus ≡ x
mul_plus minus = refl
mul_plus none_at = refl
mul_plus plus = refl

mul_minus : (x : Sign) → mul_sign x minus ≡ neg_sign x
mul_minus minus = refl
mul_minus none_at = refl
mul_minus plus = refl

neg_turns : (x y : Sign) → LeSign x y → LeSign (neg_sign y) (neg_sign x)
neg_turns minus minus h = refl
neg_turns minus none_at h = refl
neg_turns minus plus h = refl
neg_turns none_at minus h = absurd (cc)
neg_turns none_at none_at h = refl
neg_turns none_at plus h = refl
neg_turns plus minus h = absurd (cc)
neg_turns plus none_at h = absurd (cc)
neg_turns plus plus h = refl

keeps_sign : (a x y : Sign) → LeSign none_at a → LeSign x y → LeSign (mul_sign x a) (mul_sign y a)
keeps_sign minus x y h k = absurd (cc)
keeps_sign none_at x y h k = rw (mul_none x, mul_none y) refl
keeps_sign plus x y h k = rw (mul_plus x, mul_plus y) k

turns_sign : (a x y : Sign) → LeSign a none_at → LeSign x y → LeSign (mul_sign y a) (mul_sign x a)
turns_sign minus x y h k = rw (mul_minus x, mul_minus y) (neg_turns x y k)
turns_sign none_at x y h k = rw (mul_none x, mul_none y) refl
turns_sign plus x y h k = absurd (cc)

sign_ordered : IsOrdered sign_torch LeSign
sign_ordered = record {
  total = total_sign;
  min_left = λ x y h. h;
  min_right = λ x y h. min_comm x y ∙ h;
  neg_mul = neg_out;
  keeps = keeps_sign;
  turns = turns_sign;
}

-- A ratio that is clipped, with a negative advantage: the larger product is 0, the smaller -1.
per_token-IsLarger_example :
    (m : Sign) × (per_token sign_torch plus minus ≡ neg_sign m)
    × IsLarger sign_torch LeSign sign_ordered m minus none_at
per_token-IsLarger_example = per_token-IsLarger sign_torch LeSign sign_ordered plus minus refl

abbrev loss_batch : List ℕ → List ℕ → List Sign → LossBatch Sign
loss_batch tokens mask logprobs = record {
  sequence_token_ids = tokens;
  loss_mask = mask;
  behavior_logprobs = logprobs;
  rewards = plus ∷ [];
}

-- Two batches of three and of two tokens.
abbrev loss_batches : List (LossBatch Sign)
loss_batches =
    loss_batch (5 ∷ 6 ∷ 7 ∷ []) (0 ∷ 1 ∷ []) (minus ∷ [])
    ∷ loss_batch (8 ∷ 9 ∷ []) (1 ∷ []) (plus ∷ [])
    ∷ []

loss_batches-IsAligned : All (IsAligned sign_torch) loss_batches
loss_batches-IsAligned = (
  record { tokens = ground arith; places = refl; logprobs = refl; rewarded = ground arith },
  (record { tokens = ground arith; places = refl; logprobs = refl; rewarded = ground arith }, tt),
)

stacked-ReadsLogprobs_example :
    (s : Stacked Sign) × (_stack_batches none_at loss_batches ≡ ok s)
    × ReadsLogprobs sign_torch loss_batches s
stacked-ReadsLogprobs_example =
    stacked-ReadsLogprobs sign_torch loss_batches (ground arith) loss_batches-IsAligned

-- Four rewards in groups of two, in one micro batch of two groups and in two of one.
advantages_cut_example :
    advantages sign_torch 2 (plus ∷ minus ∷ plus ∷ plus ∷ [])
    ≡ in_chunks sign_torch 2 (chunks 2 (plus ∷ minus ∷ plus ∷ plus ∷ []))
advantages_cut_example =
    advantages_cut sign_torch 2 1 2 (plus ∷ minus ∷ plus ∷ plus ∷ []) (ground arith) refl

-- A micro batch of one row in groups of two.
_loss_from_batches-refused_example :
    (e : Error) × (_loss_from_batches sign_torch (λ seq. []) loss_batches 2 (some (pos 1)) ≡ err e)
_loss_from_batches-refused_example =
    _loss_from_batches-refused sign_torch (λ seq. []) loss_batches 2 1 (ground arith) (ground arith)
      (ground arith)
