-- ===== src/Canary/Passed.antt =====
-- What a passed canary check says of the sketches.
use grpo_guard.Canary.{
  CanaryResult, Response, _token_diff, answer_dict, answer_tuple, completion_of, sketch,
  verdict_pass, check, fold_max, max_nat, max_of, sketch_diffs, verdict_of,
}
use grpo_guard.Prelude.{
  Bool, List, String, [], arith, inl, inr, leb, subst, refl, sym, true, ℕ, ◌&&◌, ◌∙◌, ◌∷◌, ◌≡◌,
}
use grpo_guard.Prelude.Int.{pos, ℤ}
use grpo_guard.Prelude.Result.{Result-cases, ok}

_token_diff_zero : (a b : List ℕ) → _token_diff a b ≡ 0 → a ≡ b
unfolding _token_diff
_token_diff_zero [] [] e = refl
_token_diff_zero [] (y ∷ ys) e = absurd (omega (arith, e))
_token_diff_zero (x ∷ xs) [] e = absurd (omega (arith, e))
_token_diff_zero (x ∷ xs) (y ∷ ys) e =
    let heads : x ≡ y = ground (arith, e) in
    let tails : xs ≡ ys = _token_diff_zero xs ys (ground (arith, e)) in λ i. heads i ∷ tails i

-- Every compared sketch has at most t differences.
unfoldable pub within : ℕ → List (List ℕ) → List (List ℕ) → Bool
within t [] ss = true
within t (b ∷ bs) [] = true
within t (b ∷ bs) (s ∷ ss) = leb (_token_diff b s) t && within t bs ss

-- Every compared sketch is the baseline's.
abbrev pub SameSketches : List (List ℕ) → List (List ℕ) → Type 0
SameSketches [] ss = Unit
SameSketches (b ∷ bs) [] = Unit
SameSketches (b ∷ bs) (s ∷ ss) = (b ≡ s) × SameSketches bs ss

fold_max-within :
    (t m : ℕ) (bs ss : List (List ℕ))
    → leb (fold_max m (sketch_diffs bs ss)) t ≡ (leb m t && within t bs ss)
unfolding fold_max sketch_diffs within
fold_max-within t m [] ss = ground arith
fold_max-within t m (b ∷ bs) [] = ground arith
fold_max-within t m (b ∷ bs) (s ∷ ss) =
    ground (arith, fold_max-within t (max_nat m (_token_diff b s)) bs ss)

max_of-within :
    (t drift : ℕ) (bs ss : List (List ℕ))
    → max_of (sketch_diffs bs ss) ≡ ok drift
    → leb drift t ≡ within t bs ss
unfolding sketch_diffs within
max_of-within t drift [] ss e = ground (arith, e)
max_of-within t drift (b ∷ bs) [] e = ground (arith, e)
max_of-within t drift (b ∷ bs) (s ∷ ss) e =
    ground (arith, e, fold_max-within t (_token_diff b s) bs ss)

within-SameSketches : (bs ss : List (List ℕ)) → within 0 bs ss ≡ true → SameSketches bs ss
unfolding within
within-SameSketches [] ss e = tt
within-SameSketches (b ∷ bs) [] e = tt
within-SameSketches (b ∷ bs) (s ∷ ss) e =
    (_token_diff_zero b s (ground (arith, e)), within-SameSketches bs ss (ground (arith, e)))

drift_of :
    (generate : String → Response) (prompts : List String) (version : ℕ) (tolerance : ℤ)
    (baseline : List (List ℕ)) (r : CanaryResult)
    → check generate prompts version baseline tolerance ≡ ok r
    → (max_of (sketch_diffs baseline r.sketches) ≡ ok r.max_token_drift)
      × (r.verdict ≡ verdict_of r.max_token_drift tolerance)
unfolding check
drift_of generate prompts version tolerance baseline r e = (ground (arith, e), ground (arith, e))

check-within :
    (generate : String → Response) (prompts : List String) (version t : ℕ)
    (baseline : List (List ℕ)) (r : CanaryResult)
    → check generate prompts version baseline (pos t) ≡ ok r
    → r.verdict ≡ verdict_pass
    → within t baseline r.sketches ≡ true
check-within generate prompts version t baseline r e passed =
    let (max, judged) = drift_of generate prompts version (pos t) baseline r e in
    let low : leb r.max_token_drift t ≡ true = ground (arith, judged, passed) in
    sym (max_of-within t r.max_token_drift baseline r.sketches max) ∙ low

-- The server answered with `ids` as its first completion, in whichever shape.
pub data Answers : Response → List ℕ → Type 0 where
  from_dict : (ids : List ℕ) (more : List (List ℕ)) → Answers (answer_dict (ids ∷ more)) ids
  from_tuple : (ids : List ℕ) (more : List (List ℕ)) → Answers (answer_tuple (ids ∷ more)) ids

-- Each prompt that has a baseline was answered with the baseline's tokens.
abbrev pub AnsweredAs : (String → Response) → List String → List (List ℕ) → Type 0
AnsweredAs generate prompts [] = Unit
AnsweredAs generate [] (b ∷ bs) = Unit
AnsweredAs generate (p ∷ prompts) (b ∷ bs) = Answers (generate p) b × AnsweredAs generate prompts bs

completion_of-Answers : (r : Response) (ids : List ℕ) → completion_of r ≡ ok ids → Answers r ids
completion_of-Answers (answer_dict []) ids e = absurd (ground (arith, e))
completion_of-Answers (answer_tuple []) ids e = absurd (ground (arith, e))
completion_of-Answers (answer_dict (x ∷ more)) ids e =
    let same : x ≡ ids = ground (arith, e) in
    subst (λ l. Answers (answer_dict (x ∷ more)) l) same (from_dict x more)
completion_of-Answers (answer_tuple (x ∷ more)) ids e =
    let same : x ≡ ids = ground (arith, e) in
    subst (λ l. Answers (answer_tuple (x ∷ more)) l) same (from_tuple x more)

sketch-AnsweredAs :
    (generate : String → Response) (prompts : List String) (baseline ss : List (List ℕ))
    → sketch generate prompts ≡ ok ss
    → SameSketches baseline ss
    → AnsweredAs generate prompts baseline
unfolding sketch
sketch-AnsweredAs generate prompts [] ss e h = tt
sketch-AnsweredAs generate [] (b ∷ bs) ss e h = tt
sketch-AnsweredAs generate (p ∷ prompts) (b ∷ bs) ss e h =
    elim (Result-cases (completion_of (generate p))) [
      | inr (why, c) ↦ absurd (ground (arith, e, c))
      | inl (ids, c) ↦ elim (Result-cases (sketch generate prompts)) [
        | inr (why, d) ↦ absurd (ground (arith, e, c, d))
        | inl (rest, d) ↦
            let run : ids ∷ rest ≡ ss = ground (arith, e, c, d) in
            let (same, later) = subst (λ l. SameSketches (b ∷ bs) l) (sym run) h in
            (
              subst (λ l. Answers (generate p) l) (sym same)
                  (completion_of-Answers (generate p) ids c),
              sketch-AnsweredAs generate prompts bs rest d later,
            )
      ]
    ]

check-sketch :
    (generate : String → Response) (prompts : List String) (version : ℕ) (tolerance : ℤ)
    (baseline : List (List ℕ)) (r : CanaryResult)
    → check generate prompts version baseline tolerance ≡ ok r
    → sketch generate prompts ≡ ok r.sketches
unfolding check
check-sketch generate prompts version tolerance baseline r e =
    elim (Result-cases (sketch generate prompts)) [
      | inl (ss, s) ↦ elim (Result-cases (max_of (sketch_diffs baseline ss))) [
        | inl (drift, m) ↦ ground (arith, e, s, m)
        | inr (why, m) ↦ absurd (ground (arith, e, s, m))
      ]
      | inr (why, s) ↦ absurd (ground (arith, e, s))
    ]

-- A canary check with tolerance 0 that returned and passed had every prompt that has a baseline
-- answered by the server, in either shape of an answer, with exactly the baseline's tokens as the
-- first completion; prompts past the end of the baseline are not compared.
pub check-AnsweredAs :
    (generate : String → Response) (prompts : List String) (version : ℕ) (baseline : List (List ℕ))
    (r : CanaryResult)
    → check generate prompts version baseline (pos 0) ≡ ok r
    → r.verdict ≡ verdict_pass
    → AnsweredAs generate prompts baseline
check-AnsweredAs generate prompts version baseline r e passed =
    sketch-AnsweredAs generate prompts baseline r.sketches
      (check-sketch generate prompts version (pos 0) baseline r e)
      (within-SameSketches baseline r.sketches
        (check-within generate prompts version 0 baseline r e passed))
