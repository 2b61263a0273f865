-- ===== src/Official/Runs.antt =====
-- Over a sequence of steps: no rollout is consumed twice; what is left when all are consumed.
use grpo_guard.Official.Available.{
  available_from-Distinct, available_from-IsKeyed, hashes_of, hashes_of-values, keys-available_from,
}
use grpo_guard.Official.Checked.{
  _guard_pre_update-Outcome, batch_digests, consumed_by, consumed_over, refused, unchecked,
  verified,
}
use grpo_guard.Official.Consumed.{Matches-Spends, Spends, digests}
use grpo_guard.Official.Match.{Columns, StepInputs, available_from}
use grpo_guard.Official.Rollout.{Guard, RolloutRecord}
use grpo_guard.Official.Verified.{Verified}
use grpo_guard.Official.Step.{_guard_pre_update}
use grpo_guard.Prelude.{
  All, Bool-cases, List, String, [], ap, arith, contains, eq_iff, false, inl, inr, is_nil, refl,
  subst, true, ◌++◌, ◌∷◌, ◌∙◌, ◌≡◌, ◌⊎◌,
}
use grpo_guard.Prelude.Dict.{Dict, Distinct, keys, values}
use grpo_guard.Prelude.Result.{Error, Result, Result-cases, err, ok}
use grpo_guard.Schema.Seal.{Bytes}

Distinct-append :
    (xs ys : List String)
    → Distinct xs
    → Distinct ys
    → All (λ h. contains h xs ≡ false) ys
    → Distinct (xs ++ ys)
Distinct-append [] ys d e a = e
Distinct-append (x ∷ xs) ys d e a =
    (absent xs ys (d.0) a, Distinct-append xs ys (d.1) e (later ys a))
  where
    absent :
        (zs ws : List String)
        → contains x zs ≡ false
        → All (λ h. contains h (x ∷ xs) ≡ false) ws
        → contains x (zs ++ ws) ≡ false
    absent [] [] n b = refl
    absent [] (w ∷ ws) n b = ground (arith, absent [] ws n (b.1), b.0, eq_iff x w, eq_iff w x)
    absent (z ∷ zs) ws n b = ground (arith, absent zs ws, n, b)

    later :
        (ws : List String)
        → All (λ h. contains h (x ∷ xs) ≡ false) ws
        → All (λ h. contains h xs ≡ false) ws
    later [] b = tt
    later (w ∷ ws) b = (ground (arith, b.0), later ws (b.1))

All-append {ℓ} :
    {A : Type ℓ} (P : A → Type 0) (xs ys : List A) → All P xs → All P ys → All P (xs ++ ys)
All-append P [] ys a b = b
All-append P (x ∷ xs) ys a b = (a.0, All-append P xs ys (a.1) b)

All-map {ℓ} :
    {A : Type ℓ} (P Q : A → Type 0) (f : (x : A) → P x → Q x) (xs : List A) → All P xs → All Q xs
All-map P Q f [] a = tt
All-map P Q f (x ∷ xs) a = (f x (a.0), All-map P Q f xs (a.1))

abbrev Recorded : List RolloutRecord → String → Type 0
Recorded rs h = contains h (hashes_of rs) ≡ true

module _ (sha256 : Bytes → String) where
  spends :
      (records : List RolloutRecord) (c : Columns)
      (r : List (String × RolloutRecord) × Dict RolloutRecord)
      → Verified sha256 records c r
      → Spends sha256 (available_from [] records) (digests r.0) r.1
  spends records c r v =
      Matches-Spends sha256 v.matches (available_from-Distinct [] records tt)
        (available_from-IsKeyed [] records tt)

  Recorded-of :
      (records : List RolloutRecord) (h : String)
      → contains h (keys (available_from [] records)) ≡ true
      → Recorded records h
  Recorded-of records h e = ground (arith, e, keys-available_from h [] records)

  later-Recorded :
      (records : List RolloutRecord) (ms : List String) (left : Dict RolloutRecord) (h : String)
      → Spends sha256 (available_from [] records) ms left
      → Recorded (values left) h
      → Recorded records h × (contains h ms ≡ false)
  later-Recorded records ms left h s e =
      let (old, fresh) = s.left_of h (ground (arith, e, hashes_of-values h left s.left_keyed)) in
      (Recorded-of records h old, fresh)

  consumed_by-passed :
      (g : Guard) (x : StepInputs)
      → (_guard_pre_update sha256 x g).0 ≡ ok tt
      → consumed_by sha256 g x ≡ batch_digests sha256 x
  unfolding consumed_by
  consumed_by-passed g x h = ground (arith, h)

  -- A batch that is refused or has no rows gives nothing to consume.
  unused :
      (g : Guard) (x : StepInputs)
      → (((e : Error) × ((_guard_pre_update sha256 x g).0 ≡ err e)) ⊎ (batch_digests sha256 x ≡ []))
      → consumed_by sha256 g x ≡ []
  unfolding consumed_by
  unused g x (inl (e, h)) = ground (arith, h)
  unused g x (inr h) = elim (Result-cases (_guard_pre_update sha256 x g).0) [
    | inl (u, e) ↦ ground (arith, e, h)
    | inr (w, e) ↦ ground (arith, e)
  ]

  -- Over any sequence of batches that the guarded trainer checks, up to the first check that finds
  -- no record left, the digests of the real tokens of all rows of the batches that passed are
  -- different from each other, and each is the digest of a rollout recorded at the start.
  pub consumed_once :
      (g : Guard) (xs : List StepInputs)
      → Distinct (consumed_over sha256 g xs)
        × All (λ h. contains h (hashes_of g.rollouts) ≡ true) (consumed_over sha256 g xs)
  unfolding consumed_over
  consumed_once g [] = (tt, tt)
  consumed_once g (x ∷ xs) = elim (_guard_pre_update-Outcome sha256 g x) [
    | unchecked why same ↦ elim (Bool-cases (is_nil g.rollouts)) [
      | inl empty ↦ rw empty (tt, tt)
      | inr some_left ↦ elim why [
        | inl empty ↦ absurd (ground (arith, empty, some_left))
        | inr no_samples ↦
            rw (some_left, unused g x (inr (ap (λ b. batch_digests sha256 b) no_samples)), same)
              (consumed_once g xs)
      ]
    ]
    | refused c why ce failed never same ↦ elim (Bool-cases (is_nil g.rollouts)) [
      | inl empty ↦ rw empty (tt, tt)
      | inr some_left ↦
          rw
            (
              some_left,
              unused g x (inl (why, ap (λ (t : Result (Unit {0}) × Guard). t.0) same)),
              same,
            )
            (consumed_once g xs)
    ]
    | verified c r ce v rows same ↦
        let s = spends g.rollouts c r v in
        let (d, a) = consumed_once (_guard_pre_update sha256 x g).1 xs in
        let rest = consumed_over sha256 (_guard_pre_update sha256 x g).1 xs in
        let left : (_guard_pre_update sha256 x g).1.rollouts ≡ values r.1 =
          ap (λ (t : Result (Unit {0}) × Guard). t.1.rollouts) same in
        let b : All (λ h. Recorded g.rollouts h × (contains h (digests r.0) ≡ false)) rest =
          All-map (λ h. Recorded (_guard_pre_update sha256 x g).1.rollouts h)
            (λ h. Recorded g.rollouts h × (contains h (digests r.0) ≡ false))
            (λ h e.
              later-Recorded g.rollouts (digests r.0) r.1 h s
                (subst (λ l. contains h (hashes_of l) ≡ true) left e))
            rest a in
        let used : consumed_by sha256 g x ≡ digests r.0 =
          consumed_by-passed g x (ap (λ (t : Result (Unit {0}) × Guard). t.0) same) ∙ rows in
        elim (Bool-cases (is_nil g.rollouts)) [
          | inl empty ↦ rw empty (tt, tt)
          | inr some_left ↦
              rw (some_left, used)
                (
                  Distinct-append (digests r.0) rest s.distinct d (
                      All-map (λ h. Recorded g.rollouts h × (contains h (digests r.0) ≡ false))
                        (λ h. contains h (digests r.0) ≡ false) (λ h e. e.1) rest b),
                  All-append (Recorded g.rollouts) (digests r.0) rest
                      (All-map (λ h. contains h (keys (available_from [] g.rollouts)) ≡ true)
                        (Recorded g.rollouts) (Recorded-of g.rollouts) (digests r.0) s.available)
                      (All-map (λ h. Recorded g.rollouts h × (contains h (digests r.0) ≡ false))
                        (Recorded g.rollouts) (λ h e. e.0) rest b),
                )
        ]
  ]
