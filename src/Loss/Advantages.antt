-- ===== src/Loss/Advantages.antt =====
-- The advantages of a batch that is cut in micro batches.
use grpo_guard.Loss.{Torch, advantages, group_advantages}
use grpo_guard.Loss.Arrays.{chunks, concat, view_rows}
use grpo_guard.Loss.Chunks.{chunks-cons, chunks-nil, chunks-split, drop_all, length-take, take_all}
use grpo_guard.Prelude.{
  Bool-cases, List, [], ap, arith, drop, if◌then◌else◌, inl, inr, leb, leb→le, length, length-drop,
  map, refl, suc, sym, take, true, zero, ℕ, ◌%◌, ◌*◌, ◌++◌, ◌-◌, ◌<◌, ◌==◌, ◌∙◌, ◌∷◌, ◌≡◌, ◌≤◌,
}
use grpo_guard.Prelude.Result.{Result, err, ok, runtime_error, ◌>>=◌}
use mathlib.Core.List.{append-nil, append_assoc}
use native.Mathlib.Nat.{add-mul-mod_self_right, mul-mod_left, mul-zero}

module _ {F : Type 0} (t : Torch F) where
  -- The advantages of the chunks, one after the other.
  abbrev pub in_chunks : ℕ → List (List F) → Result (List F)
  in_chunks g [] = ok []
  in_chunks g (rs ∷ rest) = do
    these ← advantages t g rs
    those ← in_chunks g rest
    ok (these ++ those)

  concat-++ : (a b : List (List F)) → concat (a ++ b) ≡ concat a ++ concat b
  concat-++ [] b = refl
  concat-++ (x ∷ a) b =
      ap (λ l. x ++ l) (concat-++ a b) ∙ sym (append_assoc x (concat a) (concat b))

  map-++ : (f : List F → List F) (a b : List (List F)) → map f (a ++ b) ≡ map f a ++ map f b
  map-++ f [] b = refl
  map-++ f (x ∷ a) b = ap (λ l. f x ∷ l) (map-++ f a b)

  -- The advantages in closed form.
  advantages-of :
      (n : ℕ) (rs : List F)
      → advantages t (suc n) rs ≡ (
          if length rs % suc n == 0
          then ok (concat (map (group_advantages t) (chunks (suc n) rs)))
          else err runtime_error)
  unfolding advantages view_rows
  advantages-of n rs = ground (arith, Bool-cases (length rs % suc n == 0))

  -- A cut at a multiple of the group size.
  advantages-split :
      (n q m : ℕ) (rs : List F)
      → m ≡ q * suc n
      → m ≤ length rs
      → advantages t (suc n) rs ≡ (
          advantages t (suc n) (take m rs) >>= λ a.
          advantages t (suc n) (drop m rs) >>= λ b. ok (a ++ b))
  advantages-split n q m rs h long =
      let same : (length (drop m rs) % suc n == 0) ≡ (length rs % suc n == 0) =
        ap (λ k. k == 0)
          (ap (λ k. k % suc n) (length-drop m rs)
            ∙ sym (add-mul-mod_self_right (length rs - m) q (suc n))
            ∙ ap (λ k. k % suc n) (omega (arith, h, long))) in
      let whole : (length (take m rs) % suc n == 0) ≡ true =
        ap (λ k. k == 0)
          (ap (λ k. k % suc n) (length-take m rs long ∙ h) ∙ mul-mod_left q (suc n)) in
      rw (advantages-of n rs, advantages-of n (take m rs), advantages-of n (drop m rs))
        (elim (Bool-cases (length rs % suc n == 0)) [
          | inl e ↦ ground (
            arith,
            e,
            same,
            whole,
            ap (λ l. concat (map (group_advantages t) l)) (chunks-split n q m rs h),
            ap concat (
                map-++ (group_advantages t) (chunks (suc n) (take m rs))
                  (chunks (suc n) (drop m rs))),
            concat-++ (map (group_advantages t) (chunks (suc n) (take m rs)))
                (map (group_advantages t) (chunks (suc n) (drop m rs))),
          )
          | inr e ↦ ground (arith, e, same, whole)
        ])

  append_end : (r : Result (List F)) → (r >>= λ a. ok (a ++ [])) ≡ r
  append_end (ok a) = ap ok (append-nil a)
  append_end (err e) = refl

  cut_nil : (n p : ℕ) → advantages t (suc n) [] ≡ in_chunks (suc n) (chunks (suc p) [])
  unfolding chunks advantages view_rows
  cut_nil n p = ground arith

  in_chunks-cut :
      (fuel n q p : ℕ) (rs : List F)
      → suc p ≡ q * suc n
      → length rs ≤ fuel
      → advantages t (suc n) rs ≡ in_chunks (suc n) (chunks (suc p) rs)
  in_chunks-cut zero n q p [] h bound = cut_nil n p
  in_chunks-cut zero n q p (r ∷ rs) h bound = absurd (omega (arith, bound))
  in_chunks-cut (suc fuel) n q p [] h bound = cut_nil n p
  in_chunks-cut (suc fuel) n q p (r ∷ rs) h bound =
      let all = r ∷ rs in
      elim (Bool-cases (leb (suc p) (length all))) [
        | inl long ↦
            advantages-split n q (suc p) all h (leb→le (suc p) (length all) long)
            ∙ rw
                (
                  in_chunks-cut fuel n q p (drop (suc p) all) h
                      (omega (arith, bound, length-drop (suc p) all)),
                  chunks-cons p all (omega arith),
                )
                refl
        | inr short ↦
            let few : length all ≤ suc p = ground (arith, short) in
            sym (
              rw
                (
                  chunks-cons p all (omega arith),
                  take_all (suc p) all few,
                  drop_all (suc p) all few,
                  chunks-nil {A = F} (suc p),
                )
                (append_end (advantages t (suc n) all)))
      ]

  -- Cut in micro batches whose size is a positive multiple of the group size, a batch has the
  -- advantages that it has as a whole, and it is refused exactly when the whole is.
  pub advantages_cut :
      (group_size q micro : ℕ) (rewards : List F)
      → 0 < micro
      → micro ≡ q * group_size
      → advantages t group_size rewards ≡ in_chunks group_size (chunks micro rewards)
  advantages_cut zero q micro rewards some_rows h = absurd (omega (arith, some_rows, h, mul-zero q))
  advantages_cut (suc n) q zero rewards some_rows h = absurd (omega (arith, some_rows))
  advantages_cut (suc n) q (suc p) rewards some_rows h =
      in_chunks-cut (length rewards) n q p rewards h (omega arith)
