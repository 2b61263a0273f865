-- ===== src/Loss/Chunks.antt =====
-- Cutting a list in pieces.
use grpo_guard.Loss.Arrays.{chunks, chunks_on}
use grpo_guard.Prelude.{
  List, [], ap, arith, drop, length, length-drop, refl, suc, sym, take, zero, ℕ, ◌*◌, ◌++◌, ◌+◌,
  ◌<◌, ◌∙◌, ◌∷◌, ◌≡◌, ◌≤◌,
}
use native.Mathlib.Nat.{suc-mul}

module _ {ℓ} {A : Type ℓ} where
  take_nil : (n : ℕ) → take {A = A} n [] ≡ []
  take_nil zero = refl
  take_nil (suc n) = refl

  drop_nil : (n : ℕ) → drop {A = A} n [] ≡ []
  drop_nil zero = refl
  drop_nil (suc n) = refl

  take-take : (m n : ℕ) (xs : List A) → m ≤ n → take m (take n xs) ≡ take m xs
  take-take zero n xs h = refl
  take-take (suc m) zero xs h = absurd (omega (arith, h))
  take-take (suc m) (suc n) [] h = refl
  take-take (suc m) (suc n) (x ∷ xs) h = ap (λ l. x ∷ l) (take-take m n xs (omega (arith, h)))

  drop-take : (m n k : ℕ) (xs : List A) → k ≡ m + n → drop m (take k xs) ≡ take n (drop m xs)
  drop-take zero n k xs h = ap (λ i. take i xs) (omega (arith, h))
  drop-take (suc m) n zero xs h = absurd (omega (arith, h))
  drop-take (suc m) n (suc k) [] h = sym (take_nil n)
  drop-take (suc m) n (suc k) (x ∷ xs) h = drop-take m n k xs (omega (arith, h))

  drop-drop : (m n k : ℕ) (xs : List A) → k ≡ m + n → drop n (drop m xs) ≡ drop k xs
  drop-drop zero n k xs h = ap (λ i. drop i xs) (omega (arith, h))
  drop-drop (suc m) n zero xs h = absurd (omega (arith, h))
  drop-drop (suc m) n (suc k) [] h = drop_nil n
  drop-drop (suc m) n (suc k) (x ∷ xs) h = drop-drop m n k xs (omega (arith, h))

  pub take_all : (n : ℕ) (xs : List A) → length xs ≤ n → take n xs ≡ xs
  take_all zero [] h = refl
  take_all zero (x ∷ xs) h = absurd (omega (arith, h))
  take_all (suc n) [] h = refl
  take_all (suc n) (x ∷ xs) h = ap (λ l. x ∷ l) (take_all n xs (omega (arith, h)))

  pub length-take : (n : ℕ) (xs : List A) → n ≤ length xs → length (take n xs) ≡ n
  length-take zero xs h = refl
  length-take (suc n) [] h = absurd (omega (arith, h))
  length-take (suc n) (x ∷ xs) h = omega (arith, length-take n xs (omega (arith, h)))

  take-pos : (m : ℕ) (x : A) (xs : List A) → 0 < m → 0 < length (take m (x ∷ xs))
  take-pos zero x xs h = absurd (omega (arith, h))
  take-pos (suc m) x xs h = omega arith

  pub drop_all : (n : ℕ) (xs : List A) → length xs ≤ n → drop n xs ≡ []
  drop_all zero [] h = refl
  drop_all zero (x ∷ xs) h = absurd (omega (arith, h))
  drop_all (suc n) [] h = refl
  drop_all (suc n) (x ∷ xs) h = drop_all n xs (omega (arith, h))

  -- More fuel than entries changes nothing.
  chunks_on-fuel :
      (f g n : ℕ) (xs : List A)
      → length xs ≤ f
      → length xs ≤ g
      → chunks_on f (suc n) xs ≡ chunks_on g (suc n) xs
  chunks_on-fuel zero zero n xs h k = refl
  chunks_on-fuel zero (suc g) n [] h k = refl
  chunks_on-fuel zero (suc g) n (x ∷ xs) h k = absurd (omega (arith, h))
  chunks_on-fuel (suc f) zero n [] h k = refl
  chunks_on-fuel (suc f) zero n (x ∷ xs) h k = absurd (omega (arith, k))
  chunks_on-fuel (suc f) (suc g) n [] h k = refl
  chunks_on-fuel (suc f) (suc g) n (x ∷ xs) h k =
      ap (λ l. (x ∷ take n xs) ∷ l)
        (chunks_on-fuel f g n (drop n xs) (omega (arith, h, length-drop n xs))
          (omega (arith, k, length-drop n xs)))

  -- The first piece and the others.
  pub chunks-cons :
      (n : ℕ) (xs : List A)
      → 0 < length xs
      → chunks (suc n) xs ≡ take (suc n) xs ∷ chunks (suc n) (drop (suc n) xs)
  unfolding chunks
  chunks-cons n [] h = absurd (omega (arith, h))
  chunks-cons n (x ∷ xs) h =
      ap (λ l. (x ∷ take n xs) ∷ l)
        (chunks_on-fuel (length xs) (length (drop n xs)) n (drop n xs)
          (omega (arith, length-drop n xs)) (omega arith))

  pub chunks-nil : (n : ℕ) → chunks {A = A} n [] ≡ []
  unfolding chunks
  chunks-nil n = refl

  -- A cut after q pieces of n + 1 entries leaves the pieces as they are.
  pub chunks-split :
      (n q m : ℕ) (xs : List A)
      → m ≡ q * suc n
      → chunks (suc n) xs ≡ chunks (suc n) (take m xs) ++ chunks (suc n) (drop m xs)
  chunks-split n zero m xs h = let z : m ≡ 0 = omega (arith, h) in rw (z, chunks-nil (suc n)) refl
  chunks-split n (suc q) m [] h = rw (take_nil m, drop_nil m, chunks-nil (suc n)) refl
  chunks-split n (suc q) m (x ∷ xs) h =
      let rest = q * suc n in
      let e : m ≡ suc n + rest = omega (arith, h, suc-mul q (suc n)) in
      let ys = x ∷ xs in
      chunks-cons n ys (omega arith)
      ∙ ap (λ l. take (suc n) ys ∷ l) (chunks-split n q rest (drop (suc n) ys) refl)
      ∙ rw (drop-drop (suc n) rest m ys e, sym (drop-take (suc n) rest m ys e))
          (ap (λ l. l ++ chunks (suc n) (drop m ys))
            (sym (
              chunks-cons n (take m ys) (take-pos m x xs (omega (arith, e)))
              ∙ ap (λ l. l ∷ chunks (suc n) (drop (suc n) (take m ys)))
                  (take-take (suc n) m ys (omega (arith, e))))))
