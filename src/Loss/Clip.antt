-- ===== src/Loss/Clip.antt =====
-- The clipped term of a token, against the clipped objective that it stands for.
use grpo_guard.Loss.{Torch, per_token}
use grpo_guard.Prelude.{ap, inl, inr, refl, sym, ◌∙◌, ◌≡◌, ◌⊎◌}

-- What the code relies on of float32 arithmetic without NaN: `min` picks the smaller, negation
-- comes out of a product, and a product keeps the order or turns it, by the sign of the factor.
pub record IsOrdered {F : Type 0} (t : Torch F) (Le : F → F → Type 0) : Type 0 where
  pub total : (x y : F) → Le x y ⊎ Le y x
  pub min_left : (x y : F) → Le x y → t.min_f x y ≡ x
  pub min_right : (x y : F) → Le y x → t.min_f x y ≡ y
  pub neg_mul : (x y : F) → t.mul (t.neg x) y ≡ t.neg (t.mul x y)
  pub keeps : (a x y : F) → Le t.zero_f a → Le x y → Le (t.mul x a) (t.mul y a)
  pub turns : (a x y : F) → Le a t.zero_f → Le x y → Le (t.mul y a) (t.mul x a)

module _ {F : Type 0} (t : Torch F) (Le : F → F → Type 0) (o : IsOrdered t Le) where
  -- The objective of a token: the smaller of the two products, negated.
  abbrev pub surrogate : F → F → F
  surrogate ratio advantage =
      t.neg (t.min_f (t.mul ratio advantage) (t.mul (t.clamp ratio) advantage))

  -- m is the larger of the two products.
  abbrev pub IsLarger : F → F → F → Type 0
  IsLarger m x y = (Le x m × Le y m) × ((m ≡ x) ⊎ (m ≡ y))

  pub per_token-surrogate :
      (ratio advantage : F)
      → Le t.zero_f advantage
      → per_token t ratio advantage ≡ surrogate ratio advantage
  unfolding per_token
  per_token-surrogate r a h = elim (o.total r (t.clamp r)) [
    | inl below ↦
        ap (λ m. t.mul (t.neg m) a) (o.min_left r (t.clamp r) below)
        ∙ o.neg_mul r a
        ∙ ap t.neg
            (sym (o.min_left (t.mul r a) (t.mul (t.clamp r) a) (o.keeps a r (t.clamp r) h below)))
    | inr above ↦
        ap (λ m. t.mul (t.neg m) a) (o.min_right r (t.clamp r) above)
        ∙ o.neg_mul (t.clamp r) a
        ∙ ap t.neg
            (sym (o.min_right (t.mul r a) (t.mul (t.clamp r) a) (o.keeps a (t.clamp r) r h above)))
  ]

  -- For an advantage that is not positive, the term of a token is the negated larger one of the
  -- product with the ratio and the product with the clipped ratio, if the arithmetic is ordered as
  -- float32 without NaN is.
  pub per_token-IsLarger :
      (ratio advantage : F)
      → Le advantage t.zero_f
      → (m : F) × (per_token t ratio advantage ≡ t.neg m)
        × IsLarger m (t.mul ratio advantage) (t.mul (t.clamp ratio) advantage)
  unfolding per_token
  per_token-IsLarger r a h = elim (o.total r (t.clamp r)) [
    | inl below ↦ (
      t.mul r a,
      rw (per_token, o.min_left r (t.clamp r) below) (o.neg_mul r a),
      ((refl_le (t.mul r a), o.turns a r (t.clamp r) h below), inl refl),
    )
    | inr above ↦ (
      t.mul (t.clamp r) a,
      rw (per_token, o.min_right r (t.clamp r) above) (o.neg_mul (t.clamp r) a),
      ((o.turns a (t.clamp r) r h above, refl_le (t.mul (t.clamp r) a)), inr refl),
    )
  ]
    where
      refl_le : (x : F) → Le x x
      refl_le x = elim (o.total x x) [ inl e ↦ e | inr e ↦ e ]
