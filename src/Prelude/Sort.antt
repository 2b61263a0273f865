-- ===== src/Prelude/Sort.antt =====
-- sorted(xs, key=…): stable insertion by a key, and its independence of the order of the input.
use Prim.Native.Nat.{ℕ}
use Prim.Native.String.{String}
use mathlib.Core.Path.{◌≡◌, refl, sym, subst, ◌∙◌}
use mathlib.Core.Logic.{inl, inr}
use mathlib.Core.Bool.{true, false}
use mathlib.Core.List.{List, [], ◌∷◌, Permᴰ}
use native.Mathlib.Omega.{arith}
use grpo_guard.Prelude.Tests.{Bool-cases, if◌then◌else◌}
use grpo_guard.Prelude.Lists.{All}
use grpo_guard.Prelude.Order.{lt_key, lt_key_irrefl, lt_key_trans, lt_key_connected}

module _ {ℓ} {A : Type ℓ} (key : A → ℕ × String) where
  -- Before the first entry that has not a smaller key.
  unfoldable pub insert_by : A → List A → List A
  insert_by x [] = x ∷ []
  insert_by x (y ∷ ys) =
      let rest = insert_by x ys in if lt_key (key y) (key x) then y ∷ rest else x ∷ y ∷ ys

  unfoldable pub sort_by : List A → List A
  sort_by [] = []
  sort_by (x ∷ xs) = insert_by x (sort_by xs)

  asymmetric : (a b : A) → lt_key (key a) (key b) ≡ true → lt_key (key b) (key a) ≡ false
  asymmetric a b h = ground (
    arith,
    lt_key_trans (key a) (key b) (key a) h,
    lt_key_irrefl (key a),
    Bool-cases (lt_key (key b) (key a)),
  )

  insert_by_swap :
      (x y : A) (l : List A)
      → lt_key (key y) (key x) ≡ true
      → insert_by x (insert_by y l) ≡ insert_by y (insert_by x l)
  unfolding insert_by
  insert_by_swap x y [] h = ground (arith, h, asymmetric y x h)
  insert_by_swap x y (z ∷ l) h = elim (Bool-cases (lt_key (key z) (key y))) [
    | inl below ↦
        ground
          (arith, h, below, lt_key_trans (key z) (key y) (key x) below h, insert_by_swap x y l h)
    | inr above ↦ ground (arith, h, above, asymmetric y x h, Bool-cases (lt_key (key z) (key x)))
  ]

  -- Two entries with one key are the same, on the entries that P marks.
  module _ {ℓ'} (P : A → Type ℓ') (unique : (x y : A) → P x → P y → key x ≡ key y → x ≡ y) where
    insert_by_comm :
        (x y : A) (l : List A)
        → P x
        → P y
        → insert_by x (insert_by y l) ≡ insert_by y (insert_by x l)
    insert_by_comm x y l p q = elim (Bool-cases (lt_key (key y) (key x))) [
      | inl h ↦ insert_by_swap x y l h
      | inr h ↦ elim (Bool-cases (lt_key (key x) (key y))) [
        | inl k ↦ sym (insert_by_swap y x l k)
        | inr k ↦ rw (unique x y p q (lt_key_connected (key x) (key y) k h)) refl
      ]
    ]

    -- Sorting forgets the order of the entries.
    pub sort_by-Perm :
        {xs ys : List A} → Permᴰ xs ys → All P xs → (sort_by xs ≡ sort_by ys) × All P ys
    unfolding sort_by
    sort_by-Perm Permᴰ.nil h = (refl, tt)
    sort_by-Perm (Permᴰ.cons e d) h =
        let (q, hs) = sort_by-Perm d (h.1) in ((λ i. insert_by (e i) (q i)), (subst P e (h.0), hs))
    sort_by-Perm (Permᴰ.swap {a = a} {b = b} {l = l} e f) h = (
      insert_by_comm a b (sort_by l) (h.0) ((h.1).0)
          ∙ (λ i. insert_by (f i) (insert_by (e i) (sort_by l))),
      (subst P f ((h.1).0), (subst P e (h.0), (h.1).1)),
    )
    sort_by-Perm (Permᴰ.trans d e) h =
        let (first, hs) = sort_by-Perm d h in
        let (second, ks) = sort_by-Perm e hs in (first ∙ second, ks)
