-- ===== src/Prelude/Action.antt =====
-- Calls that change state and may raise. What was written before a raise stays written, so the
-- state comes back beside the error too.
use grpo_guard.Prelude.Result.{Error, Result, Result-cases, ok, err, ok-injective}
use mathlib.Core.Bool.{Bool, true, false}
use mathlib.Core.Logic.{inl, inr}
use mathlib.Core.Path.{◌≡◌, refl, sym, ap, ◌∙◌}
use native.Mathlib.Omega.{arith}

abbrev pub Action {ℓ κ} : Type ℓ → Type κ → Type (ℓ ⊔ κ)
Action S A = S → Result A × S

module _ {ℓ κ} {S : Type ℓ} {A : Type κ} where
  abbrev pub pure : A → Action S A
  pure a s = (ok a, s)

  abbrev pub raise : Error → Action S A
  raise e s = (err e, s)

  abbrev pub lift : Result A → Action S A
  lift r s = (r, s)

infixl 5 ◌>>=◌ ◌>>◌
abbrev pub ◌>>=◌ {ℓ κ μ} :
    {S : Type ℓ} {A : Type κ} {B : Type μ} → Action S A → (A → Action S B) → Action S B
◌>>=◌ m f s = let (r, s') = m s in elim r [ ok a ↦ f a s' | err e ↦ (err e, s') ]

abbrev pub ◌>>◌ {ℓ κ} : {S : Type ℓ} {B : Type κ} → Action S (Unit {0}) → Action S B → Action S B
m >> k = m >>= λ _. k

abbrev pub modify {ℓ} : {S : Type ℓ} → (S → S) → Action S (Unit {0})
modify f s = (ok tt, f s)

-- `if b: raise e`
abbrev pub raise_when {ℓ} : {S : Type ℓ} → Bool → Error → Action S (Unit {0})
raise_when true e s = (err e, s)
raise_when false e s = (ok tt, s)

-- Every run of the action, whether it raises or not, relates the state before to the state after.
abbrev pub Preserves {ℓ κ μ} :
    {S : Type ℓ} {A : Type κ} → (S → S → Type μ) → Action S A → Type (ℓ ⊔ μ)
Preserves {S = S} R m = (s : S) → R s (m s).1

module _ {ℓ κ μ ν} {S : Type ℓ} {A : Type κ} {B : Type μ} where
  pub bind-Preserves :
      (R : S → S → Type ν) (m : Action S A) (f : A → Action S B)
      → ((u v w : S) → R u v → R v w → R u w)
      → Preserves R m
      → ((a : A) → Preserves R (f a))
      → Preserves R (m >>= f)
  bind-Preserves R m f trans first next s = elim (Result-cases (m s).0) [
    | inl (a, o) ↦ rw (o, ◌>>=◌) (trans s (m s).1 (f a (m s).1).1 (first s) (next a (m s).1))
    | inr (e, o) ↦ rw (o, ◌>>=◌) (first s)
  ]

module _ {ℓ κ μ} {S : Type ℓ} {A : Type κ} {B : Type μ} where
  -- A chain that returned: its first action returned, and so did the rest from there.
  pub bind-ok :
      (m : Action S A) (f : A → Action S B) (s : S) (b : B)
      → ((m >>= f) s).0 ≡ ok b
      → (a : A) × ((m s).0 ≡ ok a) × ((m >>= f) s ≡ f a (m s).1)
  bind-ok m f s b e = elim (Result-cases (m s).0) [
    | inl (a, o) ↦ (a, o, rw (o, ◌>>=◌) refl)
    | inr (x, o) ↦ ground (arith, e, o)
  ]

  -- The same, with what the rest returned.
  pub bind-next :
      (m : Action S A) (f : A → Action S B) (s : S) (b : B)
      → ((m >>= f) s).0 ≡ ok b
      → (a : A) × ((m s).0 ≡ ok a) × ((f a (m s).1).0 ≡ ok b)
  bind-next m f s b h =
      let (a, e, same) = bind-ok m f s b h in (a, e, sym (ap (λ (t : Result B × S). t.0) same) ∙ h)

  -- The same, with the states.
  pub bind-runs :
      (m : Action S A) (f : A → Action S B) (s t : S) (b : B)
      → (m >>= f) s ≡ (ok b, t)
      → (a : A) × (u : S) × (m s ≡ (ok a, u)) × (f a u ≡ (ok b, t))
  bind-runs m f s t b h =
      let (a, e, same) = bind-ok m f s b (ap (λ (r : Result B × S). r.0) h) in
      (a, (m s).1, ap (λ (r : Result A). (r, (m s).1)) e, sym same ∙ h)

-- Two runs that returned alike.
pub returned {ℓ κ} :
    {S : Type ℓ} {A : Type κ} {a b : A} {s t : S}
    → Path (Result A × S) (ok a, s) (ok b, t)
    → (a ≡ b) × (s ≡ t)
returned {S = S} {A = A} h =
    (ok-injective (ap (λ (r : Result A × S). r.0) h), ap (λ (r : Result A × S). r.1) h)
