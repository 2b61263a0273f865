-- ===== src/Prelude/Result.antt =====
-- Python's exceptions as values.
use mathlib.Core.Path.{◌≡◌, refl}
use mathlib.Core.Logic.{◌⊎◌, inl, inr}
use mathlib.Core.Bool.{Bool, true, false}

-- The exception classes that the modelled code raises or catches.
pub data Error : Type 0 where
  alignment_error empty_completion_error hash_mismatch_error file_not_found_error : Error
  value_error type_error runtime_error key_error index_error : Error
  lease_error event_already_appended event_seal_error : Error
  handle_consumed_error nonce_reuse_error conflicting_commit guard_violation : Error
  attribute_error overflow_error : Error

pub data Result {ℓ} (A : Type ℓ) : Type ℓ where
  ok : A → Result A
  err : Error → Result A

infixl 5 ◌>>=◌
-- An exception skips what follows.
abbrev pub ◌>>=◌ {ℓ κ} :
    {T : Type ℓ} {U : Type κ} (result : Result T) (next : T → Result U) → Result U
err why >>= next = err why
ok value >>= next = next value

infixl 5 ◌>>◌
abbrev pub ◌>>◌ {μ} : {U : Type μ} → Result (Unit {0}) → Result U → Result U
check >> after = check >>= λ _. after

-- `if b: raise e`
abbrev pub raise_if : Bool → Error → Result (Unit {0})
raise_if true e = err e
raise_if false e = ok tt

pub Result-cases {ℓ} :
    {A : Type ℓ} (r : Result A) → ((a : A) × (r ≡ ok a)) ⊎ ((e : Error) × (r ≡ err e))
Result-cases (ok a) = inl (a, refl)
Result-cases (err e) = inr (e, refl)

-- A chain that returned: its first part returned, and so did the rest.
pub bind-ok {ℓ κ} :
    {T : Type ℓ} {U : Type κ} (m : Result T) (f : T → Result U) {u : U}
    → (m >>= f) ≡ ok u
    → (a : T) × (m ≡ ok a) × (f a ≡ ok u)
bind-ok (ok a) f h = (a, refl, h)
bind-ok (err e) f h = cc

-- Two chains with one first part.
pub bind-ap {ℓ κ} :
    {T : Type ℓ} {U : Type κ} (m : Result T) (f g : T → Result U)
    → ((a : T) → f a ≡ g a)
    → (m >>= f) ≡ (m >>= g)
bind-ap (ok a) f g h = h a
bind-ap (err e) f g h = refl

pub ok-injective {ℓ} : {T : Type ℓ} {a b : T} → ok a ≡ ok b → a ≡ b
ok-injective h = cc
