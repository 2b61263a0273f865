-- ===== src/Prelude/Dict.antt =====
-- A Python dict with text keys, as an association list in insertion order.
use grpo_guard.Prelude.Tests.{if◌then◌else◌}
use grpo_guard.Prelude.Text.{◌is◌, contains, eq_iff}
use Prim.Native.String.{String}
use mathlib.Core.Path.{◌≡◌, refl}
use mathlib.Core.Bool.{true, false}
use mathlib.Core.Option.{Option, none, some}
use mathlib.Core.List.{List, [], ◌∷◌}
use native.Mathlib.Omega.{arith}

-- No text occurs twice.
abbrev pub Distinct : List String → Type 0
Distinct [] = Unit
Distinct (k ∷ ks) = (contains k ks ≡ false) × Distinct ks

abbrev pub Dict {ℓ} : Type ℓ → Type ℓ
Dict V = List (String × V)

module _ {ℓ} {V : Type ℓ} where
  -- d.get(k)
  unfoldable pub lookup : String → Dict V → Option V
  lookup k [] = none
  lookup k ((j, v) ∷ d) = if j is k then some v else lookup k d

  -- d[k] = v
  unfoldable pub insert : String → V → Dict V → Dict V
  insert k v [] = (k, v) ∷ []
  insert k v ((j, w) ∷ d) = if j is k then (j, v) ∷ d else (j, w) ∷ insert k v d

  pub lookup-insert :
      (k j : String) (v : V) (d : Dict V)
      → lookup j (insert k v d) ≡ (if k is j then some v else lookup j d)
  unfolding lookup insert
  lookup-insert k j v [] = refl
  lookup-insert k j v ((i, w) ∷ d) =
      ground (arith, eq_iff k j, eq_iff i k, eq_iff i j, lookup-insert k j v d)

  -- d.values()
  abbrev pub values : Dict V → List V
  values [] = []
  values ((k, v) ∷ d) = v ∷ values d

  -- d.pop(k), without the value
  unfoldable pub remove : String → Dict V → Dict V
  remove k [] = []
  remove k ((j, v) ∷ d) = if j is k then d else (j, v) ∷ remove k d

  abbrev pub keys : Dict V → List String
  keys [] = []
  keys ((k, v) ∷ d) = k ∷ keys d

  pub lookup-absent : (k : String) (d : Dict V) → contains k (keys d) ≡ false → lookup k d ≡ none
  unfolding lookup
  lookup-absent k [] h = refl
  lookup-absent k ((j, v) ∷ d) h = ground (arith, eq_iff k j, eq_iff j k, lookup-absent k d)

  pub lookup-remove :
      (k j : String) (d : Dict V)
      → Distinct (keys d)
      → lookup j (remove k d) ≡ (if k is j then none else lookup j d)
  unfolding lookup remove
  lookup-remove k j [] h = ground arith
  lookup-remove k j ((i, v) ∷ d) h =
      ground (
        arith,
        eq_iff k j,
        eq_iff i k,
        eq_iff i j,
        lookup-absent i d,
        lookup-remove k j d (h.1),
        h.0,
      )

  pub contains-remove :
      (k j : String) (d : Dict V)
      → contains j (keys (remove k d)) ≡ true
      → contains j (keys d) ≡ true
  unfolding remove
  contains-remove k j [] h = h
  contains-remove k j ((i, v) ∷ d) h = ground (arith, contains-remove k j d)

  pub absent-remove :
      (k : String) (d : Dict V) → Distinct (keys d) → contains k (keys (remove k d)) ≡ false
  unfolding remove
  absent-remove k [] h = refl
  absent-remove k ((i, v) ∷ d) h =
      ground (arith, eq_iff i k, eq_iff k i, absent-remove k d (h.1), h.0)

  pub remove-Distinct : (k : String) (d : Dict V) → Distinct (keys d) → Distinct (keys (remove k d))
  unfolding remove
  remove-Distinct k [] h = tt
  remove-Distinct k ((i, v) ∷ d) h =
      ground (arith, contains-remove k i d, remove-Distinct k d (h.1), h.0, h.1)
