-- ===== src/Prelude/Text.antt =====
-- Texts: equality, membership, and Python's order by code points, which `sorted` uses.
use Prim.Native.Nat.{compare, Ordering}
use Prim.Native.Char.{code}
use Prim.Native.String.{String}
use mathlib.Core.Bool.{Bool, false, ◌||◌}
use mathlib.Core.List.{List, [], ◌∷◌}
use text.Mathlib.Text.{◌==◌}
pub use text.Mathlib.TextEquality.{eq_iff}
pub use text.Mathlib.TextPositions.{eq_refl}

infix 50 ◌is◌
abbrev pub ◌is◌ : String → String → Bool
s is t = s == t

abbrev pub is_empty : String → Bool
is_empty s = s == ""

-- The order of two texts by their code points.
unfoldable pub compare_text : String → String → Ordering
compare_text String.[] String.[] = Ordering.eq
compare_text String.[] (String.◌∷◌ d t) = Ordering.lt
compare_text (String.◌∷◌ c s) String.[] = Ordering.gt
compare_text (String.◌∷◌ c s) (String.◌∷◌ d t) =
    let rest = compare_text s t in
    elim (compare (code c) (code d)) [
      | Ordering.lt ↦ Ordering.lt
      | Ordering.gt ↦ Ordering.gt
      | Ordering.eq ↦ rest
    ]

abbrev pub contains : String → List String → Bool
contains s [] = false
contains s (t ∷ ts) = (s == t) || contains s ts

-- Insertion into a sorted list without repetitions.
unfoldable pub insert_text : String → List String → List String
unfolding compare_text
insert_text s [] = s ∷ []
insert_text s (t ∷ ts) =
    let rest = insert_text s ts in
    elim (compare_text s t) [
      | Ordering.lt ↦ s ∷ t ∷ ts
      | Ordering.eq ↦ t ∷ ts
      | Ordering.gt ↦ t ∷ rest
    ]

-- sorted(set(texts))
unfoldable pub sorted_set : List String → List String
unfolding insert_text
sorted_set [] = []
sorted_set (s ∷ ts) = insert_text s (sorted_set ts)
