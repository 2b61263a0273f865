-- ===== src/Prelude/Order.antt =====
-- The order of event keys: a number, then a text by its code points, as tuples compare in Python.
use Prim.Native.Nat.{ℕ}
use Prim.Native.Char.{code}
use Prim.Native.String.{String}
use mathlib.Core.Path.{◌≡◌, refl}
use mathlib.Core.Bool.{Bool, true, false, ◌&&◌, ◌||◌}
use native.Mathlib.Omega.{arith}
use text.Mathlib.TextEquality.{Char-path}
use grpo_guard.Prelude.Tests.{ltb, ◌==◌}

unfoldable pub lt_text : String → String → Bool
lt_text String.[] String.[] = false
lt_text String.[] (String.◌∷◌ d t) = true
lt_text (String.◌∷◌ c s) String.[] = false
lt_text (String.◌∷◌ c s) (String.◌∷◌ d t) =
    ltb (code c) (code d) || (code c == code d && lt_text s t)

lt_text_trans : (s t u : String) → lt_text s t ≡ true → lt_text t u ≡ true → lt_text s u ≡ true
unfolding lt_text
lt_text_trans String.[] String.[] String.[] h k = h
lt_text_trans String.[] (String.◌∷◌ d t) String.[] h k = k
lt_text_trans String.[] t (String.◌∷◌ e u) h k = refl
lt_text_trans (String.◌∷◌ c s) String.[] u h k = ground (arith, h)
lt_text_trans (String.◌∷◌ c s) (String.◌∷◌ d t) String.[] h k = ground (arith, k)
lt_text_trans (String.◌∷◌ c s) (String.◌∷◌ d t) (String.◌∷◌ e u) h k =
    ground (arith, h, k, lt_text_trans s t u)

lt_text_irrefl : (s : String) → lt_text s s ≡ false
unfolding lt_text
lt_text_irrefl String.[] = refl
lt_text_irrefl (String.◌∷◌ c s) = ground (arith, lt_text_irrefl s)

lt_text_connected : (s t : String) → lt_text s t ≡ false → lt_text t s ≡ false → s ≡ t
unfolding lt_text
lt_text_connected String.[] String.[] h k = refl
lt_text_connected String.[] (String.◌∷◌ d t) h k = ground (arith, h)
lt_text_connected (String.◌∷◌ c s) String.[] h k = ground (arith, k)
lt_text_connected (String.◌∷◌ c s) (String.◌∷◌ d t) h k =
    let heads : code c ≡ code d = ground (arith, h, k) in
    let tails : s ≡ t =
      lt_text_connected s t (ground (arith, h, heads)) (ground (arith, k, heads)) in
    λ i. String.◌∷◌ (Char-path c d heads i) (tails i)

unfoldable pub lt_key : ℕ × String → ℕ × String → Bool
lt_key (m, s) (n, t) = ltb m n || (m == n && lt_text s t)

pub lt_key_irrefl : (a : ℕ × String) → lt_key a a ≡ false
unfolding lt_key
lt_key_irrefl (m, s) = ground (arith, lt_text_irrefl s)

pub lt_key_trans : (a b c : ℕ × String) → lt_key a b ≡ true → lt_key b c ≡ true → lt_key a c ≡ true
unfolding lt_key
lt_key_trans (m, s) (n, t) (o, u) h k = ground (arith, h, k, lt_text_trans s t u)

pub lt_key_connected : (a b : ℕ × String) → lt_key a b ≡ false → lt_key b a ≡ false → a ≡ b
unfolding lt_key
lt_key_connected (m, s) (n, t) h k =
    let numbers : m ≡ n = ground (arith, h, k) in
    let texts : s ≡ t =
      lt_text_connected s t (ground (arith, h, numbers)) (ground (arith, k, numbers)) in
    λ i. (numbers i, texts i)
