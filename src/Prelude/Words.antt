-- ===== src/Prelude/Words.antt =====
-- The bytes of numpy arrays, in the little-endian order of the machines that the code runs on. A
-- 32-bit element, integer or float, is its bit pattern.
use Prim.Native.Nat.{ℕ, suc, ◌+◌, ◌*◌, ◌/◌, ◌%◌, ◌^◌, ◌<◌}
use mathlib.Core.Path.{◌≡◌, refl, ap}
use mathlib.Core.List.{List, [], ◌∷◌}
use native.Mathlib.Omega.{arith}
use grpo_guard.Prelude.Lists.{All, length}

-- a.tobytes() of a 32-bit dtype
unfoldable pub bytes_32 : List ℕ → List ℕ
bytes_32 [] = []
bytes_32 (w ∷ ws) =
    (w % 256) ∷ (w / 256 % 256) ∷ (w / 65536 % 256) ∷ (w / 16777216 % 256) ∷ bytes_32 ws

-- a.astype(np.int8).tobytes() of natural numbers
unfoldable pub bytes_8 : List ℕ → List ℕ
bytes_8 [] = []
bytes_8 (w ∷ ws) = (w % 256) ∷ bytes_8 ws

-- np.frombuffer(bytes, "<u4"), of whole elements
unfoldable pub words_32 : List ℕ → List ℕ
words_32 (a ∷ b ∷ c ∷ d ∷ rest) = (a + 256 * b + 65536 * c + 16777216 * d) ∷ words_32 rest
words_32 _ = []

pub words_32-bytes_32 : (ws : List ℕ) → All (λ w. w < 2 ^ 32) ws → words_32 (bytes_32 ws) ≡ ws
unfolding words_32 bytes_32
words_32-bytes_32 [] h = refl
words_32-bytes_32 (w ∷ ws) h =
    let head : w % 256
          + 256 * (w / 256 % 256)
          + 65536 * (w / 65536 % 256)
          + 16777216 * (w / 16777216 % 256)
        ≡ w =
      omega (arith, h.0) in
    λ i. head i ∷ words_32-bytes_32 ws (h.1) i

pub length-bytes_32 : (ws : List ℕ) → length (bytes_32 ws) ≡ 4 * length ws
unfolding bytes_32
length-bytes_32 [] = refl
length-bytes_32 (w ∷ ws) = omega (arith, length-bytes_32 ws)

pub length-bytes_8 : (ws : List ℕ) → length (bytes_8 ws) ≡ length ws
unfolding bytes_8
length-bytes_8 [] = refl
length-bytes_8 (w ∷ ws) = ap suc (length-bytes_8 ws)
