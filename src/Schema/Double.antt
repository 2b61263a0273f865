-- ===== src/Schema/Double.antt =====
-- Python's float as the binary64 value that it is, for the comparisons that the code makes.
use grpo_guard.Prelude.{ltb, ℕ, ◌*◌, ◌^◌}
use mathlib.Core.Bool.{Bool, true, false}

-- `finite n m e` is m * 2 ^ e / 2 ^ 1074, negated if n.
pub data Double : Type 0 where
  nan : Double
  infinite : Bool → Double
  finite : Bool → ℕ → ℕ → Double

abbrev pub zero_double : Double
zero_double = finite false 0 0

-- abs(v) > 1e-9; the literal 1e-9 is 4835703278458517 / 2 ^ 82.
unfoldable pub exceeds_1e_9 : Double → Bool
exceeds_1e_9 nan = false
exceeds_1e_9 (infinite n) = true
exceeds_1e_9 (finite n m e) = ltb (4835703278458517 * 2 ^ 992) (m * 2 ^ e)
