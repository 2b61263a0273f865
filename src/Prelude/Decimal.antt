-- ===== src/Prelude/Decimal.antt =====
-- str(n) and f"{n:04d}" of a natural number.
use Prim.Native.Nat.{ℕ, zero, suc, ◌+◌, ◌-◌, ◌/◌, ◌%◌}
use Prim.Native.String.{String, slice, count, ◌++◌}
use grpo_guard.Prelude.Tests.{ltb, if◌then◌else◌}
use grpo_guard.Prelude.Int.{ℤ, pos, negsuc}

abbrev digit : ℕ → String
digit d = slice "0123456789" d (d + 1)

-- A number has fewer digits than the fuel, which is one more than the number.
digits : ℕ → ℕ → String
digits zero n = ""
digits (suc fuel) n =
    let more = digits fuel (n / 10) ++ digit (n % 10) in if ltb n 10 then digit n else more

unfoldable pub decimal : ℕ → String
unfolding digits
decimal n = digits (suc n) n

zeros : ℕ → String
zeros zero = ""
zeros (suc n) = "0" ++ zeros n

unfoldable pub decimal_4 : ℕ → String
unfolding decimal zeros
decimal_4 n = zeros (4 - count (decimal n)) ++ decimal n

-- str of an integer
unfoldable pub str_ℤ : ℤ → String
unfolding decimal
str_ℤ (pos n) = decimal n
str_ℤ (negsuc n) = "-" ++ decimal (suc n)
