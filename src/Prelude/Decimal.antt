-- ===== src/Prelude/Decimal.antt =====
-- The integers that the protocol carries, and the decimal text of a number in a template literal.
use Prim.Native.Nat.{ℕ, zero, suc, ◌/◌, ◌%◌}
use Prim.Native.String.{String, ◌++◌}
use mathlib.Core.Path.{◌≡◌, refl}
use mathlib.Core.Bool.{Bool, false}
use pair_dock.Prelude.Tests.{if◌then◌else◌, ltb, eqb}

-- `negsuc n` is -(n + 1).
pub data ℤ : Type 0 where
  pos : ℕ → ℤ
  negsuc : ℕ → ℤ

abbrev pub is_zero : ℤ → Bool
is_zero (pos n) = eqb n 0
is_zero (negsuc _) = false

digit : ℕ → String
digit zero = "0"
digit (suc zero) = "1"
digit (suc (suc zero)) = "2"
digit (suc (suc (suc zero))) = "3"
digit (suc (suc (suc (suc zero)))) = "4"
digit (suc (suc (suc (suc (suc zero))))) = "5"
digit (suc (suc (suc (suc (suc (suc zero)))))) = "6"
digit (suc (suc (suc (suc (suc (suc (suc zero))))))) = "7"
digit (suc (suc (suc (suc (suc (suc (suc (suc zero)))))))) = "8"
digit _ = "9"

-- Each round takes one digit off, so `n + 1` rounds are more than enough for `n`.
decimal_from : ℕ → ℕ → String → String
decimal_from zero n behind = behind
decimal_from (suc fuel) n behind =
    let rest = decimal_from fuel (n / 10) (digit (n % 10) ++ behind) in
    if ltb n 10 then digit n ++ behind else rest

unfoldable pub decimal : ℕ → String
unfolding decimal_from digit
decimal n = decimal_from (suc n) n ""

unfoldable pub to_string : ℤ → String
unfolding decimal
to_string (pos n) = decimal n
to_string (negsuc n) = "-" ++ decimal (suc n)

to_string_tests : (to_string (pos 137) ≡ "137") × (to_string (negsuc 0) ≡ "-1")
unfolding to_string
to_string_tests = (refl, refl)
