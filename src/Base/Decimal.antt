-- ===== src/Base/Decimal.antt =====
-- A number as the decimal text that a template string makes of it.
use Prim.Native.Nat.{ℕ, zero, suc, ◌/◌, ◌%◌}
use Prim.Native.String.{String, ◌++◌}
use mathlib.Core.Path.{◌≡◌, refl}
use mvp_qcp.Base.Tests.{ltb, ◌==◌, if◌then◌else◌}

digit : ℕ → String
digit d =
    if d == 0
    then "0"
    else if d == 1
    then "1"
    else if d == 2
    then "2"
    else if d == 3
    then "3"
    else if d == 4
    then "4"
    else if d == 5
    then "5"
    else if d == 6
    then "6"
    else if d == 7
    then "7"
    else if d == 8
    then "8"
    else "9"

-- Each round writes the last digit; n + 1 rounds are more than n has digits.
digits_from : ℕ → ℕ → String
digits_from zero n = ""
digits_from (suc fuel) n =
    let more = digits_from fuel (n / 10) in if ltb n 10 then digit n else more ++ digit (n % 10)

unfoldable pub decimal : ℕ → String
unfolding digits_from digit
decimal n = digits_from (suc n) n

decimal_test : decimal 1024 ≡ "1024"
unfolding decimal
decimal_test = refl
