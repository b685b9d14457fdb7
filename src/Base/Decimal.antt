-- ===== src/Base/Decimal.antt =====
-- `fmt.Sprintf("%d", n)` and `strconv.ParseInt(s, 10, 32)`.
pub mod RoundTrip
pub mod Dashed
use Prim.Native.Nat.{ℕ, zero, suc, ◌+◌, ◌-◌, ◌*◌, ◌/◌, ◌%◌}
use Prim.Native.Char.{code}
use Prim.Native.String.{String, ◌++◌}
use mathlib.Core.Path.{◌≡◌, refl}
use mathlib.Core.Bool.{◌&&◌}
use mathlib.Core.Option.{Option, none, some}
use spot_instance_training_o.Base.Tests.{ltb, leb, ◌==◌, if◌then◌else◌}
use spot_instance_training_o.Base.Int32.{ℤ, pos, negsuc, i32_max}

digit : ℕ → String
digit d =
    if d == 0
    then "0"
    else if d == 1
    then "1"
    else if d == 2
    then "2"
    else if d == 3
    then "3"
    else if d == 4
    then "4"
    else if d == 5
    then "5"
    else if d == 6
    then "6"
    else if d == 7
    then "7"
    else if d == 8
    then "8"
    else "9"

decimal_digits : ℕ → ℕ → String
decimal_digits zero n = ""
decimal_digits (suc fuel) n =
    let rest = decimal_digits fuel (n / 10) ++ digit (n % 10) in if ltb n 10 then digit n else rest

-- `%d` of a number that is not negative.
unfoldable pub decimal : ℕ → String
unfolding decimal_digits digit
decimal n = decimal_digits (suc n) n

-- `%d` of a signed number.
unfoldable pub decimal_ℤ : ℤ → String
unfolding decimal
decimal_ℤ (pos n) = decimal n
decimal_ℤ (negsuc n) = "-" ++ decimal (suc n)

pub digit_value : ℕ → Option ℕ
digit_value c = if leb b'0' c && leb c b'9' then some (c - b'0') else none

pub parse_digits : ℕ → String → Option ℕ
parse_digits acc String.[] = some acc
parse_digits acc (String.◌∷◌ c s) = elim (digit_value (code c)) [
  | none ↦ none
  | some d ↦ parse_digits (acc * 10 + d) s
]

-- At least one digit.
parse_unsigned : String → Option ℕ
parse_unsigned String.[] = none
parse_unsigned (String.◌∷◌ c s) = parse_digits 0 (String.◌∷◌ c s)

positive32 : Option ℕ → Option ℤ
positive32 none = none
positive32 (some n) = if leb n i32_max then some (pos n) else none

negative32 : Option ℕ → Option ℤ
negative32 none = none
negative32 (some n) =
    if n == 0 then some (pos 0) else if leb n (i32_max + 1) then some (negsuc (n - 1)) else none

-- `strconv.ParseInt(s, 10, 32)`; `none` is the error.
unfoldable pub parse_int32 : String → Option ℤ
unfolding digit_value parse_digits parse_unsigned positive32 negative32
parse_int32 String.[] = none
parse_int32 (String.◌∷◌ c s) =
    if code c == b'-'
    then negative32 (parse_unsigned s)
    else if code c == b'+'
    then positive32 (parse_unsigned s)
    else positive32 (parse_unsigned (String.◌∷◌ c s))

decimal_runs : decimal 1740412345 ≡ "1740412345"
unfolding decimal
decimal_runs = refl

parse_int32_runs : parse_int32 "-2147483648" ≡ some (negsuc 2147483647)
unfolding parse_int32
parse_int32_runs = refl

parse_int32_too_large : parse_int32 "2147483648" ≡ none
unfolding parse_int32
parse_int32_too_large = refl
