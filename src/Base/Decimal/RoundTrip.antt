-- ===== src/Base/Decimal/RoundTrip.antt =====
-- A number that is printed in decimal is read back.
use Prim.Native.Nat.{ℕ, zero, suc, ◌+◌, ◌*◌, ◌/◌, ◌%◌, ◌≤◌, ◌<◌}
use Prim.Native.Char.{Char, code}
use Prim.Native.String.{String, ◌++◌}
use Prim.Native.String.append
use mathlib.Core.Path.{◌≡◌, refl, sym, ap, ◌∙◌}
use mathlib.Core.Option.{some}
use text.Mathlib.TextLemmas.{append_assoc, append-nil}
use mathlib.Core.Logic.{inl, inr}
use native.Mathlib.Omega.{arith}
use spot_instance_training_o.Base.Tests.{Bool-cases, ltb}
use spot_instance_training_o.Base.Int32.{ℤ, pos, negsuc, i32_max}
use spot_instance_training_o.Base.Decimal.{
  digit, decimal_digits, decimal, decimal_ℤ, digit_value, parse_digits, parse_unsigned, parse_int32,
  positive32, negative32,
}

-- A reader goes on with the digits in front.
abbrev pub Reader : {A : Type 0} → (ℕ → String → A) → Type 0
Reader read =
    (acc : ℕ) (c : Char) (s : String) (d : ℕ)
    → digit_value (code c) ≡ some d
    → read acc (String.◌∷◌ c s) ≡ read (acc * 10 + d) s

module _ {A : Type 0} (read : ℕ → String → A) (step : Reader read) where
  reads_digit :
      (d : ℕ) → d < 10 → (acc : ℕ) (s : String) → read acc (digit d ++ s) ≡ read (acc * 10 + d) s
  unfolding digit digit_value
  reads_digit zero h acc s = rw (append.cons, append.nil) (step acc _ s _ refl)
  reads_digit (suc zero) h acc s = rw (append.cons, append.nil) (step acc _ s _ refl)
  reads_digit (suc (suc zero)) h acc s = rw (append.cons, append.nil) (step acc _ s _ refl)
  reads_digit (suc (suc (suc zero))) h acc s = rw (append.cons, append.nil) (step acc _ s _ refl)
  reads_digit (suc (suc (suc (suc zero)))) h acc s =
      rw (append.cons, append.nil) (step acc _ s _ refl)
  reads_digit (suc (suc (suc (suc (suc zero))))) h acc s =
      rw (append.cons, append.nil) (step acc _ s _ refl)
  reads_digit (suc (suc (suc (suc (suc (suc zero)))))) h acc s =
      rw (append.cons, append.nil) (step acc _ s _ refl)
  reads_digit (suc (suc (suc (suc (suc (suc (suc zero))))))) h acc s =
      rw (append.cons, append.nil) (step acc _ s _ refl)
  reads_digit (suc (suc (suc (suc (suc (suc (suc (suc zero)))))))) h acc s =
      rw (append.cons, append.nil) (step acc _ s _ refl)
  reads_digit (suc (suc (suc (suc (suc (suc (suc (suc (suc zero))))))))) h acc s =
      rw (append.cons, append.nil) (step acc _ s _ refl)
  reads_digit (suc (suc (suc (suc (suc (suc (suc (suc (suc (suc d)))))))))) h acc s =
      absurd (omega (arith, h))

  reads_digits :
      (fuel n : ℕ) (s : String) → n < fuel → read 0 (decimal_digits fuel n ++ s) ≡ read n s
  unfolding decimal_digits
  reads_digits zero n s h = absurd (omega (arith, h))
  reads_digits (suc fuel) n s h = elim (Bool-cases (ltb n 10)) [
    | inl small ↦
        rw (small, reads_digit n (ground (arith, small)) 0 s) (ap (λ m. read m s) (omega arith))
    | inr large ↦
        rw
          (
            large,
            append_assoc,
            reads_digits fuel (n / 10) (digit (n % 10) ++ s) (ground (arith, large, h)),
            reads_digit (n % 10) (omega arith) (n / 10) s,
          )
          (ap (λ m. read m s) (omega arith))
  ]

  -- The fuel of `decimal` is enough.
  pub reads_decimal : (n : ℕ) (s : String) → read 0 (decimal n ++ s) ≡ read n s
  unfolding decimal
  reads_decimal n s = reads_digits (suc n) n s (omega arith)

pub parse_digits-Reader : Reader parse_digits
unfolding parse_digits
parse_digits-Reader acc c s d h = rw (parse_digits, h) refl

-- The text starts with a character that is no sign.
StartsDigit : String → Type 0
StartsDigit String.[] = ⊥
StartsDigit (String.◌∷◌ c s) = b'0' ≤ code c

digit-StartsDigit : (d : ℕ) → d < 10 → StartsDigit (digit d)
unfolding StartsDigit digit
digit-StartsDigit zero h = omega arith
digit-StartsDigit (suc zero) h = omega arith
digit-StartsDigit (suc (suc zero)) h = omega arith
digit-StartsDigit (suc (suc (suc zero))) h = omega arith
digit-StartsDigit (suc (suc (suc (suc zero)))) h = omega arith
digit-StartsDigit (suc (suc (suc (suc (suc zero))))) h = omega arith
digit-StartsDigit (suc (suc (suc (suc (suc (suc zero)))))) h = omega arith
digit-StartsDigit (suc (suc (suc (suc (suc (suc (suc zero))))))) h = omega arith
digit-StartsDigit (suc (suc (suc (suc (suc (suc (suc (suc zero)))))))) h = omega arith
digit-StartsDigit (suc (suc (suc (suc (suc (suc (suc (suc (suc zero))))))))) h = omega arith
digit-StartsDigit (suc (suc (suc (suc (suc (suc (suc (suc (suc (suc d)))))))))) h =
    absurd (omega (arith, h))

append-StartsDigit : (s t : String) → StartsDigit s → StartsDigit (s ++ t)
unfolding StartsDigit
append-StartsDigit String.[] t h = absurd h
append-StartsDigit (String.◌∷◌ c s) t h = rw append.cons h

digits-StartsDigit : (fuel n : ℕ) → n < fuel → StartsDigit (decimal_digits fuel n)
unfolding decimal_digits
digits-StartsDigit zero n h = absurd (omega (arith, h))
digits-StartsDigit (suc fuel) n h = elim (Bool-cases (ltb n 10)) [
  | inl small ↦ rw small (digit-StartsDigit n (ground (arith, small)))
  | inr large ↦ rw large (
      append-StartsDigit (decimal_digits fuel (n / 10)) (digit (n % 10))
        (digits-StartsDigit fuel (n / 10) (ground (arith, large, h))))
]

decimal-StartsDigit : (n : ℕ) → StartsDigit (decimal n)
unfolding decimal
decimal-StartsDigit n = digits-StartsDigit (suc n) n (omega arith)

pub parse_digits-decimal : (n : ℕ) → parse_digits 0 (decimal n) ≡ some n
unfolding parse_digits
parse_digits-decimal n =
    sym (ap (parse_digits 0) (append-nil (decimal n)))
    ∙ reads_decimal parse_digits parse_digits-Reader n ""

parse_unsigned-StartsDigit : (s : String) → StartsDigit s → parse_unsigned s ≡ parse_digits 0 s
unfolding StartsDigit parse_unsigned
parse_unsigned-StartsDigit String.[] h = absurd h
parse_unsigned-StartsDigit (String.◌∷◌ c s) h = refl

parse_int32-StartsDigit :
    (s : String) → StartsDigit s → parse_int32 s ≡ positive32 (parse_digits 0 s)
unfolding StartsDigit parse_unsigned parse_int32
parse_int32-StartsDigit String.[] h = absurd h
parse_int32-StartsDigit (String.◌∷◌ c s) h = ground arith

parse_int32-minus :
    (s : String) → StartsDigit s → parse_int32 ("-" ++ s) ≡ negative32 (parse_digits 0 s)
unfolding parse_int32
parse_int32-minus s h =
    rw (append.cons, append.nil) (ap negative32 (parse_unsigned-StartsDigit s h))

-- The numbers that an `int32` holds.
abbrev pub IsInt32 : ℤ → Type 0
IsInt32 (pos n) = n ≤ i32_max
IsInt32 (negsuc n) = n ≤ i32_max

-- What `%d` prints of an `int32`, `ParseInt` reads.
pub parse_int32-decimal_ℤ : (i : ℤ) → IsInt32 i → parse_int32 (decimal_ℤ i) ≡ some i
unfolding decimal_ℤ positive32 negative32
parse_int32-decimal_ℤ (pos n) h =
    rw (parse_int32-StartsDigit _ (decimal-StartsDigit n), parse_digits-decimal n) (ground arith)
parse_int32-decimal_ℤ (negsuc n) h =
    rw (parse_int32-minus _ (decimal-StartsDigit (suc n)), parse_digits-decimal (suc n))
      (ground arith)
