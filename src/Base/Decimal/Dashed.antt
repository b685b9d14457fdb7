-- ===== src/Base/Decimal/Dashed.antt =====
-- Two numbers that are printed with a dash between them are told apart from any other two.
use Prim.Native.Nat.{ℕ, ◌+◌, ◌*◌, ◌≤◌, ◌<◌}
use Prim.Native.Char.{code}
use Prim.Native.String.{String, ◌++◌}
use Prim.Native.String.append
use mathlib.Core.Path.{◌≡◌, refl, sym, ap, ◌∙◌}
use mathlib.Core.Option.{Option, none, some}
use mathlib.Core.Logic.{◌⊎◌, inl, inr}
use native.Mathlib.Omega.{arith}
use spot_instance_training_o.Base.Decimal.{decimal, digit_value, parse_digits}
use spot_instance_training_o.Base.Decimal.RoundTrip.{
  Reader, reads_decimal, parse_digits-Reader, parse_digits-decimal,
}

-- The number before the first character that is no digit, and what stands behind that.
read_dashed : ℕ → String → Option (ℕ × String)
read_dashed acc String.[] = none
read_dashed acc (String.◌∷◌ c s) = elim (digit_value (code c)) [
  | none ↦ some (acc, s)
  | some d ↦ read_dashed (acc * 10 + d) s
]

read_dashed-Reader : Reader read_dashed
unfolding read_dashed
read_dashed-Reader acc c s d h = rw (read_dashed, h) refl

read_dashed-dash : (n : ℕ) (r : String) → read_dashed n ("-" ++ r) ≡ some (n, r)
unfolding read_dashed digit_value
read_dashed-dash n r = rw (append.cons, append.nil) refl

read_dashed-decimal : (n : ℕ) (r : String) → read_dashed 0 (decimal n ++ ("-" ++ r)) ≡ some (n, r)
read_dashed-decimal n r =
    reads_decimal read_dashed read_dashed-Reader n ("-" ++ r) ∙ read_dashed-dash n r

pub dashed_split :
    (i j : ℕ) (r r' : String)
    → decimal i ++ ("-" ++ r) ≡ decimal j ++ ("-" ++ r')
    → (i ≡ j) × (r ≡ r')
dashed_split i j r r' h =
    let e = sym (read_dashed-decimal i r) ∙ (ap (read_dashed 0) h ∙ read_dashed-decimal j r') in
    (cc e, cc e)

-- What a digit in front leaves to be read.
read_on :
    (m m' : ℕ) (s : String) (o : Option ℕ)
    → elim o [ none ↦ none | some d ↦ parse_digits (m * 10 + d) s ] ≡ some m'
    → (d : ℕ) × (parse_digits (m * 10 + d) s ≡ some m')
read_on m m' s none h = absurd (cc h)
read_on m m' s (some d) h = (d, h)

grows : (m m' : ℕ) (s : String) → parse_digits m s ≡ some m' → m ≤ m'
unfolding parse_digits
grows m m' String.[] h = let e : m ≡ m' = cc h in omega (arith, e)
grows m m' (String.◌∷◌ c s) h =
    let (d, k) = read_on m m' s (digit_value (code c)) h in omega (arith, grows (m * 10 + d) m' s k)

ends_or_grows : (m m' : ℕ) (s : String) → parse_digits m s ≡ some m' → (m ≡ m') ⊎ (m * 10 ≤ m')
unfolding parse_digits
ends_or_grows m m' String.[] h = inl (cc h)
ends_or_grows m m' (String.◌∷◌ c s) h =
    let (d, k) = read_on m m' s (digit_value (code c)) h in
    inr (omega (arith, grows (m * 10 + d) m' s k))

-- Of two numbers of as many digits neither begins with the other.
pub decimal-same_width :
    (n n' k : ℕ) (rest : String) → decimal n' ≡ decimal n ++ rest → k ≤ n → n' < k * 10 → n ≡ n'
decimal-same_width n n' k rest h low high =
    elim (ends_or_grows n n' rest (
      sym (reads_decimal parse_digits parse_digits-Reader n rest)
      ∙ (ap (parse_digits 0) (sym h) ∙ parse_digits-decimal n'))) [
        | inl same ↦ same
        | inr more ↦ absurd (omega arith)
      ]
