-- ===== src/Calculations/Decimals.antt =====
-- Decimal numbers and the rounding policy (calculations/rounding.py, calculations/units.py), with what
-- these use of Python's `decimal`: a sign, a coefficient and a number of decimal places. An operation
-- in a context gives the exact result rounded half-even to the precision of the context. A number with
-- a positive exponent stands with its zeros written out; the bounds of a context on exponents, near
-- one million, are not reached.
pub mod Digits
pub mod Rounded
pub mod Quotients
pub mod Exact
use vsat_frequency_managemen.Calculations.Errors.{Error, exactness_error, sub_hertz_error}
use vsat_frequency_managemen.Prelude.{
  Bool, Result, err, false, if◌then◌else◌, ltb, not, ok, raise_if, suc, true, zero, ℕ, ◌%◌, ◌&&◌,
  ◌*◌, ◌+◌, ◌-◌, ◌/◌, ◌==◌, ◌>>=◌, ◌>>◌, ◌^◌,
}
use vsat_frequency_managemen.Prelude.Int.{negate, negsuc, pos, ℤ}

-- A finite `Decimal`: digits / 10 ^ places, or its negative.
pub record Decimal : Type 0 where
  pub negative : Bool
  pub digits : ℕ
  pub places : ℕ

-- How many digits a coefficient has. A number has fewer digits than it has units, so the fuel lasts.
unfoldable pub count_digits : (fuel n : ℕ) → ℕ
count_digits zero n = 0
count_digits (suc fuel) n = elim (ltb n 10) [ true ↦ 1 | false ↦ suc (count_digits fuel (n / 10)) ]

unfoldable pub digit_count : ℕ → ℕ
unfolding count_digits
digit_count n = count_digits (n + 1) n

-- How many digits do not fit.
unfoldable pub excess_digits : (precision n : ℕ) → ℕ
unfolding digit_count
excess_digits precision n = digit_count n - precision

unfoldable pub half_even : (n d : ℕ) → ℕ
half_even n d =
    if ltb d (2 * (n % d))
    then n / d + 1
    else (if 2 * (n % d) == d then n / d + n / d % 2 else n / d)

unfoldable pub round_to : (precision : ℕ) → Decimal → Decimal
unfolding excess_digits half_even
round_to precision x =
    let excess = excess_digits precision x.digits in
    record {
      negative = x.negative;
      digits = half_even x.digits (10 ^ excess) * 10 ^ (excess - x.places);
      places = x.places - excess;
    }

-- `Inexact`: rounding would drop a digit that is not zero.
unfoldable pub is_inexact : (precision : ℕ) → Decimal → Bool
unfolding excess_digits
is_inexact precision x = not (x.digits % 10 ^ excess_digits precision x.digits == 0)

abbrev pub exact_precision : ℕ
exact_precision = 50

-- The precision of Python's default context.
abbrev pub default_precision : ℕ
default_precision = 28

-- `Decimal(n)`, for an integer
unfoldable pub decimal : ℤ → Decimal
decimal (pos n) = record { negative = false; digits = n; places = 0 }
decimal (negsuc n) = record { negative = true; digits = suc n; places = 0 }

abbrev pub xor : Bool → Bool → Bool
xor true b = not b
xor false b = b

-- The product before any rounding.
unfoldable pub product : Decimal → Decimal → Decimal
product left right = record {
  negative = xor left.negative right.negative;
  digits = left.digits * right.digits;
  places = left.places + right.places;
}

unfoldable pub exact_product : Decimal → Decimal → Result Error Decimal
unfolding is_inexact product
exact_product left right =
    if is_inexact exact_precision (product left right)
    then err exactness_error
    else ok (product left right)

-- A quotient with more digits than a context keeps, and one digit more, 1 where there is a remainder:
-- it rounds as the exact quotient does.
unfoldable pub long_quotient : Decimal → Decimal → Decimal
unfolding digit_count
long_quotient numerator denominator =
    let n = numerator.digits * 10 ^ denominator.places in
    let d = denominator.digits * 10 ^ numerator.places in
    let scale = digit_count d + exact_precision + 1 in
    let sticky = if n * 10 ^ scale % d == 0 then 0 else 1 in
    record {
      negative = xor numerator.negative denominator.negative;
      digits = 10 * (n * 10 ^ scale / d) + sticky;
      places = scale + 1;
    }

-- `INEXACT.divide`. No call divides by zero.
unfoldable pub inexact_quotient : Decimal → Decimal → Decimal
unfolding long_quotient round_to
inexact_quotient numerator denominator =
    round_to exact_precision (long_quotient numerator denominator)

-- n / d, rounded up
abbrev pub ceil_div : ℕ → ℕ → ℕ
ceil_div n d = (n + (d - 1)) / d

unfoldable pub ceil_hz : Decimal → ℤ
ceil_hz value =
    if value.negative
    then negate (pos (value.digits / 10 ^ value.places))
    else pos (ceil_div value.digits (10 ^ value.places))

unfoldable pub floor_hz : Decimal → ℤ
floor_hz value =
    if value.negative
    then negate (pos (ceil_div value.digits (10 ^ value.places)))
    else pos (value.digits / 10 ^ value.places)

-- `value < 0`: Python's -0 is not below zero.
abbrev pub is_below_zero : Decimal → Bool
is_below_zero value = value.negative && not (value.digits == 0)

-- `value > 1`
abbrev pub is_above_one : Decimal → Bool
is_above_one value = not value.negative && ltb (10 ^ value.places) value.digits

-- `Decimal(1) + rolloff`, for a roll-off that is not below zero
unfoldable pub one_plus : Decimal → Decimal
unfolding round_to
one_plus rolloff = round_to default_precision (record {
  negative = false;
  digits = 10 ^ rolloff.places + rolloff.digits;
  places = rolloff.places;
})

-- `hz != hz.to_integral_value()`
abbrev pub is_whole : Decimal → Bool
is_whole value = value.digits % 10 ^ value.places == 0

-- `int(value)`, which drops the fraction
abbrev pub truncated : Decimal → ℤ
truncated value =
    let whole = pos (value.digits / 10 ^ value.places) in
    if value.negative then negate whole else whole

-- `to_hz`, for a number; the product is rounded as the default context rounds.
unfoldable pub to_hz : Decimal → Result Error ℤ
unfolding round_to product decimal
to_hz megahertz = do
  let hz : Decimal = round_to default_precision (product megahertz (decimal (pos 1_000_000)))
  raise_if (not (is_whole hz)) sub_hertz_error
  ok (truncated hz)
