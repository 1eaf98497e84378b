-- ===== src/Calculations/Decimals/Quotients.antt =====
-- `inexact_quotient` followed by `floor_hz` (calculations/rounding.py).
use vsat_frequency_managemen.Calculations.Decimals.{
  decimal, digit_count, excess_digits, floor_hz, half_even, inexact_quotient,
}
use vsat_frequency_managemen.Calculations.Decimals.Digits.{digit_count-below}
use vsat_frequency_managemen.Calculations.Decimals.Rounded.{
  half_even_near, long_quotient-near, no_carry, pow_positive,
}
use vsat_frequency_managemen.Prelude.{
  Bool-cases, ap, arith, div-add-mod, div-eq_of_lt-le, false, if◌then◌else◌, inl, inr,
  le-div_iff_mul-le, leb, mod-lt, mul-le-mul_right, pow-le-pow_right, pow-succ', suc, sym, zero, ℕ,
  ◌%◌, ◌*◌, ◌+◌, ◌-◌, ◌/◌, ◌<◌, ◌==◌, ◌^◌, ◌∙◌, ◌≡◌, ◌≤◌,
}
use vsat_frequency_managemen.Prelude.Int.{pos}

pub pow_at : (m n : ℕ) → m ≡ n → 10 ^ m ≡ 10 ^ n
pow_at m n e = ap (λ i. 10 ^ i) e

pub pow_add : (m n : ℕ) → 10 ^ (m + n) ≡ 10 ^ m * 10 ^ n
pow_add zero n = omega (arith, pow_at (0 + n) n (omega arith))
pow_add (suc m) n =
    let step : 10 ^ (suc m + n) ≡ 10 * 10 ^ (m + n) =
      pow_at (suc m + n) (suc (m + n)) (omega arith) ∙ pow-succ' 10 (m + n) in
    omega (arith, ap (λ w. w * 10 ^ n) (pow-succ' 10 m), pow_add m n)

-- The coefficient of a quotient below s + 1, before it is rounded.
long_below :
    (s d n z digits : ℕ)
    → digits * d ≤ 10 * (n * z) + d
    → n < (s + 1) * d
    → d < 5 * z
    → digits < (s + 1) * (10 * z)
long_below s d n z digits close below big = elim (Bool-cases (leb ((s + 1) * (10 * z)) digits)) [
  | inr under ↦ ground arith
  | inl over ↦
      let over_d : (s + 1) * (10 * z) * d ≤ digits * d = mul-le-mul_right d (ground arith) in
      let under_z : (n + 1) * z ≤ (s + 1) * d * z = mul-le-mul_right z (omega arith) in
      absurd (omega arith)
]

-- How much is dropped: 28 places at least are kept of a quotient below 10 ^ 22.
kept_places :
    (s k digits : ℕ)
    → s < 10 ^ 22
    → 28 ≤ k
    → digits < (s + 1) * (10 * 10 ^ k)
    → digit_count digits - 50 + 28 ≤ suc k
kept_places s k digits small scale below =
    let high : (s + 1) * (10 * 10 ^ k) ≤ 10 ^ 22 * (10 * 10 ^ k) =
      mul-le-mul_right (10 * 10 ^ k) (omega arith) in
    let few : digit_count digits ≤ suc (22 + k) =
      digit_count-below digits (22 + k) (omega (arith, pow-succ' 10 (22 + k), pow_add 22 k)) in
    omega arith

-- The rounded coefficient, at the places that are kept, has the same integer part.
rounded_floor :
    (s d n k digits e : ℕ)
    → 0 < d
    → d < 10 ^ 28
    → d < 5 * 10 ^ k
    → n < (s + 1) * d
    → s * (10 * 10 ^ k) ≤ digits
    → digits * d ≤ 10 * (n * 10 ^ k) + d
    → e + 28 ≤ suc k
    → half_even digits (10 ^ e) / 10 ^ (suc k - e) ≡ s
rounded_floor s d n k digits e pos_d small_d big below low close kept =
    let near = half_even_near digits (10 ^ e) (pow_positive e) in
    let split : 10 * 10 ^ k ≡ 10 ^ (suc k - e) * 10 ^ e =
      sym (pow-succ' 10 k) ∙ pow_at (suc k) (suc k - e + e) (omega arith) ∙ pow_add (suc k - e) e in
    let unit : 10 ^ 28 ≤ 10 ^ (suc k - e) = pow-le-pow_right (omega arith) {i = 28} (omega arith) in
    let high =
      no_carry s d (10 ^ e) (10 ^ (suc k - e)) (10 ^ k) n digits (half_even digits (10 ^ e)) split
        close below near.1 (omega arith) (pow_positive e) big in
    let reach : s * 10 ^ (suc k - e) * 10 ^ e ≤ digits = omega (arith, ap (λ w. s * w) split) in
    let floor : s * 10 ^ (suc k - e) ≤ digits / 10 ^ e =
      (le-div_iff_mul-le (pow_positive e)).1 reach in
    div-eq_of_lt-le (10 ^ (suc k - e)) (omega arith) high

-- Dividing a whole number by a decimal and rounding down gives the exact floor of the quotient, for a
-- quotient below 10 ^ 22 and a divisor of 28 digits at most.
pub floor_hz-inexact_quotient :
    (b d p : ℕ)
    → 0 < d
    → d < 10 ^ 28
    → b * 10 ^ p / d < 10 ^ 22
    → floor_hz
        (inexact_quotient (decimal (pos b)) (record { negative = false; digits = d; places = p }))
      ≡ pos (b * 10 ^ p / d)
unfolding floor_hz inexact_quotient decimal excess_digits
floor_hz-inexact_quotient b d p pos_d small_d small =
    let n = b * 10 ^ p in
    let s = n / d in
    let k = digit_count d + 50 + 1 in
    let digits = 10 * (n * 10 ^ k / d) + (if n * 10 ^ k % d == 0 then 0 else 1) in
    let one : d * 10 ^ 0 ≡ d = omega arith in
    let below : n < (s + 1) * d = omega (arith, div-add-mod n d, mod-lt n pos_d) in
    let close : digits * d ≤ 10 * (n * 10 ^ k) + d = long_quotient-near n d (10 ^ k) pos_d in
    let big : d < 5 * 10 ^ k =
      omega (arith, pow-le-pow_right {n = 10} (omega arith) {i = 28} {j = k} (omega arith)) in
    let scaled : s * d * 10 ^ k ≤ n * 10 ^ k =
      mul-le-mul_right (10 ^ k) (omega (arith, div-add-mod n d)) in
    let floor : s * 10 ^ k ≤ n * 10 ^ k / d = (le-div_iff_mul-le pos_d).1 (omega arith) in
    let low : s * (10 * 10 ^ k) ≤ digits = omega arith in
    let kept =
      kept_places s k digits small (omega arith)
        (long_below s d n (10 ^ k) digits close below big) in
    let e = digit_count digits - 50 in
    let no_zeros : e - (k + 1) ≡ 0 = omega arith in
    let places : k + 1 - e ≡ suc k - e = omega arith in
    let whole = rounded_floor s d n k digits e pos_d small_d big below low close kept in
    let unscaled : half_even digits (10 ^ e) * 10 ^ 0 ≡ half_even digits (10 ^ e) = omega arith in
    let value : half_even digits (10 ^ e) * 10 ^ (e - (k + 1)) / 10 ^ (k + 1 - e) ≡ s =
      rw (no_zeros, places, unscaled) whole in
    rw one (ap pos value)
