-- ===== src/Calculations/Decimals/Rounded.antt =====
-- What a rounding to a precision does to a coefficient (calculations/rounding.py, the precision of a
-- context).
use vsat_frequency_managemen.Calculations.Decimals.{
  Decimal, digit_count, excess_digits, half_even, is_inexact, round_to,
}
use vsat_frequency_managemen.Prelude.{
  Bool-cases, ap, arith, div-add-mod, false, if◌then◌else◌, inl, inr, leb, ltb, mod-lt,
  mul-le-mul_right, one-le-pow, ℕ, ◌%◌, ◌*◌, ◌+◌, ◌-◌, ◌/◌, ◌<◌, ◌==◌, ◌^◌, ◌≡◌, ◌≤◌,
}

pub pow_positive : (k : ℕ) → 1 ≤ 10 ^ k
pow_positive k = one-le-pow k 10 (omega arith)

half_even-one : (n : ℕ) → half_even n 1 ≡ n
unfolding half_even
half_even-one n = ground arith

-- A coefficient that fits is kept as it is.
pub round_to-fits :
    (precision : ℕ) (x : Decimal) → digit_count x.digits ≤ precision → round_to precision x ≡ x
unfolding round_to excess_digits
round_to-fits precision x h =
    let none_over : digit_count x.digits - precision ≡ 0 = omega arith in
    let no_zeros : 0 - x.places ≡ 0 = omega arith in
    let all_places : x.places - 0 ≡ x.places = omega arith in
    rw (none_over, no_zeros, all_places, half_even-one x.digits)
      (ap (λ n. record { negative = x.negative; digits = n; places = x.places }) (omega arith))

pub is_inexact-fits :
    (precision : ℕ) (x : Decimal)
    → digit_count x.digits ≤ precision
    → is_inexact precision x ≡ false
unfolding is_inexact excess_digits
is_inexact-fits precision x h =
    let none_over : digit_count x.digits - precision ≡ 0 = omega arith in
    rw none_over (ground arith)

-- Rounding half-even moves a number by half a unit at most, and never below the unit that it is over.
pub half_even_near :
    (n d : ℕ) → 0 < d → (n / d ≤ half_even n d) × (2 * (half_even n d * d) ≤ 2 * n + d)
unfolding half_even
half_even_near n d h = elim (Bool-cases (ltb d (2 * (n % d)))) [
  | inl above ↦
      let past_half : d < 2 * (n % d) = ground arith in
      rw above (omega arith, omega (arith, div-add-mod n d, mod-lt n h))
  | inr below ↦
      let half_at_most : 2 * (n % d) ≤ d = ground arith in
      elim (Bool-cases (2 * (n % d) == d)) [
        | inl tie ↦
            let odd : (n / d + n / d % 2) * d ≤ (n / d + 1) * d =
              mul-le-mul_right d (omega arith) in
            let half_over : 2 * (n % d) ≡ d = ground arith in
            rw (below, tie) (omega arith, omega (arith, div-add-mod n d))
        | inr under ↦ rw (below, under) (omega arith, omega (arith, div-add-mod n d))
      ]
]

-- A long quotient of two whole numbers, and what it lies between.
pub long_quotient-near :
    (n d z : ℕ)
    → 0 < d
    → let digits = 10 * (n * z / d) + (if n * z % d == 0 then 0 else 1) in
      digits * d ≤ 10 * (n * z) + d
long_quotient-near n d z h = elim (Bool-cases (n * z % d == 0)) [
  | inl exact ↦ rw exact (omega (arith, div-add-mod (n * z) d))
  | inr rest ↦ rw rest (omega (arith, div-add-mod (n * z) d))
]

-- A rounded quotient stays below the integer that the quotient is below, when at least as many places
-- are kept as the divisor has digits: `a` is the unit of the result, `e` what the rounding drops, and
-- `z` the scale of the quotient n / d.
pub no_carry :
    (s d e a z n digits h : ℕ)
    → 10 * z ≡ a * e
    → digits * d ≤ 10 * (n * z) + d
    → n < (s + 1) * d
    → 2 * (h * e) ≤ 2 * digits + e
    → d < a
    → 0 < e
    → d < 5 * z
    → h < (s + 1) * a
no_carry s d e a z n digits h split close below near small positive big =
    elim (Bool-cases (leb ((s + 1) * a) h)) [
      | inr under ↦ ground arith
      | inl over ↦
          let over_e : (s + 1) * a * e ≤ h * e = mul-le-mul_right e (ground arith) in
          let scaled : (2 * ((s + 1) * a * e)) * d ≤ (2 * digits + e) * d =
            mul-le-mul_right d (omega arith) in
          let unit : (s + 1) * d * (10 * z) ≡ (s + 1) * d * (a * e) =
            ap (λ w. (s + 1) * d * w) split in
          let under_z : (n + 1) * z ≤ (s + 1) * d * z = mul-le-mul_right z (omega arith) in
          let dropped : (d + 1) * e ≤ a * e = mul-le-mul_right e (omega arith) in
          absurd (omega arith)
    ]
