-- ===== src/Calculations/Bandwidth/Exact.antt =====
-- Occupied bandwidth and symbol rate against their definition as exact fractions
-- (calculations/bandwidth.py, `occupied_bandwidth_hz` and `symbol_rate_sps`).
use vsat_frequency_managemen.Calculations.Bandwidth.{
  check_rolloff, occupied_bandwidth_hz, symbol_rate_sps,
}
use vsat_frequency_managemen.Calculations.Decimals.{
  Decimal, ceil_div, ceil_hz, decimal, digit_count, exact_product, floor_hz, inexact_quotient,
  one_plus, product,
}
use vsat_frequency_managemen.Calculations.Decimals.Digits.{digit_count-below}
use vsat_frequency_managemen.Calculations.Decimals.Quotients.{floor_hz-inexact_quotient}
use vsat_frequency_managemen.Calculations.Decimals.Rounded.{
  is_inexact-fits, pow_positive, round_to-fits,
}
use vsat_frequency_managemen.Prelude.{
  Bool-cases, ap, arith, div-eq_of_lt-le, div-lt_iff_lt-mul, false, inl, inr, le-div_iff_mul-le,
  leb, ltb, mul-le-mul, mul-le-mul_right, ok, pow-le-pow_right, refl, suc, zero, ℕ, ◌*◌, ◌+◌, ◌-◌,
  ◌/◌, ◌<◌, ◌>>=◌, ◌^◌, ◌↔◌, ◌∙◌, ◌≡◌, ◌≤◌,
}
use vsat_frequency_managemen.Prelude.Int.{leb_ℤ, pos}

-- A roll-off from 0 to 1, with at most 27 decimal places: `check_rolloff` admits more places, but then
-- `Decimal(1) + rolloff` may be rounded to 28 digits.
pub record IsRolloff (r : Decimal) : Type 0 where
  pub not_negative : r.negative ≡ false
  pub at_most_one : r.digits ≤ 10 ^ r.places
  pub few_places : r.places ≤ 27

-- (1 + roll-off) · 10 ^ places
abbrev pub factor : Decimal → ℕ
factor r = 10 ^ r.places + r.digits

factor-small : (r : Decimal) → IsRolloff r → factor r < 10 ^ 28
factor-small r h = omega (
  arith,
  h.at_most_one,
  pow-le-pow_right {n = 10} (omega arith) {i = r.places} {j = 27} h.few_places,
)

one_plus-exact :
    (r : Decimal)
    → IsRolloff r
    → one_plus r ≡ record { negative = false; digits = factor r; places = r.places }
unfolding one_plus
one_plus-exact r h = round_to-fits 28 _ (digit_count-below (factor r) 27 (factor-small r h))

check_rolloff_ok : (r : Decimal) → IsRolloff r → check_rolloff r ≡ ok tt
unfolding check_rolloff
check_rolloff_ok r h =
    let not_over : ltb (10 ^ r.places) r.digits ≡ false = ground (arith, h.at_most_one) in
    rw (h.not_negative, not_over) refl

product_fits : (s : ℕ) (r : Decimal) → IsRolloff r → s < 10 ^ 22 → digit_count (s * factor r) ≤ 50
product_fits s r h small =
    let bound : s * factor r ≤ 10 ^ 22 * factor r = mul-le-mul_right (factor r) (omega arith) in
    digit_count-below (s * factor r) 49 (omega (arith, factor-small r h))

exact_product_ok :
    (s : ℕ) (r : Decimal)
    → IsRolloff r
    → s < 10 ^ 22
    → exact_product (decimal (pos s)) (one_plus r)
      ≡ ok (record { negative = false; digits = s * factor r; places = 0 + r.places })
unfolding exact_product decimal product
exact_product_ok s r h small =
    let whole : Decimal = record {
      negative = false;
      digits = s * factor r;
      places = 0 + r.places;
    } in
    rw (one_plus-exact r h, is_inexact-fits 50 whole (product_fits s r h small)) refl

ceil_div-Least : (n d m : ℕ) → 0 < d → (ceil_div n d ≤ m) ↔ (n ≤ m * d)
ceil_div-Least n d m h =
    let total = n + (d - 1) in
    let bound = div-lt_iff_lt-mul {k = d} {x = total} {y = m + 1} h in
    (λ e. omega (arith, bound.0 (omega arith)), λ e. omega (arith, bound.1 (omega arith)))

-- For a positive symbol rate below 10 ^ 22 and a roll-off from 0 to 1 with at most 27 decimal places
-- (so that 1 + roll-off is not rounded), the occupied bandwidth is returned, and is the least number
-- of Hz that is at least symbol rate · (1 + roll-off), computed exactly.
pub occupied_bandwidth_hz-IsLeast :
    (s : ℕ) (r : Decimal)
    → 0 < s
    → s < 10 ^ 22
    → IsRolloff r
    → (b : ℕ) × (occupied_bandwidth_hz (pos s) r ≡ ok (pos b))
      × ((m : ℕ) → (b ≤ m) ↔ (s * factor r ≤ m * 10 ^ r.places))
unfolding occupied_bandwidth_hz ceil_hz
occupied_bandwidth_hz-IsLeast s r positive small h =
    let some_rate : leb_ℤ (pos s) (pos 0) ≡ false = ground arith in
    let not_over : ltb (10 ^ r.places) r.digits ≡ false = ground (arith, h.at_most_one) in
    (
      ceil_div (s * factor r) (10 ^ r.places),
      rw (h.not_negative, not_over, some_rate)
          (ap (λ m. m >>= λ exact. ok (ceil_hz exact)) (exact_product_ok s r h small)
            ∙ ap (λ p. ok (pos (ceil_div (s * factor r) (10 ^ p)))) (omega arith)),
      λ m. ceil_div-Least (s * factor r) (10 ^ r.places) m (pow_positive r.places),
    )

-- What `symbol_rate_sps` does with a bandwidth, when its quotient is below 10 ^ 22.
symbol_rate_ok :
    (b : ℕ) (r : Decimal)
    → 0 < b
    → IsRolloff r
    → b * 10 ^ r.places / factor r < 10 ^ 22
    → symbol_rate_sps (pos b) r ≡ ok (pos (b * 10 ^ r.places / factor r))
unfolding symbol_rate_sps
symbol_rate_ok b r positive h small =
    let some_width : leb_ℤ (pos b) (pos 0) ≡ false = ground arith in
    let not_over : ltb (10 ^ r.places) r.digits ≡ false = ground (arith, h.at_most_one) in
    let floor =
      floor_hz-inexact_quotient b (factor r) r.places (omega (arith, pow_positive r.places))
        (factor-small r h) small in
    rw (h.not_negative, not_over, some_width)
      (ap (λ d. ok (floor_hz (inexact_quotient (decimal (pos b)) d))) (one_plus-exact r h)
        ∙ ap ok floor)

-- For a positive bandwidth below 10 ^ 22 and a roll-off from 0 to 1 with at most 27 decimal places (so
-- that 1 + roll-off is not rounded), the symbol rate is returned, and is the largest whole rate whose
-- product with 1 + roll-off is within the bandwidth, computed exactly.
pub symbol_rate_sps-IsMost :
    (b : ℕ) (r : Decimal)
    → 0 < b
    → b < 10 ^ 22
    → IsRolloff r
    → (m : ℕ) × (symbol_rate_sps (pos b) r ≡ ok (pos m))
      × ((n : ℕ) → (n ≤ m) ↔ (n * factor r ≤ b * 10 ^ r.places))
symbol_rate_sps-IsMost b r positive small h =
    let unit : 0 < factor r = omega (arith, pow_positive r.places) in
    let wide : b * 10 ^ r.places ≤ b * factor r = mul-le-mul (omega arith) (omega arith) in
    let below_scaled : (b + 1) * factor r ≤ 10 ^ 22 * factor r =
      mul-le-mul_right (factor r) (omega arith) in
    let below : b * 10 ^ r.places < 10 ^ 22 * factor r = omega (arith, below_scaled) in
    (
      b * 10 ^ r.places / factor r,
      symbol_rate_ok b r positive h ((div-lt_iff_lt-mul unit).1 below),
      λ n. le-div_iff_mul-le unit,
    )

-- A least multiple of `t` that reaches `n` is positive and less than one `t` beyond it.
least_tight : (n t b : ℕ) → 0 < n → ((m : ℕ) → (b ≤ m) ↔ (n ≤ m * t)) → (0 < b) × (b * t < n + t)
least_tight n t zero positive least = let none = (least 0).0 (omega arith) in absurd (omega arith)
least_tight n t (suc c) positive least = elim (Bool-cases (leb n (c * t))) [
  | inl reached ↦ let under = (least c).1 (ground arith) in absurd (omega arith)
  | inr short ↦ let before : c * t < n = ground arith in (omega arith, omega arith)
]

-- For a positive symbol rate below 10 ^ 22 and a roll-off from 0 to 1 with at most 27 decimal places,
-- the occupied bandwidth is returned, and the symbol rate recovered from it is that symbol rate
-- itself. Nothing is said of starting from a bandwidth.
pub symbol_rate_sps-occupied_bandwidth_hz :
    (s : ℕ) (r : Decimal)
    → 0 < s
    → s < 10 ^ 22
    → IsRolloff r
    → (occupied_bandwidth_hz (pos s) r >>= λ b. symbol_rate_sps b r) ≡ ok (pos s)
symbol_rate_sps-occupied_bandwidth_hz s r positive small h =
    let (b, returns, least) = occupied_bandwidth_hz-IsLeast s r positive small h in
    let enough : s * factor r ≤ b * 10 ^ r.places = (least b).0 (omega arith) in
    let some_width : 1 * factor r ≤ s * factor r = mul-le-mul_right (factor r) positive in
    let (positive_b, near) =
      least_tight (s * factor r) (10 ^ r.places) b (omega (arith, pow_positive r.places)) least in
    let tight : b * 10 ^ r.places < (s + 1) * factor r = omega arith in
    let back : b * 10 ^ r.places / factor r ≡ s = div-eq_of_lt-le (factor r) enough tight in
    rw returns (symbol_rate_ok b r positive_b h (rw back small) ∙ ap (λ n. ok (pos n)) back)
