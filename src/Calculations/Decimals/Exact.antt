-- ===== src/Calculations/Decimals/Exact.antt =====
-- When `exact_product` returns (calculations/rounding.py).
use vsat_frequency_managemen.Calculations.Decimals.{
  Decimal, digit_count, exact_product, excess_digits, is_inexact, product,
}
use vsat_frequency_managemen.Calculations.Decimals.Digits.{digit_count-below, digit_count-fits}
use vsat_frequency_managemen.Calculations.Decimals.Quotients.{pow_add, pow_at}
use vsat_frequency_managemen.Calculations.Decimals.Rounded.{pow_positive}
use vsat_frequency_managemen.Prelude.{
  Bool-cases, ap, arith, div-add-mod, div-lt_iff_lt-mul, false, inl, inr, mul-lt-mul_of_pos_right,
  mul-mod_left, not_both, ok, ok-injective, suc, sym, ℕ, ◌%◌, ◌*◌, ◌+◌, ◌-◌, ◌/◌, ◌<◌, ◌^◌, ◌↔◌,
  ◌∙◌, ◌≡◌, ◌≤◌,
}

-- A value that some coefficient of at most so many digits represents, before its trailing zeros.
pub record HasDigits (precision : ℕ) (x : Decimal) : Type 0 where
  pub coefficient : ℕ
  pub zeros : ℕ
  pub value : x.digits ≡ coefficient * 10 ^ zeros
  pub short : coefficient < 10 ^ precision

is_inexact-HasDigits : (p : ℕ) (x : Decimal) → is_inexact p x ≡ false → HasDigits p x
unfolding is_inexact excess_digits
is_inexact-HasDigits p x e =
    let k = digit_count x.digits - p in
    let divides : x.digits % 10 ^ k ≡ 0 = ground arith in
    let fits : x.digits < 10 ^ (p + k) = digit_count-fits x.digits (p + k) (omega arith) in
    record {
      coefficient = x.digits / 10 ^ k;
      zeros = k;
      value = omega (arith, div-add-mod x.digits (10 ^ k));
      short = (div-lt_iff_lt-mul (pow_positive k)).1 (omega (arith, pow_add p k));
    }

exact_of : (p : ℕ) (x : Decimal) → HasDigits (suc p) x → is_inexact (suc p) x ≡ false
unfolding is_inexact excess_digits
exact_of p x h =
    let bound : h.coefficient * 10 ^ h.zeros < 10 ^ suc p * 10 ^ h.zeros =
      mul-lt-mul_of_pos_right h.short (pow_positive h.zeros) in
    let exponent : 10 ^ suc (p + h.zeros) ≡ 10 ^ (suc p + h.zeros) =
      pow_at (suc (p + h.zeros)) (suc p + h.zeros) (omega arith) in
    let few : digit_count x.digits ≤ suc (p + h.zeros) =
      digit_count-below x.digits (p + h.zeros) (omega (arith, h.value, pow_add (suc p) h.zeros)) in
    let e = digit_count x.digits - suc p in
    let split = pow_add (h.zeros - e) e in
    let multiple : x.digits ≡ h.coefficient * 10 ^ (h.zeros - e) * 10 ^ e = omega (
      arith,
      h.value,
      ap (λ w. h.coefficient * w) (pow_at h.zeros (h.zeros - e + e) (omega arith) ∙ split),
    ) in
    let divides : x.digits % 10 ^ e ≡ 0 =
      ap (λ n. n % 10 ^ e) multiple ∙ mul-mod_left (h.coefficient * 10 ^ (h.zeros - e)) (10 ^ e) in
    ground arith

-- The exact product is returned exactly when the product, less its trailing zeros, has at most 50
-- digits, and it is then the product, unrounded.
pub exact_product_iff :
    (left right x : Decimal)
    → (exact_product left right ≡ ok x)
      ↔ ((x ≡ product left right) × HasDigits 50 (product left right))
unfolding exact_product
exact_product_iff left right x = elim (Bool-cases (is_inexact 50 (product left right))) [
  | inl inexact ↦ (
    λ e. let bad = rw inexact at e in cc,
    λ h. not_both _ inexact (exact_of 49 (product left right) h.1),
  )
  | inr exact ↦ (
    λ e.
        let returned = rw exact at e in
        (sym (ok-injective returned), is_inexact-HasDigits 50 (product left right) exact),
    λ h. rw exact (ap ok (sym h.0)),
  )
]
