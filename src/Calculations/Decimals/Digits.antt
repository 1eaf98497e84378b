-- ===== src/Calculations/Decimals/Digits.antt =====
-- The number of digits of a coefficient, and the roundings that it decides.
-- (calculations/rounding.py, the precision of a context.)
use vsat_frequency_managemen.Calculations.Decimals.{count_digits, digit_count}
use vsat_frequency_managemen.Prelude.{
  Bool-cases, arith, inl, inr, leb, ltb, one-le-pow, pow-succ', suc, zero, ℕ, ◌*◌, ◌+◌, ◌/◌, ◌<◌,
  ◌^◌, ◌↔◌, ◌≡◌, ◌≤◌,
}

pow_step : (k : ℕ) → 10 ^ suc k ≡ 10 * 10 ^ k
pow_step k = pow-succ' 10 k

tenth-below : (n k : ℕ) → n < 10 ^ suc (suc k) → n / 10 < 10 ^ suc k
tenth-below n k h = omega (arith, pow_step (suc k))

tenth-above : (n k : ℕ) → 10 ^ suc k ≤ n → 10 ^ k ≤ n / 10
tenth-above n k h = omega (arith, pow_step k)

count_digits-below : (fuel n k : ℕ) → n < fuel → n < 10 ^ suc k → count_digits fuel n ≤ suc k
unfolding count_digits
count_digits-below zero n k h small = absurd (omega arith)
count_digits-below (suc fuel) n zero h small =
    let few : n < 10 = omega (arith, pow_step 0) in ground arith
count_digits-below (suc fuel) n (suc k) h small = elim (Bool-cases (ltb n 10)) [
  | inl few ↦ rw (count_digits, few) (omega arith)
  | inr many ↦
      let rest = count_digits-below fuel (n / 10) k (ground arith) (tenth-below n k small) in
      rw (count_digits, many) (omega arith)
]

count_digits-above : (fuel n k : ℕ) → n < fuel → 10 ^ k ≤ n → suc k ≤ count_digits fuel n
unfolding count_digits
count_digits-above zero n k h big = absurd (omega arith)
count_digits-above (suc fuel) n zero h big = ground arith
count_digits-above (suc fuel) n (suc k) h big =
    let ten : 10 ≤ 10 ^ suc k = omega (arith, pow_step k, one-le-pow k 10 (omega arith)) in
    let rest = count_digits-above fuel (n / 10) k (omega arith) (tenth-above n k big) in
    ground arith

-- Less than 10 ^ (k + 1): at most k + 1 digits.
pub digit_count-below : (n k : ℕ) → n < 10 ^ suc k → digit_count n ≤ suc k
unfolding digit_count
digit_count-below n k h = count_digits-below (n + 1) n k (omega arith) h

-- At least 10 ^ k: more than k digits.
pub digit_count-above : (n k : ℕ) → 10 ^ k ≤ n → suc k ≤ digit_count n
unfolding digit_count
digit_count-above n k h = count_digits-above (n + 1) n k (omega arith) h

-- With k digits at most, less than 10 ^ k.
pub digit_count-fits : (n k : ℕ) → digit_count n ≤ k → n < 10 ^ k
digit_count-fits n k h = elim (Bool-cases (ltb n (10 ^ k))) [
  | inl small ↦ ground arith
  | inr large ↦ let more = digit_count-above n k (ground arith) in omega arith
]

-- A positive number has k + 1 digits exactly when it is at least 10 ^ k and less than 10 ^ (k + 1): the
-- fuel of the count is enough for every number.
pub digit_count_iff :
    (n k : ℕ) → 0 < n → (digit_count n ≡ suc k) ↔ ((10 ^ k ≤ n) × (n < 10 ^ suc k))
digit_count_iff n k h = (
  λ e. (lowest k e, digit_count-fits n (suc k) (omega arith)),
  λ b. omega (arith, digit_count-below n k b.1, digit_count-above n k b.0),
)
  where
    lowest : (k : ℕ) → digit_count n ≡ suc k → 10 ^ k ≤ n
    lowest zero e = omega arith
    lowest (suc k) e = elim (Bool-cases (leb (10 ^ suc k) n)) [
      | inl large ↦ ground arith
      | inr small ↦ let few = digit_count-below n k (ground arith) in absurd (omega arith)
    ]
