-- ===== src/Calculations/Placement/Widths.antt =====
-- The widths and the centre of a placement (calculations/bandwidth.py).
use vsat_frequency_managemen.Calculations.Placement.{
  GuardWidths, allocated_range, half_width_hz, occupied_range, guard_total_hz,
}
use vsat_frequency_managemen.Calculations.Ranges.{
  FrequencyRange, IsRange, contains, frequency_range, width_hz,
}
use vsat_frequency_managemen.Calculations.Ranges.Moves.{expanded_lem}
use vsat_frequency_managemen.Prelude.{
  ap, arith, false, ok, suc, true, zero, ℕ, ◌+◌, ◌/◌, ◌<◌, ◌>>=◌, ◌∙◌, ◌≡◌, ◌≤◌,
}
use vsat_frequency_managemen.Prelude.Int.{
  add_parts, eq_of_parts, half, int_laws, ltb_ℤ, negate, negsuc, pos, sub_parts, ℤ, ◌+ℤ◌, ◌-ℤ◌,
  ◌<ℤ◌, ◌≤ℤ◌,
}

negate-pos : (m : ℕ) → negate (pos (suc m)) ≡ negsuc m
negate-pos m = eq_of_parts (negate (pos (suc m))) (negsuc m) (omega int_laws)

negate-negsuc : (m : ℕ) → negate (negsuc m) ≡ pos (suc m)
negate-negsuc m = eq_of_parts (negate (negsuc m)) (pos (suc m)) (omega int_laws)

negate-zero : negate (pos 0) ≡ pos 0
negate-zero = eq_of_parts (negate (pos 0)) (pos 0) (omega int_laws)

-- Half of a bandwidth, rounded up.
rounded_up : (n : ℕ) → negate (half (negate (pos n))) ≡ pos ((n + 1) / 2)
unfolding half
rounded_up zero = ap (λ z. negate (half z)) negate-zero ∙ negate-zero ∙ ap pos (omega arith)
rounded_up (suc m) =
    ap (λ z. negate (half z)) (negate-pos m) ∙ negate-negsuc (m / 2) ∙ ap pos (omega arith)

half_up : (n : ℕ) → half_width_hz (pos n) ≡ ok (pos ((n + 1) / 2))
unfolding half_width_hz
half_up n =
    let not_negative : ltb_ℤ (pos n) (pos 0) ≡ false = ground arith in
    rw not_negative (ap ok (rounded_up n))

-- What a range around a centre is asked to be.
pub record IsCentred (centre : ℤ) (bandwidth_hz : ℕ) (r : FrequencyRange) : Type 0 where
  pub whole : IsRange r
  pub symmetric : centre -ℤ r.start_hz ≡ r.end_hz -ℤ centre
  pub enough : pos bandwidth_hz ≤ℤ width_hz r
  pub tight : width_hz r ≤ℤ pos (bandwidth_hz + 1)

frequency_range_ok :
    (a b : ℤ) → a <ℤ b → frequency_range a b ≡ ok (record { start_hz = a; end_hz = b })
unfolding frequency_range
frequency_range_ok a b h = ground arith

-- A positive bandwidth around any centre gives a range, symmetric about the centre, that is as wide as
-- the bandwidth, or one Hz wider: never narrower.
pub occupied_range-IsCentred :
    (centre : ℤ) (bandwidth_hz : ℕ)
    → 0 < bandwidth_hz
    → (r : FrequencyRange) × (occupied_range centre (pos bandwidth_hz) ≡ ok r)
      × IsCentred centre bandwidth_hz r
unfolding occupied_range width_hz
occupied_range-IsCentred centre n h =
    let k = (n + 1) / 2 in
    let low : n ≤ k + k = omega arith in
    let high : k + k ≤ n + 1 = omega arith in
    (
      record { start_hz = centre -ℤ pos k; end_hz = centre +ℤ pos k },
      ap (λ m. m >>= λ w. frequency_range (centre -ℤ w) (centre +ℤ w)) (half_up n)
          ∙ frequency_range_ok (centre -ℤ pos k) (centre +ℤ pos k) (omega int_laws),
      record {
        whole = omega int_laws;
        symmetric = omega int_laws;
        enough = omega int_laws;
        tight = omega int_laws;
      },
    )

-- Guards that are not negative widen a range by exactly their sum, and the allocated range contains the
-- occupied one.
pub allocated_range-wider :
    (occupied : FrequencyRange) (guards : GuardWidths)
    → IsRange occupied
    → pos 0 ≤ℤ guards.left_hz
    → pos 0 ≤ℤ guards.right_hz
    → (r : FrequencyRange) × (allocated_range occupied guards ≡ ok r)
      × (contains r occupied ≡ true)
      × (width_hz r ≡ width_hz occupied +ℤ guard_total_hz guards)
unfolding allocated_range width_hz guard_total_hz
allocated_range-wider occupied guards h left right = (
  record {
    start_hz = occupied.start_hz -ℤ guards.left_hz;
    end_hz = occupied.end_hz +ℤ guards.right_hz;
  },
  expanded_lem occupied guards.left_hz guards.right_hz h left right,
  ground (
    arith,
    sub_parts occupied.start_hz guards.left_hz,
    add_parts occupied.end_hz guards.right_hz,
  ),
  omega int_laws,
)
