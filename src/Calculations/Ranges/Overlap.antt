-- ===== src/Calculations/Ranges/Overlap.antt =====
-- What the comparisons of calculations/ranges.py mean for single frequencies.
use vsat_frequency_managemen.Calculations.Ranges.{
  FrequencyRange, IsRange, contains, gap_to, is_adjacent_to, overlaps,
}
use vsat_frequency_managemen.Prelude.{arith, true, ◌+◌, ◌↔◌, ◌≡◌, ◌⊎◌}
use vsat_frequency_managemen.Prelude.Int.{
  eq_of_parts, max_ℤ, neg_part, pos, pos_part, sub_parts, ℤ, ◌-ℤ◌, ◌<ℤ◌, ◌≤ℤ◌,
}

-- A frequency inside an interval, on both of its edges.
abbrev pub Inside : ℤ → FrequencyRange → Type 0
Inside hz r = (r.start_hz ≤ℤ hz) × (hz <ℤ r.end_hz)

-- Two intervals that each end above their start overlap exactly when some frequency lies inside both.
pub overlaps_iff_shared :
    (r other : FrequencyRange)
    → IsRange r
    → IsRange other
    → (overlaps r other ≡ true) ↔ ((hz : ℤ) × Inside hz r × Inside hz other)
overlaps_iff_shared r other h k =
    (λ e. (max_ℤ r.start_hz other.start_hz, ground arith, ground arith), λ s. ground arith)

-- An interval contains another, which ends above its start, exactly when every frequency inside the
-- other lies inside it.
pub contains_iff_Inside :
    (r other : FrequencyRange)
    → IsRange other
    → (contains r other ≡ true) ↔ ((hz : ℤ) → Inside hz other → Inside hz r)
contains_iff_Inside r other h = (
  λ e hz i. ground arith,
  λ f.
      let last = other.end_hz -ℤ pos 1 in
      let below : (pos_part last + neg_part other.end_hz + 1
          ≡ neg_part last + pos_part other.end_hz) =
        omega (arith, sub_parts other.end_hz (pos 1)) in
      ground (
        arith,
        f other.start_hz (omega arith, omega arith),
        f last (omega (arith, below), omega (arith, below)),
        below,
      ),
)

-- The gap between two intervals is zero exactly when they touch or overlap.
pub gap_to_zero :
    (r other : FrequencyRange)
    → IsRange r
    → IsRange other
    → (gap_to r other ≡ pos 0) ↔ ((overlaps r other ≡ true) ⊎ (is_adjacent_to r other ≡ true))
unfolding gap_to
gap_to_zero r other h k = (
  λ e. ground (arith, sub_parts other.start_hz r.end_hz, sub_parts r.start_hz other.end_hz, e),
  λ e. ground (
    arith,
    sub_parts other.start_hz r.end_hz,
    sub_parts r.start_hz other.end_hz,
    eq_of_parts (other.start_hz -ℤ r.end_hz) (pos 0),
    eq_of_parts (r.start_hz -ℤ other.end_hz) (pos 0),
  ),
)
