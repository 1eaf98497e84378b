-- ===== src/Calculations/Placement.antt =====
-- Where a transmission of a known bandwidth lies (calculations/bandwidth.py, the integer half of
-- calculations/rounding.py, and the guard widths of calculations/types.py).
pub mod Widths
use vsat_frequency_managemen.Calculations.Errors.{Error, value_error}
use vsat_frequency_managemen.Calculations.Ranges.{FrequencyRange, expanded, frequency_range}
use vsat_frequency_managemen.Prelude.{Result, err, if◌then◌else◌, ok, ◌>>=◌, ◌>>◌}
use vsat_frequency_managemen.Prelude.Int.{half, ltb_ℤ, negate, pos, ℤ, ◌+ℤ◌, ◌-ℤ◌}

-- `GuardSource`
pub data GuardSource : Type 0 where
  override satnet window system no_source : GuardSource

-- `GuardWidths`, less its policy label.
pub record GuardWidths : Type 0 where
  pub left_hz : ℤ
  pub right_hz : ℤ
  pub source : GuardSource

-- `GuardWidths.total_hz`
unfoldable pub guard_total_hz : GuardWidths → ℤ
guard_total_hz guards = guards.left_hz +ℤ guards.right_hz

-- `-(-bandwidth_hz // 2)`
unfoldable pub half_width_hz : ℤ → Result Error ℤ
half_width_hz bandwidth_hz =
    if ltb_ℤ bandwidth_hz (pos 0) then err value_error else ok (negate (half (negate bandwidth_hz)))

unfoldable pub occupied_range : (centre bandwidth_hz : ℤ) → Result Error FrequencyRange
unfolding half_width_hz frequency_range
occupied_range centre bandwidth_hz = do
  h ← half_width_hz bandwidth_hz
  frequency_range (centre -ℤ h) (centre +ℤ h)

unfoldable pub allocated_range : FrequencyRange → GuardWidths → Result Error FrequencyRange
unfolding expanded
allocated_range occupied guards = expanded occupied guards.left_hz guards.right_hz
