-- ===== src/Examples/Widths.antt =====
-- Concrete placements of calculations/bandwidth.py.
use vsat_frequency_managemen.Calculations.Placement.{
  GuardWidths, allocated_range, occupied_range, satnet, guard_total_hz,
}
use vsat_frequency_managemen.Calculations.Placement.Widths.{
  IsCentred, allocated_range-wider, occupied_range-IsCentred,
}
use vsat_frequency_managemen.Calculations.Ranges.{FrequencyRange, contains, width_hz}
use vsat_frequency_managemen.Prelude.{arith, ok, true, ◌≡◌}
use vsat_frequency_managemen.Prelude.Int.{pos, ◌+ℤ◌}

occupied_range-IsCentred_example :
    (r : FrequencyRange) × (occupied_range (pos 100) (pos 7) ≡ ok r) × IsCentred (pos 100) 7 r
occupied_range-IsCentred_example = occupied_range-IsCentred (pos 100) 7 (omega arith)

abbrev guards : GuardWidths
guards = record { left_hz = pos 5; right_hz = pos 6; source = satnet }

abbrev transmitted : FrequencyRange
transmitted = record { start_hz = pos 96; end_hz = pos 104 }

allocated_range-wider_example :
    (r : FrequencyRange) × (allocated_range transmitted guards ≡ ok r)
    × (contains r transmitted ≡ true)
    × (width_hz r ≡ width_hz transmitted +ℤ guard_total_hz guards)
allocated_range-wider_example =
    allocated_range-wider transmitted guards (omega arith) (omega arith) (omega arith)
