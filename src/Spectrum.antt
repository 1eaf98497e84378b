-- ===== src/Spectrum.antt =====
-- Reservations and the only route to their table (spectrum/services.py, spectrum/constants.py and
-- the constraints of spectrum/models.py). PostgreSQL enforces the constraints that the model
-- declares: a row that breaks a CHECK or the exclusion constraint is refused with an
-- `IntegrityError`. A deadlock arises between concurrent transactions only, so a service that runs
-- alone meets no other error.
pub mod Selectors
pub mod Table
pub mod Services
use vsat_frequency_managemen.Calculations.Periods.{TimePeriod, period_overlaps, runs_backwards}
use vsat_frequency_managemen.Calculations.Ranges.{FrequencyRange, overlaps}
use vsat_frequency_managemen.Database.{
  Direction, Leg, Reservation, ReservationKind, Status, fixed_reserve, fwd, hub_downlink,
  hub_uplink, leg_eq, on_air, pending_approval, planned, remote_downlink, remote_uplink, rtn,
  satnet_path, suspended,
}
use vsat_frequency_managemen.Database.Action.{
  Failure, integrity_error, operational_error, spectrum_conflict,
}
use vsat_frequency_managemen.Prelude.{
  Bool, List, Option, Result, any, err, false, if◌then◌else◌, is_some, none, not, ok, some, true,
  ◌&&◌, ◌==◌, ◌||◌,
}
use vsat_frequency_managemen.Prelude.Int.{leb_ℤ, ltb_ℤ}

-- `reserves_spectrum`: SUSPENDED alone consults the setting. ALWAYS_RESERVING is planned, pending
-- approval and on air.
abbrev pub reserves_spectrum_of : Status → Bool → Bool
reserves_spectrum_of planned suspended_retains = true
reserves_spectrum_of pending_approval suspended_retains = true
reserves_spectrum_of on_air suspended_retains = true
reserves_spectrum_of suspended suspended_retains = suspended_retains
reserves_spectrum_of _ suspended_retains = false

abbrev pub allocated_rf : Reservation → FrequencyRange
allocated_rf row = record { start_hz = row.allocated_start_hz; end_hz = row.allocated_end_hz }

abbrev pub active_period : Reservation → TimePeriod
active_period row = record { start = row.valid_from; end = row.valid_until }

-- `excl_reservation_overlap`: the two rows may not stand in the table together.
unfoldable pub excludes : Reservation → Reservation → Bool
excludes row other =
    row.reserves_spectrum
    && (other.reserves_spectrum
        && ((row.spectrum_resource_id == other.spectrum_resource_id)
            && (overlaps (allocated_rf row) (allocated_rf other)
                && period_overlaps (active_period row) (active_period other))))

-- `ck_res_reserves_status`
abbrev pub status_pins : Option Status → Bool → Bool
status_pins none reserves = true
status_pins (some suspended) reserves = true
status_pins (some planned) reserves = reserves
status_pins (some pending_approval) reserves = reserves
status_pins (some on_air) reserves = reserves
status_pins (some _) reserves = not reserves

-- `ck_res_kind_path`
abbrev pub kind_fits_with : ReservationKind → (has_path has_status has_direction : Bool) → Bool
kind_fits_with satnet_path has_path has_status has_direction = has_path && has_status
kind_fits_with fixed_reserve has_path has_status has_direction =
    not has_path && (not has_status && not has_direction)

abbrev pub kind_fits : Reservation → Bool
kind_fits row =
    kind_fits_with row.kind (is_some row.satnet_path_id) (is_some row.status)
      (is_some row.direction)

-- `ck_res_direction_leg`
abbrev pub direction_fits : Option Direction → Leg → Bool
direction_fits none leg = true
direction_fits (some fwd) leg = leg_eq leg hub_uplink || leg_eq leg remote_downlink
direction_fits (some rtn) leg = leg_eq leg remote_uplink || leg_eq leg hub_downlink

-- Every CHECK of the table.
unfoldable pub checks_pass : Reservation → Bool
checks_pass row =
    ltb_ℤ row.allocated_start_hz row.allocated_end_hz
    && (ltb_ℤ row.occupied_start_hz row.occupied_end_hz
        && (leb_ℤ row.allocated_start_hz row.occupied_start_hz
            && (leb_ℤ row.occupied_end_hz row.allocated_end_hz
                && (leb_ℤ row.assignment_start_hz row.allocated_start_hz
                    && (leb_ℤ row.allocated_end_hz row.assignment_end_hz
                        && (not (runs_backwards row.valid_from row.valid_until)
                            && (kind_fits row
                                && (status_pins row.status row.reserves_spectrum
                                    && direction_fits row.direction row.leg))))))))

-- What the database says to one INSERT or UPDATE.
pub data DbError : Type 0 where
  check_violation exclusion_violation deadlock_detected other_operational_error : DbError

-- One INSERT or UPDATE of `row` beside the other rows of the table.
unfoldable pub admit : Reservation → List Reservation → Result DbError (Unit {0})
admit row others =
    if checks_pass row
    then (if any (excludes row) others then err exclusion_violation else ok tt)
    else err check_violation

-- `_guarded`: both shapes of a conflict become one exception, and nothing else is translated.
unfoldable pub guarded : Result DbError (Unit {0}) → Result Failure (Unit {0})
guarded (ok u) = ok u
guarded (err exclusion_violation) = err (spectrum_conflict false)
guarded (err deadlock_detected) = err (spectrum_conflict true)
guarded (err check_violation) = err integrity_error
guarded (err other_operational_error) = err operational_error
