-- ===== src/Spectrum/Table.antt =====
-- What `reserve`, `set_status` and `release` of spectrum/services.py do to the table of reservations.
pub mod Exclusion
pub mod Holding
pub mod Total
pub mod Written
use vsat_frequency_managemen.Database.{Direction, Reservation, Side, Status, satnet_path}
use vsat_frequency_managemen.Database.Action.{Failure, outside_entitlement}
use vsat_frequency_managemen.Prelude.{
  Bool, List, Option, Result, [], false, if◌then◌else◌, keep, ltb, none, not, ok, raise_if, some,
  true, ℕ, ◌++◌, ◌==◌, ◌>>=◌, ◌>>◌, ◌∷◌,
}
use vsat_frequency_managemen.Spectrum.{admit, guarded}

-- `Occupancy` is one leg's spectrum, and the resources it competes on: a `Side`.

-- `valid_until is None or valid_until > limit`
abbrev pub runs_past : Option ℕ → Option ℕ → Bool
runs_past none valid_until = false
runs_past (some limit) none = true
runs_past (some limit) (some valid_until) = ltb limit valid_until

-- `_check_entitlement`: the half of containment that the database cannot hold.
unfoldable pub check_entitlement : Side → ℕ → Option ℕ → Result Failure (Unit {0})
check_entitlement occupancy valid_from valid_until =
    raise_if (not occupancy.assignment.is_active) outside_entitlement
    >> raise_if (ltb valid_from occupancy.assignment.effective_from) outside_entitlement
    >> raise_if (runs_past occupancy.assignment.effective_until valid_until) outside_entitlement

-- What `reserve` is asked for, beside the occupancies.
pub record Claim : Type 0 where
  pub satnet_path_id : Option ℕ
  pub direction : Direction
  pub status : Status
  pub valid_from : ℕ
  pub valid_until : Option ℕ
  pub holds : Bool

-- The values of one `_write` in `reserve`.
abbrev pub occupancy_row : Claim → Side → ℕ → Reservation
occupancy_row claim occupancy resource_id = record {
  spectrum_resource_id = resource_id;
  assignment_pk = occupancy.assignment.pk;
  assignment_start_hz = occupancy.assignment.rf_start_hz;
  assignment_end_hz = occupancy.assignment.rf_end_hz;
  leg = occupancy.leg;
  polarization = occupancy.polarization;
  occupied_start_hz = occupancy.occupied.start_hz;
  occupied_end_hz = occupancy.occupied.end_hz;
  allocated_start_hz = occupancy.allocated.start_hz;
  allocated_end_hz = occupancy.allocated.end_hz;
  valid_from = claim.valid_from;
  valid_until = claim.valid_until;
  kind = satnet_path;
  satnet_path_id = claim.satnet_path_id;
  direction = some claim.direction;
  status = some claim.status;
  reserves_spectrum = claim.holds;
}

-- The inner loop of `reserve`: a row for each resource, each an INSERT after the ones before it.
unfoldable pub write_rows :
    Claim → Side → List ℕ → List Reservation → Result Failure (List Reservation)
unfolding admit guarded
write_rows claim occupancy [] rows = ok rows
write_rows claim occupancy (resource_id ∷ resource_ids) rows =
    let row = occupancy_row claim occupancy resource_id in
    guarded (admit row rows) >> write_rows claim occupancy resource_ids (rows ++ row ∷ [])

-- The outer loop of `reserve`.
unfoldable pub write_occupancies :
    Claim → List Side → List Reservation → Result Failure (List Reservation)
unfolding check_entitlement write_rows
write_occupancies claim [] rows = ok rows
write_occupancies claim (occupancy ∷ occupancies) rows = do
  check_entitlement occupancy claim.valid_from claim.valid_until
  rows' ← write_rows claim occupancy occupancy.resource_ids rows
  write_occupancies claim occupancies rows'

abbrev pub names : ℕ → Option ℕ → Bool
names pk none = false
names pk (some id) = id == pk

-- `satnet_path_id=...` of a queryset.
abbrev pub belongs_to : ℕ → Reservation → Bool
belongs_to pk row = names pk row.satnet_path_id

-- The loop of `set_status`: each row of the path is saved by itself, beside the others as they
-- stand. `done` holds the rows already passed.
unfoldable pub restatus_rows :
    ℕ → Status → Bool → (done todo : List Reservation) → Result Failure (List Reservation)
unfolding admit guarded
restatus_rows pk status holds done [] = ok done
restatus_rows pk status holds done (row ∷ todo) =
    let row' = record row { status = some status; reserves_spectrum = holds } in
    let saved =
      guarded (admit row' (done ++ todo))
      >> restatus_rows pk status holds (done ++ row' ∷ []) todo in
    let passed = restatus_rows pk status holds (done ++ row ∷ []) todo in
    if belongs_to pk row then saved else passed

-- `filter(satnet_path_id=...)`, and what the DELETE of `release` leaves.
abbrev pub rows_of : ℕ → List Reservation → List Reservation
rows_of pk rows = keep (belongs_to pk) rows

abbrev pub rows_without : ℕ → List Reservation → List Reservation
rows_without pk rows = keep (λ row. not (belongs_to pk row)) rows
