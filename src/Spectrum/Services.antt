-- ===== src/Spectrum/Services.antt =====
-- The three services of spectrum/services.py, each in one transaction with its audit event.
pub mod Done
use vsat_frequency_managemen.Database.{
  Direction, Event, Reservation, Side, Status, spectrum_released, spectrum_reserved,
  spectrum_restatused,
}
use vsat_frequency_managemen.Database.Action.{Action, Failure, atomic}
use vsat_frequency_managemen.Prelude.{
  Bool, List, Option, Result, [], err, length, ok, ℕ, ◌++◌, ◌-◌, ◌∷◌,
}
use vsat_frequency_managemen.Spectrum.{reserves_spectrum_of}
use vsat_frequency_managemen.Spectrum.Table.{
  Claim, restatus_rows, rows_of, rows_without, write_occupancies,
}

-- A changed table and the event that goes with it, or the refusal of the statement that failed.
unfoldable pub commit_rows :
    (List Reservation → Event) → Result Failure (List Reservation) → Action (Unit {0})
commit_rows event (err e) db = (err e, db)
commit_rows event (ok rows) db =
    (ok tt, record db { reservations = rows; audit = db.audit ++ event rows ∷ [] })

-- The parameters of `reserve`, less the occupancies, with `holds` computed.
abbrev pub claim_of :
    (satnet_path_id : Option ℕ)
    → Direction
    → Status
    → (valid_from : ℕ) (valid_until : Option ℕ) → (suspended_retains : Bool) → Claim
claim_of satnet_path_id direction status valid_from valid_until suspended_retains = record {
  satnet_path_id = satnet_path_id;
  direction = direction;
  status = status;
  valid_from = valid_from;
  valid_until = valid_until;
  holds = reserves_spectrum_of status suspended_retains;
}

unfoldable pub reserve : Claim → List Side → Action (Unit {0})
unfolding commit_rows
reserve claim occupancies = atomic λ db.
    commit_rows
      (λ rows. spectrum_reserved claim.satnet_path_id (length rows - length db.reservations))
      (write_occupancies claim occupancies db.reservations) db

unfoldable pub set_status : ℕ → Status → Bool → Action (Unit {0})
unfolding commit_rows
set_status satnet_path_id status suspended_retains = atomic λ db.
    commit_rows
      (λ _.
        spectrum_restatused satnet_path_id (length (rows_of satnet_path_id db.reservations)) status)
      (restatus_rows satnet_path_id status (reserves_spectrum_of status suspended_retains) []
        db.reservations)
      db

unfoldable pub release : ℕ → Action (Unit {0})
unfolding commit_rows
release satnet_path_id = atomic λ db.
    commit_rows
      (λ _. spectrum_released satnet_path_id (length (rows_of satnet_path_id db.reservations)))
      (ok (rows_without satnet_path_id db.reservations)) db
