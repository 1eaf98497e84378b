-- ===== src/Spectrum/Services/Done.antt =====
-- What the services of spectrum/services.py leave, when they return.
use vsat_frequency_managemen.Database.{Db, Event, Reservation, Side, Status, spectrum_reserved}
use vsat_frequency_managemen.Database.Action.{Failure, atomic}
use vsat_frequency_managemen.Prelude.{
  Bool, List, Result, [], ap, err, length, ok, refl, sym, ℕ, ◌-◌, ◌≡◌,
}
use vsat_frequency_managemen.Spectrum.{reserves_spectrum_of}
use vsat_frequency_managemen.Spectrum.Services.{commit_rows, release, reserve, set_status}
use vsat_frequency_managemen.Spectrum.Table.{Claim, restatus_rows, rows_without, write_occupancies}

-- The database differs in its reservations and its audit trail at most.
abbrev pub OnlyRows : Db → Db → List Reservation → Type 0
OnlyRows db db' rows =
    (db'.paths ≡ db.paths) × (db'.decisions ≡ db.decisions) × (db'.reservations ≡ rows)

commit_rows_ok :
    (event : List Reservation → Event) (r : Result Failure (List Reservation)) (db db' : Db)
    → (u : Unit {0}) → atomic (commit_rows event r) db ≡ (ok u, db')
    → (rows : List Reservation) × (r ≡ ok rows) × OnlyRows db db' rows
unfolding commit_rows
commit_rows_ok event (ok rows) db db' u e = (
  rows,
  refl,
  (
    sym (ap (λ x. x.1.paths) e),
    sym (ap (λ x. x.1.decisions) e),
    sym (ap (λ x. x.1.reservations) e),
  ),
)
commit_rows_ok event (err x) db db' u e = cc

pub reserve_ok :
    (claim : Claim) (occupancies : List Side) (db db' : Db) (u : Unit {0})
    → reserve claim occupancies db ≡ (ok u, db')
    → (rows : List Reservation) × (write_occupancies claim occupancies db.reservations ≡ ok rows)
      × OnlyRows db db' rows
unfolding reserve
reserve_ok claim occupancies db db' u e =
    commit_rows_ok
      (λ rows. spectrum_reserved claim.satnet_path_id (length rows - length db.reservations))
      (write_occupancies claim occupancies db.reservations) db db' u e

pub set_status_ok :
    (pk : ℕ) (status : Status) (retains : Bool) (db db' : Db) (u : Unit {0})
    → set_status pk status retains db ≡ (ok u, db')
    → (rows : List Reservation) × (restatus_rows pk status
          (reserves_spectrum_of status retains)
          []
          db.reservations
        ≡ ok rows)
      × OnlyRows db db' rows
unfolding set_status
set_status_ok pk status retains db db' u e = commit_rows_ok _ _ db db' u e

pub release_ok :
    (pk : ℕ) (db db' : Db) (u : Unit {0})
    → release pk db ≡ (ok u, db')
    → OnlyRows db db' (rows_without pk db.reservations)
unfolding release
release_ok pk db db' u e = (
  sym (ap (λ x. x.1.paths) e),
  sym (ap (λ x. x.1.decisions) e),
  sym (ap (λ x. x.1.reservations) e),
)
