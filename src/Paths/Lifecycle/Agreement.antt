-- ===== src/Paths/Lifecycle/Agreement.antt =====
-- The reservations of a path before and after `transition` (satnet_paths/lifecycle.py).
use vsat_frequency_managemen.Database.{Db, Reservation, SatnetPath, Status}
use vsat_frequency_managemen.Paths.Lifecycle.{
  SpectrumEffect, available_from, moved_path, occupancies_of, path_claim, releases, reserves,
  restatuses,
}
use vsat_frequency_managemen.Paths.Lifecycle.Applied.{RowsAfter, apply_move_ok}
use vsat_frequency_managemen.Paths.Lifecycle.Effects.{transition_ok}
use vsat_frequency_managemen.Paths.Lifecycle.InStep.{
  Agrees, Fits, IsInStep, claim_rows-mine, edges_fit, keep-append, none_of_another, restatus-Agrees,
  restatus-others, rowless, rows_of-rows_without, without-others,
}
use vsat_frequency_managemen.Paths.Lifecycle.Safety.{Call, make}
use vsat_frequency_managemen.Prelude.{
  All-In, All-keep, Bool, List, [], append-nil, false, map, not_both, ok, ℕ, ◌++◌, ◌≡◌, ◌≢◌,
}
use vsat_frequency_managemen.Spectrum.{reserves_spectrum_of}
use vsat_frequency_managemen.Spectrum.Table.{belongs_to, rows_of}
use vsat_frequency_managemen.Spectrum.Table.Written.{
  claim_rows, restatus, restatus_rows_lem, write_occupancies_lem,
}

-- What a move does to the rows of its own path, and to those of any other.
abbrev pub StaysInStep : Bool → SatnetPath → List Reservation → List Reservation → Type 0
StaysInStep retains path rows rows' =
    IsInStep retains path.pk path.status rows'
    × ((q : ℕ) → q ≢ path.pk → rows_of q rows' ≡ rows_of q rows)

module _ (retains : Bool) (path : SatnetPath) (rows rows' : List Reservation) where
  reserved-StaysInStep :
      rows_of path.pk rows ≡ []
      → rowless path.status ≡ false
      → RowsAfter retains reserves path rows rows'
      → StaysInStep retains path rows rows'
  reserved-StaysInStep empty live e =
      let claim = path_claim path retains in
      let new = claim_rows claim (occupancies_of path) in
      let written : rows' ≡ rows ++ new =
        write_occupancies_lem claim (occupancies_of path) rows rows' e in
      let (mine, agree) = claim_rows-mine path retains (occupancies_of path) in
      (
        record {
          agree =
              rw (written, keep-append (belongs_to path.pk) rows new, empty)
                (All-keep (Agrees retains path.status) (belongs_to path.pk) new agree);
          none_left = λ r. not_both _ r live;
        },
        λ q ne.
            rw (written, keep-append (belongs_to q) rows new, none_of_another path.pk q new ne mine)
              (append-nil (rows_of q rows)),
      )

  restatused-StaysInStep :
      rowless path.status ≡ false
      → RowsAfter retains restatuses path rows rows'
      → StaysInStep retains path rows rows'
  restatused-StaysInStep live e =
      let holds = reserves_spectrum_of path.status retains in
      let written : rows' ≡ map (restatus path.pk path.status holds) rows =
        restatus_rows_lem path.pk path.status holds [] rows rows' e in
      (
        record {
          agree = rw written (restatus-Agrees retains path.pk path.status rows);
          none_left = λ r. not_both _ r live;
        },
        λ q ne. rw written (restatus-others path.pk q path.status holds rows ne),
      )

  released-StaysInStep :
      RowsAfter retains releases path rows rows' → StaysInStep retains path rows rows'
  released-StaysInStep e =
      let gone = rows_of-rows_without path.pk rows in
      (
        record { agree = rw (e, gone) tt; none_left = λ _. rw e gone },
        λ q ne. rw e (without-others path.pk q rows ne),
      )

Fits-StaysInStep :
    (retains : Bool) (from : Status) (path' : SatnetPath) (eff : SpectrumEffect)
    → (rows rows' : List Reservation) → IsInStep retains path'.pk from rows
    → Fits from eff path'.status
    → RowsAfter retains eff path' rows rows'
    → StaysInStep retains path' rows rows'
Fits-StaysInStep retains from path' reserves rows rows' before fits after =
    reserved-StaysInStep retains path' rows rows' (before.none_left fits.0) fits.1 after
Fits-StaysInStep retains from path' restatuses rows rows' before fits after =
    restatused-StaysInStep retains path' rows rows' fits after
Fits-StaysInStep retains from path' releases rows rows' before fits after =
    released-StaysInStep retains path' rows rows' after

-- Where the reservations of a path say what its status says, they do so again after a transition of
-- the path that returns, for the status it returns with: every row carries that status and holds
-- spectrum exactly when the status does, and a finished path has no row. The rows of every other
-- path are as before.
pub transition-StaysInStep :
    (c : Call) (db db' : Db) (path' : SatnetPath)
    → IsInStep c.retains c.path.pk c.path.status db.reservations
    → make c db ≡ (ok path', db')
    → StaysInStep c.retains path' db.reservations db'.reservations
transition-StaysInStep c db db' path' before e =
    let m =
      transition_ok c.retains c.actor c.path c.action c.reason c.expected_version c.on_behalf db db'
        path' e in
    let applied = apply_move_ok c.retains c.path m.move c.reason db db' path' m.applied in
    let fits =
      All-In (λ t. Fits c.path.status t.spectrum t.to_status) (available_from c.path.status)
        (edges_fit c.path.status) m.move m.legal in
    rw applied.0 (
      Fits-StaysInStep c.retains c.path.status (moved_path c.path m.move c.reason) m.move.spectrum
        db.reservations db'.reservations before fits applied.3)
