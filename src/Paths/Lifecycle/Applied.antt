-- ===== src/Paths/Lifecycle/Applied.antt =====
-- The three tables after a move of satnet_paths/lifecycle.py.
use vsat_frequency_managemen.Database.{Db, Reservation, SatnetPath, path_transitioned}
use vsat_frequency_managemen.Database.Action.{Action, pure, record_event, ◌>>◌}
use vsat_frequency_managemen.Database.Calls.{atomic_ok, bind_ok, translating_ok}
use vsat_frequency_managemen.Paths.Lifecycle.{
  SpectrumEffect, Transition, apply_move, as_refusal, move_spectrum, moved_path, occupancies_of,
  path_claim, releases, reserves, restatuses, save_status, spectrum_effect, update_path,
}
use vsat_frequency_managemen.Prelude.{
  Bool, List, [], ap, ok, ok-injective, subst₂, sym, ℕ, ◌∙◌, ◌≡◌,
}
use vsat_frequency_managemen.Spectrum.{reserves_spectrum_of}
use vsat_frequency_managemen.Spectrum.Services.Done.{release_ok, reserve_ok, set_status_ok}
use vsat_frequency_managemen.Spectrum.Table.{restatus_rows, rows_without, write_occupancies}

-- The reservations before and after the spectrum half of a move.
abbrev pub RowsAfter :
    Bool → SpectrumEffect → SatnetPath → List Reservation → List Reservation → Type 0
RowsAfter retains reserves path rows rows' =
    write_occupancies (path_claim path retains) (occupancies_of path) rows ≡ ok rows'
RowsAfter retains restatuses path rows rows' =
    restatus_rows path.pk path.status (reserves_spectrum_of path.status retains) [] rows ≡ ok rows'
RowsAfter retains releases path rows rows' = rows' ≡ rows_without path.pk rows

spectrum_effect_ok :
    (retains : Bool) (eff : SpectrumEffect) (path : SatnetPath) (db db' : Db) (u : Unit {0})
    → spectrum_effect retains eff path db ≡ (ok u, db')
    → (db'.paths ≡ db.paths)
      × (db'.decisions ≡ db.decisions)
      × RowsAfter retains eff path db.reservations db'.reservations
spectrum_effect_ok retains reserves path db db' u e =
    let (rows, wrote, only) =
      reserve_ok (path_claim path retains) (occupancies_of path) db db' u e in
    (only.0, only.1, rw only.2 wrote)
spectrum_effect_ok retains restatuses path db db' u e =
    let (rows, wrote, only) = set_status_ok path.pk path.status retains db db' u e in
    (only.0, only.1, rw only.2 wrote)
spectrum_effect_ok retains releases path db db' u e = release_ok path.pk db db' u e

-- The columns that `_apply` saves, on the row with the path's key.
abbrev pub saved_columns : SatnetPath → SatnetPath → SatnetPath
saved_columns path p = record p {
  status = path.status;
  change_reason = path.change_reason;
  record_version = path.record_version;
}

-- A move that returned: the new path, and the three tables.
abbrev pub Applied : Bool → SatnetPath → Transition → List ℕ → Db → SatnetPath → Db → Type 0
Applied retains path m reason db path' db' =
    (path' ≡ moved_path path m reason)
    × (db'.paths ≡ update_path path.pk (saved_columns (moved_path path m reason)) db.paths)
    × (db'.decisions ≡ db.decisions)
    × RowsAfter retains m.spectrum (moved_path path m reason) db.reservations db'.reservations

pub apply_move_ok :
    (retains : Bool) (path : SatnetPath) (m : Transition) (reason : List ℕ) (db db' : Db)
    → (path' : SatnetPath) → apply_move retains path m reason db ≡ (ok path', db')
    → Applied retains path m reason db path' db'
unfolding apply_move save_status move_spectrum
apply_move_ok retains path m reason db db' path' e =
    let next = moved_path path m reason in
    let event = path_transitioned path.pk path.status next.status next.record_version in
    let tail3 : Action SatnetPath = record_event event >> pure next in
    let tail2 = move_spectrum retains next m >> tail3 in
    let e0 = atomic_ok (save_status next >> tail2) db path' db' e in
    let (u1, d1, saved_ok, e1) = bind_ok (save_status next) (λ _. tail2) db path' db' e0 in
    let (u2, d2, moved_ok, e2) =
      bind_ok (move_spectrum retains next m) (λ _. tail3) d1 path' db' e1 in
    let raw =
      translating_ok as_refusal (spectrum_effect retains m.spectrum next) d1 u2 d2 moved_ok in
    let (p, d, r) = spectrum_effect_ok retains m.spectrum next d1 d2 u2 raw in
    let rows_before : d1.reservations ≡ db.reservations =
      sym (ap (λ x. x.1.reservations) saved_ok) in
    let rows_after : d2.reservations ≡ db'.reservations = ap (λ x. x.1.reservations) e2 in
    (
      sym (ok-injective (ap (λ x. x.0) e2)),
      sym (ap (λ x. x.1.paths) e2) ∙ p ∙ sym (ap (λ x. x.1.paths) saved_ok),
      sym (ap (λ x. x.1.decisions) e2) ∙ d ∙ sym (ap (λ x. x.1.decisions) saved_ok),
      subst₂ (RowsAfter retains m.spectrum next) rows_before rows_after r,
    )
