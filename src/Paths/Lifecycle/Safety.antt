-- ===== src/Paths/Lifecycle/Safety.antt =====
-- Sequences of calls of `transition` (satnet_paths/lifecycle.py) and the table of reservations.
use vsat_frequency_managemen.Accounts.{Actor}
use vsat_frequency_managemen.Database.{Db, Reservation, SatnetPath}
use vsat_frequency_managemen.Database.Action.{Action, Failure}
use vsat_frequency_managemen.Database.Calls.{clean_of}
use vsat_frequency_managemen.Paths.Lifecycle.{
  Move, SpectrumEffect, moved_path, occupancies_of, path_claim, releases, reserves, restatuses,
  transition,
}
use vsat_frequency_managemen.Paths.Lifecycle.Applied.{RowsAfter, apply_move_ok}
use vsat_frequency_managemen.Paths.Lifecycle.Effects.{FailsCleanly-transition, transition_ok}
use vsat_frequency_managemen.Prelude.{
  Bool, List, Option, Result, [], err, ok, refl, ℕ, ◌∷◌, ◌≡◌, ◌≤◌,
}
use vsat_frequency_managemen.Prelude.Int.{ℤ}
use vsat_frequency_managemen.Spectrum.{reserves_spectrum_of}
use vsat_frequency_managemen.Spectrum.Table.Exclusion.{
  IsExclusive, restatus_rows-IsExclusive, rows_without-IsExclusive, write_occupancies-IsExclusive,
}
use vsat_frequency_managemen.Spectrum.Table.Holding.{holders, holders-le-one}

pub RowsAfter-IsExclusive :
    (retains : Bool) (eff : SpectrumEffect) (path : SatnetPath) (rows rows' : List Reservation)
    → RowsAfter retains eff path rows rows'
    → IsExclusive rows
    → IsExclusive rows'
RowsAfter-IsExclusive retains reserves path rows rows' e h =
    write_occupancies-IsExclusive (path_claim path retains) (occupancies_of path) rows rows' h e
RowsAfter-IsExclusive retains restatuses path rows rows' e h =
    restatus_rows-IsExclusive path.pk path.status (reserves_spectrum_of path.status retains) [] rows
      rows' h e
RowsAfter-IsExclusive retains releases path rows rows' e h =
    rw e (rows_without-IsExclusive path.pk rows h)

-- The parameters of one call of `transition`.
pub record Call : Type 0 where
  pub retains : Bool
  pub actor : Actor
  pub path : SatnetPath
  pub action : Move
  pub reason : List ℕ
  pub expected_version : Option ℕ
  pub on_behalf : Bool

abbrev pub make : Call → Action SatnetPath
make c = transition c.retains c.actor c.path c.action c.reason c.expected_version c.on_behalf

transition-IsExclusive :
    (c : Call) (db : Db) → IsExclusive db.reservations → IsExclusive (make c db).1.reservations
transition-IsExclusive c db h = split (make c db) refl
  where
    split : (r : Result Failure SatnetPath × Db) → make c db ≡ r → IsExclusive r.1.reservations
    split (ok path', db') e =
        let m =
          transition_ok c.retains c.actor c.path c.action c.reason c.expected_version c.on_behalf db
            db' path' e in
        let (_, _, _, rows) =
          apply_move_ok c.retains c.path m.move c.reason db db' path' m.applied in
        RowsAfter-IsExclusive c.retains m.move.spectrum (moved_path c.path m.move c.reason)
          db.reservations db'.reservations rows h
    split (err x, db') e =
        let same =
          clean_of (make c) db db' x
            (FailsCleanly-transition c.retains c.actor c.path c.action c.reason c.expected_version
              c.on_behalf)
            e in
        rw same.1 h

-- The database after a sequence of calls, each of which may return or raise.
pub run_calls : List Call → Db → Db
run_calls [] db = db
run_calls (c ∷ cs) db = run_calls cs (make c db).1

run_calls-IsExclusive :
    (cs : List Call) (db : Db)
    → IsExclusive db.reservations
    → IsExclusive (run_calls cs db).reservations
unfolding run_calls
run_calls-IsExclusive [] db h = h
run_calls-IsExclusive (c ∷ cs) db h =
    run_calls-IsExclusive cs (make c db).1 (transition-IsExclusive c db h)

-- From a table without overlaps, after any sequence of transitions by any actors on any paths, each
-- made or refused, every frequency on every resource has at most one holder at every moment.
pub at_most_one_holder :
    (cs : List Call) (db : Db) (resource_id : ℕ) (hz : ℤ) (t : ℕ)
    → IsExclusive db.reservations
    → holders resource_id hz t (run_calls cs db).reservations ≤ 1
at_most_one_holder cs db resource_id hz t h =
    holders-le-one resource_id hz t (run_calls cs db).reservations (run_calls-IsExclusive cs db h)
