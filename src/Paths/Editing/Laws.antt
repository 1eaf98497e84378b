-- ===== src/Paths/Editing/Laws.antt =====
-- What `edit` of satnet_paths/lifecycle.py leaves when it refuses.
use vsat_frequency_managemen.Accounts.{Actor}
use vsat_frequency_managemen.Database.{Db, SatnetPath, Status, path_stale, plan_path}
use vsat_frequency_managemen.Database.Action.{
  Action, not_editable, pure, raise, record_event, stale_record, ◌>>=◌, ◌>>◌,
}
use vsat_frequency_managemen.Database.Calls.{
  FailsCleanly, FailsCleanly-atomic, FailsCleanly-bind, IsQuiet, IsQuiet-refuse_if, SameRows,
}
use vsat_frequency_managemen.Paths.Editing.{
  check_edit_version, edit, or_row_missing, rewrite, stored_row,
}
use vsat_frequency_managemen.Paths.Lifecycle.Effects.{IsQuiet-require, IsQuiet-require_scope}
use vsat_frequency_managemen.Paths.Preview.{PathValues, SatnetRow}
use vsat_frequency_managemen.Prelude.{
  Bool, List, Option, false, first, if◌then◌else◌, none, refl, some, true, ℕ, ◌==◌,
}

IsQuiet-check_edit_version :
    (path : SatnetPath) (expected : ℕ) → IsQuiet (check_edit_version path expected)
unfolding check_edit_version stored_row
IsQuiet-check_edit_version path expected = record {
  quiet = λ db. by_row db (first (λ p. p.pk == path.pk) db.paths);
}
  where
    judged : SatnetPath → Action (Unit {0})
    judged stored =
        if expected == stored.record_version
        then pure tt
        else (do record_event (path_stale path.pk); raise stale_record)

    by_version :
        (db : Db) (b : Bool)
        → SameRows db
            ((if b then pure tt else (do record_event (path_stale path.pk); raise stale_record))
              db).1
    by_version db true = (refl, refl, refl)
    by_version db false = (refl, refl, refl)

    by_row : (db : Db) (o : Option SatnetPath) → SameRows db ((or_row_missing o >>= judged) db).1
    by_row db none = (refl, refl, refl)
    by_row db (some stored) = by_version db (expected == stored.record_version)

FailsCleanly-rewrite :
    (suspended_retains : Bool) (now : ℕ) (s : SatnetRow) (path : SatnetPath) (values : PathValues)
    (status : Option Status) (reason : List ℕ)
    → FailsCleanly (rewrite suspended_retains now s path values status reason)
unfolding rewrite
FailsCleanly-rewrite suspended_retains now s path values status reason = FailsCleanly-atomic _

-- An edit that is refused, at whatever step, changes no row: the path keeps its columns, and the
-- reservations that it released before the refusal are held again.
pub FailsCleanly-edit :
    (suspended_retains : Bool) (now : ℕ) (actor : Actor) (s : SatnetRow) (path : SatnetPath)
    (values : PathValues) (status : Option Status) (expected : ℕ) (reason : List ℕ)
    → FailsCleanly (edit suspended_retains now actor s path values status expected reason)
unfolding edit
FailsCleanly-edit suspended_retains now actor s path values status expected reason =
    FailsCleanly-bind _ _ (IsQuiet-require actor plan_path) λ _.
      FailsCleanly-bind _ _ (IsQuiet-require_scope actor path plan_path) λ _.
        FailsCleanly-bind _ _ (IsQuiet-refuse_if _ not_editable) λ _.
          FailsCleanly-bind _ _ (IsQuiet-check_edit_version path expected)
            λ _. FailsCleanly-rewrite suspended_retains now s path values status reason
