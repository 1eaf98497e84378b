-- ===== src/Paths/Lifecycle/Unapproved.antt =====
-- Sequences of calls of `transition` (satnet_paths/lifecycle.py) without the approvals service.
use vsat_frequency_managemen.Database.{
  Db, SatnetPath, Status, cancelled, draft, import_review, on_air, pending_approval, planned,
  retired, suspended,
}
use vsat_frequency_managemen.Database.Action.{Failure}
use vsat_frequency_managemen.Paths.Lifecycle.{Transition, available_from, is_approval}
use vsat_frequency_managemen.Paths.Lifecycle.Applied.{apply_move_ok}
use vsat_frequency_managemen.Paths.Lifecycle.Effects.{transition_ok}
use vsat_frequency_managemen.Paths.Lifecycle.Safety.{Call, make}
use vsat_frequency_managemen.Prelude.{
  All, All-In, Bool, List, Result, [], arith, err, false, not, ok, refl, true, ◌&&◌, ◌∷◌, ◌≡◌, ◌≢◌,
}

-- The statuses that a path has without anybody's approval.
abbrev pub unapproved : Status → Bool
unapproved draft = true
unapproved planned = true
unapproved pending_approval = true
unapproved cancelled = true
unapproved _ = false

-- An edge that is no decision leads from such a status to such a status.
StaysUnapproved : Status → Transition → Type 0
StaysUnapproved s m = unapproved s ≡ true → is_approval m ≡ false → unapproved m.to_status ≡ true

edges_unapproved : (s : Status) → All (StaysUnapproved s) (available_from s)
unfolding StaysUnapproved
edges_unapproved draft = ((λ u a. refl), ((λ u a. refl), tt))
edges_unapproved planned = ((λ u a. refl), ((λ u a. refl), tt))
edges_unapproved pending_approval = ((λ u a. cc), ((λ u a. refl), tt))
edges_unapproved on_air = ((λ u a. cc), ((λ u a. cc), tt))
edges_unapproved suspended = ((λ u a. cc), ((λ u a. cc), tt))
edges_unapproved cancelled = tt
edges_unapproved retired = tt
edges_unapproved import_review = tt

-- The path as an outcome leaves it: as before, where the call raised.
abbrev pub path_after : SatnetPath → Result Failure SatnetPath → SatnetPath
path_after path (ok path') = path'
path_after path (err e) = path

-- A path through a sequence of direct calls, none on behalf of an approval. What each call asks for
-- besides its path is free.
pub walk : List Call → SatnetPath → Db → SatnetPath
walk [] path db = path
walk (c ∷ cs) path db =
    let (r, db') = make (record c { path = path; on_behalf = false }) db in
    walk cs (path_after path r) db'

undecided : (b : Bool) → b && not false ≡ false → b ≡ false
undecided b h = ground arith

step_unapproved :
    (c : Call) (path : SatnetPath) (db : Db)
    → unapproved path.status ≡ true
    → unapproved (path_after path (make (record c { path = path; on_behalf = false }) db).0).status
      ≡ true
unfolding StaysUnapproved
step_unapproved c path db h = split (make (record c { path = path; on_behalf = false }) db) refl
  where
    split :
        (r : Result Failure SatnetPath × Db)
        → make (record c { path = path; on_behalf = false }) db ≡ r
        → unapproved (path_after path r.0).status ≡ true
    split (err x, db') e = h
    split (ok path', db') e =
        let m =
          transition_ok c.retains c.actor path c.action c.reason c.expected_version false db db'
            path' e in
        let applied = apply_move_ok c.retains path m.move c.reason db db' path' m.applied in
        rw applied.0 (
          All-In (StaysUnapproved path.status) (available_from path.status)
            (edges_unapproved path.status) m.move m.legal h (undecided _ m.decided))

walk-unapproved :
    (cs : List Call) (path : SatnetPath) (db : Db)
    → unapproved path.status ≡ true
    → unapproved (walk cs path db).status ≡ true
unfolding walk
walk-unapproved [] path db h = h
walk-unapproved (c ∷ cs) path db h =
    let r = make (record c { path = path; on_behalf = false }) db in
    walk-unapproved cs (path_after path r.0) r.1 (step_unapproved c path db h)

not_on_air : (s : Status) → unapproved s ≡ true → s ≢ on_air
not_on_air s h e = cc

-- No sequence of direct calls of `transition`, by any actors, puts a draft on air.
pub draft_never_on_air :
    (cs : List Call) (path : SatnetPath) (db : Db)
    → path.status ≡ draft
    → (walk cs path db).status ≢ on_air
draft_never_on_air cs path db h = not_on_air _ (walk-unapproved cs path db (rw h refl))
