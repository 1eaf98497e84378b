-- ===== src/Approvals/Returns.antt =====
-- When `decide` of approvals/services.py returns.
use vsat_frequency_managemen.Accounts.{Actor, may_act_on, require}
use vsat_frequency_managemen.Approvals.{
  Settings, as_approval_refusal, check_separate_approver, create_decision, decide, decide_and_move,
  is_author, is_pending, outcome_fits, outcome_for, reason_or,
}
use vsat_frequency_managemen.Approvals.Denial.{require_passes, separate_passes}
use vsat_frequency_managemen.Approvals.Laws.{announce, move_of, record_of, row_of}
use vsat_frequency_managemen.Database.{
  ApprovalDecision, Capability, Db, Decision, SatnetPath, Status, approve_path, approved, on_air,
  pending_approval, planned, reject_path, rejected,
}
use vsat_frequency_managemen.Database.Action.{
  approval_refused_error, atomic, pure, refuse_if, transition_refused, translating, ◌>>=◌, ◌>>◌,
}
use vsat_frequency_managemen.Database.Steps.{atomic_step, bind_step, translating_step}
use vsat_frequency_managemen.Paths.Lifecycle.{
  Transition, apply_move, approve, check_version, find, is_approval, moved_path, reject,
  require_scope, restatuses, transition, version_matches,
}
use vsat_frequency_managemen.Paths.Lifecycle.InStep.{IsInStep}
use vsat_frequency_managemen.Paths.Lifecycle.Returns.{Returns, apply_move-Returns}
use vsat_frequency_managemen.Prelude.{
  Bool, List, Option, [], false, not, ok, refl, true, ℕ, ◌&&◌, ◌++◌, ◌∙◌, ◌∷◌, ◌≡◌,
}
use vsat_frequency_managemen.Spectrum.{reserves_spectrum_of}
use vsat_frequency_managemen.Spectrum.Table.Exclusion.{IsExclusive}

abbrev target_of : Decision → Status
target_of approved = on_air
target_of rejected = planned

-- The edge that a decision takes from the queue.
edge_of :
    (path : SatnetPath) (decision : Decision) (db : Db)
    → path.status ≡ pending_approval
    → (m : Transition) × (find path.status (outcome_for decision).1 db ≡ (ok m, db))
      × (m.capability ≡ (outcome_for decision).0)
      × (m.spectrum ≡ restatuses)
      × (m.to_status ≡ target_of decision)
unfolding find
edge_of path approved db h =
    let m : Transition = record {
      action = approve;
      to_status = on_air;
      capability = approve_path;
      spectrum = restatuses;
    } in
    (m, rw h refl, refl, refl, refl)
edge_of path rejected db h =
    let m : Transition = record {
      action = reject;
      to_status = planned;
      capability = reject_path;
      spectrum = restatuses;
    } in
    (m, rw h refl, refl, refl, refl)

on_behalf_passes :
    (b : Bool) (db : Db) → refuse_if (b && not true) transition_refused db ≡ (ok tt, db)
on_behalf_passes true db = refl
on_behalf_passes false db = refl

version_passes :
    (path : SatnetPath) (expected : Option ℕ) (db : Db)
    → version_matches expected path.record_version ≡ true
    → check_version path expected db ≡ (ok tt, db)
unfolding check_version
version_passes path expected db h = rw h refl

scope_passes :
    (actor : Actor) (path : SatnetPath) (capability : Capability) (db : Db)
    → may_act_on actor path.beam_id path.hub_id ≡ true
    → require_scope actor path capability db ≡ (ok tt, db)
unfolding require_scope
scope_passes actor path capability db h = rw h refl

pending_reserves :
    (retains : Bool) (status : Status)
    → status ≡ pending_approval
    → reserves_spectrum_of status retains ≡ true
pending_reserves retains status h = rw h refl

-- Nothing forbids this decision.
pub record IsAllowed (settings : Settings) (actor : Actor) (path : SatnetPath) (decision : Decision)
    (expected : Option ℕ) : Type 0 where
  pub signed : actor.is_authenticated ≡ true
  pub user : actor.is_user ≡ true
  pub permitted : actor.has_perm (outcome_for decision).0 ≡ true
  pub in_scope : may_act_on actor path.beam_id path.hub_id ≡ true
  pub pending : path.status ≡ pending_approval
  pub separate : settings.require_separate_approver && is_author actor path.created_by ≡ false
  pub fresh : version_matches expected path.record_version ≡ true

module _ (settings : Settings) (actor : Actor) (path : SatnetPath) (decision : Decision)
    (comment reason : List ℕ) (expected : Option ℕ) (db : Db)
    (allowed : IsAllowed settings actor path decision expected)
    (exclusive : IsExclusive db.reservations)
    (step : IsInStep settings.suspended_retains_spectrum path.pk path.status db.reservations) where
  move_returns :
      (path' : SatnetPath) × (db' : Db) × (move_of settings actor path decision comment reason
          expected db
        ≡ (ok path', db'))
      × (path'.status ≡ target_of decision)
  unfolding transition
  move_returns =
      let retains = settings.suspended_retains_spectrum in
      let text = reason_or reason comment in
      let (m, found, same, kind, target) = edge_of path decision db allowed.pending in
      let tail4 =
        λ (t : Transition). check_version path expected >> apply_move retains path t text in
      let tail3 =
        λ (t : Transition). refuse_if (is_approval t && not true) transition_refused >> tail4 t in
      let tail2 = λ (t : Transition). require_scope actor path t.capability >> tail3 t in
      let tail1 = λ (t : Transition). require actor t.capability >> tail2 t in
      let (db', applied) =
        apply_move-Returns retains path m text db exclusive step kind
          (λ _. pending_reserves retains path.status allowed.pending) in
      (
        moved_path path m text,
        db',
        bind_step (find path.status (outcome_for decision).1) tail1 db m db found
            ∙ bind_step (require actor m.capability) (λ _. tail2 m) db tt db
                (require_passes actor m.capability db allowed.signed (rw same allowed.permitted))
            ∙ bind_step (require_scope actor path m.capability) (λ _. tail3 m) db tt db
                (scope_passes actor path m.capability db allowed.in_scope)
            ∙ bind_step (refuse_if (is_approval m && not true) transition_refused) (λ _. tail4 m) db
                tt db (on_behalf_passes (is_approval m) db)
            ∙ bind_step (check_version path expected) (λ _. apply_move retains path m text) db tt db
                (version_passes path expected db allowed.fresh)
            ∙ applied,
        target,
      )

  fits_outcome :
      (d : Decision) (from to : Status)
      → from ≡ pending_approval
      → to ≡ target_of d
      → outcome_fits d from to ≡ true
  fits_outcome approved from to h k = rw (h, k) refl
  fits_outcome rejected from to h k = rw (h, k) refl

  row_created :
      (row : ApprovalDecision) (mid : Db)
      → outcome_fits row.decision row.from_status row.to_status ≡ true
      → create_decision row mid ≡ (ok tt, record mid { decisions = mid.decisions ++ row ∷ [] })
  unfolding create_decision
  row_created row mid h = rw h refl

  -- A decision that nothing forbids returns, where the path's reservations are in step with its status
  -- and no reservations overlap: the database refuses neither the change of the reservations nor the
  -- row of the decision.
  pub decide-Returns : Returns (decide settings actor path decision comment reason expected) db
  unfolding decide decide_and_move
  decide-Returns =
      let (path', mid, moved, target) = move_returns in
      let row = row_of settings actor path decision comment reason expected path' in
      let record_from = record_of settings actor path decision comment reason expected in
      let announcing = announce settings actor path decision comment reason expected in
      let move = move_of settings actor path decision comment reason expected in
      let made : Db = record mid { decisions = mid.decisions ++ row ∷ [] } in
      let capability = (outcome_for decision).0 in
      let block = atomic (translating as_approval_refusal move >>= record_from) in
      let tail4 = block >>= announcing in
      let tail3 = check_separate_approver settings actor path capability >> tail4 in
      let tail2 = refuse_if (not (is_pending path.status)) approval_refused_error >> tail3 in
      let tail1 = refuse_if (not actor.is_user) approval_refused_error >> tail2 in
      let blocked : block db ≡ (ok row, made) =
        atomic_step (translating as_approval_refusal move >>= record_from) row db made (
          bind_step (translating as_approval_refusal move) record_from db path' mid
            (translating_step as_approval_refusal move path' db mid moved)
          ∙ bind_step (create_decision row) (λ _. pure row) mid tt made
              (row_created row mid
                (fits_outcome decision path.status path'.status allowed.pending target))) in
      (
        row,
        (announcing row made).1,
        bind_step (require actor capability) (λ _. tail1) db tt db
              (require_passes actor capability db allowed.signed allowed.permitted)
            ∙ bind_step (refuse_if (not actor.is_user) approval_refused_error) (λ _. tail2) db tt db
                (rw allowed.user refl)
            ∙ bind_step (refuse_if (not (is_pending path.status)) approval_refused_error)
                (λ _. tail3) db tt db (rw allowed.pending refl)
            ∙ bind_step (check_separate_approver settings actor path capability) (λ _. tail4) db tt
                db
                (separate_passes settings actor path decision comment reason expected db
                  allowed.separate)
            ∙ bind_step block announcing db row made blocked,
      )
