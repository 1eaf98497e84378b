-- ===== src/Approvals.antt =====
-- Deciding on an allocation (approvals/services.py).
pub mod Laws
pub mod Denial
pub mod Returns
use vsat_frequency_managemen.Accounts.{Actor, record_denial, require}
use vsat_frequency_managemen.Database.{
  ApprovalDecision, Capability, Decision, SatnetPath, Status, approval_recorded, approval_refused,
  approve_path, approved, on_air, pending_approval, planned, reject_path, rejected,
}
use vsat_frequency_managemen.Database.Action.{
  Action, Failure, approval_refused_error, atomic, integrity_error, pure, raise, record_event,
  refuse_if, transition_refused, translating, ◌>>=◌, ◌>>◌,
}
use vsat_frequency_managemen.Paths.Lifecycle.{Move, approve, reject, transition}
use vsat_frequency_managemen.Prelude.{
  Bool, List, Option, [], err, false, if◌then◌else◌, none, not, ok, some, true, ℕ, ◌&&◌, ◌++◌, ◌==◌,
  ◌∷◌,
}

-- The settings that the decision reads.
pub record Settings : Type 0 where
  pub suspended_retains_spectrum : Bool
  pub require_separate_approver : Bool

-- `_OUTCOMES`; a decision that is neither cannot be written.
abbrev pub outcome_for : Decision → Capability × Move
outcome_for approved = (approve_path, approve)
outcome_for rejected = (reject_path, reject)

-- `path.status == PathStatus.PENDING_APPROVAL`
abbrev pub is_pending : Status → Bool
is_pending pending_approval = true
is_pending _ = false

-- `path.created_by_id == actor.pk`, where both are there to compare.
abbrev pub is_author : Actor → Option ℕ → Bool
is_author actor none = false
is_author actor (some author) = actor.is_user && (author == actor.pk)

-- `_check_separate_approver`
unfoldable pub check_separate_approver :
    Settings → Actor → SatnetPath → Capability → Action (Unit {0})
check_separate_approver settings actor path capability =
    if settings.require_separate_approver && is_author actor path.created_by
    then (do
      record_denial capability
      record_event (approval_refused path.pk)
      raise approval_refused_error)
    else pure tt

-- `except lifecycle.TransitionRefused`
abbrev pub as_approval_refusal : Failure → Failure
as_approval_refusal transition_refused = approval_refused_error
as_approval_refusal e = e

-- `ck_approval_decision_transition`: each outcome leaves the queue for one destination.
abbrev pub outcome_fits : Decision → (from_status to_status : Status) → Bool
outcome_fits approved pending_approval on_air = true
outcome_fits rejected pending_approval planned = true
outcome_fits _ _ _ = false

-- `ApprovalDecision.objects.create`
unfoldable pub create_decision : ApprovalDecision → Action (Unit {0})
create_decision decision db =
    if outcome_fits decision.decision decision.from_status decision.to_status
    then (ok tt, record db { decisions = db.decisions ++ decision ∷ [] })
    else (err integrity_error, db)

-- `reason or comment`
abbrev reason_or : List ℕ → List ℕ → List ℕ
reason_or [] comment = comment
reason_or (c ∷ reason) comment = c ∷ reason

-- The block under `transaction.atomic()`.
unfoldable pub decide_and_move :
    Settings
    → Actor
    → SatnetPath
    → Decision
    → (comment reason : List ℕ) → (expected_version : Option ℕ) → Action ApprovalDecision
decide_and_move settings actor path decision comment reason expected_version = atomic (do
  path' ← translating as_approval_refusal (
      transition settings.suspended_retains_spectrum actor path (outcome_for decision).1
        (reason_or reason comment) expected_version true)
  let row : ApprovalDecision = record {
    path_pk = path.pk;
    decision = decision;
    decided_by = actor.pk;
    from_status = path.status;
    to_status = path'.status;
  }
  create_decision row
  pure row)

-- `decide`
unfoldable pub decide :
    Settings
    → Actor
    → SatnetPath
    → Decision
    → (comment reason : List ℕ) → (expected_version : Option ℕ) → Action ApprovalDecision
decide settings actor path decision comment reason expected_version = do
  require actor (outcome_for decision).0
  refuse_if (not actor.is_user) approval_refused_error
  refuse_if (not (is_pending path.status)) approval_refused_error
  check_separate_approver settings actor path (outcome_for decision).0
  row ← decide_and_move settings actor path decision comment reason expected_version
  record_event (approval_recorded path.pk decision)
  pure row
