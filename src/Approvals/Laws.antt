-- ===== src/Approvals/Laws.antt =====
-- Calls of `decide` of approvals/services.py that returned, and calls that were refused.
use vsat_frequency_managemen.Accounts.{Actor, require}
use vsat_frequency_managemen.Approvals.{
  Settings, as_approval_refusal, check_separate_approver, create_decision, decide, decide_and_move,
  is_author, is_pending, outcome_fits, outcome_for, reason_or,
}
use vsat_frequency_managemen.Database.{
  ApprovalDecision, Capability, Db, Decision, SatnetPath, approval_recorded,
}
use vsat_frequency_managemen.Database.Action.{
  Action, approval_refused_error, atomic, pure, record_event, refuse_if, translating, ◌>>=◌, ◌>>◌,
}
use vsat_frequency_managemen.Database.Calls.{
  FailsCleanly, FailsCleanly-atomic, FailsCleanly-bind, FailsCleanly-finish, IsQuiet,
  IsQuiet-refuse_if, atomic_ok, bind_ok, refuse_if_ok, translating_ok,
}
use vsat_frequency_managemen.Paths.Lifecycle.{transition}
use vsat_frequency_managemen.Paths.Lifecycle.Effects.{IsQuiet-require, require_ok}
use vsat_frequency_managemen.Prelude.{
  List, Option, [], ap, arith, false, not, ok, ok-injective, refl, subst, sym, true, ℕ, ◌&&◌, ◌++◌,
  ◌∙◌, ◌∷◌, ◌≡◌,
}

module _ (settings : Settings) (actor : Actor) (path : SatnetPath) where
  separate_ok :
      (c : Capability) (db mid : Db) (u : Unit {0})
      → check_separate_approver settings actor path c db ≡ (ok u, mid)
      → (settings.require_separate_approver && is_author actor path.created_by ≡ false) × (mid ≡ db)
  unfolding check_separate_approver
  separate_ok c db mid u e = ground arith

  IsQuiet-check_separate_approver :
      (c : Capability) → IsQuiet (check_separate_approver settings actor path c)
  unfolding check_separate_approver
  IsQuiet-check_separate_approver c = record { quiet = λ db. ground arith }

  module _ (decision : Decision) (comment reason : List ℕ) (expected : Option ℕ) where
    abbrev pub move_of : Action SatnetPath
    move_of =
        transition settings.suspended_retains_spectrum actor path (outcome_for decision).1
          (reason_or reason comment) expected true

    abbrev pub row_of : SatnetPath → ApprovalDecision
    row_of path' = record {
      path_pk = path.pk;
      decision = decision;
      decided_by = actor.pk;
      from_status = path.status;
      to_status = path'.status;
    }

    abbrev pub record_of : SatnetPath → Action ApprovalDecision
    record_of path' = create_decision (row_of path') >> pure (row_of path')

    abbrev pub announce : ApprovalDecision → Action ApprovalDecision
    announce row = record_event (approval_recorded path.pk decision) >> pure row

    -- A decision that is refused, for whatever reason, has changed no path, no reservation and no
    -- decision.
    pub FailsCleanly-decide :
        FailsCleanly (decide settings actor path decision comment reason expected)
    unfolding decide decide_and_move
    FailsCleanly-decide =
        FailsCleanly-bind _ _ (IsQuiet-require actor (outcome_for decision).0) λ _.
          FailsCleanly-bind _ _ (IsQuiet-refuse_if (not actor.is_user) approval_refused_error) λ _.
            FailsCleanly-bind _ _
              (IsQuiet-refuse_if (not (is_pending path.status)) approval_refused_error)
              λ _.
                FailsCleanly-bind _ _ (IsQuiet-check_separate_approver (outcome_for decision).0)
                  λ _.
                    FailsCleanly-finish
                      (atomic (translating as_approval_refusal move_of >>= record_of)) announce
                      (FailsCleanly-atomic (translating as_approval_refusal move_of >>= record_of))
                      (λ row db. (row, _, refl))

    -- What a decision that returned `row` has established.
    pub record Decided (db : Db) (row : ApprovalDecision) (db' : Db) : Type 0 where
      pub pending : is_pending path.status ≡ true
      pub permitted : actor.has_perm (outcome_for decision).0 ≡ true
      pub signed_in : actor.is_user ≡ true
      pub second_person :
          settings.require_separate_approver ≡ true → is_author actor path.created_by ≡ false
      pub path' : SatnetPath
      pub mid : Db
      pub moved : move_of db ≡ (ok path', mid)
      pub recorded : row ≡ row_of path'
      pub destined : outcome_fits decision path.status path'.status ≡ true
      pub decisions : db'.decisions ≡ mid.decisions ++ row_of path' ∷ []
      pub paths : db'.paths ≡ mid.paths
      pub reservations : db'.reservations ≡ mid.reservations

    announce_ok :
        (row row' : ApprovalDecision) (db db' : Db)
        → announce row db ≡ (ok row', db')
        → (row' ≡ row)
          × (db'.decisions ≡ db.decisions)
          × (db'.paths ≡ db.paths)
          × (db'.reservations ≡ db.reservations)
    announce_ok row row' db db' e = (
      sym (ok-injective (ap (λ x. x.0) e)),
      sym (ap (λ x. x.1.decisions) e),
      sym (ap (λ x. x.1.paths) e),
      sym (ap (λ x. x.1.reservations) e),
    )

    pure_ok :
        (row row' : ApprovalDecision) (db db' : Db)
        → pure row db ≡ (ok row', db')
        → (row' ≡ row)
          × (db'.decisions ≡ db.decisions)
          × (db'.paths ≡ db.paths)
          × (db'.reservations ≡ db.reservations)
    pure_ok row row' db db' e = (
      sym (ok-injective (ap (λ x. x.0) e)),
      sym (ap (λ x. x.1.decisions) e),
      sym (ap (λ x. x.1.paths) e),
      sym (ap (λ x. x.1.reservations) e),
    )

    create_ok :
        (row : ApprovalDecision) (db db' : Db) (u : Unit {0})
        → create_decision row db ≡ (ok u, db')
        → (db'.decisions ≡ db.decisions ++ row ∷ [])
          × (db'.paths ≡ db.paths)
          × (db'.reservations ≡ db.reservations)
          × (outcome_fits row.decision row.from_status row.to_status ≡ true)
    unfolding create_decision
    create_ok row db db' u e = ground arith

    abbrev block : Action ApprovalDecision
    block = atomic (translating as_approval_refusal move_of >>= record_of)

    -- The checks before the transaction.
    record Cleared (db : Db) (row : ApprovalDecision) (db' : Db) : Type 0 where
      pending : is_pending path.status ≡ true
      permitted : actor.has_perm (outcome_for decision).0 ≡ true
      signed_in : actor.is_user ≡ true
      separate : settings.require_separate_approver && is_author actor path.created_by ≡ false
      rest : (block >>= announce) db ≡ (ok row, db')

    decide-Cleared :
        (db db' : Db) (row : ApprovalDecision)
        → decide settings actor path decision comment reason expected db ≡ (ok row, db')
        → Cleared db row db'
    unfolding decide decide_and_move
    decide-Cleared db db' row e =
        let capability = (outcome_for decision).0 in
        let tail4 : Action ApprovalDecision = block >>= announce in
        let tail3 : Action ApprovalDecision =
          check_separate_approver settings actor path capability >> tail4 in
        let tail2 : Action ApprovalDecision =
          refuse_if (not (is_pending path.status)) approval_refused_error >> tail3 in
        let tail1 : Action ApprovalDecision =
          refuse_if (not actor.is_user) approval_refused_error >> tail2 in
        let (u1, d1, required, e1) = bind_ok (require actor capability) (λ _. tail1) db row db' e in
        let (u2, d2, person, e2) =
          bind_ok (refuse_if (not actor.is_user) approval_refused_error) (λ _. tail2) d1 row db'
            e1 in
        let (u3, d3, waiting, e3) =
          bind_ok (refuse_if (not (is_pending path.status)) approval_refused_error) (λ _. tail3) d2
            row db' e2 in
        let (u4, d4, checked, e4) =
          bind_ok (check_separate_approver settings actor path capability) (λ _. tail4) d3 row db'
            e3 in
        let (_, perm, s1) = require_ok actor capability db d1 u1 required in
        let (user, s2) = refuse_if_ok _ approval_refused_error d1 d2 u2 person in
        let (pend, s3) = refuse_if_ok _ approval_refused_error d2 d3 u3 waiting in
        let (sep, s4) = separate_ok capability d3 d4 u4 checked in
        record {
          pending = ground arith;
          permitted = perm;
          signed_in = ground arith;
          separate = sep;
          rest = subst (λ d. tail4 d ≡ (ok row, db')) (s4 ∙ s3 ∙ s2 ∙ s1) e4;
        }

    -- A decision that returned was allowed: the path was pending, the actor is a user who holds the
    -- capability and, where the setting asks for a second person, is not the author. The path was moved
    -- as `transition` moves it, to the status that the outcome leads to, and exactly the row returned
    -- was added to the decisions.
    pub decide_ok :
        (db db' : Db) (row : ApprovalDecision)
        → decide settings actor path decision comment reason expected db ≡ (ok row, db')
        → Decided db row db'
    decide_ok db db' row e =
        let cleared = decide-Cleared db db' row e in
        let (row', d5, blocked, e5) = bind_ok block announce db row db' cleared.rest in
        let (path', d6, moved, e6) =
          bind_ok (translating as_approval_refusal move_of) record_of db row' d5 (
            atomic_ok (translating as_approval_refusal move_of >>= record_of) db row' d5 blocked) in
        let (u7, d7, created, e7) =
          bind_ok (create_decision (row_of path')) (λ _. pure (row_of path')) d6 row' d5 e6 in
        let (kept, same_paths, same_rows, fit) = create_ok (row_of path') d6 d7 u7 created in
        let (row_same, decided_same, paths_same, rows_same) = announce_ok row' row d5 db' e5 in
        let (made_same, d7_decisions, d7_paths, d7_rows) = pure_ok (row_of path') row' d7 d5 e7 in
        record {
          pending = cleared.pending;
          permitted = cleared.permitted;
          signed_in = cleared.signed_in;
          second_person = λ on. ground (arith, cleared.separate);
          path' = path';
          mid = d6;
          moved = translating_ok as_approval_refusal move_of db path' d6 moved;
          recorded = row_same ∙ made_same;
          destined = fit;
          decisions = decided_same ∙ d7_decisions ∙ kept;
          paths = paths_same ∙ d7_paths ∙ same_paths;
          reservations = rows_same ∙ d7_rows ∙ same_rows;
        }
