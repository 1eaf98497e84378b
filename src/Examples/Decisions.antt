-- ===== src/Examples/Decisions.antt =====
-- Concrete runs of the approvals and of the reservation services.
use vsat_frequency_managemen.Accounts.{Actor, is_in_scope, may_act_on, require}
use vsat_frequency_managemen.Approvals.{
  Settings, check_separate_approver, create_decision, decide, decide_and_move,
}
use vsat_frequency_managemen.Approvals.Laws.{Decided, FailsCleanly-decide, decide_ok}
use vsat_frequency_managemen.Approvals.Returns.{IsAllowed, decide-Returns}
use vsat_frequency_managemen.Database.{
  ApprovalDecision, Db, Reservation, approved, draft, fwd, hub_uplink, on_air, pending_approval,
  planned,
}
use vsat_frequency_managemen.Database.Calls.{FailsCleanly}
use vsat_frequency_managemen.Examples.Data.{
  actor_with, db_with, granted, neighbour, path_in, side_of,
}
use vsat_frequency_managemen.Paths.Lifecycle.{
  apply_move, check_version, find, move_spectrum, require_scope, save_status, transition,
  update_path,
}
use vsat_frequency_managemen.Paths.Lifecycle.InStep.{IsInStep}
use vsat_frequency_managemen.Paths.Lifecycle.Returns.{Returns}
use vsat_frequency_managemen.Prelude.{
  List, [], false, map, none, ok, refl, some, true, ◌++◌, ◌∷◌, ◌≡◌,
}
use vsat_frequency_managemen.Prelude.Int.{pos}
use vsat_frequency_managemen.Spectrum.{admit, checks_pass, excludes, guarded, reserves_spectrum_of}
use vsat_frequency_managemen.Spectrum.Services.{commit_rows, set_status}
use vsat_frequency_managemen.Spectrum.Table.{
  Claim, check_entitlement, occupancy_row, restatus_rows, write_occupancies, write_rows,
}
use vsat_frequency_managemen.Spectrum.Table.Exclusion.{IsExclusive}
use vsat_frequency_managemen.Spectrum.Table.Total.{restatus_rows-total}
use vsat_frequency_managemen.Spectrum.Table.Written.{
  claim_rows, restatus, restatus_rows_lem, write_occupancies_lem,
}

abbrev strict : Settings
strict = record { suspended_retains_spectrum = false; require_separate_approver = true }

abbrev queued : Reservation
queued = record neighbour {
  allocated_start_hz = pos 100;
  allocated_end_hz = pos 200;
  occupied_start_hz = pos 110;
  occupied_end_hz = pos 190;
  valid_from = 5;
  satnet_path_id = some 1;
  status = some pending_approval;
}

abbrev before_decision : Db
before_decision = db_with pending_approval (neighbour ∷ queued ∷ [])

abbrev after_decision : Db
after_decision =
    (decide strict granted (path_in pending_approval) approved [] [] (some 4) before_decision).1

abbrev approval_row : ApprovalDecision
approval_row = record {
  path_pk = 1;
  decision = approved;
  decided_by = 51;
  from_status = pending_approval;
  to_status = on_air;
}

approved_run :
    decide strict granted (path_in pending_approval) approved [] [] (some 4) before_decision
    ≡ (ok approval_row, after_decision)
unfolding decide check_separate_approver decide_and_move create_decision transition find require
    is_in_scope require_scope may_act_on check_version apply_move save_status update_path
    move_spectrum set_status commit_rows restatus_rows admit guarded checks_pass excludes
approved_run = refl

decide_ok_example :
    Decided strict granted
      (path_in pending_approval)
      approved
      []
      []
      (some 4)
      before_decision
      approval_row
      after_decision
decide_ok_example =
    decide_ok strict granted (path_in pending_approval) approved [] [] (some 4) before_decision
      after_decision approval_row approved_run

decide-FailsCleanly_example :
    FailsCleanly (decide strict granted (path_in draft) approved [] [] none)
decide-FailsCleanly_example = FailsCleanly-decide strict granted (path_in draft) approved [] [] none

abbrev ungranted : Actor
ungranted = actor_with []

abbrev request : Claim
request = record {
  satnet_path_id = some 1;
  direction = fwd;
  status = planned;
  valid_from = 5;
  valid_until = none;
  holds = true;
}

abbrev written_rows : List Reservation
written_rows = neighbour ∷ occupancy_row request (side_of hub_uplink 80) 80 ∷ []

reserve_run :
    write_occupancies request (side_of hub_uplink 80 ∷ []) (neighbour ∷ []) ≡ ok written_rows
unfolding write_occupancies check_entitlement write_rows admit guarded checks_pass excludes
reserve_run = refl

write_occupancies_example :
    written_rows ≡ (neighbour ∷ []) ++ claim_rows request (side_of hub_uplink 80 ∷ [])
write_occupancies_example =
    write_occupancies_lem request (side_of hub_uplink 80 ∷ []) (neighbour ∷ []) written_rows
      reserve_run

abbrev resumed_rows : List Reservation
resumed_rows = neighbour ∷ record queued { status = some on_air } ∷ []

restatus_run : restatus_rows 1 on_air true [] (neighbour ∷ queued ∷ []) ≡ ok resumed_rows
unfolding restatus_rows admit guarded checks_pass excludes
restatus_run = refl

restatus_rows_example : resumed_rows ≡ [] ++ map (restatus 1 on_air true) (neighbour ∷ queued ∷ [])
restatus_rows_example =
    restatus_rows_lem 1 on_air true [] (neighbour ∷ queued ∷ []) resumed_rows restatus_run

queue-IsExclusive : IsExclusive (neighbour ∷ queued ∷ [])
unfolding checks_pass excludes
queue-IsExclusive = record { checked = (refl, (refl, tt)); apart = ((refl, tt), (tt, tt)) }

queue-IsInStep : IsInStep false 1 pending_approval (neighbour ∷ queued ∷ [])
queue-IsInStep = record { agree = ((refl, refl), tt); none_left = λ r. cc }

approval-IsAllowed : IsAllowed strict granted (path_in pending_approval) approved (some 4)
unfolding may_act_on
approval-IsAllowed = record {
  signed = refl;
  user = refl;
  permitted = refl;
  in_scope = refl;
  pending = refl;
  separate = refl;
  fresh = refl;
}

decide-Returns_example :
    Returns
      (decide strict granted (path_in pending_approval) approved [] [] (some 4))
      before_decision
decide-Returns_example =
    decide-Returns strict granted (path_in pending_approval) approved [] [] (some 4) before_decision
      approval-IsAllowed queue-IsExclusive queue-IsInStep

restatus_rows-total_example :
    (rows' : List Reservation) × (restatus_rows 1 on_air
        (reserves_spectrum_of on_air false)
        []
        (neighbour ∷ queued ∷ [])
      ≡ ok rows')
restatus_rows-total_example =
    restatus_rows-total 1 on_air false [] (neighbour ∷ queued ∷ []) queue-IsExclusive
      ((λ mine. cc), ((λ mine on. refl), tt))
