-- ===== src/Examples/Services.antt =====
-- Concrete runs of the lifecycle: one allocation is planned beside another that is on air.
use vsat_frequency_managemen.Accounts.{is_in_scope, may_act_on, require}
use vsat_frequency_managemen.Database.{Db, SatnetPath, draft, on_air, planned}
use vsat_frequency_managemen.Database.Calls.{FailsCleanly}
use vsat_frequency_managemen.Examples.Data.{
  call_on, db_with, granted, neighbour, neighbour_alone, path_in,
}
use vsat_frequency_managemen.Paths.Lifecycle.{
  Move, apply_move, approve, cancel, check_version, find, move_spectrum, plan, require_scope,
  save_status, submit, transition, update_path,
}
use vsat_frequency_managemen.Paths.Lifecycle.Agreement.{StaysInStep, transition-StaysInStep}
use vsat_frequency_managemen.Paths.Lifecycle.Effects.{FailsCleanly-transition, Moved, transition_ok}
use vsat_frequency_managemen.Paths.Lifecycle.InStep.{IsInStep}
use vsat_frequency_managemen.Paths.Lifecycle.Safety.{at_most_one_holder, make, run_calls}
use vsat_frequency_managemen.Paths.Lifecycle.Stored.{
  Order, PathInStep, carry_out_all, stored_paths-InStep,
}
use vsat_frequency_managemen.Paths.Lifecycle.Unapproved.{draft_never_on_air, walk}
use vsat_frequency_managemen.Prelude.{All, [], false, none, ok, refl, some, ◌∷◌, ◌≡◌, ◌≢◌, ◌≤◌}
use vsat_frequency_managemen.Prelude.Int.{pos}
use vsat_frequency_managemen.Spectrum.{admit, checks_pass, excludes, guarded}
use vsat_frequency_managemen.Spectrum.Services.{commit_rows, reserve}
use vsat_frequency_managemen.Spectrum.Table.{check_entitlement, write_occupancies, write_rows}
use vsat_frequency_managemen.Spectrum.Table.Holding.{holders}

at_most_one_holder_example :
    holders 80
      (pos 150)
      6
      (run_calls
        (call_on draft plan ∷ call_on planned submit ∷ [])
        (db_with draft (neighbour ∷ []))).reservations
    ≤ 1
at_most_one_holder_example =
    at_most_one_holder (call_on draft plan ∷ call_on planned submit ∷ [])
      (db_with draft (neighbour ∷ [])) 80 (pos 150) 6 neighbour_alone

abbrev before_plan : Db
before_plan = db_with draft (neighbour ∷ [])

abbrev after_plan : Db
after_plan = (make (call_on draft plan) before_plan).1

abbrev planned_path : SatnetPath
planned_path = record (path_in draft) { status = planned; record_version = 5 }

planned_run : make (call_on draft plan) before_plan ≡ (ok planned_path, after_plan)
unfolding transition find require is_in_scope require_scope may_act_on check_version apply_move
    save_status update_path move_spectrum reserve commit_rows write_occupancies check_entitlement
    write_rows admit guarded checks_pass excludes
planned_run = refl

planned-IsInStep : IsInStep false 1 draft (neighbour ∷ [])
planned-IsInStep = record { agree = tt; none_left = λ _. refl }

transition_in_step_example : StaysInStep false planned_path (neighbour ∷ []) after_plan.reservations
transition_in_step_example =
    transition-StaysInStep (call_on draft plan) before_plan after_plan planned_path planned-IsInStep
      planned_run

transition_ok_example :
    Moved false granted (path_in draft) plan [] (some 4) false before_plan planned_path after_plan
transition_ok_example =
    transition_ok false granted (path_in draft) plan [] (some 4) false before_plan after_plan
      planned_path planned_run

transition-FailsCleanly_example :
    FailsCleanly (transition false granted (path_in draft) submit [] (some 4) false)
transition-FailsCleanly_example =
    FailsCleanly-transition false granted (path_in draft) submit [] (some 4) false

draft_never_on_air_example :
    (walk (call_on draft plan ∷ call_on draft approve ∷ []) (path_in draft) before_plan).status
    ≢ on_air
draft_never_on_air_example =
    draft_never_on_air (call_on draft plan ∷ call_on draft approve ∷ []) (path_in draft) before_plan
      refl

abbrev order_to : Move → Order
order_to action = record {
  path_pk = 1;
  actor = granted;
  action = action;
  reason = [];
  expected_version = none;
  on_behalf = false;
}

stored_paths-InStep_example :
    All
      (PathInStep false
        (carry_out_all false
          (order_to plan ∷ order_to approve ∷ order_to cancel ∷ [])
          before_plan).reservations)
      (carry_out_all false
        (order_to plan ∷ order_to approve ∷ order_to cancel ∷ [])
        before_plan).paths
stored_paths-InStep_example =
    stored_paths-InStep false (order_to plan ∷ order_to approve ∷ order_to cancel ∷ []) before_plan
      (planned-IsInStep, tt)
