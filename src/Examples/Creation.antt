-- ===== src/Examples/Creation.antt =====
-- Concrete runs that save an allocation: a carrier right below a neighbour, planned and refused.
use vsat_frequency_managemen.Beams.{BeamAssignment}
use vsat_frequency_managemen.Calculations.Decimals.{count_digits, digit_count}
use vsat_frequency_managemen.Database.{
  Db, Leg, SatnetPath, Side, draft, fwd, hub_uplink, planned, remote_downlink,
}
use vsat_frequency_managemen.Database.Action.{Failure}
use vsat_frequency_managemen.Database.Calls.{FailsCleanly}
use vsat_frequency_managemen.Examples.Data.{actor_with, db_with, neighbour}
use vsat_frequency_managemen.Examples.Proposals.{
  carrier_network, downlink_grant, uplink_grant, values_at,
}
use vsat_frequency_managemen.Paths.Creation.{create, takes_place_of}
use vsat_frequency_managemen.Paths.Creation.Laws.{FailsCleanly-create}
use vsat_frequency_managemen.Paths.Derived.{rolloff_fits}
use vsat_frequency_managemen.Paths.Editing.{edit}
use vsat_frequency_managemen.Paths.Editing.Laws.{FailsCleanly-edit}
use vsat_frequency_managemen.Prelude.{
  Result, [], any, false, none, refl, some, true, ℕ, ◌+◌, ◌∷◌, ◌≡◌,
}
use vsat_frequency_managemen.Prelude.Int.{pos}

abbrev free_side : Leg → ℕ → ℕ → BeamAssignment → Side
free_side leg resource_id start a = record {
  assignment = a.stored;
  leg = leg;
  polarization = 0;
  occupied = record { start_hz = pos (start + 10); end_hz = pos (start + 90) };
  allocated = record { start_hz = pos start; end_hz = pos (start + 100) };
  resource_ids = resource_id ∷ [];
}

abbrev carrier_row : SatnetPath
carrier_row = record {
  pk = 3;
  satnet_id = 60;
  code = 66 ∷ [];
  beam_id = 20;
  hub_id = 30;
  direction = fwd;
  status = planned;
  record_version = 1;
  valid_from = 10;
  valid_until = some 50;
  change_reason = [];
  revision_group = 10;
  revision_number = 1;
  supersedes = none;
  created_by = some 51;
  canonical = free_side hub_uplink 80 100 uplink_grant;
  translated = free_side remote_downlink 81 1100 downlink_grant;
}

abbrev before_create : Db
before_create = db_with draft (neighbour ∷ [])

abbrev created_at : ℕ → Result Failure SatnetPath × Db
created_at centre =
    create false 20 (3, 10) (actor_with (20 ∷ [])) carrier_network (values_at centre) planned []
      none none before_create

abbrev after_create : Db
after_create = (created_at 150).1

-- Twenty Hz higher, it would reach into the neighbour.
FailsCleanly-create_example : FailsCleanly (
    create false 20
      (3, 10)
      (actor_with (20 ∷ []))
      carrier_network
      (values_at 170)
      planned
      []
      none
      none)
FailsCleanly-create_example =
    FailsCleanly-create false 20 (3, 10) (actor_with (20 ∷ [])) carrier_network (values_at 170)
      planned [] none none

FailsCleanly-edit_example :
    FailsCleanly
      (edit false 20 (actor_with (20 ∷ [])) carrier_network carrier_row (values_at 170) none 1 [])
FailsCleanly-edit_example =
    FailsCleanly-edit false 20 (actor_with (20 ∷ [])) carrier_network carrier_row (values_at 170)
      none 1 []

-- Another path of the Satnet with this code, at this revision.
code_taken :
    any (takes_place_of carrier_row) (record carrier_row { pk = 9; revision_group = 11 } ∷ [])
    ≡ true
code_taken = refl

-- A column of three decimal places holds 0.25 and not 0.0025.
rolloff_kept : rolloff_fits (record { negative = false; digits = 25; places = 2 }) ≡ true
unfolding rolloff_fits digit_count count_digits
rolloff_kept = refl

rolloff_refused : rolloff_fits (record { negative = false; digits = 25; places = 4 }) ≡ false
unfolding rolloff_fits digit_count count_digits
rolloff_refused = refl
