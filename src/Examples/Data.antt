-- ===== src/Examples/Data.antt =====
-- The rows and calls that the runs share.
use vsat_frequency_managemen.Accounts.{Actor}
use vsat_frequency_managemen.Calculations.Ranges.{FrequencyRange}
use vsat_frequency_managemen.Database.{
  Assignment, Db, Leg, Reservation, SatnetPath, Side, Status, fwd, hub_uplink, on_air,
  remote_downlink, satnet_path,
}
use vsat_frequency_managemen.Paths.Lifecycle.{Move}
use vsat_frequency_managemen.Paths.Lifecycle.Safety.{Call}
use vsat_frequency_managemen.Prelude.{List, [], false, none, refl, some, true, ℕ, ◌∷◌}
use vsat_frequency_managemen.Prelude.Int.{pos}
use vsat_frequency_managemen.Spectrum.{checks_pass}
use vsat_frequency_managemen.Spectrum.Table.Exclusion.{IsExclusive}

abbrev pub frequencies : ℕ → ℕ → FrequencyRange
frequencies a b = record { start_hz = pos a; end_hz = pos b }

abbrev pub grant : Assignment
grant = record {
  pk = 7;
  rf_start_hz = pos 0;
  rf_end_hz = pos 1000;
  is_active = true;
  effective_from = 0;
  effective_until = none;
}

abbrev pub side_of : Leg → ℕ → Side
side_of leg resource_id = record {
  assignment = grant;
  leg = leg;
  polarization = 0;
  occupied = frequencies 110 190;
  allocated = frequencies 100 200;
  resource_ids = resource_id ∷ [];
}

abbrev pub path_in : Status → SatnetPath
path_in status = record {
  pk = 1;
  satnet_id = 60;
  code = 65 ∷ [];
  beam_id = 20;
  hub_id = 30;
  direction = fwd;
  status = status;
  record_version = 4;
  valid_from = 5;
  valid_until = none;
  change_reason = [];
  revision_group = 9;
  revision_number = 1;
  supersedes = none;
  created_by = some 50;
  canonical = side_of hub_uplink 80;
  translated = side_of remote_downlink 81;
}

-- A neighbour on resource 80, right above.
abbrev pub neighbour : Reservation
neighbour = record {
  spectrum_resource_id = 80;
  assignment_pk = 7;
  assignment_start_hz = pos 0;
  assignment_end_hz = pos 1000;
  leg = hub_uplink;
  polarization = 0;
  occupied_start_hz = pos 210;
  occupied_end_hz = pos 290;
  allocated_start_hz = pos 200;
  allocated_end_hz = pos 300;
  valid_from = 0;
  valid_until = none;
  kind = satnet_path;
  satnet_path_id = some 2;
  direction = some fwd;
  status = some on_air;
  reserves_spectrum = true;
}

abbrev pub actor_with : List ℕ → Actor
actor_with beam_ids = record {
  pk = 51;
  is_user = true;
  is_authenticated = true;
  is_superuser = false;
  is_admin = false;
  manages_scopes = false;
  has_perm = λ _. true;
  beam_ids = beam_ids;
  hub_ids = 30 ∷ [];
}

abbrev pub granted : Actor
granted = actor_with (20 ∷ [])

abbrev pub db_with : Status → List Reservation → Db
db_with status rows = record {
  paths = path_in status ∷ [];
  reservations = rows;
  decisions = [];
  audit = [];
}

pub neighbour_alone : IsExclusive (neighbour ∷ [])
unfolding checks_pass
neighbour_alone = record { checked = (refl, tt); apart = (tt, tt) }

abbrev pub call_on : Status → Move → Call
call_on status action = record {
  retains = false;
  actor = granted;
  path = path_in status;
  action = action;
  reason = [];
  expected_version = some 4;
  on_behalf = false;
}
