-- ===== src/Examples/Beams.antt =====
-- A Beam with a sound forward direction and a disabled return direction, and two that are not valid.
use vsat_frequency_managemen.Beams.Validation.{
  BeamRow, ChainConfig, ChainPath, check_beam_shape, check_canonical_leg, check_chain,
  check_direction, check_direction_sides, check_directions, check_equipment, check_links,
  check_pair, check_polarizations, check_pool, check_satellites, check_spectrum_assignments,
  check_spectrum_resources, check_window_identity, incomplete, is_activatable, outcome,
  passed_with_warnings, polarization_not_permitted, spectrum_resource_wrong_satellite, state_for,
  validate,
}
use vsat_frequency_managemen.Beams.Validation.Activation.{IsReady, validate_iff_IsReady}
use vsat_frequency_managemen.Database.{fwd, hub_uplink, remote_downlink, rtn}
use vsat_frequency_managemen.Prelude.{[], false, map, none, refl, some, true, ◌↔◌, ◌∷◌, ◌≡◌}

abbrev chain : ChainPath
chain = record {
  satellite_id = 1;
  direction = fwd;
  uplink_window_id = 10;
  downlink_window_id = 11;
  uplink_window_side = hub_uplink;
  downlink_window_side = remote_downlink;
  permitted = (1, 2) ∷ (2, 1) ∷ [];
}

abbrev forward : ChainConfig
forward = record {
  direction = fwd;
  is_enabled = true;
  payload_path = some chain;
  uplink_window_id = some 10;
  downlink_window_id = some 11;
  canonical_leg = some hub_uplink;
  uplink_polarization = some 2;
  downlink_polarization = some 1;
  equipment_profiles = record { band_id = 7; is_active = true } ∷ [];
  spectrum_resources =
      record { leg = remote_downlink; satellite_id = 1; is_active = true }
      ∷ record { leg = hub_uplink; satellite_id = 1; is_active = true }
      ∷ [];
  spectrum_assignments =
      record { frequency_window_id = 11; is_active = true }
      ∷ record { frequency_window_id = 10; is_active = true }
      ∷ [];
}

abbrev backward : ChainConfig
backward = record forward { direction = rtn; is_enabled = false; payload_path = none }

abbrev beam : BeamRow
beam = record { satellite_id = 1; band_id = 7; direction_configs = forward ∷ backward ∷ [] }

beam_runs : outcome (validate beam) ≡ passed_with_warnings
unfolding outcome validate check_beam_shape check_satellites check_directions check_direction
    check_chain check_window_identity check_direction_sides check_polarizations check_pair
    check_canonical_leg check_equipment check_pool check_spectrum_resources check_links
    check_spectrum_assignments state_for
beam_runs = refl

-- A link to another satellite's resource, and a polarization pair that the path does not list.
abbrev crossed : ChainConfig
crossed = record forward {
  uplink_polarization = some 1;
  downlink_polarization = some 1;
  spectrum_resources =
      record { leg = hub_uplink; satellite_id = 2; is_active = true }
      ∷ record { leg = remote_downlink; satellite_id = 1; is_active = true }
      ∷ [];
}

crossed_codes :
    map (λ f. f.code) (check_direction beam crossed)
    ≡ polarization_not_permitted ∷ spectrum_resource_wrong_satellite ∷ []
unfolding check_direction check_chain check_window_identity check_direction_sides
    check_polarizations check_pair check_canonical_leg check_equipment check_pool
    check_spectrum_resources check_links check_spectrum_assignments
crossed_codes = refl

-- A half-built direction is incomplete, whatever else is wrong.
half_built :
    (validate (record beam {
      direction_configs = crossed ∷ record forward { payload_path = none } ∷ [];
    })).state
    ≡ incomplete
unfolding validate state_for
half_built = refl

validate_iff_IsReady_example : (is_activatable (validate beam) ≡ true) ↔ IsReady beam
validate_iff_IsReady_example = validate_iff_IsReady beam
