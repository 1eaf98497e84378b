-- ===== src/Examples/Proposals.antt =====
-- Concrete runs of the containment check and of a preview: a carrier of 80 Hz right below a neighbour.
use vsat_frequency_managemen.Beams.{BeamAssignment, DirectionConfig, FrequencyWindow}
use vsat_frequency_managemen.Calculations.Bandwidth.{
  Placement, bandwidth_request, check_rolloff, image_of, place, place_both_sides, resolve_request,
  resolve_values, symbol_rate_sps,
}
use vsat_frequency_managemen.Calculations.Decimals.{
  count_digits, decimal, digit_count, excess_digits, floor_hz, half_even, inexact_quotient,
  long_quotient, one_plus, round_to,
}
use vsat_frequency_managemen.Calculations.Guards.{
  check_policy, fixed, resolve, resolve_policy, width_by,
}
use vsat_frequency_managemen.Calculations.Periods.{TimePeriod, intersect, time_period}
use vsat_frequency_managemen.Calculations.Placement.{
  allocated_range, half_width_hz, occupied_range, satnet,
}
use vsat_frequency_managemen.Calculations.Ranges.{expanded, frequency_range, shift, width_hz}
use vsat_frequency_managemen.Calculations.Translation.{offset_add, translate, translation_spec}
use vsat_frequency_managemen.Database.{Leg, fwd, hub_uplink, remote_downlink}
use vsat_frequency_managemen.Examples.Data.{grant, neighbour}
use vsat_frequency_managemen.Paths.Preview.{
  PathValues, Proposal, SatnetRow, assignment_for, checked_spec, config_for, guard_spec,
  occupied_bw, request_of, sides_for, translation_of,
}
use vsat_frequency_managemen.Paths.Proposals.{
  check_conflicts, check_containment, check_resources, conflict_findings, conflict_with,
  conflicts_with, containment_findings, entitlement_findings, judge_sides, preview, propose,
  size_up,
}
use vsat_frequency_managemen.Paths.Proposals.Clear.{IsJudged, preview-IsJudged}
use vsat_frequency_managemen.Prelude.{
  [], false, maximum, minimum, none, ok, refl, some, true, ℕ, ◌+◌, ◌∷◌, ◌≡◌,
}
use vsat_frequency_managemen.Prelude.Int.{half, negate, pos, ◌+ℤ◌, ◌-ℤ◌}
use vsat_frequency_managemen.Prelude.Sort.{insert, sorted}
use vsat_frequency_managemen.Satnets.Containment.{
  Beam, Satnet, SpectrumAssignment, Verdict, by_beam, check_assignment_belongs,
  evaluate_containment, first_breached, judge_period, limiting_parent, period_not_contained,
}
use vsat_frequency_managemen.Satnets.Containment.Decided.{IsVerdict, evaluate_containment-IsVerdict}
use vsat_frequency_managemen.Spectrum.Selectors.{active_assignments, reservations_on, resources_for}

abbrev open_period : ℕ → TimePeriod
open_period start = record { start = start; end = none }

abbrev beam_20 : Beam
beam_20 = record { pk = 20; validity = record { start = 0; end = some 100 } }

abbrev pub network : Satnet
network = record { beam_id = 20; validity = open_period 0 }

abbrev belonging : SpectrumAssignment
belonging = record {
  config_beam_id = 20;
  config_direction = fwd;
  config_payload_path_id = 3;
  payload_path_id = 3;
  window_polarization = 0;
  validity = open_period 5;
}

-- Asked for beyond the end of the Beam.
contained_run :
    evaluate_containment network beam_20 belonging
      (record { start = 6; end = some 120 })
      fwd
      (some 0)
      true
    ≡ ok (record {
      permitted = some (record { start = 5; end = some 100 });
      findings = record { code = period_not_contained; limiter = some by_beam } ∷ [];
      limiter = some by_beam;
    })
unfolding evaluate_containment check_assignment_belongs judge_period limiting_parent first_breached
    intersect time_period maximum minimum
contained_run = refl

evaluate_containment-IsVerdict_example :
    (v : Verdict) × (evaluate_containment network beam_20 belonging
        (record { start = 6; end = some 120 })
        fwd
        (some 0)
        true
      ≡ ok v)
    × IsVerdict network beam_20 belonging (record { start = 6; end = some 120 }) fwd (some 0) v
evaluate_containment-IsVerdict_example =
    evaluate_containment-IsVerdict network beam_20 belonging (record { start = 6; end = some 120 })
      fwd (some 0) true refl

abbrev pub window_of : ℕ → Leg → FrequencyWindow
window_of pk side = record { pk = pk; side = side; polarization = 0 }

abbrev granted_on : FrequencyWindow → ℕ → ℕ → BeamAssignment
granted_on w a b = record {
  stored = record grant { rf_start_hz = pos a; rf_end_hz = pos b };
  frequency_window = w;
  payload_path_id = 3;
}

abbrev pub uplink_grant : BeamAssignment
uplink_grant = granted_on (window_of 1 hub_uplink) 0 1000

abbrev pub downlink_grant : BeamAssignment
downlink_grant = granted_on (window_of 2 remote_downlink) 1000 2000

abbrev chain : DirectionConfig
chain = record {
  beam_id = 20;
  direction = fwd;
  payload_path_id = 3;
  payload_path = some (record {
    uplink_window_side = hub_uplink;
    downlink_window_side = remote_downlink;
    translation_method = offset_add;
    translation_constant_hz = pos 1000;
    spectral_inversion = false;
  });
  uplink_window = some (window_of 1 hub_uplink);
  downlink_window = some (window_of 2 remote_downlink);
  canonical_leg = some hub_uplink;
  spectral_inversion_override = none;
  spectrum_resources = (80, hub_uplink) ∷ (81, remote_downlink) ∷ [];
  spectrum_assignments = downlink_grant ∷ uplink_grant ∷ [];
}

abbrev pub carrier_network : SatnetRow
carrier_network = record {
  satnet_id = 60;
  network = network;
  beam = beam_20;
  hub_id = 30;
  default_guard_policy = some (record {
    mode = fixed;
    fixed_left_hz = some (pos 10);
    fixed_right_hz = some (pos 10);
    percent_left = none;
    percent_right = none;
  });
  direction_configs = chain ∷ [];
}

abbrev pub values_at : ℕ → PathValues
values_at centre = record {
  code = 66 ∷ [];
  direction = fwd;
  input_mode = occupied_bw;
  input_value = pos 80;
  rolloff = record { negative = false; digits = 25; places = 2 };
  canonical_centre_hz = pos centre;
  valid_from = 10;
  valid_until = some 50;
  guard_policy = none;
}

abbrev pub side_at : ℕ → Placement
side_at start = record {
  symbol_rate = pos 64;
  rolloff = record { negative = false; digits = 25; places = 2 };
  occupied_bandwidth = pos 80;
  occupied = record { start_hz = pos (start + 10); end_hz = pos (start + 90) };
  allocated = record { start_hz = pos start; end_hz = pos (start + 100) };
  guards = record { left_hz = pos 10; right_hz = pos 10; source = satnet };
}

abbrev pub carrier_proposal : Proposal
carrier_proposal = record {
  placement = record {
    uplink = side_at 100;
    downlink = side_at 1100;
    entered_uplink = true;
    inverted = false;
  };
  config = chain;
  canonical_assignment = some uplink_grant;
  translated_assignment = some downlink_grant;
  guard_widths = record { left_hz = pos 10; right_hz = pos 10; source = satnet };
  symbol_rate = pos 64;
  occupied_bandwidth = pos 80;
  findings = [];
}

pub preview_run :
    preview (neighbour ∷ []) 20 carrier_network (values_at 150) none ≡ ok carrier_proposal
unfolding preview config_for size_up request_of bandwidth_request resolve_request resolve_values
    symbol_rate_sps check_rolloff inexact_quotient long_quotient round_to excess_digits half_even
    digit_count count_digits one_plus floor_hz decimal guard_spec checked_spec check_policy resolve
    resolve_policy width_by translation_of translation_spec place_both_sides place occupied_range
    half_width_hz negate half ◌-ℤ◌ ◌+ℤ◌ allocated_range expanded frequency_range width_hz image_of
    translate shift sides_for propose assignment_for active_assignments sorted insert judge_sides
    time_period check_containment evaluate_containment check_assignment_belongs intersect maximum
    minimum judge_period containment_findings check_conflicts resources_for check_resources
    entitlement_findings conflicts_with conflict_with reservations_on conflict_findings
preview_run = refl

preview-IsJudged_example :
    IsJudged (neighbour ∷ []) 20 carrier_network (values_at 150) none carrier_proposal
preview-IsJudged_example =
    preview-IsJudged (neighbour ∷ []) 20 carrier_network (values_at 150) none carrier_proposal
      preview_run
