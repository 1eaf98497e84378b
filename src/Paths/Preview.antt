-- ===== src/Paths/Preview.antt =====
-- An allocation computed and checked, without saving it (satnet_paths/services.py: what
-- `preview` and `auto_place` read and compute). `now` is what `timezone.now()` answers, and `rows` the table of
-- reservations. The messages and codes of a finding are display.
use vsat_frequency_managemen.Beams.{
  BeamAssignment, DirectionConfig, FrequencyWindow, PayloadPath, config_inverts,
}
use vsat_frequency_managemen.Calculations.Bandwidth.{
  BandwidthRequest, Placement, TwoSidedPlacement, bandwidth_request,
}
use vsat_frequency_managemen.Calculations.Decimals.{Decimal}
use vsat_frequency_managemen.Calculations.Errors.{Error, assertion_error, does_not_exist}
use vsat_frequency_managemen.Calculations.Guards.{GuardMode, GuardPolicySpec, check_policy}
use vsat_frequency_managemen.Calculations.Placement.{GuardSource, GuardWidths, override, satnet}
use vsat_frequency_managemen.Calculations.Ranges.{FrequencyRange}
use vsat_frequency_managemen.Calculations.Translation.{TranslationSpec, translation_spec}
use vsat_frequency_managemen.Database.{Direction, Leg, leg_eq}
use vsat_frequency_managemen.Prelude.{
  Bool, List, Option, Result, [], err, false, first, if◌then◌else◌, none, ok, some, true, ℕ, ◌>>◌,
  ◌∷◌,
}
use vsat_frequency_managemen.Prelude.Int.{ℤ}
use vsat_frequency_managemen.Satnets.Containment.{Beam, ContainmentCode, Satnet, same_direction}
use vsat_frequency_managemen.Spectrum.Selectors.{active_assignments}

-- `InputMode`
pub data InputMode : Type 0 where
  occupied_bw symbol_rate_mode : InputMode

-- `inventory.GuardPolicy`
pub record GuardPolicy : Type 0 where
  pub mode : GuardMode
  pub fixed_left_hz : Option ℤ
  pub fixed_right_hz : Option ℤ
  pub percent_left : Option Decimal
  pub percent_right : Option Decimal

-- A Satnet, with its Beam and that Beam's directions.
pub record SatnetRow : Type 0 where
  pub satnet_id : ℕ
  pub network : Satnet
  pub beam : Beam
  pub hub_id : ℕ
  pub default_guard_policy : Option GuardPolicy
  pub direction_configs : List DirectionConfig

-- The `values` of an allocation.
pub record PathValues : Type 0 where
  pub code : List ℕ
  pub direction : Direction
  pub input_mode : InputMode
  pub input_value : ℤ
  pub rolloff : Decimal
  pub canonical_centre_hz : ℤ
  pub valid_from : ℕ
  pub valid_until : Option ℕ
  pub guard_policy : Option GuardPolicy

pub record Conflict : Type 0 where
  pub resource_id : ℕ
  pub leg : Leg
  pub conflicting_path : Option ℕ
  pub conflicting_range : FrequencyRange
  pub overlap_hz : ℤ
  pub overlap_start : ℕ
  pub overlap_until : Option ℕ

-- `Finding`: one constructor for each code.
pub data PathFinding : Type 0 where
  path_out_of_scope no_active_assignment leg_has_no_spectrum_resource : PathFinding
  not_contained : ContainmentCode → PathFinding
  allocation_outside_entitlement : FrequencyRange → (suggested : List FrequencyRange) → PathFinding
  allocation_conflict :
      FrequencyRange → List Conflict → (suggested : List FrequencyRange) → PathFinding

-- `_Side`
pub record PathSide : Type 0 where
  pub leg : Leg
  pub frequency_window : Option FrequencyWindow
  pub placement : Placement

pub record Proposal : Type 0 where
  pub placement : TwoSidedPlacement
  pub config : DirectionConfig
  pub canonical_assignment : Option BeamAssignment
  pub translated_assignment : Option BeamAssignment
  pub guard_widths : GuardWidths
  pub symbol_rate : ℤ
  pub occupied_bandwidth : ℤ
  pub findings : List PathFinding

abbrev pub has_findings : List PathFinding → Bool
has_findings [] = false
has_findings (f ∷ fs) = true

-- `direction_configs.get(direction=direction)`; the table is unique in the direction.
abbrev pub or_missing : Option DirectionConfig → Result Error DirectionConfig
or_missing none = err does_not_exist
or_missing (some config) = ok config

unfoldable pub config_for : SatnetRow → Direction → Result Error DirectionConfig
config_for row direction =
    or_missing (first (λ c. same_direction c.direction direction) row.direction_configs)

abbrev pub as_symbol_rate : InputMode → ℤ → Option ℤ
as_symbol_rate symbol_rate_mode value = some value
as_symbol_rate occupied_bw value = none

abbrev pub as_occupied_bandwidth : InputMode → ℤ → Option ℤ
as_occupied_bandwidth symbol_rate_mode value = none
as_occupied_bandwidth occupied_bw value = some value

-- `BandwidthRequest(...)` of the operator's input.
unfoldable pub request_of : PathValues → Result Error BandwidthRequest
unfolding bandwidth_request
request_of values =
    bandwidth_request values.rolloff (as_symbol_rate values.input_mode values.input_value)
      (as_occupied_bandwidth values.input_mode values.input_value)

-- `GuardPolicySpec(...)`
abbrev pub spec_of : GuardPolicy → GuardSource → GuardPolicySpec
spec_of p source = record {
  mode = p.mode;
  source = source;
  fixed_left_hz = p.fixed_left_hz;
  fixed_right_hz = p.fixed_right_hz;
  percent_left = p.percent_left;
  percent_right = p.percent_right;
}

unfoldable pub checked_spec : GuardPolicySpec → Result Error (Option GuardPolicySpec)
unfolding check_policy
checked_spec spec = do check_policy spec; ok (some spec)

-- `_guard_spec`
unfoldable pub guard_spec :
    Option GuardPolicy → Option GuardPolicy → Result Error (Option GuardPolicySpec)
unfolding checked_spec
guard_spec (some p) default = checked_spec (spec_of p override)
guard_spec none none = ok none
guard_spec none (some p) = checked_spec (spec_of p satnet)

-- `_translation_of`, with the assertion that there is a payload path.
unfoldable pub translation_of : DirectionConfig → Option PayloadPath → Result Error TranslationSpec
unfolding translation_spec
translation_of config none = err assertion_error
translation_of config (some path) =
    translation_spec path.translation_method path.translation_constant_hz (config_inverts config)

-- `config.canonical_leg == leg`
abbrev pub is_leg : Option Leg → Leg → Bool
is_leg none leg = false
is_leg (some canonical) leg = leg_eq canonical leg

-- `_sides_for`
unfoldable pub sides_for :
    DirectionConfig → Option PayloadPath → TwoSidedPlacement → Result Error (PathSide × PathSide)
sides_for config none placement = err assertion_error
sides_for config (some path) placement =
    let uplink : PathSide = record {
      leg = path.uplink_window_side;
      frequency_window = config.uplink_window;
      placement = placement.uplink;
    } in
    let downlink : PathSide = record {
      leg = path.downlink_window_side;
      frequency_window = config.downlink_window;
      placement = placement.downlink;
    } in
    ok (if is_leg config.canonical_leg uplink.leg then (uplink, downlink) else (downlink, uplink))

abbrev pub first_of : List BeamAssignment → Option BeamAssignment
first_of [] = none
first_of (a ∷ assignments) = some a

-- `_assignment_for`
unfoldable pub assignment_for :
    DirectionConfig → (now : ℕ) → Option FrequencyWindow → Option BeamAssignment
unfolding active_assignments
assignment_for config now none = none
assignment_for config now (some w) = first_of (active_assignments config now (some w.pk))
