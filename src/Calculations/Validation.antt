-- ===== src/Calculations/Validation.antt =====
-- The checks of a placement before it reaches the database (calculations/validation.py). A finding's
-- code is a constructor, with the prefixes that `_prefixed` puts before it; its message and its reference
-- are display.
-- `UPLINK_` and `DOWNLINK_`.
pub mod Verdicts
use vsat_frequency_managemen.Calculations.Bandwidth.{Placement, TwoSidedPlacement, widths_agree}
use vsat_frequency_managemen.Calculations.Conversion.{
  EquipmentProfileSpec, ProfileMatch, is_usable, profile_inverts,
}
use vsat_frequency_managemen.Calculations.Errors.{Error, assertion_error}
use vsat_frequency_managemen.Calculations.Placement.{guard_total_hz}
use vsat_frequency_managemen.Calculations.Ranges.{FrequencyRange, contains, width_hz}
use vsat_frequency_managemen.Calculations.Translation.{TranslationSpec, is_contradictory}
use vsat_frequency_managemen.Prelude.{
  Bool, List, Option, Result, [], err, false, if◌then◌else◌, keep, none, not, ok, some, true, ◌&&◌,
  ◌++◌, ◌||◌, ◌∷◌,
}
use vsat_frequency_managemen.Prelude.Int.{eqb_ℤ, ltb_ℤ, pos, ℤ, ◌-ℤ◌}

pub data Prefix : Type 0 where
  uplink_prefix downlink_prefix : Prefix

pub data Severity : Type 0 where
  error warning : Severity

pub data Code : Type 0 where
  occupied_outside_allocated occupied_range_too_narrow no_guard_applied : Code
  outside_window inside_edge_guard outside_band : Code
  sides_disagree inversion_without_reflection : Code
  no_equipment_match if_outside_band equipment_inverts : Code

pub record Finding : Type 0 where
  pub prefixes : List Prefix
  pub code : Code
  pub severity : Severity

-- `Finding(code=..., severity=...)`
abbrev pub finding : Code → Severity → Finding
finding code severity = record { prefixes = []; code = code; severity = severity }

abbrev pub blocks : Finding → Bool
blocks f = is_error f.severity
  where
    is_error : Severity → Bool
    is_error error = true
    is_error warning = false

-- `[Finding(...)] if found else []`
abbrev pub found_if : Bool → Finding → List Finding
found_if true f = f ∷ []
found_if false f = []

-- `_prefixed`
unfoldable pub prefixed : Prefix → List Finding → List Finding
prefixed prefix [] = []
prefixed prefix (f ∷ findings) =
    record f { prefixes = prefix ∷ f.prefixes } ∷ prefixed prefix findings

unfoldable pub blocking : List Finding → List Finding
blocking findings = keep blocks findings

unfoldable pub is_placeable : List Finding → Bool
unfolding blocking
is_placeable findings = is_empty (blocking findings)
  where
    is_empty : List Finding → Bool
    is_empty [] = true
    is_empty (f ∷ fs) = false

-- `_check_internal_consistency`
unfoldable pub check_internal_consistency : Placement → List Finding
unfolding width_hz guard_total_hz
check_internal_consistency p =
    found_if (not (contains p.allocated p.occupied)) (finding occupied_outside_allocated error)
    ++ found_if (ltb_ℤ (width_hz p.occupied) p.occupied_bandwidth)
        (finding occupied_range_too_narrow error)
    ++ found_if (eqb_ℤ (guard_total_hz p.guards) (pos 0)) (finding no_guard_applied warning)

-- The standoff from the edges of the window that contains the allocation.
unfoldable pub check_edge_guard : FrequencyRange → FrequencyRange → ℤ → List Finding
check_edge_guard allocated window_range min_edge_guard_hz =
    found_if
      (ltb_ℤ (pos 0) min_edge_guard_hz
        && (ltb_ℤ (allocated.start_hz -ℤ window_range.start_hz) min_edge_guard_hz
            || ltb_ℤ (window_range.end_hz -ℤ allocated.end_hz) min_edge_guard_hz))
      (finding inside_edge_guard warning)

-- `_check_window_containment`
unfoldable pub check_window_containment : Placement → FrequencyRange → ℤ → List Finding
unfolding check_edge_guard
check_window_containment p window_range min_edge_guard_hz =
    if contains window_range p.allocated
    then check_edge_guard p.allocated window_range min_edge_guard_hz
    else finding outside_window error ∷ []

-- `_check_band_advisory`
unfoldable pub check_band_advisory : Placement → FrequencyRange → List Finding
check_band_advisory p band =
    found_if (not (contains band p.allocated)) (finding outside_band warning)

-- `if window_range is not None: findings += ...`
abbrev pub with_range : Option FrequencyRange → (FrequencyRange → List Finding) → List Finding
with_range none check = []
with_range (some r) check = check r

unfoldable pub check_placement :
    Placement
    → (window_range : Option FrequencyRange) (min_edge_guard_hz : ℤ) (band : Option FrequencyRange)
    → List Finding
unfolding check_internal_consistency check_window_containment check_band_advisory
check_placement p window_range min_edge_guard_hz band =
    check_internal_consistency p
    ++ with_range window_range (λ w. check_window_containment p w min_edge_guard_hz)
    ++ with_range band (λ b. check_band_advisory p b)

unfoldable pub check_two_sided :
    TwoSidedPlacement
    → (uplink_window downlink_window : Option FrequencyRange)
    → (uplink_edge_guard_hz downlink_edge_guard_hz : ℤ) → List Finding
unfolding check_placement prefixed widths_agree
check_two_sided p uplink_window downlink_window uplink_edge_guard_hz downlink_edge_guard_hz =
    prefixed uplink_prefix (check_placement p.uplink uplink_window uplink_edge_guard_hz none)
    ++ prefixed downlink_prefix
        (check_placement p.downlink downlink_window downlink_edge_guard_hz none)
    ++ found_if (not (widths_agree p)) (finding sides_disagree error)

unfoldable pub check_translation : TranslationSpec → List Finding
check_translation spec =
    found_if (is_contradictory spec) (finding inversion_without_reflection error)

-- The two flags of an intermediate frequency that the profile can carry.
unfoldable pub flag_intermediate :
    Option FrequencyRange → FrequencyRange → EquipmentProfileSpec → List Finding
flag_intermediate band intermediate profile =
    with_range band
      (λ b. found_if (not (contains b intermediate)) (finding if_outside_band warning))
    ++ found_if (profile_inverts profile) (finding equipment_inverts warning)

-- `assert match.intermediate is not None`
abbrev pub flag_or_fail :
    Option FrequencyRange
    → Option FrequencyRange
    → EquipmentProfileSpec
    → Result Error (List Finding)
flag_or_fail band none profile = err assertion_error
flag_or_fail band (some intermediate) profile = ok (flag_intermediate band intermediate profile)

unfoldable pub check_conversion :
    ProfileMatch → (band : Option FrequencyRange) → Result Error (List Finding)
unfolding flag_intermediate
check_conversion m band =
    if is_usable m
    then flag_or_fail band m.intermediate m.profile
    else ok (finding no_equipment_match error ∷ [])
