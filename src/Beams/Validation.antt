-- ===== src/Beams/Validation.antt =====
-- Is a Beam safe to activate (beams/validation.py). A finding's message and reference are display, and
-- what a check reads of the records that it follows comes with the configuration.
pub mod Meaning
pub mod Chains
pub mod Sound
pub mod Directions
pub mod Activation
use vsat_frequency_managemen.Calculations.Validation.{Severity, error, warning}
use vsat_frequency_managemen.Database.{Direction, Leg, leg_eq}
use vsat_frequency_managemen.Prelude.{
  Bool, List, Option, [], any, false, if◌then◌else◌, is_some, keep, none, not, some, true, ℕ, ◌&&◌,
  ◌++◌, ◌==◌, ◌||◌, ◌∷◌,
}
use vsat_frequency_managemen.Satnets.Containment.{same_direction}

-- `EquipmentProfile`, as an entry of the direction's pool.
pub record PoolEntry : Type 0 where
  pub band_id : ℕ
  pub is_active : Bool

-- `SpectrumResource`, as a link of the direction.
pub record ResourceLink : Type 0 where
  pub leg : Leg
  pub satellite_id : ℕ
  pub is_active : Bool

-- `BeamSpectrumAssignment`, as far as it is read here.
pub record WindowAssignment : Type 0 where
  pub frequency_window_id : ℕ
  pub is_active : Bool

-- `PayloadPath`, with the pairs of its `PayloadPolarizationMapping`.
pub record ChainPath : Type 0 where
  pub satellite_id : ℕ
  pub direction : Direction
  pub uplink_window_id : ℕ
  pub downlink_window_id : ℕ
  pub uplink_window_side : Leg
  pub downlink_window_side : Leg
  pub permitted : List (ℕ × ℕ)

-- `BeamDirectionConfig`; a blank field is `none`.
pub record ChainConfig : Type 0 where
  pub direction : Direction
  pub is_enabled : Bool
  pub payload_path : Option ChainPath
  pub uplink_window_id : Option ℕ
  pub downlink_window_id : Option ℕ
  pub canonical_leg : Option Leg
  pub uplink_polarization : Option ℕ
  pub downlink_polarization : Option ℕ
  pub equipment_profiles : List PoolEntry
  pub spectrum_resources : List ResourceLink
  pub spectrum_assignments : List WindowAssignment

pub record BeamRow : Type 0 where
  pub satellite_id : ℕ
  pub band_id : ℕ
  pub direction_configs : List ChainConfig

-- `LEG_HAS_NO_SPECTRUM_RESOURCE` is `unmapped_leg`.
pub data BeamCode : Type 0 where
  no_enabled_direction payload_path_wrong_satellite direction_disabled : BeamCode
  direction_incomplete uplink_window_not_path_window downlink_window_not_path_window : BeamCode
  payload_path_wrong_direction polarization_not_set no_polarization_mappings : BeamCode
  polarization_not_permitted canonical_leg_not_set canonical_leg_not_in_chain : BeamCode
  no_equipment_profiles equipment_wrong_band equipment_inactive : BeamCode
  unmapped_leg spectrum_resource_wrong_satellite spectrum_resource_deactivated : BeamCode
  window_has_no_active_assignment : BeamCode

pub record BeamFinding : Type 0 where
  pub code : BeamCode
  pub severity : Severity
  pub direction : Option Direction

-- `ConfigurationState`
pub data ConfigurationState : Type 0 where
  incomplete invalid valid : ConfigurationState

pub record Report : Type 0 where
  pub findings : List BeamFinding
  pub state : ConfigurationState

-- `ValidationOutcome`
pub data ValidationOutcome : Type 0 where
  passed passed_with_warnings failed : ValidationOutcome

-- `Finding.blocks`
abbrev pub is_blocking : BeamFinding → Bool
is_blocking f = by_severity f.severity
  where
    by_severity : Severity → Bool
    by_severity error = true
    by_severity warning = false

abbrev pub is_activatable : Report → Bool
is_activatable report = by_state report.state
  where
    by_state : ConfigurationState → Bool
    by_state valid = true
    by_state _ = false

unfoldable pub outcome : Report → ValidationOutcome
outcome report =
    if any is_blocking report.findings || not (is_activatable report)
    then failed
    else (if any (λ f. not (is_blocking f)) report.findings then passed_with_warnings else passed)

-- `[Finding(...)] if found else []`
abbrev pub report_if : Bool → BeamCode → Severity → Option Direction → List BeamFinding
report_if true code severity direction =
    record { code = code; severity = severity; direction = direction } ∷ []
report_if false code severity direction = []

abbrev pub wrong_satellite : BeamRow → Option ChainPath → Bool
wrong_satellite beam none = false
wrong_satellite beam (some path) = not (path.satellite_id == beam.satellite_id)

-- The loop of `_check_beam_shape`.
unfoldable pub check_satellites : BeamRow → List ChainConfig → List BeamFinding
check_satellites beam [] = []
check_satellites beam (config ∷ configs) =
    report_if (wrong_satellite beam config.payload_path) payload_path_wrong_satellite error
      (some config.direction)
    ++ check_satellites beam configs

-- `_check_beam_shape`
unfoldable pub check_beam_shape : BeamRow → List ChainConfig → List BeamFinding
unfolding check_satellites
check_beam_shape beam configs =
    report_if (not (any (λ c. c.is_enabled) configs)) no_enabled_direction error none
    ++ check_satellites beam configs
    ++ report_if (any (λ c. not c.is_enabled) configs) direction_disabled warning none

-- `_check_window_identity`
unfoldable pub check_window_identity :
    Direction → ChainPath → (uplink downlink : ℕ) → List BeamFinding
check_window_identity d path uplink downlink =
    report_if (not (uplink == path.uplink_window_id)) uplink_window_not_path_window error (some d)
    ++ report_if (not (downlink == path.downlink_window_id)) downlink_window_not_path_window error
        (some d)

-- `_check_direction_sides`
unfoldable pub check_direction_sides : Direction → ChainPath → List BeamFinding
check_direction_sides d path =
    report_if (not (same_direction path.direction d)) payload_path_wrong_direction error (some d)

abbrev pub is_pair : ℕ → ℕ → ℕ × ℕ → Bool
is_pair up down pair = pair.0 == up && pair.1 == down

-- `pair in permitted`, where anything is permitted.
unfoldable pub check_pair : Direction → List (ℕ × ℕ) → (up down : ℕ) → List BeamFinding
check_pair d [] up down = report_if true no_polarization_mappings warning (some d)
check_pair d (p ∷ permitted) up down =
    report_if (not (any (is_pair up down) (p ∷ permitted))) polarization_not_permitted error
      (some d)

-- `_check_polarizations`
unfoldable pub check_polarizations :
    Direction → List (ℕ × ℕ) → (up down : Option ℕ) → List BeamFinding
unfolding check_pair
check_polarizations d permitted (some up) (some down) = check_pair d permitted up down
check_polarizations d permitted _ _ = report_if true polarization_not_set error (some d)

-- `_check_canonical_leg`
unfoldable pub check_canonical_leg : Direction → ChainPath → Option Leg → List BeamFinding
check_canonical_leg d path none = report_if true canonical_leg_not_set error (some d)
check_canonical_leg d path (some leg) =
    report_if (not (leg_eq leg path.uplink_window_side || leg_eq leg path.downlink_window_side))
      canonical_leg_not_in_chain error (some d)

-- The loop of `_check_equipment`.
unfoldable pub check_pool : Direction → (band_id : ℕ) → List PoolEntry → List BeamFinding
check_pool d band_id [] = []
check_pool d band_id (profile ∷ profiles) =
    (if profile.band_id == band_id
      then report_if (not profile.is_active) equipment_inactive error (some d)
      else report_if true equipment_wrong_band error (some d))
    ++ check_pool d band_id profiles

-- `_check_equipment`
unfoldable pub check_equipment : Direction → (band_id : ℕ) → List PoolEntry → List BeamFinding
unfolding check_pool
check_equipment d band_id [] = report_if true no_equipment_profiles warning (some d)
check_equipment d band_id (profile ∷ profiles) = check_pool d band_id (profile ∷ profiles)

abbrev pub is_mapped : Leg → List ResourceLink → Bool
is_mapped leg links = any (λ link. leg_eq link.leg leg) links

-- The second loop of `_check_spectrum_resources`.
unfoldable pub check_links : Direction → (satellite_id : ℕ) → List ResourceLink → List BeamFinding
check_links d satellite_id [] = []
check_links d satellite_id (link ∷ links) =
    (if link.satellite_id == satellite_id
      then report_if (not link.is_active) spectrum_resource_deactivated error (some d)
      else report_if true spectrum_resource_wrong_satellite error (some d))
    ++ check_links d satellite_id links

-- `_check_spectrum_resources`
unfoldable pub check_spectrum_resources :
    Direction → ChainPath → (satellite_id : ℕ) → List ResourceLink → List BeamFinding
unfolding check_links
check_spectrum_resources d path satellite_id links =
    report_if (not (is_mapped path.uplink_window_side links)) unmapped_leg error (some d)
    ++ report_if (not (is_mapped path.downlink_window_side links)) unmapped_leg error (some d)
    ++ check_links d satellite_id links

abbrev pub has_assignment : ℕ → List WindowAssignment → Bool
has_assignment id assignments = any (λ a. a.is_active && a.frequency_window_id == id) assignments

-- `_check_spectrum_assignments`
unfoldable pub check_spectrum_assignments :
    Direction → List WindowAssignment → (uplink downlink : ℕ) → List BeamFinding
check_spectrum_assignments d assignments uplink downlink =
    report_if (not (has_assignment uplink assignments)) window_has_no_active_assignment error
      (some d)
    ++ report_if (not (has_assignment downlink assignments)) window_has_no_active_assignment error
        (some d)

-- The checks of a direction that `is_configured`: its path and its two windows are there.
unfoldable pub check_chain :
    BeamRow → ChainConfig → Option ChainPath → (uplink downlink : Option ℕ) → List BeamFinding
unfolding check_window_identity check_direction_sides check_polarizations check_canonical_leg
    check_equipment check_spectrum_resources check_spectrum_assignments
check_chain beam c (some path) (some uplink) (some downlink) =
    check_window_identity c.direction path uplink downlink
    ++ check_direction_sides c.direction path
    ++ check_polarizations c.direction path.permitted c.uplink_polarization c.downlink_polarization
    ++ check_canonical_leg c.direction path c.canonical_leg
    ++ check_equipment c.direction beam.band_id c.equipment_profiles
    ++ check_spectrum_resources c.direction path beam.satellite_id c.spectrum_resources
    ++ check_spectrum_assignments c.direction c.spectrum_assignments uplink downlink
check_chain beam c _ _ _ = report_if true direction_incomplete error (some c.direction)

-- `_check_direction`
unfoldable pub check_direction : BeamRow → ChainConfig → List BeamFinding
unfolding check_chain
check_direction beam c = check_chain beam c c.payload_path c.uplink_window_id c.downlink_window_id

-- `is_configured`
abbrev pub is_configured : ChainConfig → Bool
is_configured c =
    is_some c.payload_path && is_some c.uplink_window_id && is_some c.downlink_window_id

unfoldable pub check_directions : BeamRow → List ChainConfig → List BeamFinding
unfolding check_direction
check_directions beam [] = []
check_directions beam (c ∷ configs) = check_direction beam c ++ check_directions beam configs

-- `_state_for`
unfoldable pub state_for : (enabled : List ChainConfig) → List BeamFinding → ConfigurationState
state_for [] findings = incomplete
state_for (c ∷ enabled) findings =
    if any (λ c. not (is_configured c)) (c ∷ enabled)
    then incomplete
    else (if any is_blocking findings then invalid else valid)

unfoldable pub validate : BeamRow → Report
unfolding check_beam_shape check_directions state_for
validate beam =
    let enabled = keep (λ c. c.is_enabled) beam.direction_configs in
    let findings = check_beam_shape beam beam.direction_configs ++ check_directions beam enabled in
    record { findings = findings; state = state_for enabled findings }
