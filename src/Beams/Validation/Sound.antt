-- ===== src/Beams/Validation/Sound.antt =====
-- When a configured direction blocks nothing (beams/validation.py, `_check_direction`).
use vsat_frequency_managemen.Beams.Validation.{
  BeamRow, ChainConfig, ChainPath, ResourceLink, WindowAssignment, check_canonical_leg, check_chain,
  check_direction_sides, check_equipment, check_links, check_polarizations,
  check_spectrum_assignments, check_spectrum_resources, check_window_identity,
  downlink_window_not_path_window, has_assignment, is_mapped, payload_path_wrong_direction,
  report_if, unmapped_leg, uplink_window_not_path_window, window_has_no_active_assignment,
}
use vsat_frequency_managemen.Beams.Validation.Chains.{
  ArePolarized, IsAssigned, IsCarried, IsOnChain, IsOpen, IsOpen-append, IsOpen-check_canonical_leg,
  IsOpen-check_equipment, IsOpen-check_links, IsOpen-check_polarizations, IsOpen-error,
  IsOpen-seven, IsOpen-three, IsUsable,
}
use vsat_frequency_managemen.Beams.Validation.Meaning.{
  has_assignment-AtLeastOne, is_mapped-AtLeastOne, own_direction_iff,
}
use vsat_frequency_managemen.Calculations.Validation.{error}
use vsat_frequency_managemen.Database.{Direction}
use vsat_frequency_managemen.Prelude.{All, List, not, some, ℕ, ◌==◌, ◌↔◌, ◌≡◌}
use vsat_frequency_managemen.Prelude.Found.{AtLeastOne, equal_iff}
use vsat_frequency_managemen.Satnets.Containment.{same_direction}

-- What a configured direction owes to be part of a valid Beam.
pub record IsSoundChain (beam : BeamRow) (c : ChainConfig) (path : ChainPath) (uplink downlink : ℕ)
    : Type 0 where
  pub own_uplink : uplink ≡ path.uplink_window_id
  pub own_downlink : downlink ≡ path.downlink_window_id
  pub own_direction : path.direction ≡ c.direction
  pub polarized : ArePolarized path.permitted c.uplink_polarization c.downlink_polarization
  pub canonical : IsOnChain path c.canonical_leg
  pub usable : All (IsUsable beam.band_id) c.equipment_profiles
  pub mapped_uplink : AtLeastOne (λ link. link.leg ≡ path.uplink_window_side) c.spectrum_resources
  pub mapped_downlink :
      AtLeastOne (λ link. link.leg ≡ path.downlink_window_side) c.spectrum_resources
  pub carried : All (IsCarried beam.satellite_id) c.spectrum_resources
  pub assigned_uplink : AtLeastOne (IsAssigned uplink) c.spectrum_assignments
  pub assigned_downlink : AtLeastOne (IsAssigned downlink) c.spectrum_assignments

IsOpen-check_window_identity :
    (d : Direction) (path : ChainPath) (uplink downlink : ℕ)
    → IsOpen (check_window_identity d path uplink downlink)
      ↔ ((uplink ≡ path.uplink_window_id) × (downlink ≡ path.downlink_window_id))
unfolding check_window_identity
IsOpen-check_window_identity d path uplink downlink =
    let both =
      IsOpen-append
        (report_if (not (uplink == path.uplink_window_id)) uplink_window_not_path_window error
          (some d))
        (report_if (not (downlink == path.downlink_window_id)) downlink_window_not_path_window error
          (some d)) in
    let up =
      IsOpen-error (uplink == path.uplink_window_id) uplink_window_not_path_window (some d) in
    let down =
      IsOpen-error (downlink == path.downlink_window_id) downlink_window_not_path_window (some d) in
    let up_eq = equal_iff uplink path.uplink_window_id in
    let down_eq = equal_iff downlink path.downlink_window_id in
    (
      λ h. let parts = both.0 h in (up_eq.0 (up.0 parts.0), down_eq.0 (down.0 parts.1)),
      λ h. both.1 (up.1 (up_eq.1 h.0), down.1 (down_eq.1 h.1)),
    )

IsOpen-check_direction_sides :
    (d : Direction) (path : ChainPath)
    → IsOpen (check_direction_sides d path) ↔ (path.direction ≡ d)
unfolding check_direction_sides
IsOpen-check_direction_sides d path =
    let checked =
      IsOpen-error (same_direction path.direction d) payload_path_wrong_direction (some d) in
    let meant = own_direction_iff path.direction d in
    (λ h. meant.0 (checked.0 h), λ h. checked.1 (meant.1 h))

IsOpen-check_spectrum_resources :
    (d : Direction) (path : ChainPath) (satellite_id : ℕ) (links : List ResourceLink)
    → IsOpen (check_spectrum_resources d path satellite_id links) ↔ (
        AtLeastOne (λ link. link.leg ≡ path.uplink_window_side) links
        × AtLeastOne (λ link. link.leg ≡ path.downlink_window_side) links
        × All (IsCarried satellite_id) links)
unfolding check_spectrum_resources
IsOpen-check_spectrum_resources d path satellite_id links =
    let mapped_up = is_mapped path.uplink_window_side links in
    let mapped_down = is_mapped path.downlink_window_side links in
    let all =
      IsOpen-three (report_if (not mapped_up) unmapped_leg error (some d))
        (report_if (not mapped_down) unmapped_leg error (some d))
        (check_links d satellite_id links) in
    let on_up = IsOpen-error mapped_up unmapped_leg (some d) in
    let on_down = IsOpen-error mapped_down unmapped_leg (some d) in
    let meant_up = is_mapped-AtLeastOne path.uplink_window_side links in
    let meant_down = is_mapped-AtLeastOne path.downlink_window_side links in
    let carried = IsOpen-check_links d satellite_id links in
    (
      λ h.
          let parts = all.0 h in
          (meant_up.0 (on_up.0 parts.0), meant_down.0 (on_down.0 parts.1), carried.0 parts.2),
      λ h. all.1 (on_up.1 (meant_up.1 h.0), on_down.1 (meant_down.1 h.1), carried.1 h.2),
    )

IsOpen-check_spectrum_assignments :
    (d : Direction) (assignments : List WindowAssignment) (uplink downlink : ℕ)
    → IsOpen (check_spectrum_assignments d assignments uplink downlink)
      ↔ (AtLeastOne (IsAssigned uplink) assignments × AtLeastOne (IsAssigned downlink) assignments)
unfolding check_spectrum_assignments
IsOpen-check_spectrum_assignments d assignments uplink downlink =
    let has_up = has_assignment uplink assignments in
    let has_down = has_assignment downlink assignments in
    let both =
      IsOpen-append (report_if (not has_up) window_has_no_active_assignment error (some d))
        (report_if (not has_down) window_has_no_active_assignment error (some d)) in
    let up = IsOpen-error has_up window_has_no_active_assignment (some d) in
    let down = IsOpen-error has_down window_has_no_active_assignment (some d) in
    let meant_up = has_assignment-AtLeastOne uplink assignments in
    let meant_down = has_assignment-AtLeastOne downlink assignments in
    (
      λ h. let parts = both.0 h in (meant_up.0 (up.0 parts.0), meant_down.0 (down.0 parts.1)),
      λ h. both.1 (up.1 (meant_up.1 h.0), down.1 (meant_down.1 h.1)),
    )

-- The checks of a configured direction block nothing exactly when its chain is sound.
pub IsOpen-check_chain :
    (beam : BeamRow) (c : ChainConfig) (path : ChainPath) (uplink downlink : ℕ)
    → IsOpen (check_chain beam c (some path) (some uplink) (some downlink))
      ↔ IsSoundChain beam c path uplink downlink
unfolding check_chain
IsOpen-check_chain beam c path uplink downlink =
    let d = c.direction in
    let windows = IsOpen-check_window_identity d path uplink downlink in
    let sides = IsOpen-check_direction_sides d path in
    let polarized =
      IsOpen-check_polarizations d path.permitted c.uplink_polarization c.downlink_polarization in
    let canonical = IsOpen-check_canonical_leg d path c.canonical_leg in
    let usable = IsOpen-check_equipment d beam.band_id c.equipment_profiles in
    let resources = IsOpen-check_spectrum_resources d path beam.satellite_id c.spectrum_resources in
    let assigned = IsOpen-check_spectrum_assignments d c.spectrum_assignments uplink downlink in
    let all =
      IsOpen-seven (check_window_identity d path uplink downlink) (check_direction_sides d path)
        (check_polarizations d path.permitted c.uplink_polarization c.downlink_polarization)
        (check_canonical_leg d path c.canonical_leg)
        (check_equipment d beam.band_id c.equipment_profiles)
        (check_spectrum_resources d path beam.satellite_id c.spectrum_resources)
        (check_spectrum_assignments d c.spectrum_assignments uplink downlink) in
    (
      λ h.
          let parts = all.0 h in
          let on_windows = windows.0 parts.0 in
          let on_resources = resources.0 parts.5 in
          let on_assignments = assigned.0 parts.6 in
          record {
            own_uplink = on_windows.0;
            own_downlink = on_windows.1;
            own_direction = sides.0 parts.1;
            polarized = polarized.0 parts.2;
            canonical = canonical.0 parts.3;
            usable = usable.0 parts.4;
            mapped_uplink = on_resources.0;
            mapped_downlink = on_resources.1;
            carried = on_resources.2;
            assigned_uplink = on_assignments.0;
            assigned_downlink = on_assignments.1;
          },
      λ s. all.1 (
        windows.1 (s.own_uplink, s.own_downlink),
        sides.1 s.own_direction,
        polarized.1 s.polarized,
        canonical.1 s.canonical,
        usable.1 s.usable,
        resources.1 (s.mapped_uplink, s.mapped_downlink, s.carried),
        assigned.1 (s.assigned_uplink, s.assigned_downlink),
      ),
    )
