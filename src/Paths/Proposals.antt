-- ===== src/Paths/Proposals.antt =====
-- `preview` and `auto_place` with their checks (satnet_paths/services.py).
pub mod Conflicts
pub mod Clear
use vsat_frequency_managemen.Beams.{
  BeamAssignment, DirectionConfig, FrequencyWindow, PayloadPath, assignment_validity,
}
use vsat_frequency_managemen.Calculations.Bandwidth.{
  BandwidthRequest, TwoSidedPlacement, place_both_sides, resolve_request,
}
use vsat_frequency_managemen.Calculations.Errors.{Error, assertion_error, attribute_error}
use vsat_frequency_managemen.Calculations.Gaps.{Gap, fits}
use vsat_frequency_managemen.Calculations.Guards.{resolve}
use vsat_frequency_managemen.Calculations.Periods.{TimePeriod, period_overlaps, time_period}
use vsat_frequency_managemen.Calculations.Placement.{GuardWidths}
use vsat_frequency_managemen.Calculations.Ranges.{
  FrequencyRange, centre_hz, contains, frequency_range, overlaps,
}
use vsat_frequency_managemen.Database.{Leg, Reservation}
use vsat_frequency_managemen.Database.Action.{◌>>◌}
use vsat_frequency_managemen.Paths.Preview.{
  Conflict, PathFinding, PathSide, PathValues, Proposal, SatnetRow, allocation_conflict,
  allocation_outside_entitlement, assignment_for, config_for, guard_spec,
  leg_has_no_spectrum_resource, no_active_assignment, not_contained, request_of, sides_for,
  translation_of,
}
use vsat_frequency_managemen.Prelude.{
  Bool, List, Option, Result, [], err, false, first, if◌then◌else◌, ltb, none, ok, some, suc, true,
  zero, ℕ, ◌++◌, ◌>>=◌, ◌∷◌,
}
use vsat_frequency_managemen.Prelude.Int.{half, max_ℤ, min_ℤ, ℤ, ◌+ℤ◌, ◌-ℤ◌}
use vsat_frequency_managemen.Satnets.Containment.{
  ContainmentFinding, SpectrumAssignment, evaluate_containment,
}
use vsat_frequency_managemen.Spectrum.Selectors.{capacity, reservations_on, resources_for}

-- `_check_containment`, with the columns that the containment check reads.
abbrev pub spectrum_assignment : DirectionConfig → BeamAssignment → SpectrumAssignment
spectrum_assignment config a = record {
  config_beam_id = config.beam_id;
  config_direction = config.direction;
  config_payload_path_id = config.payload_path_id;
  payload_path_id = a.payload_path_id;
  window_polarization = a.frequency_window.polarization;
  validity = assignment_validity a;
}

unfoldable pub containment_findings : List ContainmentFinding → List PathFinding
containment_findings [] = []
containment_findings (f ∷ fs) = not_contained f.code ∷ containment_findings fs

unfoldable pub check_containment :
    SatnetRow
    → DirectionConfig
    → BeamAssignment
    → TimePeriod
    → (polarization : ℕ) → Result Error (List PathFinding)
unfolding evaluate_containment containment_findings
check_containment s config assignment requested polarization = do
  verdict ←
      evaluate_containment s.network s.beam (spectrum_assignment config assignment) requested
        config.direction (some polarization) true
  ok (containment_findings verdict.findings)

-- `_earliest`
abbrev pub earliest_of : Option ℕ → Option ℕ → Option ℕ
earliest_of none right = right
earliest_of (some l) none = some l
earliest_of (some l) (some r) = some (if ltb r l then r else l)

-- One turn of the loop over the reservations.
unfoldable pub conflict_with :
    FrequencyRange → TimePeriod → Reservation → Result Error (List Conflict)
unfolding frequency_range time_period
conflict_with proposed requested row = do
  held ← frequency_range row.allocated_start_hz row.allocated_end_hz
  if overlaps proposed held
      then (do
        period ← time_period row.valid_from row.valid_until
        ok (
            if period_overlaps requested period
            then record {
              resource_id = row.spectrum_resource_id;
              leg = row.leg;
              conflicting_path = row.satnet_path_id;
              conflicting_range = held;
              overlap_hz =
                  min_ℤ proposed.end_hz held.end_hz -ℤ max_ℤ proposed.start_hz held.start_hz;
              overlap_start =
                  if ltb requested.start row.valid_from then row.valid_from else requested.start;
              overlap_until = earliest_of requested.end row.valid_until;
            }
              ∷ []
            else []))
      else ok []

unfoldable pub conflicts_with :
    FrequencyRange → TimePeriod → List Reservation → Result Error (List Conflict)
unfolding conflict_with
conflicts_with proposed requested [] = ok []
conflicts_with proposed requested (row ∷ rows) = do
  here ← conflict_with proposed requested row
  rest ← conflicts_with proposed requested rows
  ok (here ++ rest)

abbrev pub take_five : List Gap → List FrequencyRange
take_five gaps = take_ranges 5 gaps
  where
    take_ranges : ℕ → List Gap → List FrequencyRange
    take_ranges zero gaps = []
    take_ranges (suc n) [] = []
    take_ranges (suc n) (g ∷ gaps) = g.range ∷ take_ranges n gaps

-- `_gaps_for`
unfoldable pub gaps_for :
    List Reservation → DirectionConfig → Leg → (now : ℕ) → Result Error (List FrequencyRange)
unfolding capacity
gaps_for rows config leg now = do
  summary ← capacity rows config leg now none
  ok (take_five summary.gaps)

-- `if not entitlement.contains(proposed)`
unfoldable pub entitlement_findings :
    Bool → FrequencyRange → Result Error (List FrequencyRange) → Result Error (List PathFinding)
entitlement_findings true proposed suggested = ok []
entitlement_findings false proposed suggested = do
  free ← suggested
  ok (allocation_outside_entitlement proposed free ∷ [])

-- `if conflicts`
unfoldable pub conflict_findings :
    List Conflict
    → FrequencyRange
    → Result Error (List FrequencyRange)
    → Result Error (List PathFinding)
conflict_findings [] proposed suggested = ok []
conflict_findings (c ∷ cs) proposed suggested = do
  free ← suggested
  ok (allocation_conflict proposed (c ∷ cs) free ∷ [])

-- `_check_conflicts`, of a leg that is mapped to resources.
unfoldable pub check_resources :
    List Reservation
    → DirectionConfig
    → PathSide
    → BeamAssignment
    → TimePeriod
    → (exclude_path_id : Option ℕ) (now : ℕ) (resource_ids : List ℕ)
    → Result Error (List PathFinding)
unfolding reservations_on conflicts_with gaps_for entitlement_findings conflict_findings
    frequency_range
check_resources rows config side assignment requested exclude_path_id now resource_ids = do
  let proposed : FrequencyRange = side.placement.allocated
  entitlement ← frequency_range assignment.stored.rf_start_hz assignment.stored.rf_end_hz
  outside ←
      entitlement_findings (contains entitlement proposed) proposed
        (gaps_for rows config side.leg now)
  conflicts ←
      conflicts_with proposed requested (reservations_on rows resource_ids now exclude_path_id)
  clashes ← conflict_findings conflicts proposed (gaps_for rows config side.leg now)
  ok (outside ++ clashes)

abbrev pub unmapped_or :
    List ℕ → (List ℕ → Result Error (List PathFinding)) → Result Error (List PathFinding)
unmapped_or [] check = ok (leg_has_no_spectrum_resource ∷ [])
unmapped_or (id ∷ ids) check = check (id ∷ ids)

-- `_check_conflicts`
unfoldable pub check_conflicts :
    List Reservation
    → DirectionConfig
    → PathSide
    → BeamAssignment
    → TimePeriod
    → (exclude_path_id : Option ℕ) (now : ℕ) → Result Error (List PathFinding)
unfolding check_resources resources_for
check_conflicts rows config side assignment requested exclude_path_id now =
    unmapped_or (resources_for side.leg config.spectrum_resources)
      (check_resources rows config side assignment requested exclude_path_id now)

-- `window.polarization`
abbrev pub polarization_of : Option FrequencyWindow → Result Error ℕ
polarization_of none = err attribute_error
polarization_of (some w) = ok w.polarization

-- The checks of `preview`, for the two assignments that it found.
unfoldable pub judge_sides :
    List Reservation
    → (now : ℕ) → SatnetRow
    → PathValues
    → (exclude_path_id : Option ℕ) → DirectionConfig
    → (canonical translated : PathSide)
    → (canonical_assignment translated_assignment : Option BeamAssignment)
    → Result Error (List PathFinding)
unfolding check_containment check_conflicts time_period
judge_sides rows now s values exclude config canonical translated (some ca) (some ta) = do
  requested ← time_period values.valid_from values.valid_until
  polarization ← polarization_of canonical.frequency_window
  contained ← check_containment s config ca requested polarization
  canonical_findings ← check_conflicts rows config canonical ca requested exclude now
  translated_findings ← check_conflicts rows config translated ta requested exclude now
  ok (contained ++ canonical_findings ++ translated_findings)
judge_sides rows now s values exclude config canonical translated _ _ =
    ok (no_active_assignment ∷ [])

-- The end of `preview`, for the two sides of its placement.
unfoldable pub propose :
    List Reservation
    → (now : ℕ) → SatnetRow
    → PathValues
    → (exclude_path_id : Option ℕ) → DirectionConfig
    → GuardWidths
    → (ℤ × ℤ)
    → TwoSidedPlacement
    → (PathSide × PathSide)
    → Result Error Proposal
unfolding judge_sides assignment_for
propose rows now s values exclude config widths sizes placement sides = do
  let canonical_assignment : Option BeamAssignment =
      assignment_for config now (sides.0).frequency_window
  let translated_assignment : Option BeamAssignment =
      assignment_for config now (sides.1).frequency_window
  findings ←
      judge_sides rows now s values exclude config sides.0 sides.1 canonical_assignment
        translated_assignment
  ok (record {
    placement = placement;
    config = config;
    canonical_assignment = canonical_assignment;
    translated_assignment = translated_assignment;
    guard_widths = widths;
    symbol_rate = sizes.0;
    occupied_bandwidth = sizes.1;
    findings = findings;
  })

-- What `preview` and `auto_place` both start from: the sizes of the transmission and its guards.
unfoldable pub size_up :
    SatnetRow → PathValues → Result Error (BandwidthRequest × (ℤ × ℤ) × GuardWidths)
unfolding request_of resolve_request guard_spec resolve
size_up s values = do
  request ← request_of values
  sizes ← resolve_request request
  spec ← guard_spec values.guard_policy s.default_guard_policy
  widths ← resolve spec sizes.1
  ok (request, sizes, widths)

unfoldable pub preview :
    List Reservation
    → (now : ℕ) → SatnetRow
    → PathValues
    → (exclude_path_id : Option ℕ) → Result Error Proposal
unfolding config_for size_up translation_of place_both_sides sides_for propose
preview rows now s values exclude = do
  config ← config_for s values.direction
  sized ← size_up s values
  translation ← translation_of config config.payload_path
  placement ← place_both_sides sized.0 values.canonical_centre_hz (sized.2) translation true
  sides ← sides_for config config.payload_path placement
  propose rows now s values exclude config (sized.2) (sized.1) placement sides

-- `config.canonical_leg or path.uplink_window_side`
abbrev pub leg_or : Option Leg → Leg → Leg
leg_or none otherwise = otherwise
leg_or (some leg) otherwise = leg

-- `_canonical_leg`
unfoldable pub canonical_leg_of : DirectionConfig → Option PayloadPath → Result Error Leg
canonical_leg_of config none = err assertion_error
canonical_leg_of config (some path) = ok (leg_or config.canonical_leg path.uplink_window_side)

-- The end of `auto_place`: `none` where no gap is wide enough.
unfoldable pub preview_in :
    List Reservation
    → (now : ℕ) → SatnetRow
    → PathValues
    → (left_hz occupied_bandwidth : ℤ) → Option Gap
    → Result Error (Option Proposal)
unfolding preview
preview_in rows now s values left_hz occupied_bandwidth none = ok none
preview_in rows now s values left_hz occupied_bandwidth (some gap) = do
  let centre_hz : ℤ = (gap.range).start_hz +ℤ left_hz +ℤ half occupied_bandwidth
  proposal ← preview rows now s (record values { canonical_centre_hz = centre_hz }) none
  ok (some proposal)

unfoldable pub auto_place :
    List Reservation → (now : ℕ) → SatnetRow → PathValues → Result Error (Option Proposal)
unfolding config_for size_up canonical_leg_of capacity preview_in
auto_place rows now s values = do
  config ← config_for s values.direction
  sized ← size_up s values
  let widths : GuardWidths = sized.2
  let occupied_bandwidth : ℤ = (sized.1).1
  let needed : ℤ = occupied_bandwidth +ℤ widths.left_hz +ℤ widths.right_hz
  leg ← canonical_leg_of config config.payload_path
  summary ← capacity rows config leg now none
  preview_in rows now s values widths.left_hz occupied_bandwidth (first (fits needed) summary.gaps)
