-- ===== src/Spectrum/Selectors.antt =====
-- Which entitlements and reservations count at a moment, and the free capacity
-- (spectrum/selectors.py). `now` is what `timezone.now()` answers.
pub mod Standing
use vsat_frequency_managemen.Beams.{BeamAssignment, DirectionConfig, FrequencyWindow}
use vsat_frequency_managemen.Calculations.Errors.{Error}
use vsat_frequency_managemen.Calculations.Gaps.{CapacitySummary, summarise}
use vsat_frequency_managemen.Calculations.Ranges.{FrequencyRange, frequency_range}
use vsat_frequency_managemen.Database.{Leg, Reservation, leg_eq}
use vsat_frequency_managemen.Prelude.{
  Bool, List, Option, Result, [], any, false, if◌then◌else◌, keep, leb, ltb, map, none, not, ok,
  some, true, ℕ, ◌&&◌, ◌==◌, ◌>>=◌, ◌∷◌,
}
use vsat_frequency_managemen.Prelude.Int.{leb_ℤ}
use vsat_frequency_managemen.Prelude.Sort.{sorted}
use vsat_frequency_managemen.Spectrum.Table.{belongs_to}

-- `x__lte=moment`, and `y__isnull=True` or `y__gt=moment`.
abbrev pub still_open : ℕ → Option ℕ → Bool
still_open moment none = true
still_open moment (some until) = ltb moment until

abbrev pub in_force : ℕ → ℕ → Option ℕ → Bool
in_force moment from until = leb from moment && still_open moment until

abbrev pub is_entitled : ℕ → BeamAssignment → Bool
is_entitled moment a =
    a.stored.is_active && in_force moment a.stored.effective_from a.stored.effective_until

abbrev pub on_window : Option ℕ → BeamAssignment → Bool
on_window none a = true
on_window (some window_id) a = a.frequency_window.pk == window_id

-- `order_by("rf_start_hz")`; the order of equal edges is the stored one.
abbrev pub rf_start_le : BeamAssignment → BeamAssignment → Bool
rf_start_le a b = leb_ℤ a.stored.rf_start_hz b.stored.rf_start_hz

unfoldable pub active_assignments : DirectionConfig → ℕ → Option ℕ → List BeamAssignment
unfolding sorted
active_assignments config moment window_id =
    sorted rf_start_le
      (keep (λ a. is_entitled moment a && on_window window_id a) config.spectrum_assignments)

-- The filters of `reservations_on`.
abbrev pub holds_now : List ℕ → ℕ → Reservation → Bool
holds_now resource_ids moment row =
    any (λ id. id == row.spectrum_resource_id) resource_ids
    && row.reserves_spectrum
    && in_force moment row.valid_from row.valid_until

abbrev pub excluded : Option ℕ → Reservation → Bool
excluded none row = false
excluded (some pk) row = belongs_to pk row

abbrev pub allocated_start_le : Reservation → Reservation → Bool
allocated_start_le a b = leb_ℤ a.allocated_start_hz b.allocated_start_hz

unfoldable pub reservations_on :
    List Reservation
    → (resource_ids : List ℕ) (moment : ℕ) (exclude_satnet_path_id : Option ℕ) → List Reservation
unfolding sorted
reservations_on rows resource_ids moment exclude_satnet_path_id = sorted allocated_start_le (
    keep (λ row. holds_now resource_ids moment row && not (excluded exclude_satnet_path_id row))
      rows)

-- `[str(link.spectrum_resource_id) for link in ... if link.spectrum_resource.leg == leg]`
unfoldable pub resources_for : Leg → List (ℕ × Leg) → List ℕ
resources_for leg links = map (λ link. link.0) (keep (λ link. leg_eq link.1 leg) links)

abbrev pub window_on : Leg → Option FrequencyWindow → Option ℕ → Option ℕ
window_on leg none otherwise = otherwise
window_on leg (some covering) otherwise =
    if leg_eq covering.side leg then some covering.pk else otherwise

-- `_window_for_leg`
unfoldable pub window_for_leg : DirectionConfig → Leg → Option ℕ
window_for_leg config leg =
    window_on leg config.uplink_window (window_on leg config.downlink_window none)

-- `[FrequencyRange(...) for assignment in ...]`
unfoldable pub entitlement_ranges : List BeamAssignment → Result Error (List FrequencyRange)
entitlement_ranges [] = ok []
entitlement_ranges (a ∷ assignments) = do
  r ← frequency_range a.stored.rf_start_hz a.stored.rf_end_hz
  rest ← entitlement_ranges assignments
  ok (r ∷ rest)

-- `[FrequencyRange(...) for row in ...]`
unfoldable pub occupied_ranges : List Reservation → Result Error (List FrequencyRange)
occupied_ranges [] = ok []
occupied_ranges (row ∷ rows) = do
  r ← frequency_range row.allocated_start_hz row.allocated_end_hz
  rest ← occupied_ranges rows
  ok (r ∷ rest)

-- The end of `capacity`: nothing is read of the reservations of a leg without resources or
-- entitlements.
unfoldable pub summarise_on :
    List Reservation
    → (resource_ids : List ℕ) (moment : ℕ) (exclude : Option ℕ) → List FrequencyRange
    → Result Error CapacitySummary
unfolding reservations_on occupied_ranges summarise
summarise_on rows [] moment exclude entitlements = ok (summarise entitlements [])
summarise_on rows (id ∷ ids) moment exclude [] = ok (summarise [] [])
summarise_on rows (id ∷ ids) moment exclude (e ∷ es) = do
  occupied ← occupied_ranges (reservations_on rows (id ∷ ids) moment exclude)
  ok (summarise (e ∷ es) occupied)

unfoldable pub capacity :
    List Reservation
    → DirectionConfig
    → Leg
    → (moment : ℕ) (exclude : Option ℕ) → Result Error CapacitySummary
unfolding resources_for window_for_leg active_assignments entitlement_ranges summarise_on
capacity rows config leg moment exclude = do
  entitlements ← entitlement_ranges (active_assignments config moment (window_for_leg config leg))
  summarise_on rows (resources_for leg config.spectrum_resources) moment exclude entitlements
