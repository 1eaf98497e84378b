-- ===== src/Calculations/Gaps.antt =====
-- Free capacity (calculations/gaps.py): what is left of an entitlement after the reservations.
-- `CapacitySummary.utilisation`, a float for display, is left out.
pub mod Exact
pub mod Free
pub mod Apart
pub mod Fit
use vsat_frequency_managemen.Calculations.Ranges.{FrequencyRange, width_hz}
use vsat_frequency_managemen.Prelude.{
  Bool, List, Option, [], first, if◌then◌else◌, map, none, some, ◌++◌, ◌||◌, ◌∷◌,
}
use vsat_frequency_managemen.Prelude.Int.{leb_ℤ, ltb_ℤ, max_ℤ, min_ℤ, pos, ℤ, ◌+ℤ◌, ◌-ℤ◌}
use vsat_frequency_managemen.Prelude.Sort.{sorted}

-- `Gap`
pub record Gap : Type 0 where
  pub range : FrequencyRange
  pub below_hz : Option ℤ
  pub above_hz : Option ℤ

-- `Gap.fits`
abbrev pub fits : ℤ → Gap → Bool
fits wanted_hz gap = leb_ℤ wanted_hz (width_hz gap.range)

-- `key=lambda r: r.start_hz`
abbrev pub start_le : FrequencyRange → FrequencyRange → Bool
start_le r other = leb_ℤ r.start_hz other.start_hz

unfoldable pub sort_by_edge : List FrequencyRange → List FrequencyRange
unfolding sorted
sort_by_edge ranges = sorted start_le ranges

abbrev pub span : ℤ → ℤ → FrequencyRange
span start end = record { start_hz = start; end_hz = end }

-- `taken.end_hz <= entitlement.start_hz or taken.start_hz >= entitlement.end_hz`
abbrev pub is_outside : FrequencyRange → FrequencyRange → Bool
is_outside entitlement taken =
    leb_ℤ taken.end_hz entitlement.start_hz || leb_ℤ entitlement.end_hz taken.start_hz

-- Where the cursor goes past one occupied range.
abbrev pub advanced : FrequencyRange → ℤ → FrequencyRange → ℤ
advanced entitlement cursor taken = max_ℤ cursor (min_ℤ taken.end_hz entitlement.end_hz)

-- The free range below one occupied range, if there is one. `FrequencyRange(cursor, start)` cannot
-- raise, since `start > cursor` is tested first.
abbrev pub free_below : FrequencyRange → ℤ → FrequencyRange → List FrequencyRange
free_below entitlement cursor taken =
    let start = max_ℤ taken.start_hz entitlement.start_hz in
    if ltb_ℤ cursor start then span cursor start ∷ [] else []

-- The loop of `subtract`, with the range above the last occupied one.
unfoldable pub sweep : FrequencyRange → ℤ → List FrequencyRange → List FrequencyRange
sweep entitlement cursor [] =
    if ltb_ℤ cursor entitlement.end_hz then span cursor entitlement.end_hz ∷ [] else []
sweep entitlement cursor (taken ∷ rest) =
    let skipped = sweep entitlement cursor rest in
    let passed =
      free_below entitlement cursor taken
      ++ sweep entitlement (advanced entitlement cursor taken) rest in
    if is_outside entitlement taken then skipped else passed

-- `subtract`
unfoldable pub subtract : FrequencyRange → List FrequencyRange → List FrequencyRange
unfolding sort_by_edge sweep
subtract entitlement occupied = sweep entitlement entitlement.start_hz (sort_by_edge occupied)

-- `max(ends) if ends else None`, over the ends at or below the edge.
unfoldable pub nearest_below : ℤ → List FrequencyRange → Option ℤ
nearest_below edge_hz [] = none
nearest_below edge_hz (taken ∷ rest) =
    let below = nearest_below edge_hz rest in
    if leb_ℤ taken.end_hz edge_hz
    then some (elim below [ none ↦ taken.end_hz | some e ↦ max_ℤ taken.end_hz e ])
    else below

-- `min(starts) if starts else None`, over the starts at or above the edge.
unfoldable pub nearest_above : ℤ → List FrequencyRange → Option ℤ
nearest_above edge_hz [] = none
nearest_above edge_hz (taken ∷ rest) =
    let above = nearest_above edge_hz rest in
    if leb_ℤ edge_hz taken.start_hz
    then some (elim above [ none ↦ taken.start_hz | some s ↦ min_ℤ taken.start_hz s ])
    else above

-- The gaps of one entitlement: the inner loop of `find`.
unfoldable pub gaps_within : ℤ → List FrequencyRange → List FrequencyRange → List Gap
unfolding nearest_below nearest_above
gaps_within minimum_width_hz taken [] = []
gaps_within minimum_width_hz taken (free ∷ frees) =
    let rest = gaps_within minimum_width_hz taken frees in
    if ltb_ℤ (width_hz free) minimum_width_hz
    then rest
    else record {
      range = free;
      below_hz = nearest_below free.start_hz taken;
      above_hz = nearest_above free.end_hz taken;
    }
      ∷ rest

-- The outer loop of `find`.
unfoldable pub gaps_of : ℤ → List FrequencyRange → List FrequencyRange → List Gap
unfolding subtract gaps_within
gaps_of minimum_width_hz taken [] = []
gaps_of minimum_width_hz taken (entitlement ∷ entitlements) =
    gaps_within minimum_width_hz taken (subtract entitlement taken)
    ++ gaps_of minimum_width_hz taken entitlements

abbrev pub gap_le : Gap → Gap → Bool
gap_le gap other = start_le gap.range other.range

-- `find`
unfoldable pub find_gaps : List FrequencyRange → List FrequencyRange → ℤ → List Gap
unfolding sort_by_edge gaps_of sorted
find_gaps entitlements occupied minimum_width_hz =
    sorted gap_le (gaps_of minimum_width_hz (sort_by_edge occupied) (sort_by_edge entitlements))

-- `CapacitySummary`
pub record CapacitySummary : Type 0 where
  pub total_hz : ℤ
  pub free_hz : ℤ
  pub gaps : List Gap

unfoldable pub used_hz : CapacitySummary → ℤ
used_hz summary = summary.total_hz -ℤ summary.free_hz

-- `sum(range.width_hz for range in ranges)`
unfoldable pub total_width : List FrequencyRange → ℤ
total_width [] = pos 0
total_width (r ∷ ranges) = width_hz r +ℤ total_width ranges

-- `max((gap.width_hz for gap in self.gaps), default=0)`
unfoldable pub largest_gap : List Gap → ℤ
largest_gap [] = pos 0
largest_gap (gap ∷ []) = width_hz gap.range
largest_gap (gap ∷ other ∷ gaps) = max_ℤ (width_hz gap.range) (largest_gap (other ∷ gaps))

-- `summarise`
unfoldable pub summarise : List FrequencyRange → List FrequencyRange → CapacitySummary
unfolding find_gaps total_width
summarise entitlements occupied =
    let found = find_gaps entitlements occupied (pos 1) in
    record {
      total_hz = total_width entitlements;
      free_hz = total_width (map Gap.range found);
      gaps = found;
    }

-- `first_fit`
unfoldable pub first_fit : List FrequencyRange → List FrequencyRange → ℤ → Option Gap
unfolding find_gaps
first_fit entitlements occupied wanted_hz =
    first (fits wanted_hz) (find_gaps entitlements occupied (pos 1))
