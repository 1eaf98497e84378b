-- ===== src/Examples/Arithmetic.antt =====
-- Concrete runs of the arithmetic of calculations/.
use vsat_frequency_managemen.Calculations.Conversion.{
  EquipmentProfileSpec, best_profile, check_non_negative, down_convert, high_side, lo_minus_if,
  reflect_checked, to_intermediate, to_radio,
}
use vsat_frequency_managemen.Calculations.Conversion.Inverse.{to_radio-to_intermediate}
use vsat_frequency_managemen.Calculations.Conversion.Matching.{Best, best_profile-Best}
use vsat_frequency_managemen.Calculations.Gaps.{
  find_gaps, first_fit, gaps_of, gaps_within, nearest_above, nearest_below, sort_by_edge, subtract,
  sweep,
}
use vsat_frequency_managemen.Calculations.Gaps.Apart.{subtract-IsApart}
use vsat_frequency_managemen.Calculations.Gaps.Exact.{covers, subtract_exact}
use vsat_frequency_managemen.Calculations.Gaps.Fit.{first_fit-none}
use vsat_frequency_managemen.Calculations.Gaps.Free.{IsOffer, find_gaps-IsOffer, first_fit-IsOffer}
use vsat_frequency_managemen.Calculations.Periods.{TimePeriod, intersect, period_overlaps}
use vsat_frequency_managemen.Calculations.Periods.Laws.{
  During, Meets, intersect-Meets, period_overlaps_iff_shared,
}
use vsat_frequency_managemen.Calculations.Ranges.{
  FrequencyRange, IsRange, any_overlap, contains, contains_hz, first_overlap, frequency_range,
  overlaps, reflect, sort_by_start, width_hz,
}
use vsat_frequency_managemen.Calculations.Ranges.Overlap.{
  Inside, contains_iff_Inside, overlaps_iff_shared,
}
use vsat_frequency_managemen.Calculations.Ranges.Pairs.{IsApart, any_overlap-none}
use vsat_frequency_managemen.Calculations.Translation.{
  TranslationSpec, lo_reflect, translate, untranslate,
}
use vsat_frequency_managemen.Calculations.Translation.Inverse.{untranslate-translate}
use vsat_frequency_managemen.Prelude.{
  All, List, Option, [], any, arith, false, inl, none, not, ok, refl, some, true, ℕ, ◌&&◌, ◌>>=◌,
  ◌↔◌, ◌∷◌, ◌≡◌,
}
use vsat_frequency_managemen.Prelude.Int.{pos, ℤ, ◌-ℤ◌, ◌≤ℤ◌}
use vsat_frequency_managemen.Prelude.Sort.{insert, sorted}

abbrev range_of : ℕ → ℕ → FrequencyRange
range_of a b = record { start_hz = pos a; end_hz = pos b }

abbrev entitlement : FrequencyRange
entitlement = range_of 0 100

-- Out of order, overlapping, and one beyond the entitlement.
abbrev occupied : List FrequencyRange
occupied = range_of 30 50 ∷ range_of 10 40 ∷ range_of 90 120 ∷ []

free_ranges : subtract entitlement occupied ≡ range_of 0 10 ∷ range_of 50 90 ∷ []
unfolding subtract sort_by_edge sweep sorted insert
free_ranges = refl

subtract_exact_example :
    covers (pos 60) (subtract entitlement occupied)
    ≡ (contains_hz entitlement (pos 60) && not (covers (pos 60) occupied))
subtract_exact_example = subtract_exact (pos 60) entitlement occupied

first_fit_run :
    first_fit (entitlement ∷ []) occupied (pos 20)
    ≡ some (record { range = range_of 50 90; below_hz = some (pos 50); above_hz = some (pos 90) })
unfolding first_fit find_gaps gaps_of gaps_within subtract sweep sort_by_edge sorted insert
    nearest_below nearest_above width_hz ◌-ℤ◌
first_fit_run = refl

first_fit_example :
    IsOffer
      (entitlement ∷ [])
      occupied
      (pos 20)
      (record { range = range_of 50 90; below_hz = some (pos 50); above_hz = some (pos 90) })
first_fit_example =
    first_fit-IsOffer (entitlement ∷ []) occupied (pos 20) _ (omega arith, tt) first_fit_run

find_gaps_example :
    All
      (IsOffer (entitlement ∷ []) occupied (pos 5))
      (find_gaps (entitlement ∷ []) occupied (pos 5))
find_gaps_example = find_gaps-IsOffer (entitlement ∷ []) occupied (pos 5) (omega arith, tt)

no_room : first_fit (entitlement ∷ []) occupied (pos 41) ≡ none
unfolding first_fit find_gaps gaps_of gaps_within subtract sweep sort_by_edge sorted insert
    nearest_below nearest_above width_hz ◌-ℤ◌
no_room = refl

wide_enough : pos 41 ≤ℤ width_hz (range_of 45 95)
unfolding width_hz ◌-ℤ◌
wide_enough = omega arith

first_fit_none_example : any (overlaps (range_of 45 95)) occupied ≡ true
first_fit_none_example =
    first_fit-none (entitlement ∷ []) occupied (pos 41) no_room entitlement (range_of 45 95)
      (inl refl) (omega arith) refl wide_enough

any_overlap-none_example :
    (any_overlap (range_of 5 9 ∷ range_of 0 5 ∷ []) ≡ none)
    ↔ IsApart (range_of 5 9 ∷ range_of 0 5 ∷ [])
any_overlap-none_example =
    any_overlap-none (range_of 5 9 ∷ range_of 0 5 ∷ []) (omega arith, (omega arith, tt))

sweep_run : any_overlap occupied ≡ some (range_of 10 40, range_of 30 50)
unfolding any_overlap sort_by_start first_overlap sorted insert
sweep_run = refl

abbrev inverting : TranslationSpec
inverting = record { method = lo_reflect; constant_hz = pos 500; spectral_inversion = true }

untranslate-translate_example :
    ((translate (range_of 10 30) inverting >>= λ d. untranslate d inverting) ≡ ok (range_of 10 30))
    × ((untranslate (range_of 10 30) inverting >>= λ u. translate u inverting)
        ≡ ok (range_of 10 30))
untranslate-translate_example = untranslate-translate inverting (range_of 10 30) (omega arith)

abbrev converter : ℕ → EquipmentProfileSpec
converter code = record {
  code = code;
  method = lo_minus_if;
  sideband = high_side;
  lo_hz = pos 300;
  rf_limits = range_of 100 250;
  if_limits = range_of 0 200;
  priority = pos code;
  spectral_inversion = false;
  offset_hz = none;
}

converted : to_intermediate (range_of 110 150) (converter 1) ≡ ok (range_of 150 190)
unfolding to_intermediate down_convert reflect_checked check_non_negative reflect frequency_range
    ◌-ℤ◌
converted = refl

to_radio_example : to_radio (range_of 150 190) (converter 1) ≡ ok (range_of 110 150)
to_radio_example =
    to_radio-to_intermediate (range_of 110 150) (range_of 150 190) (converter 1) (omega arith)
      (omega arith) converted

best_profile_example :
    Best
      (range_of 110 150)
      (converter 2 ∷ converter 1 ∷ [])
      (best_profile (range_of 110 150) (converter 2 ∷ converter 1 ∷ []))
best_profile_example =
    best_profile-Best (range_of 110 150) (converter 2 ∷ converter 1 ∷ []) (omega arith)

abbrev period_of : ℕ → Option ℕ → TimePeriod
period_of start end = record { start = start; end = end }

period_overlaps_iff_shared_example :
    (period_overlaps (period_of 10 (some 50)) (period_of 49 none) ≡ true)
    ↔ ((t : ℕ) × During t (period_of 10 (some 50)) × During t (period_of 49 none))
period_overlaps_iff_shared_example =
    period_overlaps_iff_shared (period_of 10 (some 50)) (period_of 49 none) refl refl

overlaps_iff_shared_example :
    (overlaps (range_of 0 100) (range_of 99 120) ≡ true)
    ↔ ((hz : ℤ) × Inside hz (range_of 0 100) × Inside hz (range_of 99 120))
overlaps_iff_shared_example =
    overlaps_iff_shared (range_of 0 100) (range_of 99 120) (omega arith) (omega arith)

contains_iff_Inside_example :
    (contains (range_of 0 100) (range_of 40 100) ≡ true)
    ↔ ((hz : ℤ) → Inside hz (range_of 40 100) → Inside hz (range_of 0 100))
contains_iff_Inside_example = contains_iff_Inside (range_of 0 100) (range_of 40 100) (omega arith)

intersect_example :
    Meets
      (period_of 3 none ∷ period_of 1 (some 8) ∷ [])
      (intersect (period_of 3 none ∷ period_of 1 (some 8) ∷ []))
intersect_example = intersect-Meets (period_of 3 none) (period_of 1 (some 8) ∷ [])

subtract-IsApart_example :
    All IsRange (subtract entitlement occupied) × IsApart (subtract entitlement occupied)
subtract-IsApart_example =
    subtract-IsApart entitlement occupied (omega arith)
      (omega arith, (omega arith, (omega arith, tt)))
