-- ===== src/Calculations/Bandwidth.antt =====
-- Bandwidth, edges and placement (calculations/bandwidth.py and the placement types of
-- calculations/types.py). `TwoSidedPlacement.intermediate` and its equipment code are never set here.
pub mod Exact
pub mod Images
pub mod Sides
use vsat_frequency_managemen.Calculations.Decimals.{
  Decimal, ceil_hz, decimal, exact_product, floor_hz, inexact_quotient, is_above_one, is_below_zero,
  one_plus, xor,
}
use vsat_frequency_managemen.Calculations.Errors.{Error, assertion_error, value_error}
use vsat_frequency_managemen.Calculations.Placement.{GuardWidths, allocated_range, occupied_range}
use vsat_frequency_managemen.Calculations.Ranges.{FrequencyRange, width_hz}
use vsat_frequency_managemen.Calculations.Translation.{
  TranslationSpec, inverts, translate, untranslate,
}
use vsat_frequency_managemen.Prelude.{
  Bool, Option, Result, err, false, is_some, none, not, ok, raise_if, some, true, ◌&&◌, ◌>>=◌, ◌>>◌,
  ◌||◌,
}
use vsat_frequency_managemen.Prelude.Int.{eqb_ℤ, half, leb_ℤ, pos, ℤ, ◌+ℤ◌}

-- `_check_rolloff`; the `TypeError` for a value that is no `Decimal` cannot arise.
unfoldable pub check_rolloff : Decimal → Result Error (Unit {0})
check_rolloff rolloff = raise_if (is_below_zero rolloff || is_above_one rolloff) value_error

unfoldable pub occupied_bandwidth_hz : (symbol_rate : ℤ) → Decimal → Result Error ℤ
unfolding check_rolloff exact_product decimal one_plus ceil_hz
occupied_bandwidth_hz symbol_rate rolloff = do
  check_rolloff rolloff
  raise_if (leb_ℤ symbol_rate (pos 0)) value_error
  exact ← exact_product (decimal symbol_rate) (one_plus rolloff)
  ok (ceil_hz exact)

unfoldable pub symbol_rate_sps : (bandwidth_hz : ℤ) → Decimal → Result Error ℤ
unfolding check_rolloff inexact_quotient decimal one_plus floor_hz
symbol_rate_sps bandwidth_hz rolloff = do
  check_rolloff rolloff
  raise_if (leb_ℤ bandwidth_hz (pos 0)) value_error
  ok (floor_hz (inexact_quotient (decimal bandwidth_hz) (one_plus rolloff)))

-- `BandwidthRequest`
pub record BandwidthRequest : Type 0 where
  pub rolloff : Decimal
  pub symbol_rate : Option ℤ
  pub occupied_bandwidth : Option ℤ

abbrev pub not_positive : Option ℤ → Bool
not_positive none = false
not_positive (some value) = leb_ℤ value (pos 0)

-- `BandwidthRequest(...)`, with the checks of `__post_init__`.
unfoldable pub bandwidth_request : Decimal → Option ℤ → Option ℤ → Result Error BandwidthRequest
bandwidth_request rolloff symbol_rate occupied_bandwidth = do
  raise_if (not (xor (is_some symbol_rate) (is_some occupied_bandwidth))) value_error
  raise_if (is_below_zero rolloff) value_error
  raise_if (not_positive symbol_rate || not_positive occupied_bandwidth) value_error
  ok (record {
    rolloff = rolloff;
    symbol_rate = symbol_rate;
    occupied_bandwidth = occupied_bandwidth;
  })

-- The two values that a request comes to, from what it supplies.
unfoldable pub resolve_values : Decimal → Option ℤ → Option ℤ → Result Error (ℤ × ℤ)
unfolding occupied_bandwidth_hz symbol_rate_sps
resolve_values rolloff (some symbol_rate) occupied_bandwidth = do
  bandwidth_hz ← occupied_bandwidth_hz symbol_rate rolloff
  ok (symbol_rate, bandwidth_hz)
resolve_values rolloff none none = err assertion_error
resolve_values rolloff none (some bandwidth_hz) = do
  symbol_rate ← symbol_rate_sps bandwidth_hz rolloff
  ok (symbol_rate, bandwidth_hz)

unfoldable pub resolve_request : BandwidthRequest → Result Error (ℤ × ℤ)
unfolding resolve_values
resolve_request request =
    resolve_values request.rolloff request.symbol_rate request.occupied_bandwidth

-- `Placement`
pub record Placement : Type 0 where
  pub symbol_rate : ℤ
  pub rolloff : Decimal
  pub occupied_bandwidth : ℤ
  pub occupied : FrequencyRange
  pub allocated : FrequencyRange
  pub guards : GuardWidths

unfoldable pub allocated_bandwidth_hz : Placement → ℤ
unfolding width_hz
allocated_bandwidth_hz placement = width_hz placement.allocated

-- `Placement.centre_hz`
unfoldable pub placement_centre_hz : Placement → ℤ
unfolding width_hz
placement_centre_hz placement = placement.occupied.start_hz +ℤ half (width_hz placement.occupied)

unfoldable pub place : BandwidthRequest → (centre : ℤ) → GuardWidths → Result Error Placement
unfolding resolve_request occupied_range allocated_range width_hz
place request centre guards = do
  values ← resolve_request request
  occupied ← occupied_range centre values.1
  allocated ← allocated_range occupied guards
  ok (record {
    symbol_rate = values.0;
    rolloff = request.rolloff;
    occupied_bandwidth = width_hz occupied;
    occupied = occupied;
    allocated = allocated;
    guards = guards;
  })

-- `TwoSidedPlacement`
pub record TwoSidedPlacement : Type 0 where
  pub uplink : Placement
  pub downlink : Placement
  pub entered_uplink : Bool
  pub inverted : Bool

unfoldable pub widths_agree : TwoSidedPlacement → Bool
unfolding width_hz
widths_agree p =
    eqb_ℤ (width_hz p.uplink.occupied) (width_hz p.downlink.occupied)
    && eqb_ℤ (width_hz p.uplink.allocated) (width_hz p.downlink.allocated)

-- `move = translate if forward else untranslate`
abbrev pub move_by : Bool → FrequencyRange → TranslationSpec → Result Error FrequencyRange
move_by true r spec = translate r spec
move_by false r spec = untranslate r spec

-- `_image_of`
unfoldable pub image_of : Placement → TranslationSpec → Bool → Result Error Placement
image_of source translation forward = do
  occupied ← move_by forward source.occupied translation
  allocated ← move_by forward source.allocated translation
  ok (record source { occupied = occupied; allocated = allocated })

-- The two sides, whichever was entered.
abbrev pub both_sides : Bool → TranslationSpec → (entered image : Placement) → TwoSidedPlacement
both_sides true translation entered image = record {
  uplink = entered;
  downlink = image;
  entered_uplink = true;
  inverted = inverts translation;
}
both_sides false translation entered image = record {
  uplink = image;
  downlink = entered;
  entered_uplink = false;
  inverted = inverts translation;
}

unfoldable pub place_both_sides :
    BandwidthRequest
    → (centre : ℤ) → GuardWidths
    → TranslationSpec
    → (entered_uplink : Bool) → Result Error TwoSidedPlacement
unfolding place image_of
place_both_sides request centre guards translation entered_uplink = do
  entered ← place request centre guards
  image ← image_of entered translation entered_uplink
  ok (both_sides entered_uplink translation entered image)
