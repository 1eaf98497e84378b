-- ===== src/Examples/Bandwidth.antt =====
-- Concrete runs of the bandwidth arithmetic, the placement of both sides and their checks.
use vsat_frequency_managemen.Calculations.Bandwidth.{
  BandwidthRequest, Placement, TwoSidedPlacement, check_rolloff, occupied_bandwidth_hz, place,
  place_both_sides, resolve_request, resolve_values, symbol_rate_sps, widths_agree,
}
use vsat_frequency_managemen.Calculations.Bandwidth.Exact.{
  IsRolloff, factor, occupied_bandwidth_hz-IsLeast, symbol_rate_sps-IsMost,
  symbol_rate_sps-occupied_bandwidth_hz,
}
use vsat_frequency_managemen.Calculations.Bandwidth.Sides.{
  AreSides, IsPlaced, entered_side, place_both_sides-AreSides,
}
use vsat_frequency_managemen.Calculations.Decimals.{
  Decimal, ceil_hz, count_digits, decimal, digit_count, exact_product, excess_digits, floor_hz,
  half_even, inexact_quotient, is_inexact, long_quotient, one_plus, product, round_to,
}
use vsat_frequency_managemen.Calculations.Decimals.Exact.{HasDigits, exact_product_iff}
use vsat_frequency_managemen.Calculations.Placement.{GuardWidths, system}
use vsat_frequency_managemen.Calculations.Translation.{TranslationSpec, inverts, lo_reflect}
use vsat_frequency_managemen.Calculations.Validation.{check_two_sided, is_placeable}
use vsat_frequency_managemen.Calculations.Validation.Verdicts.{
  is_placeable-check_two_sided, is_sound, within,
}
use vsat_frequency_managemen.Prelude.{
  arith, false, none, ok, refl, some, true, ℕ, ◌&&◌, ◌*◌, ◌+◌, ◌-◌, ◌>>=◌, ◌^◌, ◌↔◌, ◌≡◌, ◌≤◌,
}
use vsat_frequency_managemen.Prelude.Int.{pos}

-- 0.35
abbrev rolloff_35 : Decimal
rolloff_35 = record { negative = false; digits = 35; places = 2 }

rolloff_35-IsRolloff : IsRolloff rolloff_35
rolloff_35-IsRolloff = record {
  not_negative = refl;
  at_most_one = omega arith;
  few_places = omega arith;
}

-- 1,000,001 · 1.35 = 1,350,001.35
occupied_run : occupied_bandwidth_hz (pos 1_000_001) rolloff_35 ≡ ok (pos 1_350_002)
unfolding occupied_bandwidth_hz check_rolloff exact_product is_inexact excess_digits digit_count
    count_digits product decimal one_plus round_to half_even ceil_hz
occupied_run = refl

symbol_rate_run : symbol_rate_sps (pos 1_350_002) rolloff_35 ≡ ok (pos 1_000_001)
unfolding symbol_rate_sps check_rolloff inexact_quotient long_quotient excess_digits digit_count
    count_digits decimal one_plus round_to half_even floor_hz
symbol_rate_run = refl

occupied_bandwidth_hz-IsLeast_example :
    (b : ℕ) × (occupied_bandwidth_hz (pos 1_000_001) rolloff_35 ≡ ok (pos b))
    × ((m : ℕ) → (b ≤ m) ↔ (1_000_001 * factor rolloff_35 ≤ m * 10 ^ 2))
occupied_bandwidth_hz-IsLeast_example =
    occupied_bandwidth_hz-IsLeast 1_000_001 rolloff_35 (omega arith) (omega arith)
      rolloff_35-IsRolloff

symbol_rate_sps-IsMost_example :
    (m : ℕ) × (symbol_rate_sps (pos 1_350_002) rolloff_35 ≡ ok (pos m))
    × ((n : ℕ) → (n ≤ m) ↔ (n * factor rolloff_35 ≤ 1_350_002 * 10 ^ 2))
symbol_rate_sps-IsMost_example =
    symbol_rate_sps-IsMost 1_350_002 rolloff_35 (omega arith) (omega arith) rolloff_35-IsRolloff

symbol_rate_sps-occupied_bandwidth_hz_example :
    (occupied_bandwidth_hz (pos 1_000_001) rolloff_35 >>= λ b. symbol_rate_sps b rolloff_35)
    ≡ ok (pos 1_000_001)
symbol_rate_sps-occupied_bandwidth_hz_example =
    symbol_rate_sps-occupied_bandwidth_hz 1_000_001 rolloff_35 (omega arith) (omega arith)
      rolloff_35-IsRolloff

abbrev million : Decimal
million = decimal (pos 1_000_001)

-- 1.35
abbrev one_35 : Decimal
one_35 = record { negative = false; digits = 135; places = 2 }

-- Their product, which has nine digits.
abbrev width_35 : Decimal
width_35 = record { negative = false; digits = 135_000_135; places = 2 }

exact_product_iff_example :
    (exact_product million one_35 ≡ ok width_35)
    ↔ ((width_35 ≡ product million one_35) × HasDigits 50 (product million one_35))
exact_product_iff_example = exact_product_iff million one_35 width_35

abbrev request : BandwidthRequest
request = record {
  rolloff = rolloff_35;
  symbol_rate = some (pos 1_000_001);
  occupied_bandwidth = none;
}

abbrev guards : GuardWidths
guards = record { left_hz = pos 50; right_hz = pos 20; source = system }

-- f(x) = 20,000,000 - x
abbrev reflection : TranslationSpec
reflection = record {
  method = lo_reflect;
  constant_hz = pos 20_000_000;
  spectral_inversion = false;
}

request_run : resolve_request request ≡ ok (pos 1_000_001, pos 1_350_002)
unfolding resolve_request resolve_values occupied_bandwidth_hz check_rolloff exact_product
    is_inexact excess_digits digit_count count_digits product decimal one_plus round_to half_even
    ceil_hz
request_run = refl

place_both_sides-AreSides_example :
    (p : TwoSidedPlacement) × (place_both_sides request (pos 6_000_000) guards reflection false
      ≡ ok p)
    × (place request (pos 6_000_000) guards ≡ ok (entered_side false p))
    × IsPlaced (pos 6_000_000) 1_350_002 guards (entered_side false p)
    × (p.entered_uplink ≡ false)
    × (p.inverted ≡ inverts reflection)
    × AreSides reflection p
place_both_sides-AreSides_example =
    place_both_sides-AreSides request (pos 6_000_000) guards reflection false (pos 1_000_001)
      1_350_002 request_run (omega arith) (omega arith, omega arith)

abbrev spot : ℕ → ℕ → Placement
spot a b = record {
  symbol_rate = pos 80;
  rolloff = rolloff_35;
  occupied_bandwidth = pos 80;
  occupied = record { start_hz = pos (a + 10); end_hz = pos (b - 10) };
  allocated = record { start_hz = pos a; end_hz = pos b };
  guards = record { left_hz = pos 10; right_hz = pos 10; source = system };
}

-- The downlink reaches beyond its window.
abbrev two_spots : TwoSidedPlacement
two_spots = record {
  uplink = spot 100 200;
  downlink = spot 1100 1200;
  entered_uplink = true;
  inverted = false;
}

is_placeable-check_two_sided_example :
    is_placeable (
      check_two_sided two_spots
        (some (record { start_hz = pos 0; end_hz = pos 300 }))
        (some (record { start_hz = pos 1000; end_hz = pos 1150 }))
        (pos 0)
        (pos 5))
    ≡ (is_sound (spot 100 200)
        && within
            (some (record { start_hz = pos 0; end_hz = pos 300 }))
            (record { start_hz = pos 100; end_hz = pos 200 }))
      && (is_sound (spot 1100 1200)
          && within
              (some (record { start_hz = pos 1000; end_hz = pos 1150 }))
              (record { start_hz = pos 1100; end_hz = pos 1200 }))
      && widths_agree two_spots
is_placeable-check_two_sided_example =
    is_placeable-check_two_sided two_spots (some (record { start_hz = pos 0; end_hz = pos 300 }))
      (some (record { start_hz = pos 1000; end_hz = pos 1150 })) (pos 0) (pos 5)
