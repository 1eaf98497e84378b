-- ===== src/Paths/Derived.antt =====
-- The columns that the engine owns, and the CHECKs of the table of paths (satnet_paths/services.py,
-- `_derived_fields`; satnet_paths/models.py). Of the columns that have no part in a check or in the
-- occupancies (the gateway, the decimator, the IF columns) nothing is modelled.
use vsat_frequency_managemen.Beams.{BeamAssignment, DirectionConfig, FrequencyWindow}
use vsat_frequency_managemen.Calculations.Decimals.{
  Decimal, digit_count, is_above_one, is_below_zero,
}
use vsat_frequency_managemen.Calculations.Errors.{attribute_error}
use vsat_frequency_managemen.Calculations.Periods.{runs_backwards}
use vsat_frequency_managemen.Calculations.Ranges.{FrequencyRange, contains, contains_hz, width_hz}
use vsat_frequency_managemen.Database.{
  Direction, Leg, Side, fwd, hub_downlink, hub_uplink, leg_eq, remote_downlink, remote_uplink, rtn,
}
use vsat_frequency_managemen.Database.Action.{Failure, calculation_error, validation_error}
use vsat_frequency_managemen.Paths.Preview.{PathSide, PathValues, Proposal}
use vsat_frequency_managemen.Prelude.{
  Bool, List, Option, Result, [], err, false, leb, length, ltb, none, not, ok, some, ℕ, ◌&&◌, ◌+◌,
  ◌==◌, ◌>>=◌, ◌∷◌,
}
use vsat_frequency_managemen.Prelude.Int.{half, leb_ℤ, ltb_ℤ, negsuc, pos, ℤ, ◌+ℤ◌}
use vsat_frequency_managemen.Spectrum.Selectors.{resources_for}

pub record DerivedFields : Type 0 where
  pub code : List ℕ
  pub direction : Direction
  pub valid_from : ℕ
  pub valid_until : Option ℕ
  pub input_value : ℤ
  pub rolloff : Decimal
  pub guard_left_hz : ℤ
  pub guard_right_hz : ℤ
  pub symbol_rate : ℤ
  pub occupied_bandwidth : ℤ
  pub allocated_bandwidth : ℤ
  pub canonical_centre_hz : ℤ
  pub translated_centre_hz : ℤ
  pub canonical : Side
  pub translated : Side

-- `_centre_of`
unfoldable pub centre_of : FrequencyRange → ℤ
unfolding width_hz
centre_of occupied = occupied.start_hz +ℤ half (width_hz occupied)

-- `_occupancy`, and the columns of one side.
unfoldable pub occupancy : DirectionConfig → PathSide → (polarization : ℕ) → BeamAssignment → Side
unfolding resources_for
occupancy config side polarization a = record {
  assignment = a.stored;
  leg = side.leg;
  polarization = polarization;
  occupied = (side.placement).occupied;
  allocated = (side.placement).allocated;
  resource_ids = resources_for side.leg config.spectrum_resources;
}

-- `window.polarization`, of a column that may not be null.
abbrev pub required_polarization : Option FrequencyWindow → Result Failure ℕ
required_polarization none = err (calculation_error attribute_error)
required_polarization (some w) = ok w.polarization

-- An assignment, of a column that may not be null: `full_clean` refuses it.
abbrev pub required_assignment : Option BeamAssignment → Result Failure BeamAssignment
required_assignment none = err validation_error
required_assignment (some a) = ok a

-- `_derived_fields`
unfoldable pub derived_fields :
    PathValues → Proposal → (canonical translated : PathSide) → Result Failure DerivedFields
unfolding occupancy centre_of width_hz
derived_fields values p canonical translated = do
  canonical_polarization ← required_polarization canonical.frequency_window
  translated_polarization ← required_polarization translated.frequency_window
  ca ← required_assignment p.canonical_assignment
  ta ← required_assignment p.translated_assignment
  ok (record {
    code = values.code;
    direction = values.direction;
    valid_from = values.valid_from;
    valid_until = values.valid_until;
    input_value = values.input_value;
    rolloff = values.rolloff;
    guard_left_hz = (p.guard_widths).left_hz;
    guard_right_hz = (p.guard_widths).right_hz;
    symbol_rate = p.symbol_rate;
    occupied_bandwidth = p.occupied_bandwidth;
    allocated_bandwidth = width_hz (canonical.placement).allocated;
    canonical_centre_hz = values.canonical_centre_hz;
    translated_centre_hz = centre_of (translated.placement).occupied;
    canonical = occupancy p.config canonical canonical_polarization ca;
    translated = occupancy p.config translated translated_polarization ta;
  })

-- `BigIntegerField`: eight bytes with a sign.
abbrev pub fits_bigint : ℤ → Bool
fits_bigint n =
    leb_ℤ (negsuc 9_223_372_036_854_775_807) n && ltb_ℤ n (pos 9_223_372_036_854_775_808)

abbrev pub range_fits_bigint : FrequencyRange → Bool
range_fits_bigint r = fits_bigint r.start_hz && fits_bigint r.end_hz

-- `CharField(max_length=50)`, which may not be blank.
abbrev pub code_fits : List ℕ → Bool
code_fits [] = false
code_fits (c ∷ code) = leb (length (c ∷ code)) 50

-- `DecimalField(max_digits=4, decimal_places=3)`: leading zeros after the point are digits.
unfoldable pub rolloff_fits : Decimal → Bool
unfolding digit_count
rolloff_fits r =
    leb (digit_count r.digits) 4 && leb r.places 3 && leb (digit_count r.digits) (r.places + 1)

-- What the declarations of the fields admit, for `full_clean`.
unfoldable pub fields_fit : DerivedFields → Bool
unfolding rolloff_fits
fields_fit f =
    code_fits f.code
    && rolloff_fits f.rolloff
    && fits_bigint f.input_value
    && (fits_bigint f.guard_left_hz && fits_bigint f.guard_right_hz)
    && fits_bigint f.symbol_rate
    && (fits_bigint f.occupied_bandwidth && fits_bigint f.allocated_bandwidth)
    && (fits_bigint f.canonical_centre_hz && fits_bigint f.translated_centre_hz)
    && (range_fits_bigint (f.canonical).occupied && range_fits_bigint (f.canonical).allocated)
    && (range_fits_bigint (f.translated).occupied && range_fits_bigint (f.translated).allocated)

-- `PositiveIntegerField`: four bytes, not negative.
abbrev pub fits_positive : ℕ → Bool
fits_positive n = ltb n 2_147_483_648

-- `ck_path_legs`
abbrev pub legs_fit : Direction → (canonical translated : Leg) → Bool
legs_fit fwd canonical translated = leg_eq canonical hub_uplink && leg_eq translated remote_downlink
legs_fit rtn canonical translated = leg_eq canonical remote_uplink && leg_eq translated hub_downlink

-- The CHECKs of the table over these columns, in the order of `Meta.constraints`.
unfoldable pub checks_hold : DerivedFields → Bool
checks_hold f =
    ltb_ℤ (pos 0) f.symbol_rate
    && (not (is_below_zero f.rolloff) && not (is_above_one f.rolloff))
    && (leb_ℤ (pos 0) f.guard_left_hz && leb_ℤ (pos 0) f.guard_right_hz)
    && (ltb_ℤ (pos 0) f.occupied_bandwidth && leb_ℤ f.occupied_bandwidth f.allocated_bandwidth)
    && (contains_hz (f.canonical).occupied f.canonical_centre_hz
        && contains_hz (f.translated).occupied f.translated_centre_hz)
    && (contains (f.canonical).allocated (f.canonical).occupied
        && contains (f.translated).allocated (f.translated).occupied)
    && not (runs_backwards f.valid_from f.valid_until)
    && legs_fit f.direction (f.canonical).leg (f.translated).leg
    && ltb_ℤ (pos 0) f.input_value

-- `ck_path_revision`
abbrev pub revision_fits : ℕ → Option ℕ → Bool
revision_fits number none = number == 1
revision_fits number (some pk) = ltb 1 number
