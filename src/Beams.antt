-- ===== src/Beams.antt =====
-- A Beam's direction and what it is made of (beams/models.py, and the windows and payload paths of
-- inventory/models/dependent.py), less names, codes and notes.
pub mod Validation
use vsat_frequency_managemen.Calculations.Periods.{TimePeriod}
use vsat_frequency_managemen.Calculations.Translation.{TranslationMethod, is_lo_reflect}
use vsat_frequency_managemen.Database.{Assignment, Direction, Leg}
use vsat_frequency_managemen.Prelude.{Bool, List, Option, false, none, some, ℕ, ◌||◌}
use vsat_frequency_managemen.Prelude.Int.{ℤ}

-- `FrequencyWindow`, as much as the allocation reads.
pub record FrequencyWindow : Type 0 where
  pub pk : ℕ
  pub side : Leg
  pub polarization : ℕ

-- `PayloadPath`
pub record PayloadPath : Type 0 where
  pub uplink_window_side : Leg
  pub downlink_window_side : Leg
  pub translation_method : TranslationMethod
  pub translation_constant_hz : ℤ
  pub spectral_inversion : Bool

abbrev pub is_inverting : PayloadPath → Bool
is_inverting path = is_lo_reflect path.translation_method || path.spectral_inversion

-- `BeamSpectrumAssignment`: the columns that a reservation reads too, its window and the payload path
-- that it was drawn against.
pub record BeamAssignment : Type 0 where
  pub stored : Assignment
  pub frequency_window : FrequencyWindow
  pub payload_path_id : ℕ

abbrev pub assignment_validity : BeamAssignment → TimePeriod
assignment_validity a = record { start = a.stored.effective_from; end = a.stored.effective_until }

-- `BeamDirectionConfig`; `spectrum_resources` holds, for each link, the resource and its leg. A blank
-- canonical leg and an absent foreign key are `none`.
pub record DirectionConfig : Type 0 where
  pub beam_id : ℕ
  pub direction : Direction
  pub payload_path_id : ℕ
  pub payload_path : Option PayloadPath
  pub uplink_window : Option FrequencyWindow
  pub downlink_window : Option FrequencyWindow
  pub canonical_leg : Option Leg
  pub spectral_inversion_override : Option Bool
  pub spectrum_resources : List (ℕ × Leg)
  pub spectrum_assignments : List BeamAssignment

abbrev path_inverts : Option PayloadPath → Bool
path_inverts none = false
path_inverts (some path) = is_inverting path

abbrev override_or : Option Bool → Bool → Bool
override_or none inherited = inherited
override_or (some overriding) inherited = overriding

-- `BeamDirectionConfig.inverts`
abbrev pub config_inverts : DirectionConfig → Bool
config_inverts config =
    override_or config.spectral_inversion_override (path_inverts config.payload_path)
