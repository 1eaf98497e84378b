-- ===== src/Calculations/Conversion.antt =====
-- RF and IF conversion and equipment matching (calculations/conversion.py). A profile's code is
-- only compared, so it stands as its rank in the order of Python's strings.
pub mod Inverse
pub mod Matching
use vsat_frequency_managemen.Calculations.Errors.{Error, conversion_error, value_error}
use vsat_frequency_managemen.Calculations.Ranges.{FrequencyRange, contains, reflect, shift}
use vsat_frequency_managemen.Prelude.{
  Bool, List, Option, Result, [], err, false, first, if◌then◌else◌, is_some, keep, leb, none, not,
  ok, raise_if, some, true, ℕ, ◌&&◌, ◌++◌, ◌>>=◌, ◌>>◌, ◌||◌, ◌∷◌,
}
use vsat_frequency_managemen.Prelude.Int.{eqb_ℤ, leb_ℤ, ltb_ℤ, negate, pos, ℤ}
use vsat_frequency_managemen.Prelude.Sort.{sorted}

pub data ConversionMethod : Type 0 where
  lo_plus_if lo_minus_if fixed_offset : ConversionMethod

pub data Sideband : Type 0 where
  low_side high_side : Sideband

-- `REQUIRED_SIDEBAND`
abbrev pub required_sideband : ConversionMethod → Option Sideband
required_sideband lo_plus_if = some low_side
required_sideband lo_minus_if = some high_side
required_sideband fixed_offset = none

-- `required is not None and sideband is not required`
abbrev pub sideband_clashes : Option Sideband → Sideband → Bool
sideband_clashes none sideband = false
sideband_clashes (some low_side) low_side = false
sideband_clashes (some high_side) high_side = false
sideband_clashes (some _) _ = true

-- `EquipmentProfileSpec`, less its display label.
pub record EquipmentProfileSpec : Type 0 where
  pub code : ℕ
  pub method : ConversionMethod
  pub sideband : Sideband
  pub lo_hz : ℤ
  pub rf_limits : FrequencyRange
  pub if_limits : FrequencyRange
  pub priority : ℤ
  pub spectral_inversion : Bool
  pub offset_hz : Option ℤ

-- The checks of `__post_init__`.
unfoldable pub check_profile : EquipmentProfileSpec → Result Error (Unit {0})
check_profile profile = do
  raise_if (sideband_clashes (required_sideband profile.method) profile.sideband) value_error
  raise_if (leb_ℤ profile.lo_hz (pos 0)) value_error

abbrev offset_or : Option ℤ → ℤ → ℤ
offset_or none lo_hz = lo_hz
offset_or (some offset_hz) lo_hz = offset_hz

abbrev pub translation_hz : EquipmentProfileSpec → ℤ
translation_hz profile = offset_or profile.offset_hz profile.lo_hz

-- `method is ConversionMethod.LO_MINUS_IF`
abbrev pub is_lo_minus_if : ConversionMethod → Bool
is_lo_minus_if lo_minus_if = true
is_lo_minus_if _ = false

-- `EquipmentProfileSpec.inverts`
abbrev pub profile_inverts : EquipmentProfileSpec → Bool
profile_inverts profile = is_lo_minus_if profile.method || profile.spectral_inversion

unfoldable pub reflect_checked : FrequencyRange → ℤ → Result Error FrequencyRange
reflect_checked source constant_hz =
    if ltb_ℤ constant_hz source.end_hz then err conversion_error else reflect source constant_hz

unfoldable pub check_non_negative : FrequencyRange → Result Error (Unit {0})
check_non_negative converted = raise_if (ltb_ℤ converted.start_hz (pos 0)) conversion_error

unfoldable pub down_convert :
    ConversionMethod → EquipmentProfileSpec → FrequencyRange → Result Error FrequencyRange
unfolding reflect_checked
down_convert lo_plus_if profile rf = shift rf (negate profile.lo_hz)
down_convert lo_minus_if profile rf = reflect_checked rf profile.lo_hz
down_convert fixed_offset profile rf = shift rf (negate (translation_hz profile))

unfoldable pub to_intermediate : FrequencyRange → EquipmentProfileSpec → Result Error FrequencyRange
unfolding down_convert check_non_negative
to_intermediate rf profile = do
  converted ← down_convert profile.method profile rf
  check_non_negative converted
  ok converted

unfoldable pub up_convert :
    ConversionMethod → EquipmentProfileSpec → FrequencyRange → Result Error FrequencyRange
unfolding reflect_checked
up_convert lo_plus_if profile intermediate = shift intermediate profile.lo_hz
up_convert lo_minus_if profile intermediate = reflect_checked intermediate profile.lo_hz
up_convert fixed_offset profile intermediate = shift intermediate (translation_hz profile)

unfoldable pub to_radio : FrequencyRange → EquipmentProfileSpec → Result Error FrequencyRange
unfolding up_convert check_non_negative
to_radio intermediate profile = do
  converted ← up_convert profile.method profile intermediate
  check_non_negative converted
  ok converted

-- Why a profile is not usable; the text of the reason is not modelled.
pub data Rejection : Type 0 where
  rf_outside_limits cannot_convert if_outside_limits : Rejection

pub record ProfileMatch : Type 0 where
  pub profile : EquipmentProfileSpec
  pub intermediate : Option FrequencyRange
  pub rejected_because : Option Rejection

abbrev pub is_usable : ProfileMatch → Bool
is_usable m = not (is_some m.rejected_because)

-- What `evaluate` does with the outcome of `to_intermediate`; `except ConversionError` catches no
-- other exception.
unfoldable pub judge_intermediate :
    EquipmentProfileSpec → Result Error FrequencyRange → Result Error ProfileMatch
judge_intermediate profile (ok intermediate) = ok (record {
  profile = profile;
  intermediate = some intermediate;
  rejected_because =
      if contains profile.if_limits intermediate then none else some if_outside_limits;
})
judge_intermediate profile (err conversion_error) =
    ok (record { profile = profile; intermediate = none; rejected_because = some cannot_convert })
judge_intermediate profile (err e) = err e

unfoldable pub evaluate : FrequencyRange → EquipmentProfileSpec → Result Error ProfileMatch
unfolding judge_intermediate
evaluate rf profile =
    if contains profile.rf_limits rf
    then judge_intermediate profile (to_intermediate rf profile)
    else ok (record {
      profile = profile;
      intermediate = none;
      rejected_because = some rf_outside_limits;
    })

-- `[evaluate(rf, profile) for profile in profiles]`
unfoldable pub evaluate_all :
    FrequencyRange → List EquipmentProfileSpec → Result Error (List ProfileMatch)
evaluate_all rf [] = ok []
evaluate_all rf (profile ∷ profiles) = do
  m ← evaluate rf profile
  rest ← evaluate_all rf profiles
  ok (m ∷ rest)

-- The key of the two sorts: priority, then code.
abbrev pub profile_le : EquipmentProfileSpec → EquipmentProfileSpec → Bool
profile_le a b = ltb_ℤ a.priority b.priority || eqb_ℤ a.priority b.priority && leb a.code b.code

abbrev pub match_le : ProfileMatch → ProfileMatch → Bool
match_le a b = profile_le a.profile b.profile

unfoldable pub order_matches : List ProfileMatch → List ProfileMatch
unfolding sorted
order_matches evaluated =
    sorted match_le (keep is_usable evaluated)
    ++ sorted match_le (keep (λ m. not (is_usable m)) evaluated)

unfoldable pub match_profiles :
    FrequencyRange → List EquipmentProfileSpec → Result Error (List ProfileMatch)
unfolding evaluate_all order_matches
match_profiles rf profiles = do evaluated ← evaluate_all rf profiles; ok (order_matches evaluated)

unfoldable pub best_profile :
    FrequencyRange → List EquipmentProfileSpec → Result Error (Option ProfileMatch)
unfolding match_profiles
best_profile rf profiles = do matches ← match_profiles rf profiles; ok (first is_usable matches)
