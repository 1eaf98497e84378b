-- ===== src/Calculations/Translation.antt =====
-- Payload translation between uplink and downlink (calculations/translation.py).
pub mod Inverse
use vsat_frequency_managemen.Calculations.Errors.{Error, value_error}
use vsat_frequency_managemen.Calculations.Ranges.{FrequencyRange, reflect, shift}
use vsat_frequency_managemen.Prelude.{
  Bool, Result, err, false, if◌then◌else◌, not, ok, true, ◌&&◌, ◌||◌,
}
use vsat_frequency_managemen.Prelude.Int.{ltb_ℤ, negate, pos, ℤ, ◌+ℤ◌, ◌-ℤ◌}

pub data TranslationMethod : Type 0 where
  offset_add offset_subtract lo_reflect : TranslationMethod

-- `TranslationSpec`, less its display label.
pub record TranslationSpec : Type 0 where
  pub method : TranslationMethod
  pub constant_hz : ℤ
  pub spectral_inversion : Bool

-- `TranslationSpec(...)`, with the check of `__post_init__`.
unfoldable pub translation_spec : TranslationMethod → ℤ → Bool → Result Error TranslationSpec
translation_spec method constant_hz spectral_inversion =
    if ltb_ℤ constant_hz (pos 0)
    then err value_error
    else ok (record {
      method = method;
      constant_hz = constant_hz;
      spectral_inversion = spectral_inversion;
    })

-- `method is TranslationMethod.LO_REFLECT`
abbrev pub is_lo_reflect : TranslationMethod → Bool
is_lo_reflect lo_reflect = true
is_lo_reflect _ = false

abbrev pub inverts : TranslationSpec → Bool
inverts spec = is_lo_reflect spec.method || spec.spectral_inversion

abbrev pub is_contradictory : TranslationSpec → Bool
is_contradictory spec = spec.spectral_inversion && not (is_lo_reflect spec.method)

abbrev translate_by : TranslationMethod → FrequencyRange → ℤ → Result Error FrequencyRange
translate_by offset_add uplink k = shift uplink k
translate_by offset_subtract uplink k = shift uplink (negate k)
translate_by lo_reflect uplink k = reflect uplink k

unfoldable pub translate : FrequencyRange → TranslationSpec → Result Error FrequencyRange
translate uplink spec = translate_by spec.method uplink spec.constant_hz

abbrev untranslate_by : TranslationMethod → FrequencyRange → ℤ → Result Error FrequencyRange
untranslate_by offset_add downlink k = shift downlink (negate k)
untranslate_by offset_subtract downlink k = shift downlink k
untranslate_by lo_reflect downlink k = reflect downlink k

unfoldable pub untranslate : FrequencyRange → TranslationSpec → Result Error FrequencyRange
untranslate downlink spec = untranslate_by spec.method downlink spec.constant_hz

abbrev translate_frequency_by : TranslationMethod → ℤ → ℤ → ℤ
translate_frequency_by offset_add hz k = hz +ℤ k
translate_frequency_by offset_subtract hz k = hz -ℤ k
translate_frequency_by lo_reflect hz k = k -ℤ hz

unfoldable pub translate_frequency : ℤ → TranslationSpec → ℤ
translate_frequency uplink_hz spec = translate_frequency_by spec.method uplink_hz spec.constant_hz
