-- ===== src/Calculations/Translation/Inverse.antt =====
-- `translate` and `untranslate` of calculations/translation.py, one after the other.
use vsat_frequency_managemen.Calculations.Errors.{Error}
use vsat_frequency_managemen.Calculations.Ranges.{FrequencyRange, IsRange, reflect, shift, width_hz}
use vsat_frequency_managemen.Calculations.Ranges.Moves.{
  reflect-reflect, reflect_lem, shift-shift, shift-shift_back, shift_lem, width_hz-reflect,
  width_hz-shift,
}
use vsat_frequency_managemen.Calculations.Translation.{
  TranslationMethod, TranslationSpec, lo_reflect, offset_add, offset_subtract, translate,
  translate_by, untranslate, untranslate_by,
}
use vsat_frequency_managemen.Prelude.{Result, err, ok, refl, ◌>>=◌, ◌≡◌}
use vsat_frequency_managemen.Prelude.Int.{negate, ℤ}

-- What a move of an interval leaves: another range, as wide.
abbrev Moved : FrequencyRange → Result Error FrequencyRange → Type 0
Moved r (ok r') = IsRange r' × (width_hz r' ≡ width_hz r)
Moved r (err e) = ⊥

shift-Moved : (r : FrequencyRange) (d : ℤ) → IsRange r → Moved r (shift r d)
shift-Moved r d h = let e = shift_lem r d h in rw e (width_hz-shift r d h e)

reflect-Moved : (r : FrequencyRange) (k : ℤ) → IsRange r → Moved r (reflect r k)
reflect-Moved r k h = let e = reflect_lem r k h in rw e (width_hz-reflect r k h e)

translate_by-Moved :
    (m : TranslationMethod) (r : FrequencyRange) (k : ℤ) → IsRange r → Moved r (translate_by m r k)
translate_by-Moved offset_add r k h = shift-Moved r k h
translate_by-Moved offset_subtract r k h = shift-Moved r (negate k) h
translate_by-Moved lo_reflect r k h = reflect-Moved r k h

untranslate_by-Moved :
    (m : TranslationMethod) (r : FrequencyRange) (k : ℤ)
    → IsRange r
    → Moved r (untranslate_by m r k)
untranslate_by-Moved offset_add r k h = shift-Moved r (negate k) h
untranslate_by-Moved offset_subtract r k h = shift-Moved r k h
untranslate_by-Moved lo_reflect r k h = reflect-Moved r k h

Moved-ok :
    (r : FrequencyRange) (m : Result Error FrequencyRange)
    → Moved r m
    → (r' : FrequencyRange) × (m ≡ ok r') × IsRange r' × (width_hz r' ≡ width_hz r)
Moved-ok r (ok r') h = (r', refl, h.0, h.1)
Moved-ok r (err e) h = elim h [ ]

-- Translating an interval never fails, and yields an interval of the same width, by every method.
pub translate_ok :
    (spec : TranslationSpec) (r : FrequencyRange)
    → IsRange r
    → (r' : FrequencyRange) × (translate r spec ≡ ok r') × IsRange r' × (width_hz r' ≡ width_hz r)
unfolding translate
translate_ok spec r h = Moved-ok r _ (translate_by-Moved spec.method r spec.constant_hz h)

pub untranslate_ok :
    (spec : TranslationSpec) (r : FrequencyRange)
    → IsRange r
    → (r' : FrequencyRange) × (untranslate r spec ≡ ok r') × IsRange r' × (width_hz r' ≡ width_hz r)
unfolding untranslate
untranslate_ok spec r h = Moved-ok r _ (untranslate_by-Moved spec.method r spec.constant_hz h)

round_trip :
    (m : TranslationMethod) (r : FrequencyRange) (k : ℤ)
    → IsRange r
    → (translate_by m r k >>= λ d. untranslate_by m d k) ≡ ok r
round_trip offset_add r k h = shift-shift r k h
round_trip offset_subtract r k h = shift-shift_back r k h
round_trip lo_reflect r k h = reflect-reflect r k h

round_trip_back :
    (m : TranslationMethod) (r : FrequencyRange) (k : ℤ)
    → IsRange r
    → (untranslate_by m r k >>= λ u. translate_by m u k) ≡ ok r
round_trip_back offset_add r k h = shift-shift_back r k h
round_trip_back offset_subtract r k h = shift-shift r k h
round_trip_back lo_reflect r k h = reflect-reflect r k h

-- Translating an interval to the other side of the payload and back, from either side, returns it
-- exactly, by every method.
pub untranslate-translate :
    (spec : TranslationSpec) (r : FrequencyRange)
    → IsRange r
    → ((translate r spec >>= λ d. untranslate d spec) ≡ ok r)
      × ((untranslate r spec >>= λ u. translate u spec) ≡ ok r)
unfolding translate untranslate
untranslate-translate spec r h =
    (round_trip spec.method r spec.constant_hz h, round_trip_back spec.method r spec.constant_hz h)
