-- ===== src/Calculations/Conversion/Inverse.antt =====
-- `to_intermediate` and `to_radio` of calculations/conversion.py, one after the other.
use vsat_frequency_managemen.Calculations.Conversion.{
  ConversionMethod, EquipmentProfileSpec, check_non_negative, down_convert, fixed_offset,
  lo_minus_if, lo_plus_if, reflect_checked, to_intermediate, to_radio, translation_hz, up_convert,
}
use vsat_frequency_managemen.Calculations.Errors.{Error, conversion_error}
use vsat_frequency_managemen.Calculations.Ranges.{FrequencyRange, IsRange, shift}
use vsat_frequency_managemen.Calculations.Ranges.Moves.{
  reflect_lem, shift-shift_back, shift_lem, width_hz-reflect, width_hz-shift,
}
use vsat_frequency_managemen.Prelude.{
  >>=-eq-ok, Bool-cases, Result, ap, arith, err, err-ne-ok, inl, inr, ok, ok-injective, refl, sym,
  ◌>>=◌, ◌>>◌, ◌∙◌, ◌≡◌,
}
use vsat_frequency_managemen.Prelude.Int.{int_laws, ltb_ℤ, negate, pos, ℤ, ◌-ℤ◌, ◌≤ℤ◌}

abbrev pub OnlyConversion : Result Error FrequencyRange → Type 0
OnlyConversion (ok r) = IsRange r
OnlyConversion (err e) = e ≡ conversion_error

shift-OnlyConversion : (r : FrequencyRange) (d : ℤ) → IsRange r → OnlyConversion (shift r d)
shift-OnlyConversion r d h = let e = shift_lem r d h in rw e (width_hz-shift r d h e).0

reflect_checked-OnlyConversion :
    (r : FrequencyRange) (k : ℤ) → IsRange r → OnlyConversion (reflect_checked r k)
unfolding reflect_checked
reflect_checked-OnlyConversion r k h = elim (Bool-cases (ltb_ℤ k r.end_hz)) [
  | inl over ↦ rw over refl
  | inr fits ↦ let e = reflect_lem r k h in rw (fits, e) (width_hz-reflect r k h e).0
]

checked-OnlyConversion :
    (m : Result Error FrequencyRange)
    → OnlyConversion m
    → OnlyConversion (m >>= λ r. check_non_negative r >> ok r)
unfolding check_non_negative
checked-OnlyConversion (ok r) h = elim (Bool-cases (ltb_ℤ r.start_hz (pos 0))) [
  | inl low ↦ rw low refl
  | inr fine ↦ rw fine h
]
checked-OnlyConversion (err e) h = h

down_convert-OnlyConversion :
    (m : ConversionMethod) (p : EquipmentProfileSpec) (rf : FrequencyRange)
    → IsRange rf
    → OnlyConversion (down_convert m p rf)
unfolding down_convert
down_convert-OnlyConversion lo_plus_if p rf h = shift-OnlyConversion rf (negate p.lo_hz) h
down_convert-OnlyConversion lo_minus_if p rf h = reflect_checked-OnlyConversion rf p.lo_hz h
down_convert-OnlyConversion fixed_offset p rf h =
    shift-OnlyConversion rf (negate (translation_hz p)) h

-- `to_intermediate` yields a range or raises `ConversionError`, which is what `evaluate` catches.
pub to_intermediate-OnlyConversion :
    (rf : FrequencyRange) (p : EquipmentProfileSpec)
    → IsRange rf
    → OnlyConversion (to_intermediate rf p)
unfolding to_intermediate
to_intermediate-OnlyConversion rf p h =
    checked-OnlyConversion _ (down_convert-OnlyConversion p.method p rf h)

ok_of_checked :
    (r i : FrequencyRange) → (check_non_negative r >> ok r) ≡ ok i → (r ≡ i) × (pos 0 ≤ℤ i.start_hz)
unfolding check_non_negative
ok_of_checked r i e = ground arith

checked_ok : (r : FrequencyRange) → pos 0 ≤ℤ r.start_hz → (check_non_negative r >> ok r) ≡ ok r
unfolding check_non_negative
checked_ok r h = ground arith

abbrev mirror : FrequencyRange → ℤ → FrequencyRange
mirror r k = record { start_hz = k -ℤ r.end_hz; end_hz = k -ℤ r.start_hz }

mirror-mirror : (r : FrequencyRange) (k : ℤ) → mirror (mirror r k) k ≡ r
mirror-mirror r k =
    let p : k -ℤ (k -ℤ r.start_hz) ≡ r.start_hz = omega int_laws in
    let q : k -ℤ (k -ℤ r.end_hz) ≡ r.end_hz = omega int_laws in
    λ i. record { start_hz = p i; end_hz = q i }

reflect_checked_fits :
    (r : FrequencyRange) (k : ℤ) → IsRange r → r.end_hz ≤ℤ k → reflect_checked r k ≡ ok (mirror r k)
unfolding reflect_checked
reflect_checked_fits r k h fits = ground (arith, reflect_lem r k h)

reflect_checked-ok : (r i : FrequencyRange) (k : ℤ) → reflect_checked r k ≡ ok i → r.end_hz ≤ℤ k
unfolding reflect_checked
reflect_checked-ok r i k e = elim (Bool-cases (ltb_ℤ k r.end_hz)) [
  | inl over ↦ err-ne-ok (rw over at e)
  | inr fits ↦ ground arith
]

reflect_checked_back :
    (r i : FrequencyRange) (k : ℤ)
    → IsRange r
    → pos 0 ≤ℤ r.start_hz
    → reflect_checked r k ≡ ok i
    → reflect_checked i k ≡ ok r
reflect_checked_back r i k h low e =
    let fits = reflect_checked-ok r i k e in
    let mirrored : mirror r k ≡ i = ok-injective (sym (reflect_checked_fits r k h fits) ∙ e) in
    rw (← mirrored) (
      reflect_checked_fits (mirror r k) k (omega int_laws) (omega int_laws)
      ∙ ap (λ x. ok x) (mirror-mirror r k))

shift_back :
    (r i : FrequencyRange) (d : ℤ) → IsRange r → shift r (negate d) ≡ ok i → shift i d ≡ ok r
shift_back r i d h e = rw e at (shift-shift_back r d h)

down_convert_back :
    (m : ConversionMethod) (p : EquipmentProfileSpec) (rf i : FrequencyRange)
    → IsRange rf
    → pos 0 ≤ℤ rf.start_hz
    → down_convert m p rf ≡ ok i
    → up_convert m p i ≡ ok rf
unfolding down_convert up_convert
down_convert_back lo_plus_if p rf i h low e = shift_back rf i p.lo_hz h e
down_convert_back lo_minus_if p rf i h low e = reflect_checked_back rf i p.lo_hz h low e
down_convert_back fixed_offset p rf i h low e = shift_back rf i (translation_hz p) h e

-- Where `to_intermediate` converts an RF interval above zero, `to_radio` converts the result back to
-- exactly that interval, by every method.
pub to_radio-to_intermediate :
    (rf i : FrequencyRange) (p : EquipmentProfileSpec)
    → IsRange rf
    → pos 0 ≤ℤ rf.start_hz
    → to_intermediate rf p ≡ ok i
    → to_radio i p ≡ ok rf
unfolding to_intermediate to_radio
to_radio-to_intermediate rf i p h low e =
    let (c, converted, checked) = >>=-eq-ok (down_convert p.method p rf) _ e in
    let same = (ok_of_checked c i checked).0 in
    let back = down_convert_back p.method p rf i h low (converted ∙ ap (λ x. ok x) same) in
    rw back (checked_ok rf low)
