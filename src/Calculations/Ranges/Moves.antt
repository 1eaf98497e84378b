-- ===== src/Calculations/Ranges/Moves.antt =====
-- `shift`, `reflect` and `expanded` of calculations/ranges.py, and the widths they leave.
use vsat_frequency_managemen.Calculations.Errors.{Error}
use vsat_frequency_managemen.Calculations.Ranges.{
  FrequencyRange, IsRange, expanded, reflect, shift, width_hz,
}
use vsat_frequency_managemen.Prelude.{Result, arith, ok, ◌>>=◌, ◌∙◌, ◌≡◌}
use vsat_frequency_managemen.Prelude.Int.{
  add_parts, int_laws, negate, pos, sub_parts, ℤ, ◌+ℤ◌, ◌-ℤ◌, ◌≤ℤ◌,
}

pub shift_lem :
    (r : FrequencyRange) (d : ℤ)
    → IsRange r
    → shift r d ≡ ok (record { start_hz = r.start_hz +ℤ d; end_hz = r.end_hz +ℤ d })
unfolding shift
shift_lem r d h = ground (arith, add_parts r.start_hz d, add_parts r.end_hz d)

pub reflect_lem :
    (r : FrequencyRange) (k : ℤ)
    → IsRange r
    → reflect r k ≡ ok (record { start_hz = k -ℤ r.end_hz; end_hz = k -ℤ r.start_hz })
unfolding reflect
reflect_lem r k h = ground (arith, sub_parts k r.start_hz, sub_parts k r.end_hz)

pub expanded_lem :
    (r : FrequencyRange) (left right : ℤ)
    → IsRange r
    → pos 0 ≤ℤ left
    → pos 0 ≤ℤ right
    → expanded r left right
      ≡ ok (record { start_hz = r.start_hz -ℤ left; end_hz = r.end_hz +ℤ right })
unfolding expanded
expanded_lem r left right h hl hr =
    ground (arith, sub_parts r.start_hz left, add_parts r.end_hz right)

-- A shift keeps the width.
pub width_hz-shift :
    (r : FrequencyRange) (d : ℤ) {r' : FrequencyRange}
    → IsRange r
    → shift r d ≡ ok r'
    → IsRange r' × (width_hz r' ≡ width_hz r)
unfolding width_hz
width_hz-shift r d h e = grind (int_laws, shift_lem r d h)

pub width_hz-reflect :
    (r : FrequencyRange) (k : ℤ) {r' : FrequencyRange}
    → IsRange r
    → reflect r k ≡ ok r'
    → IsRange r' × (width_hz r' ≡ width_hz r)
unfolding width_hz
width_hz-reflect r k h e = grind (int_laws, reflect_lem r k h)

range_path :
    (r : FrequencyRange) (a b : ℤ)
    → a ≡ r.start_hz
    → b ≡ r.end_hz
    → ◌≡◌ {A = Result Error FrequencyRange} (ok (record { start_hz = a; end_hz = b })) (ok r)
range_path r a b p q = λ i. ok (record { start_hz = p i; end_hz = q i })

-- Reflection is its own inverse.
pub reflect-reflect :
    (r : FrequencyRange) (k : ℤ) → IsRange r → (reflect r k >>= λ r'. reflect r' k) ≡ ok r
reflect-reflect r k h =
    rw (reflect_lem r k h)
      (reflect_lem _ k (omega int_laws) ∙ range_path r _ _ (omega int_laws) (omega int_laws))

pub shift-shift :
    (r : FrequencyRange) (d : ℤ) → IsRange r → (shift r d >>= λ r'. shift r' (negate d)) ≡ ok r
shift-shift r d h =
    rw (shift_lem r d h)
      (shift_lem _ (negate d) (omega int_laws) ∙ range_path r _ _ (omega int_laws) (omega int_laws))

pub shift-shift_back :
    (r : FrequencyRange) (d : ℤ) → IsRange r → (shift r (negate d) >>= λ r'. shift r' d) ≡ ok r
shift-shift_back r d h =
    rw (shift_lem r (negate d) h)
      (shift_lem _ d (omega int_laws) ∙ range_path r _ _ (omega int_laws) (omega int_laws))
