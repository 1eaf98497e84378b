-- ===== src/Calculations/Bandwidth/Images.antt =====
-- The other side of a placement (calculations/bandwidth.py, `_image_of`).
use vsat_frequency_managemen.Calculations.Bandwidth.{Placement, image_of, move_by}
use vsat_frequency_managemen.Calculations.Errors.{Error}
use vsat_frequency_managemen.Calculations.Ranges.{
  FrequencyRange, IsRange, contains, reflect, shift, width_hz,
}
use vsat_frequency_managemen.Calculations.Ranges.Moves.{reflect_lem, shift_lem}
use vsat_frequency_managemen.Calculations.Translation.{
  TranslationMethod, TranslationSpec, lo_reflect, offset_add, offset_subtract, translate,
  untranslate,
}
use vsat_frequency_managemen.Calculations.Translation.Inverse.{translate_ok, untranslate_ok}
use vsat_frequency_managemen.Prelude.{
  Bool, Result, arith, false, ok, ok-injective, refl, sym, true, ◌∙◌, ◌≡◌,
}
use vsat_frequency_managemen.Prelude.Int.{add_parts, negate, sub_parts, ℤ}

-- Moving two intervals to the other side keeps one inside the other.
contains-shift :
    (a o a' o' : FrequencyRange) (d : ℤ)
    → shift a d ≡ ok a'
    → shift o d ≡ ok o'
    → IsRange a
    → IsRange o
    → contains a o ≡ true
    → contains a' o' ≡ true
contains-shift a o a' o' d ea eo ha ho e =
    let at_a = ok-injective (sym ea ∙ shift_lem a d ha) in
    let at_o = ok-injective (sym eo ∙ shift_lem o d ho) in
    rw (at_a, at_o)
      (ground (
        arith,
        add_parts a.start_hz d,
        add_parts a.end_hz d,
        add_parts o.start_hz d,
        add_parts o.end_hz d,
      ))

contains-reflect :
    (a o a' o' : FrequencyRange) (k : ℤ)
    → reflect a k ≡ ok a'
    → reflect o k ≡ ok o'
    → IsRange a
    → IsRange o
    → contains a o ≡ true
    → contains a' o' ≡ true
contains-reflect a o a' o' k ea eo ha ho e =
    let at_a = ok-injective (sym ea ∙ reflect_lem a k ha) in
    let at_o = ok-injective (sym eo ∙ reflect_lem o k ho) in
    rw (at_a, at_o)
      (ground (
        arith,
        sub_parts k a.start_hz,
        sub_parts k a.end_hz,
        sub_parts k o.start_hz,
        sub_parts k o.end_hz,
      ))

-- A move by either direction of a translation, and what it keeps.
move_ok :
    (forward : Bool) (spec : TranslationSpec) (r : FrequencyRange)
    → IsRange r
    → (r' : FrequencyRange) × (move_by forward r spec ≡ ok r')
      × IsRange r'
      × (width_hz r' ≡ width_hz r)
move_ok true spec r h = translate_ok spec r h
move_ok false spec r h = untranslate_ok spec r h

-- The common form of the six moves.
data IsMove : (FrequencyRange → Result Error FrequencyRange) → Type 1 where
  by_shift : (d : ℤ) → IsMove (λ r. shift r d)
  by_reflect : (k : ℤ) → IsMove (λ r. reflect r k)

move_contains :
    (f : FrequencyRange → Result Error FrequencyRange)
    → IsMove f
    → (a o a' o' : FrequencyRange) → f a ≡ ok a'
    → f o ≡ ok o'
    → IsRange a
    → IsRange o
    → contains a o ≡ true
    → contains a' o' ≡ true
move_contains _ (by_shift d) a o a' o' = contains-shift a o a' o' d
move_contains _ (by_reflect k) a o a' o' = contains-reflect a o a' o' k

move_by-IsMove : (forward : Bool) (spec : TranslationSpec) → IsMove (λ r. move_by forward r spec)
unfolding translate untranslate
move_by-IsMove forward spec = by_method forward spec.method spec.constant_hz
  where
    by_method :
        (forward : Bool) (m : TranslationMethod) (k : ℤ)
        → IsMove (λ r.
          move_by forward r
            (record { method = m; constant_hz = k; spectral_inversion = spec.spectral_inversion }))
    by_method true offset_add k = by_shift k
    by_method true offset_subtract k = by_shift (negate k)
    by_method true lo_reflect k = by_reflect k
    by_method false offset_add k = by_shift (negate k)
    by_method false offset_subtract k = by_shift k
    by_method false lo_reflect k = by_reflect k

-- The image of a placement on the other side.
pub record IsImage (forward : Bool) (spec : TranslationSpec) (source image : Placement)
    : Type 0 where
  pub occupied_moves : move_by forward source.occupied spec ≡ ok image.occupied
  pub allocated_moves : move_by forward source.allocated spec ≡ ok image.allocated
  pub same_occupied : width_hz image.occupied ≡ width_hz source.occupied
  pub same_allocated : width_hz image.allocated ≡ width_hz source.allocated
  pub same_bandwidth : image.occupied_bandwidth ≡ source.occupied_bandwidth
  pub holds : contains image.allocated image.occupied ≡ true

pub image_of-IsImage :
    (source : Placement) (spec : TranslationSpec) (forward : Bool)
    → IsRange source.occupied
    → IsRange source.allocated
    → contains source.allocated source.occupied ≡ true
    → (image : Placement) × (image_of source spec forward ≡ ok image)
      × IsImage forward spec source image
unfolding image_of
image_of-IsImage source spec forward ho ha holds =
    let (occupied, eo, _, wo) = move_ok forward spec source.occupied ho in
    let (allocated, ea, _, wa) = move_ok forward spec source.allocated ha in
    (
      record source { occupied = occupied; allocated = allocated },
      rw (eo, ea) refl,
      record {
        occupied_moves = eo;
        allocated_moves = ea;
        same_occupied = wo;
        same_allocated = wa;
        same_bandwidth = refl;
        holds =
            move_contains (λ r. move_by forward r spec) (move_by-IsMove forward spec)
              source.allocated source.occupied allocated occupied ea eo ha ho holds;
      },
    )
