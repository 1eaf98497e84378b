-- ===== src/Calculations/Bandwidth/Sides.antt =====
-- Both sides of a placement (calculations/bandwidth.py, `place` and `place_both_sides`).
use vsat_frequency_managemen.Calculations.Bandwidth.{
  BandwidthRequest, Placement, TwoSidedPlacement, both_sides, place, place_both_sides,
  resolve_request, widths_agree,
}
use vsat_frequency_managemen.Calculations.Bandwidth.Images.{IsImage, image_of-IsImage}
use vsat_frequency_managemen.Calculations.Placement.{GuardWidths, guard_total_hz}
use vsat_frequency_managemen.Calculations.Placement.Widths.{
  IsCentred, allocated_range-wider, occupied_range-IsCentred,
}
use vsat_frequency_managemen.Calculations.Ranges.{FrequencyRange, IsRange, contains, width_hz}
use vsat_frequency_managemen.Calculations.Translation.{
  TranslationSpec, inverts, translate, untranslate,
}
use vsat_frequency_managemen.Calculations.Translation.Inverse.{untranslate-translate}
use vsat_frequency_managemen.Calculations.Validation.{check_two_sided, is_placeable}
use vsat_frequency_managemen.Calculations.Validation.Verdicts.{
  is_placeable-check_two_sided, is_sound, within,
}
use vsat_frequency_managemen.Prelude.{
  Bool, Option, ap, arith, false, if◌then◌else◌, ok, refl, sym, true, ℕ, ◌&&◌, ◌<◌, ◌>>=◌, ◌∙◌, ◌≡◌,
}
use vsat_frequency_managemen.Prelude.Int.{pos, ℤ, ◌+ℤ◌, ◌≤ℤ◌}
use vsat_frequency_managemen.Spectrum.{guarded}

-- Guards that are not negative.
abbrev pub AreGuards : GuardWidths → Type 0
AreGuards g = (pos 0 ≤ℤ g.left_hz) × (pos 0 ≤ℤ g.right_hz)

-- What `place` owes its callers.
pub record IsPlaced (centre : ℤ) (n : ℕ) (guards : GuardWidths) (p : Placement) : Type 0 where
  pub centred : IsCentred centre n p.occupied
  pub whole : IsRange p.allocated
  pub holds : contains p.allocated p.occupied ≡ true
  pub guards_added : width_hz p.allocated ≡ width_hz p.occupied +ℤ guard_total_hz guards
  pub bandwidth : p.occupied_bandwidth ≡ width_hz p.occupied

contains-IsRange : (r other : FrequencyRange) → contains r other ≡ true → IsRange other → IsRange r
contains-IsRange r other e h = ground arith

pub place-IsPlaced :
    (request : BandwidthRequest) (centre : ℤ) (guards : GuardWidths) (rate : ℤ) (n : ℕ)
    → resolve_request request ≡ ok (rate, pos n)
    → 0 < n
    → AreGuards guards
    → (p : Placement) × (place request centre guards ≡ ok p) × IsPlaced centre n guards p
unfolding place
place-IsPlaced request centre guards rate n resolved positive g =
    let (occupied, placed, centred) = occupied_range-IsCentred centre n positive in
    let (allocated, widened, holds, guarded) =
      allocated_range-wider occupied guards centred.whole g.0 g.1 in
    (
      record {
        symbol_rate = rate;
        rolloff = request.rolloff;
        occupied_bandwidth = width_hz occupied;
        occupied = occupied;
        allocated = allocated;
        guards = guards;
      },
      rw (resolved, placed, widened) refl,
      record {
        centred = centred;
        whole = contains-IsRange allocated occupied holds centred.whole;
        holds = holds;
        guards_added = guarded;
        bandwidth = refl;
      },
    )

-- Moving there and back from the side that was entered.
forward_from_image :
    (spec : TranslationSpec) (r r' : FrequencyRange)
    → IsRange r
    → untranslate r spec ≡ ok r'
    → translate r' spec ≡ ok r
forward_from_image spec r r' h e =
    sym (ap (λ m. m >>= λ u. translate u spec) e) ∙ (untranslate-translate spec r h).1

-- The side that a caller enters.
abbrev pub entered_side : (entered_uplink : Bool) → TwoSidedPlacement → Placement
entered_side entered_uplink p = if entered_uplink then p.uplink else p.downlink

-- What `place_both_sides` owes its callers.
pub record AreSides (spec : TranslationSpec) (p : TwoSidedPlacement) : Type 0 where
  pub occupied_moves : translate p.uplink.occupied spec ≡ ok p.downlink.occupied
  pub allocated_moves : translate p.uplink.allocated spec ≡ ok p.downlink.allocated
  pub agree : widths_agree p ≡ true
  pub unblocked :
      (up down : Option FrequencyRange) (up_guard down_guard : ℤ)
      → is_placeable (check_two_sided p up down up_guard down_guard)
        ≡ within up p.uplink.allocated && within down p.downlink.allocated

is_sound_of :
    (p : Placement)
    → contains p.allocated p.occupied ≡ true
    → p.occupied_bandwidth ≡ width_hz p.occupied
    → is_sound p ≡ true
is_sound_of p holds e = rw e (ground (arith, holds))

sides_agree :
    (p : TwoSidedPlacement)
    → width_hz p.uplink.occupied ≡ width_hz p.downlink.occupied
    → width_hz p.uplink.allocated ≡ width_hz p.downlink.allocated
    → widths_agree p ≡ true
unfolding widths_agree
sides_agree p eo ea = rw (eo, ea) (ground arith)

-- Two sound placements, as wide as each other, that the translation takes to one another.
assembled :
    (spec : TranslationSpec) (p : TwoSidedPlacement)
    → translate p.uplink.occupied spec ≡ ok p.downlink.occupied
    → translate p.uplink.allocated spec ≡ ok p.downlink.allocated
    → widths_agree p ≡ true
    → is_sound p.uplink ≡ true
    → is_sound p.downlink ≡ true
    → AreSides spec p
assembled spec p occupied_moves allocated_moves agree sound_up sound_down = record {
  occupied_moves = occupied_moves;
  allocated_moves = allocated_moves;
  agree = agree;
  unblocked = λ up down up_guard down_guard.
      is_placeable-check_two_sided p up down up_guard down_guard
      ∙ all_sound (within up p.uplink.allocated) (within down p.downlink.allocated)
          (is_sound p.uplink) (is_sound p.downlink) (widths_agree p) sound_up sound_down agree;
}
  where
    all_sound :
        (a b su sd w : Bool)
        → su ≡ true
        → sd ≡ true
        → w ≡ true
        → (su && a) && (sd && b) && w ≡ a && b
    all_sound a b su sd w u d e = rw (u, d, e) (ground arith)

entered_sound :
    (centre : ℤ) (n : ℕ) (guards : GuardWidths) (p : Placement)
    → IsPlaced centre n guards p
    → is_sound p ≡ true
entered_sound centre n guards p h = is_sound_of p h.holds h.bandwidth

image_sound :
    (centre : ℤ) (n : ℕ) (guards : GuardWidths) (forward : Bool) (spec : TranslationSpec)
    (p image : Placement)
    → IsPlaced centre n guards p
    → IsImage forward spec p image
    → is_sound image ≡ true
image_sound centre n guards forward spec p image h i =
    is_sound_of image i.holds (i.same_bandwidth ∙ h.bandwidth ∙ sym i.same_occupied)

-- A request that comes to a positive bandwidth, with guards that are not negative, is placed on both
-- sides, whichever side the caller enters. The side that the argument names, the uplink or the
-- downlink, is the placement of the request around the centre, and the result records that argument
-- and whether the translation inverts. The translation takes the occupied and the allocated range of the uplink to those of the downlink,
-- the widths of the two sides agree, and nothing but a window that does not contain its side's
-- allocation blocks the placement.
pub place_both_sides-AreSides :
    (request : BandwidthRequest) (centre : ℤ) (guards : GuardWidths) (spec : TranslationSpec)
    (entered_uplink : Bool) (rate : ℤ) (n : ℕ)
    → resolve_request request ≡ ok (rate, pos n)
    → 0 < n
    → AreGuards guards
    → (p : TwoSidedPlacement) × (place_both_sides request centre guards spec entered_uplink ≡ ok p)
      × (place request centre guards ≡ ok (entered_side entered_uplink p))
      × IsPlaced centre n guards (entered_side entered_uplink p)
      × (p.entered_uplink ≡ entered_uplink)
      × (p.inverted ≡ inverts spec)
      × AreSides spec p
unfolding place_both_sides
place_both_sides-AreSides request centre guards spec true rate n resolved positive g =
    let (e, placed, is_placed) = place-IsPlaced request centre guards rate n resolved positive g in
    let (image, imaged, is_image) =
      image_of-IsImage e spec true is_placed.centred.whole is_placed.whole is_placed.holds in
    (
      both_sides true spec e image,
      rw (placed, imaged) refl,
      placed,
      is_placed,
      refl,
      refl,
      assembled spec (both_sides true spec e image) is_image.occupied_moves is_image.allocated_moves
          (sides_agree (both_sides true spec e image) (sym is_image.same_occupied)
            (sym is_image.same_allocated))
          (entered_sound centre n guards e is_placed)
          (image_sound centre n guards true spec e image is_placed is_image),
    )
place_both_sides-AreSides request centre guards spec false rate n resolved positive g =
    let (e, placed, is_placed) = place-IsPlaced request centre guards rate n resolved positive g in
    let (image, imaged, is_image) =
      image_of-IsImage e spec false is_placed.centred.whole is_placed.whole is_placed.holds in
    (
      both_sides false spec e image,
      rw (placed, imaged) refl,
      placed,
      is_placed,
      refl,
      refl,
      assembled spec (both_sides false spec e image)
          (forward_from_image spec e.occupied image.occupied is_placed.centred.whole
            is_image.occupied_moves)
          (forward_from_image spec e.allocated image.allocated is_placed.whole
            is_image.allocated_moves)
          (sides_agree (both_sides false spec e image) is_image.same_occupied
            is_image.same_allocated)
          (image_sound centre n guards false spec e image is_placed is_image)
          (entered_sound centre n guards e is_placed),
    )
