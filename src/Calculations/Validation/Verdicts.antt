-- ===== src/Calculations/Validation/Verdicts.antt =====
-- Which findings of calculations/validation.py block a placement.
use vsat_frequency_managemen.Calculations.Bandwidth.{Placement, TwoSidedPlacement, widths_agree}
use vsat_frequency_managemen.Calculations.Ranges.{FrequencyRange, contains, width_hz}
use vsat_frequency_managemen.Calculations.Validation.{
  Code, Finding, Prefix, blocks, check_band_advisory, check_edge_guard, check_internal_consistency,
  check_placement, check_two_sided, check_window_containment, downlink_prefix, error, finding,
  found_if, inside_edge_guard, is_placeable, no_guard_applied, occupied_outside_allocated,
  occupied_range_too_narrow, outside_band, outside_window, prefixed, sides_disagree, uplink_prefix,
  warning, with_range,
}
use vsat_frequency_managemen.Prelude.{
  Bool, Bool-cases, List, Option, [], arith, false, inl, inr, none, not, refl, some, true, ◌&&◌,
  ◌++◌, ◌∙◌, ◌∷◌, ◌≡◌,
}
use vsat_frequency_managemen.Prelude.Int.{ltb_ℤ, ℤ}

is_placeable-append :
    (xs ys : List Finding) → is_placeable (xs ++ ys) ≡ is_placeable xs && is_placeable ys
unfolding is_placeable
is_placeable-append [] ys = refl
is_placeable-append (f ∷ fs) ys = elim (Bool-cases (blocks f)) [
  | inl e ↦ rw e refl
  | inr e ↦ rw e (is_placeable-append fs ys)
]

three_parts :
    (xs ys zs : List Finding) {a b c : Bool}
    → is_placeable xs ≡ a
    → is_placeable ys ≡ b
    → is_placeable zs ≡ c
    → is_placeable (xs ++ ys ++ zs) ≡ a && b && c
three_parts xs ys zs x y z = simp (is_placeable-append, x, y, z)

is_placeable-prefixed :
    (p : Prefix) (xs : List Finding) → is_placeable (prefixed p xs) ≡ is_placeable xs
unfolding is_placeable prefixed
is_placeable-prefixed p [] = refl
is_placeable-prefixed p (f ∷ fs) = elim (Bool-cases (blocks f)) [
  | inl e ↦ rw e refl
  | inr e ↦ rw e (is_placeable-prefixed p fs)
]

is_placeable-error : (b : Bool) (c : Code) → is_placeable (found_if b (finding c error)) ≡ not b
unfolding is_placeable
is_placeable-error true c = refl
is_placeable-error false c = refl

is_placeable-warning : (b : Bool) (c : Code) → is_placeable (found_if b (finding c warning)) ≡ true
unfolding is_placeable
is_placeable-warning true c = refl
is_placeable-warning false c = refl

-- What an optional window allows.
abbrev pub within : Option FrequencyRange → FrequencyRange → Bool
within none r = true
within (some w) r = contains w r

-- What a placement itself owes: its allocation holds its transmission, and the transmission's range is
-- as wide as its bandwidth.
abbrev pub is_sound : Placement → Bool
is_sound p =
    contains p.allocated p.occupied && not (ltb_ℤ (width_hz p.occupied) p.occupied_bandwidth)

not_twice : (a b : Bool) → not (not a) && not b && true ≡ a && not b
not_twice a b = ground arith

and_true : (a b : Bool) → a && b && true ≡ a && b
and_true a b = ground arith

not-not : (a : Bool) → not (not a) ≡ a
not-not a = ground arith

none_placeable : is_placeable [] ≡ true
unfolding is_placeable
none_placeable = refl

consistency_placeable : (p : Placement) → is_placeable (check_internal_consistency p) ≡ is_sound p
unfolding check_internal_consistency
consistency_placeable p =
    three_parts _ _ _ (is_placeable-error _ occupied_outside_allocated)
      (is_placeable-error _ occupied_range_too_narrow) (is_placeable-warning _ no_guard_applied)
    ∙ not_twice (contains p.allocated p.occupied) _

window_placeable :
    (p : Placement) (w : Option FrequencyRange) (g : ℤ)
    → is_placeable (with_range w (λ r. check_window_containment p r g)) ≡ within w p.allocated
unfolding check_window_containment check_edge_guard
window_placeable p none g = none_placeable
window_placeable p (some w) g = elim (Bool-cases (contains w p.allocated)) [
  | inl e ↦ rw e (is_placeable-warning _ inside_edge_guard)
  | inr e ↦ rw e (is_placeable-error true outside_window)
]

band_placeable :
    (p : Placement) (b : Option FrequencyRange)
    → is_placeable (with_range b (λ r. check_band_advisory p r)) ≡ true
unfolding check_band_advisory
band_placeable p none = none_placeable
band_placeable p (some b) = is_placeable-warning _ outside_band

pub check_placement_placeable :
    (p : Placement) (w : Option FrequencyRange) (g : ℤ) (b : Option FrequencyRange)
    → is_placeable (check_placement p w g b) ≡ is_sound p && within w p.allocated
unfolding check_placement
check_placement_placeable p w g b =
    three_parts _ _ _ (consistency_placeable p) (window_placeable p w g) (band_placeable p b)
    ∙ and_true (is_sound p) (within w p.allocated)

-- A two-sided placement is blocked by nothing exactly when each side's allocation holds its
-- transmission, each transmission's range is as wide as its bandwidth, each allocation is inside its
-- window (where one is given), and the widths of the two sides agree. Edge guards never block.
pub is_placeable-check_two_sided :
    (p : TwoSidedPlacement) (up down : Option FrequencyRange) (gu gd : ℤ)
    → is_placeable (check_two_sided p up down gu gd)
      ≡ (is_sound p.uplink && within up p.uplink.allocated)
        && (is_sound p.downlink && within down p.downlink.allocated)
        && widths_agree p
unfolding check_two_sided
is_placeable-check_two_sided p up down gu gd =
    three_parts _ _ _
      (is_placeable-prefixed uplink_prefix _ ∙ check_placement_placeable p.uplink up gu none)
      (is_placeable-prefixed downlink_prefix _ ∙ check_placement_placeable p.downlink down gd none)
      (is_placeable-error _ sides_disagree ∙ not-not (widths_agree p))
