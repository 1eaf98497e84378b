-- ===== src/Calculations/Gaps/Apart.antt =====
-- The free ranges of one entitlement beside each other (`subtract` of calculations/gaps.py).
use vsat_frequency_managemen.Calculations.Gaps.{
  advanced, free_below, is_outside, sort_by_edge, start_le, subtract, sweep,
}
use vsat_frequency_managemen.Calculations.Ranges.{FrequencyRange, IsRange, overlaps}
use vsat_frequency_managemen.Calculations.Ranges.Pairs.{IsApart}
use vsat_frequency_managemen.Prelude.{
  All, All-append, All-map, Bool-cases, List, [], arith, false, inl, inr, ◌++◌, ◌∷◌, ◌≡◌,
}
use vsat_frequency_managemen.Prelude.Int.{ℤ, ◌≤ℤ◌}
use vsat_frequency_managemen.Prelude.Sort.{All-sorted}

-- A free range that begins at the cursor or later.
abbrev StartsFrom : ℤ → FrequencyRange → Type 0
StartsFrom cursor r = (cursor ≤ℤ r.start_hz) × IsRange r

later-StartsFrom : (a b : ℤ) → a ≤ℤ b → (r : FrequencyRange) → StartsFrom b r → StartsFrom a r
later-StartsFrom a b h r s = (omega (arith, h, s.0), s.1)

advanced_on : (e t : FrequencyRange) (cursor : ℤ) → cursor ≤ℤ advanced e cursor t
advanced_on e t cursor = ground arith

free_below-StartsFrom :
    (e t : FrequencyRange) (cursor : ℤ) → All (StartsFrom cursor) (free_below e cursor t)
free_below-StartsFrom e t cursor = ground arith

sweep-StartsFrom :
    (e : FrequencyRange) (cursor : ℤ) (occupied : List FrequencyRange)
    → All (StartsFrom cursor) (sweep e cursor occupied)
unfolding sweep
sweep-StartsFrom e cursor [] = ground arith
sweep-StartsFrom e cursor (t ∷ rest) = elim (Bool-cases (is_outside e t)) [
  | inl outside ↦ rw outside (sweep-StartsFrom e cursor rest)
  | inr inside ↦ rw inside (
      All-append (StartsFrom cursor) (free_below e cursor t) (sweep e (advanced e cursor t) rest)
        (free_below-StartsFrom e t cursor)
        (All-map (later-StartsFrom cursor (advanced e cursor t) (advanced_on e t cursor))
          (sweep e (advanced e cursor t) rest) (sweep-StartsFrom e (advanced e cursor t) rest)))
]

-- The free range below an occupied one ends before the cursor moves on.
below_ends :
    (e t : FrequencyRange) (cursor : ℤ)
    → IsRange t
    → IsRange e
    → is_outside e t ≡ false
    → All (λ r. r.end_hz ≤ℤ advanced e cursor t) (free_below e cursor t)
below_ends e t cursor whole part inside = ground arith

apart_from :
    (r : FrequencyRange) (cursor : ℤ) (x : FrequencyRange)
    → r.end_hz ≤ℤ cursor
    → StartsFrom cursor x
    → overlaps r x ≡ false
apart_from r cursor x h s = ground arith

-- At most one free range below, and the later ones start past its end.
joined-IsApart :
    (cursor : ℤ) (below later : List FrequencyRange)
    → IsApart below
    → All (λ r. r.end_hz ≤ℤ cursor) below
    → All (StartsFrom cursor) later
    → IsApart later
    → IsApart (below ++ later)
joined-IsApart cursor [] later hb he hs hl = hl
joined-IsApart cursor (r ∷ below) later hb he hs hl = (
  All-append (λ x. overlaps r x ≡ false) below later hb.0
      (All-map (λ x s. apart_from r cursor x he.0 s) later hs),
  joined-IsApart cursor below later hb.1 he.1 hs hl,
)

free_below-IsApart : (e t : FrequencyRange) (cursor : ℤ) → IsApart (free_below e cursor t)
free_below-IsApart e t cursor = ground arith

sweep-IsApart :
    (e : FrequencyRange) (cursor : ℤ) (occupied : List FrequencyRange)
    → IsRange e
    → All IsRange occupied
    → IsApart (sweep e cursor occupied)
unfolding sweep
sweep-IsApart e cursor [] part h = ground arith
sweep-IsApart e cursor (t ∷ rest) part h = elim (Bool-cases (is_outside e t)) [
  | inl outside ↦ rw outside (sweep-IsApart e cursor rest part h.1)
  | inr inside ↦ rw inside (
      joined-IsApart (advanced e cursor t) (free_below e cursor t)
        (sweep e (advanced e cursor t) rest) (free_below-IsApart e t cursor)
        (below_ends e t cursor h.0 part inside) (sweep-StartsFrom e (advanced e cursor t) rest)
        (sweep-IsApart e (advanced e cursor t) rest part h.1))
]

-- `subtract` yields ranges of some width, no two of which overlap, from ranges in any order.
pub subtract-IsApart :
    (entitlement : FrequencyRange) (occupied : List FrequencyRange)
    → IsRange entitlement
    → All IsRange occupied
    → All IsRange (subtract entitlement occupied) × IsApart (subtract entitlement occupied)
unfolding subtract sort_by_edge
subtract-IsApart entitlement occupied part h = (
  All-map (λ r s. s.1) _
      (sweep-StartsFrom entitlement entitlement.start_hz (sort_by_edge occupied)),
  sweep-IsApart entitlement entitlement.start_hz (sort_by_edge occupied) part
      (All-sorted start_le IsRange occupied h),
)
