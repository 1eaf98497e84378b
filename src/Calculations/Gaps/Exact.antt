-- ===== src/Calculations/Gaps/Exact.antt =====
-- What `subtract` of calculations/gaps.py leaves of an entitlement, frequency by frequency.
use vsat_frequency_managemen.Calculations.Gaps.{
  advanced, free_below, is_outside, sort_by_edge, start_le, subtract, sweep,
}
use vsat_frequency_managemen.Calculations.Ranges.{FrequencyRange, contains_hz}
use vsat_frequency_managemen.Prelude.{
  All, Bool, Bool-cases, List, [], any, ap, arith, false, inl, inr, not, refl, true, ◌&&◌, ◌++◌,
  ◌||◌, ◌∙◌, ◌∷◌, ◌≡◌,
}
use vsat_frequency_managemen.Prelude.Int.{leb_ℤ, ltb_ℤ, ℤ, ◌<ℤ◌, ◌≤ℤ◌}
use vsat_frequency_managemen.Prelude.Sort.{IsSorted, any-sorted, sorted-IsSorted}

-- Does one of the ranges hold this frequency?
abbrev pub covers : ℤ → List FrequencyRange → Bool
covers f ranges = any (λ r. contains_hz r f) ranges

covers-append :
    (f : ℤ) (xs ys : List FrequencyRange) → covers f (xs ++ ys) ≡ (covers f xs || covers f ys)
covers-append f [] ys = refl
covers-append f (x ∷ xs) ys = ground (arith, covers-append f xs ys)

-- Nothing that starts above a frequency holds it.
above_misses :
    (f : ℤ) (t : FrequencyRange) (rest : List FrequencyRange)
    → f <ℤ t.start_hz
    → All (λ r. start_le t r ≡ true) rest
    → covers f rest ≡ false
above_misses f t [] h hs = refl
above_misses f t (r ∷ rest) h hs = ground (arith, above_misses f t rest h hs.1)

-- A frequency of the entitlement is not in a range outside it.
outside_misses :
    (f : ℤ) (e t : FrequencyRange)
    → is_outside e t ≡ true
    → e.start_hz ≤ℤ f
    → f <ℤ e.end_hz
    → contains_hz t f ≡ false
outside_misses f e t h lo hi = ground arith

free_below-covers :
    (f : ℤ) (e t : FrequencyRange) (cursor : ℤ)
    → e.start_hz ≤ℤ cursor
    → covers f (free_below e cursor t) ≡ (leb_ℤ cursor f && ltb_ℤ f t.start_hz)
free_below-covers f e t cursor lo = ground arith

leb-advanced :
    (f : ℤ) (e t : FrequencyRange) (cursor : ℤ)
    → leb_ℤ (advanced e cursor t) f ≡ (leb_ℤ cursor f && (leb_ℤ t.end_hz f || leb_ℤ e.end_hz f))
leb-advanced f e t cursor = ground arith

passed_lem :
    (f : ℤ) (e t : FrequencyRange) (cursor : ℤ) (later : Bool)
    → is_outside e t ≡ false
    → (f <ℤ t.start_hz → later ≡ false)
    → (leb_ℤ cursor f && ltb_ℤ f t.start_hz
        || leb_ℤ cursor f
          && (leb_ℤ t.end_hz f || leb_ℤ e.end_hz f)
          && (ltb_ℤ f e.end_hz && not later))
      ≡ (leb_ℤ cursor f && (ltb_ℤ f e.end_hz && not (contains_hz t f || later)))
passed_lem f e t cursor later inside misses = ground arith

passed_step :
    (f : ℤ) (e t : FrequencyRange) (cursor : ℤ) (later : Bool)
    → e.start_hz ≤ℤ cursor
    → is_outside e t ≡ false
    → (f <ℤ t.start_hz → later ≡ false)
    → (covers f (free_below e cursor t)
        || leb_ℤ (advanced e cursor t) f && (ltb_ℤ f e.end_hz && not later))
      ≡ (leb_ℤ cursor f && (ltb_ℤ f e.end_hz && not (contains_hz t f || later)))
passed_step f e t cursor later lo inside misses =
    rw (free_below-covers f e t cursor lo, leb-advanced f e t cursor)
      (passed_lem f e t cursor later inside misses)

pub advanced-from_lem :
    (e t : FrequencyRange) (cursor : ℤ) → e.start_hz ≤ℤ cursor → e.start_hz ≤ℤ advanced e cursor t
advanced-from_lem e t cursor lo = ground arith

skipped_lem :
    (f : ℤ) (e t : FrequencyRange) (cursor : ℤ) (later : Bool)
    → e.start_hz ≤ℤ cursor
    → is_outside e t ≡ true
    → (leb_ℤ cursor f && (ltb_ℤ f e.end_hz && not later))
      ≡ (leb_ℤ cursor f && (ltb_ℤ f e.end_hz && not (contains_hz t f || later)))
skipped_lem f e t cursor later lo outside = ground arith

sweep-covers :
    (f : ℤ) (e : FrequencyRange) (cursor : ℤ) (occupied : List FrequencyRange)
    → e.start_hz ≤ℤ cursor
    → IsSorted start_le occupied
    → covers f (sweep e cursor occupied)
      ≡ (leb_ℤ cursor f && (ltb_ℤ f e.end_hz && not (covers f occupied)))
unfolding sweep
sweep-covers f e cursor [] lo in_order = ground arith
sweep-covers f e cursor (t ∷ rest) lo in_order = elim (Bool-cases (is_outside e t)) [
  | inl outside ↦ rw outside (
      sweep-covers f e cursor rest lo in_order.1
      ∙ skipped_lem f e t cursor (covers f rest) lo outside)
  | inr inside ↦ rw inside (
      covers-append f (free_below e cursor t) (sweep e (advanced e cursor t) rest)
      ∙ ap (λ b. covers f (free_below e cursor t) || b)
          (sweep-covers f e (advanced e cursor t) rest (advanced-from_lem e t cursor lo) in_order.1)
      ∙ passed_step f e t cursor (covers f rest) lo inside
          (λ h. above_misses f t rest h in_order.0))
]

start_le-total : (a b : FrequencyRange) → start_le a b ≡ false → start_le b a ≡ true
start_le-total a b h = ground arith

start_le_trans :
    (a b c : FrequencyRange) → start_le a b ≡ true → start_le b c ≡ true → start_le a c ≡ true
start_le_trans a b c h k = ground arith

pub covers-sorted : (f : ℤ) (rs : List FrequencyRange) → covers f (sort_by_edge rs) ≡ covers f rs
unfolding sort_by_edge
covers-sorted f rs = any-sorted start_le (λ r. contains_hz r f) rs

-- A frequency is in one of the free ranges exactly when it is in the entitlement and in none of the
-- occupied ranges, whatever their order, overlapping or not.
pub subtract_exact :
    (f : ℤ) (entitlement : FrequencyRange) (occupied : List FrequencyRange)
    → covers f (subtract entitlement occupied)
      ≡ (contains_hz entitlement f && not (covers f occupied))
unfolding subtract
subtract_exact f entitlement occupied =
    sweep-covers f entitlement entitlement.start_hz (sort_by_edge occupied) (omega arith)
      (sorted-IsSorted start_le start_le-total start_le_trans occupied)
    ∙ rw (covers-sorted f occupied) (ground arith)
