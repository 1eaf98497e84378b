-- ===== src/Calculations/Gaps/Free.antt =====
-- The gaps that `find` and `first_fit` of calculations/gaps.py report.
use vsat_frequency_managemen.Calculations.Gaps.{
  Gap, advanced, find_gaps, first_fit, fits, free_below, gap_le, gaps_of, gaps_within, is_outside,
  sort_by_edge, start_le, subtract, sweep,
}
use vsat_frequency_managemen.Calculations.Gaps.Exact.{
  advanced-from_lem, covers, covers-sorted, subtract_exact,
}
use vsat_frequency_managemen.Calculations.Ranges.{
  FrequencyRange, IsRange, contains, contains_hz, width_hz,
}
use vsat_frequency_managemen.Prelude.{
  All, All-In, All-append, All-map, Bool, Bool-cases, In, In-All, List, [], any, ap, arith, false,
  inl, inr, not, refl, some, sym, true, ◌&&◌, ◌∙◌, ◌∷◌, ◌≡◌,
}
use vsat_frequency_managemen.Prelude.Int.{ltb_ℤ, pos, ℤ, ◌≤ℤ◌}
use vsat_frequency_managemen.Prelude.Sort.{All-sorted, any-sorted}
use vsat_frequency_managemen.Prelude.Table.{first_found}

module _ (e : FrequencyRange) where
  advanced-below :
      (t : FrequencyRange) (cursor : ℤ) → cursor ≤ℤ e.end_hz → advanced e cursor t ≤ℤ e.end_hz
  advanced-below t cursor hi = ground arith

  free_below-inside :
      (t : FrequencyRange) (cursor : ℤ)
      → e.start_hz ≤ℤ cursor
      → cursor ≤ℤ e.end_hz
      → is_outside e t ≡ false
      → All (λ r. contains e r ≡ true) (free_below e cursor t)
  free_below-inside t cursor lo hi inside = ground arith

  sweep-inside :
      (cursor : ℤ) (occupied : List FrequencyRange)
      → e.start_hz ≤ℤ cursor
      → cursor ≤ℤ e.end_hz
      → All (λ r. contains e r ≡ true) (sweep e cursor occupied)
  unfolding sweep
  sweep-inside cursor [] lo hi = ground arith
  sweep-inside cursor (t ∷ rest) lo hi = elim (Bool-cases (is_outside e t)) [
    | inl outside ↦ rw outside (sweep-inside cursor rest lo hi)
    | inr inside ↦ rw inside (
        All-append (λ r. contains e r ≡ true) (free_below e cursor t)
          (sweep e (advanced e cursor t) rest) (free_below-inside t cursor lo hi inside)
          (sweep-inside (advanced e cursor t) rest (advanced-from_lem e t cursor lo)
            (advanced-below t cursor hi)))
  ]

  subtract-inside :
      (occupied : List FrequencyRange)
      → IsRange e
      → All (λ r. contains e r ≡ true) (subtract e occupied)
  unfolding subtract
  subtract-inside occupied h =
      sweep-inside e.start_hz (sort_by_edge occupied) (omega arith) (omega (arith, h))

covers-In :
    (f : ℤ) (ranges : List FrequencyRange) (r : FrequencyRange)
    → In r ranges
    → contains_hz r f ≡ true
    → covers f ranges ≡ true
covers-In f [] r i h = elim i [ ]
covers-In f (x ∷ xs) r (inl e) h = ground (arith, ap (λ y. contains_hz y f) e)
covers-In f (x ∷ xs) r (inr i) h = ground (arith, covers-In f xs r i h)

-- No frequency of the range is in any occupied range.
abbrev pub IsClear : List FrequencyRange → FrequencyRange → Type 0
IsClear occupied r = (f : ℤ) → contains_hz r f ≡ true → covers f occupied ≡ false

subtract-IsClear :
    (e : FrequencyRange) (occupied : List FrequencyRange)
    → All (IsClear occupied) (subtract e occupied)
subtract-IsClear e occupied = In-All (IsClear occupied) (subtract e occupied) λ r i f h.
    second (contains_hz e f) (covers f occupied)
      (sym (subtract_exact f e occupied) ∙ covers-In f (subtract e occupied) r i h)
  where
    second : (a b : Bool) → (a && not b) ≡ true → b ≡ false
    second a b h = ground arith

-- A gap that an operator may be offered: within one entitlement, as wide as asked, and clear.
pub record IsOffer (entitlements occupied : List FrequencyRange) (minimum_width_hz : ℤ) (gap : Gap)
    : Type 0 where
  pub inside : any (λ e. contains e gap.range) entitlements ≡ true
  pub wide : minimum_width_hz ≤ℤ width_hz gap.range
  pub clear : IsClear occupied gap.range

module _ (occupied taken : List FrequencyRange) (minimum_width_hz : ℤ) where
  gaps_within-All :
      (e : FrequencyRange) (frees : List FrequencyRange)
      → All (λ r. contains e r ≡ true) frees
      → All (IsClear occupied) frees
      → All (IsOffer (e ∷ []) occupied minimum_width_hz) (gaps_within minimum_width_hz taken frees)
  unfolding gaps_within
  gaps_within-All e [] hi hc = tt
  gaps_within-All e (r ∷ rs) hi hc = elim (Bool-cases (ltb_ℤ (width_hz r) minimum_width_hz)) [
    | inl n ↦ rw n (gaps_within-All e rs hi.1 hc.1)
    | inr w ↦ rw w (
      record { inside = rw hi.0 refl; wide = ground arith; clear = hc.0 },
      gaps_within-All e rs hi.1 hc.1,
    )
  ]

  any-append_left :
      (p : FrequencyRange → Bool) (e : FrequencyRange) (es : List FrequencyRange)
      → any p (e ∷ []) ≡ true
      → any p (e ∷ es) ≡ true
  any-append_left p e es h = ground arith

  widen_first :
      (e : FrequencyRange) (es : List FrequencyRange) (gap : Gap)
      → IsOffer (e ∷ []) occupied minimum_width_hz gap
      → IsOffer (e ∷ es) occupied minimum_width_hz gap
  widen_first e es gap o = record {
    inside = any-append_left (λ x. contains x gap.range) e es o.inside;
    wide = o.wide;
    clear = o.clear;
  }

  widen_rest :
      (e : FrequencyRange) (es : List FrequencyRange) (gap : Gap)
      → IsOffer es occupied minimum_width_hz gap
      → IsOffer (e ∷ es) occupied minimum_width_hz gap
  widen_rest e es gap o = record {
    inside = ground (arith, o.inside);
    wide = o.wide;
    clear = o.clear;
  }

  gaps_of-All :
      (es : List FrequencyRange)
      → ((r : FrequencyRange) → IsClear taken r → IsClear occupied r)
      → All IsRange es
      → All (IsOffer es occupied minimum_width_hz) (gaps_of minimum_width_hz taken es)
  unfolding gaps_of
  gaps_of-All [] weaken h = tt
  gaps_of-All (e ∷ es) weaken h =
      All-append (IsOffer (e ∷ es) occupied minimum_width_hz)
        (gaps_within minimum_width_hz taken (subtract e taken)) (gaps_of minimum_width_hz taken es)
        (All-map (widen_first e es) (gaps_within minimum_width_hz taken (subtract e taken)) (
          gaps_within-All e (subtract e taken) (subtract-inside e taken h.0)
            (All-map weaken (subtract e taken) (subtract-IsClear e taken))))
        (All-map (widen_rest e es) (gaps_of minimum_width_hz taken es) (gaps_of-All es weaken h.1))

-- Every gap that `find` reports lies within one of the entitlements, is as wide as asked, and holds
-- no frequency of any occupied range.
pub find_gaps-IsOffer :
    (entitlements occupied : List FrequencyRange) (minimum_width_hz : ℤ)
    → All IsRange entitlements
    → All
        (IsOffer entitlements occupied minimum_width_hz)
        (find_gaps entitlements occupied minimum_width_hz)
unfolding find_gaps sort_by_edge
find_gaps-IsOffer entitlements occupied minimum_width_hz h =
    All-sorted gap_le (IsOffer entitlements occupied minimum_width_hz) _ (
      All-map
        (λ gap o. record {
          inside = sym (any-sorted start_le (λ e. contains e gap.range) entitlements) ∙ o.inside;
          wide = o.wide;
          clear = o.clear;
        })
        _
        (gaps_of-All occupied (sort_by_edge occupied) minimum_width_hz (sort_by_edge entitlements)
          (λ r clear f k. sym (covers-sorted f occupied) ∙ clear f k)
          (All-sorted start_le IsRange entitlements h)))

-- What `first_fit` proposes lies within one of the entitlements, is at least as wide as asked, and
-- holds no frequency of any occupied range.
pub first_fit-IsOffer :
    (entitlements occupied : List FrequencyRange) (wanted_hz : ℤ) (gap : Gap)
    → All IsRange entitlements
    → first_fit entitlements occupied wanted_hz ≡ some gap
    → IsOffer entitlements occupied wanted_hz gap
unfolding first_fit
first_fit-IsOffer entitlements occupied wanted_hz gap h e =
    let (i, fit) = first_found (fits wanted_hz) (find_gaps entitlements occupied (pos 1)) gap e in
    let offer =
      All-In (IsOffer entitlements occupied (pos 1)) (find_gaps entitlements occupied (pos 1))
        (find_gaps-IsOffer entitlements occupied (pos 1) h) gap i in
    record { inside = offer.inside; wide = ground arith; clear = offer.clear }
