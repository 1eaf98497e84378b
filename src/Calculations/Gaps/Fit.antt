-- ===== src/Calculations/Gaps/Fit.antt =====
-- When `first_fit` of calculations/gaps.py proposes nothing.
use vsat_frequency_managemen.Calculations.Gaps.{
  advanced, find_gaps, first_fit, fits, free_below, gap_le, gaps_of, gaps_within, is_outside,
  sort_by_edge, start_le, subtract, sweep,
}
use vsat_frequency_managemen.Calculations.Ranges.{
  FrequencyRange, IsRange, contains, overlaps, width_hz,
}
use vsat_frequency_managemen.Prelude.{
  Bool, Bool-cases, In, List, [], any, arith, false, first, inl, inr, none, not_both, refl, subst,
  true, ◌++◌, ◌||◌, ◌∙◌, ◌∷◌, ◌≡◌, ◌⊎◌,
}
use vsat_frequency_managemen.Prelude.Int.{int_laws, leb_ℤ, ltb_ℤ, pos, ℤ, ◌≤ℤ◌}
use vsat_frequency_managemen.Prelude.Sort.{In-sorted, any-sorted}

-- The frequencies of a range that has some: at least one wide.
one_wide : (r : FrequencyRange) → IsRange r → pos 1 ≤ℤ width_hz r
unfolding width_hz
one_wide r h = grind int_laws

inside_narrower : (g r : FrequencyRange) → contains g r ≡ true → width_hz r ≤ℤ width_hz g
unfolding width_hz
inside_narrower g r h = grind int_laws

any-append_front :
    {A : Type 0} (p : A → Bool) (xs ys : List A) → any p xs ≡ true → any p (xs ++ ys) ≡ true
any-append_front p [] ys h = cc
any-append_front p (x ∷ xs) ys h = ground (arith, any-append_front p xs ys)

any-append_right :
    {A : Type 0} (p : A → Bool) (xs ys : List A) → any p ys ≡ true → any p (xs ++ ys) ≡ true
any-append_right p [] ys h = h
any-append_right p (x ∷ xs) ys h = ground (arith, any-append_right p xs ys h)

module _ (r : FrequencyRange) (whole : IsRange r) where
  module _ (e : FrequencyRange) (within : contains e r ≡ true) where
    below_holds :
        (t : FrequencyRange) (cursor : ℤ)
        → cursor ≤ℤ r.start_hz
        → r.end_hz ≤ℤ t.start_hz
        → any (λ g. contains g r) (free_below e cursor t) ≡ true
    below_holds t cursor lo h = ground arith

    past :
        (t : FrequencyRange) (cursor : ℤ)
        → cursor ≤ℤ r.start_hz
        → t.end_hz ≤ℤ r.start_hz
        → advanced e cursor t ≤ℤ r.start_hz
    past t cursor lo h = ground arith

    sweep-holds :
        (cursor : ℤ) (occupied : List FrequencyRange)
        → cursor ≤ℤ r.start_hz
        → any (overlaps r) occupied ≡ false
        → any (λ g. contains g r) (sweep e cursor occupied) ≡ true
    unfolding sweep
    sweep-holds cursor [] lo h = ground arith
    sweep-holds cursor (t ∷ rest) lo h =
        let (apart, later) = neither (overlaps r t) (any (overlaps r) rest) h in
        elim (Bool-cases (is_outside e t)) [
          | inl outside ↦ rw outside (sweep-holds cursor rest lo later)
          | inr inside ↦ rw inside (elim (sides t apart) [
            | inl below ↦
                any-append_front (λ g. contains g r) (free_below e cursor t)
                  (sweep e (advanced e cursor t) rest) (below_holds t cursor lo below)
            | inr above ↦
                any-append_right (λ g. contains g r) (free_below e cursor t)
                  (sweep e (advanced e cursor t) rest)
                  (sweep-holds (advanced e cursor t) rest (past t cursor lo above) later)
          ])
        ]
      where
        neither : (a b : Bool) → (a || b) ≡ false → (a ≡ false) × (b ≡ false)
        neither a b k = ground arith

        sides :
            (t : FrequencyRange)
            → overlaps r t ≡ false
            → (r.end_hz ≤ℤ t.start_hz) ⊎ (t.end_hz ≤ℤ r.start_hz)
        sides t k = ground arith

    subtract-holds :
        (occupied : List FrequencyRange)
        → any (overlaps r) occupied ≡ false
        → any (λ g. contains g r) (subtract e occupied) ≡ true
    unfolding subtract sort_by_edge
    subtract-holds occupied h =
        sweep-holds e.start_hz (sort_by_edge occupied) (ground arith)
          (any-sorted start_le (overlaps r) occupied ∙ h)

  module _ (wanted_hz : ℤ) (enough : wanted_hz ≤ℤ width_hz r) where
    gaps_within-fits :
        (taken frees : List FrequencyRange)
        → any (λ g. contains g r) frees ≡ true
        → any (fits wanted_hz) (gaps_within (pos 1) taken frees) ≡ true
    unfolding gaps_within
    gaps_within-fits taken [] h = cc
    gaps_within-fits taken (g ∷ frees) h = elim (Bool-cases (contains g r)) [
      | inl holds ↦
          let narrow = inside_narrower g r holds in
          let some_width = one_wide r whole in
          let wide : ltb_ℤ (width_hz g) (pos 1) ≡ false = ground arith in
          let fitting : leb_ℤ wanted_hz (width_hz g) ≡ true = ground arith in
          rw wide (rw fitting refl)
      | inr misses ↦
          let later : any (λ x. contains x r) frees ≡ true = rw misses at h in
          let rest = gaps_within-fits taken frees later in
          elim (Bool-cases (ltb_ℤ (width_hz g) (pos 1))) [
            | inl n ↦ rw n rest
            | inr w ↦ rw w (either (leb_ℤ wanted_hz (width_hz g)) _ rest)
          ]
    ]
      where
        either : (a b : Bool) → b ≡ true → (a || b) ≡ true
        either a b k = ground arith

    gaps_of-fits :
        (taken entitlements : List FrequencyRange) (e : FrequencyRange)
        → any (overlaps r) taken ≡ false
        → In e entitlements
        → contains e r ≡ true
        → any (fits wanted_hz) (gaps_of (pos 1) taken entitlements) ≡ true
    unfolding gaps_of
    gaps_of-fits taken [] e clear i within = elim i [ ]
    gaps_of-fits taken (x ∷ xs) e clear (inl same) within =
        any-append_front (fits wanted_hz) (gaps_within (pos 1) taken (subtract x taken))
          (gaps_of (pos 1) taken xs)
          (gaps_within-fits taken (subtract x taken)
            (subtract-holds x (subst (λ y. contains y r ≡ true) same within) taken clear))
    gaps_of-fits taken (x ∷ xs) e clear (inr i) within =
        any-append_right (fits wanted_hz) (gaps_within (pos 1) taken (subtract x taken))
          (gaps_of (pos 1) taken xs) (gaps_of-fits taken xs e clear i within)

first-none-any {ℓ} :
    {A : Type ℓ} (p : A → Bool) (xs : List A) → first p xs ≡ none → any p xs ≡ false
first-none-any p [] h = refl
first-none-any p (x ∷ xs) h = ground (arith, first-none-any p xs)

-- Where `first_fit` proposes nothing, every range of some width within an entitlement that is at
-- least as wide as asked overlaps an occupied range.
pub first_fit-none :
    (entitlements occupied : List FrequencyRange) (wanted_hz : ℤ)
    → first_fit entitlements occupied wanted_hz ≡ none
    → (e r : FrequencyRange) → In e entitlements
    → IsRange r
    → contains e r ≡ true
    → wanted_hz ≤ℤ width_hz r
    → any (overlaps r) occupied ≡ true
unfolding first_fit find_gaps sort_by_edge
first_fit-none entitlements occupied wanted_hz h e r i whole within enough =
    elim (Bool-cases (any (overlaps r) occupied)) [
      | inl hit ↦ hit
      | inr clear ↦
          let found =
            gaps_of-fits r whole wanted_hz enough (sort_by_edge occupied)
              (sort_by_edge entitlements) e (any-sorted start_le (overlaps r) occupied ∙ clear)
              (In-sorted start_le e entitlements i) within in
          let none_fits =
            first-none-any (fits wanted_hz) (find_gaps entitlements occupied (pos 1)) h in
          not_both _ (any-sorted gap_le (fits wanted_hz) _ ∙ found) none_fits
    ]
