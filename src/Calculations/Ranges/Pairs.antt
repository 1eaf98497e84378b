-- ===== src/Calculations/Ranges/Pairs.antt =====
-- The sweep `any_overlap` of calculations/ranges.py, which compares neighbours in spectrum order.
use vsat_frequency_managemen.Calculations.Ranges.{
  FrequencyRange, IsRange, any_overlap, first_overlap, overlaps, range_le, sort_by_start,
}
use vsat_frequency_managemen.Prelude.{
  All, Bool-cases, List, Option, Pairs, [], arith, false, inl, inr, none, refl, some, true, ◌↔◌,
  ◌∷◌, ◌≡◌,
}
use vsat_frequency_managemen.Prelude.Int.{◌≤ℤ◌}
use vsat_frequency_managemen.Prelude.Sort.{
  All-sorted, IsSorted, Pairs-sorted, Pairs-sorted_back, sorted-IsSorted,
}

range_le-total : (a b : FrequencyRange) → range_le a b ≡ false → range_le b a ≡ true
range_le-total a b h = ground arith

range_le_trans :
    (a b c : FrequencyRange) → range_le a b ≡ true → range_le b c ≡ true → range_le a c ≡ true
range_le_trans a b c h k = ground arith

overlaps_sym : (a b : FrequencyRange) → overlaps a b ≡ false → overlaps b a ≡ false
overlaps_sym a b h = ground arith

-- No two of the ranges share a frequency.
abbrev pub IsApart : List FrequencyRange → Type 0
IsApart = Pairs (λ a b. overlaps a b ≡ false)

-- What begins after a neighbour that begins after `x` ends is clear of `x`.
clear_of :
    (x y : FrequencyRange) (zs : List FrequencyRange)
    → x.end_hz ≤ℤ y.start_hz
    → All (λ z. range_le y z ≡ true) zs
    → All (λ z. overlaps x z ≡ false) zs
clear_of x y [] h hs = tt
clear_of x y (z ∷ zs) h hs = (ground arith, clear_of x y zs h hs.1)

neighbours_apart :
    (x y : FrequencyRange)
    → IsRange x
    → IsRange y
    → range_le x y ≡ true
    → overlaps x y ≡ false
    → x.end_hz ≤ℤ y.start_hz
neighbours_apart x y hx hy h e = ground arith

some_not_none {ℓ} : {A B : Type ℓ} {a : A} → some a ≡ none → B
some_not_none e = cc

none→IsApart :
    (xs : List FrequencyRange)
    → All IsRange xs
    → IsSorted range_le xs
    → first_overlap xs ≡ none
    → IsApart xs
unfolding first_overlap
none→IsApart [] hs sorted_xs e = tt
none→IsApart (x ∷ []) hs sorted_xs e = (tt, tt)
none→IsApart (x ∷ y ∷ zs) hs sorted_xs e = elim (Bool-cases (overlaps x y)) [
  | inl o ↦ some_not_none (rw o at e)
  | inr o ↦
      let clear = neighbours_apart x y hs.0 hs.1.0 sorted_xs.0.0 o in
      let rest : IsApart (y ∷ zs) = none→IsApart (y ∷ zs) hs.1 sorted_xs.1 (rw o at e) in
      ((o, clear_of x y zs clear sorted_xs.1.0), rest)
]

IsApart→none : (xs : List FrequencyRange) → IsApart xs → first_overlap xs ≡ none
unfolding first_overlap
IsApart→none [] h = refl
IsApart→none (x ∷ []) h = refl
IsApart→none (x ∷ y ∷ zs) h = rw h.0.0 (IsApart→none (y ∷ zs) h.1)

-- `any_overlap` returns nothing exactly when no two of the ranges overlap.
pub any_overlap-none :
    (ranges : List FrequencyRange)
    → All IsRange ranges
    → (any_overlap ranges ≡ none) ↔ IsApart ranges
unfolding any_overlap
any_overlap-none ranges h = (
  λ e. Pairs-sorted_back range_le _ overlaps_sym ranges (
      none→IsApart (sort_by_start ranges) (All-sorted range_le IsRange ranges h)
        (sorted-IsSorted range_le range_le-total range_le_trans ranges) e),
  λ apart. IsApart→none (sort_by_start ranges) (Pairs-sorted range_le _ overlaps_sym ranges apart),
)

-- What a pair that the sweep returned is known to do.
abbrev Found : Option (FrequencyRange × FrequencyRange) → Type 0
Found none = Unit
Found (some (a, b)) = overlaps a b ≡ true

first_overlap-Found : (xs : List FrequencyRange) → Found (first_overlap xs)
unfolding first_overlap
first_overlap-Found [] = tt
first_overlap-Found (x ∷ []) = tt
first_overlap-Found (x ∷ y ∷ zs) = elim (Bool-cases (overlaps x y)) [
  | inl o ↦ rw o o
  | inr o ↦ rw o (first_overlap-Found (y ∷ zs))
]

-- A pair that `any_overlap` returns does overlap.
pub any_overlap_found :
    (ranges : List FrequencyRange) (a b : FrequencyRange)
    → any_overlap ranges ≡ some (a, b)
    → overlaps a b ≡ true
unfolding any_overlap
any_overlap_found ranges a b e = rw e at (first_overlap-Found (sort_by_start ranges))
