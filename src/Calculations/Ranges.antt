-- ===== src/Calculations/Ranges.antt =====
-- Half-open frequency intervals (calculations/ranges.py). An edge is a Python int, so an integer;
-- the `TypeError` for an edge of another type cannot arise.
pub mod Overlap
pub mod Moves
pub mod Pairs
use vsat_frequency_managemen.Calculations.Errors.{Error, empty_range, value_error}
use vsat_frequency_managemen.Prelude.{
  Bool, List, Option, Result, [], err, if◌then◌else◌, none, ok, some, ◌&&◌, ◌||◌, ◌∷◌,
}
use vsat_frequency_managemen.Prelude.Int.{
  eqb_ℤ, half, leb_ℤ, ltb_ℤ, max_ℤ, pos, ℤ, ◌+ℤ◌, ◌-ℤ◌, ◌<ℤ◌,
}
use vsat_frequency_managemen.Prelude.Sort.{sorted}

-- `FrequencyRange`: the half-open interval [start_hz, end_hz).
pub record FrequencyRange : Type 0 where
  pub start_hz : ℤ
  pub end_hz : ℤ

-- `FrequencyRange(start_hz, end_hz)`, with the check of `__post_init__`.
unfoldable pub frequency_range : ℤ → ℤ → Result Error FrequencyRange
frequency_range start_hz end_hz =
    if leb_ℤ end_hz start_hz
    then err empty_range
    else ok (record { start_hz = start_hz; end_hz = end_hz })

-- What `__post_init__` has checked of every range that exists.
abbrev pub IsRange : FrequencyRange → Type 0
IsRange r = r.start_hz <ℤ r.end_hz

unfoldable pub width_hz : FrequencyRange → ℤ
width_hz r = r.end_hz -ℤ r.start_hz

-- `FrequencyRange.centre_hz`: the midpoint, rounded down.
unfoldable pub centre_hz : FrequencyRange → ℤ
unfolding width_hz
centre_hz r = r.start_hz +ℤ half (width_hz r)

abbrev pub contains_hz : FrequencyRange → ℤ → Bool
contains_hz r frequency_hz = leb_ℤ r.start_hz frequency_hz && ltb_ℤ frequency_hz r.end_hz

abbrev pub contains : FrequencyRange → FrequencyRange → Bool
contains r other = leb_ℤ r.start_hz other.start_hz && leb_ℤ other.end_hz r.end_hz

abbrev pub overlaps : FrequencyRange → FrequencyRange → Bool
overlaps r other = ltb_ℤ r.start_hz other.end_hz && ltb_ℤ other.start_hz r.end_hz

abbrev pub is_adjacent_to : FrequencyRange → FrequencyRange → Bool
is_adjacent_to r other = eqb_ℤ r.end_hz other.start_hz || eqb_ℤ other.end_hz r.start_hz

unfoldable pub gap_to : FrequencyRange → FrequencyRange → ℤ
gap_to r other =
    if overlaps r other
    then pos 0
    else max_ℤ (max_ℤ (other.start_hz -ℤ r.end_hz) (r.start_hz -ℤ other.end_hz)) (pos 0)

unfoldable pub shift : FrequencyRange → ℤ → Result Error FrequencyRange
unfolding frequency_range
shift r delta_hz = frequency_range (r.start_hz +ℤ delta_hz) (r.end_hz +ℤ delta_hz)

unfoldable pub reflect : FrequencyRange → ℤ → Result Error FrequencyRange
unfolding frequency_range
reflect r constant_hz = frequency_range (constant_hz -ℤ r.end_hz) (constant_hz -ℤ r.start_hz)

-- `expanded`: negative guards are refused.
unfoldable pub expanded : FrequencyRange → ℤ → ℤ → Result Error FrequencyRange
unfolding frequency_range
expanded r left_hz right_hz =
    if ltb_ℤ left_hz (pos 0) || ltb_ℤ right_hz (pos 0)
    then err value_error
    else frequency_range (r.start_hz -ℤ left_hz) (r.end_hz +ℤ right_hz)

-- The order of the dataclass: by `start_hz`, then by `end_hz`.
abbrev pub range_le : FrequencyRange → FrequencyRange → Bool
range_le r other =
    ltb_ℤ r.start_hz other.start_hz
    || eqb_ℤ r.start_hz other.start_hz && leb_ℤ r.end_hz other.end_hz

unfoldable pub sort_by_start : List FrequencyRange → List FrequencyRange
unfolding sorted
sort_by_start ranges = sorted range_le ranges

-- The loop of `any_overlap` over `itertools.pairwise`.
unfoldable pub first_overlap : List FrequencyRange → Option (FrequencyRange × FrequencyRange)
first_overlap [] = none
first_overlap (r ∷ []) = none
first_overlap (earlier ∷ later ∷ rest) =
    let found = first_overlap (later ∷ rest) in
    if overlaps earlier later then some (earlier, later) else found

unfoldable pub any_overlap : List FrequencyRange → Option (FrequencyRange × FrequencyRange)
unfolding sort_by_start first_overlap
any_overlap ranges = first_overlap (sort_by_start ranges)
