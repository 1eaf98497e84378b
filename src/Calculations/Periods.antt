-- ===== src/Calculations/Periods.antt =====
-- Half-open time periods with an optional end (calculations/periods.py). A `datetime` is only
-- compared, so it is a number.
pub mod Laws
use vsat_frequency_managemen.Calculations.Errors.{Error, value_error}
use vsat_frequency_managemen.Prelude.{
  Bool, List, Option, Result, [], err, false, if◌then◌else◌, is_some, leb, ltb, maximum, minimum,
  none, not, ok, some, true, ℕ, ◌>>=◌, ◌>>◌, ◌∷◌, ◌≡◌,
}

-- `TimePeriod`: no `end` means open-ended.
pub record TimePeriod : Type 0 where
  pub start : ℕ
  pub end : Option ℕ

-- `end is not None and end <= start`
abbrev pub runs_backwards : ℕ → Option ℕ → Bool
runs_backwards start none = false
runs_backwards start (some e) = leb e start

-- `TimePeriod(start, end)`, with the check of `__post_init__`.
unfoldable pub time_period : ℕ → Option ℕ → Result Error TimePeriod
time_period start end =
    if runs_backwards start end then err value_error else ok (record { start = start; end = end })

abbrev pub IsPeriod : TimePeriod → Type 0
IsPeriod p = runs_backwards p.start p.end ≡ false

abbrev pub is_open_ended : TimePeriod → Bool
is_open_ended p = not (is_some p.end)

-- The comparison of the ends in `contains`, after the starts.
abbrev pub end_within : Option ℕ → Option ℕ → Bool
end_within none other = true
end_within (some e) none = false
end_within (some e) (some o) = leb o e

-- `self.contains(other)`
abbrev pub period_contains : TimePeriod → TimePeriod → Bool
period_contains p other = if ltb other.start p.start then false else end_within p.end other.end

-- `end is not None and start >= end`
abbrev pub begins_after : ℕ → Option ℕ → Bool
begins_after start none = false
begins_after start (some e) = leb e start

abbrev pub period_overlaps : TimePeriod → TimePeriod → Bool
period_overlaps p other =
    if begins_after other.start p.end
    then false
    else (if begins_after p.start other.end then false else true)

-- `[period.end for period in periods if period.end is not None]`
abbrev pub add_end : Option ℕ → List ℕ → List ℕ
add_end none ends = ends
add_end (some e) ends = e ∷ ends

abbrev pub bounded_ends : List TimePeriod → List ℕ
bounded_ends [] = []
bounded_ends (p ∷ ps) = add_end p.end (bounded_ends ps)

abbrev pub starts : List TimePeriod → List ℕ
starts [] = []
starts (p ∷ ps) = p.start ∷ starts ps

-- `min(ends) if ends else None`
abbrev pub earliest : List ℕ → Option ℕ
earliest [] = none
earliest (e ∷ es) = some (minimum e es)

-- `intersect`: `ok none` is Python's `None`, no common moment.
unfoldable pub intersect : List TimePeriod → Result Error (Option TimePeriod)
unfolding time_period maximum minimum
intersect [] = err value_error
intersect (p ∷ ps) =
    let start = maximum p.start (starts ps) in
    let end = earliest (bounded_ends (p ∷ ps)) in
    if runs_backwards start end then ok none else (do q ← time_period start end; ok (some q))
