-- ===== src/Calculations/Guards.antt =====
-- Guard resolution (calculations/guards.py and the guard types of calculations/types.py).
use vsat_frequency_managemen.Calculations.Decimals.{
  Decimal, ceil_hz, decimal, exact_product, inexact_quotient, is_below_zero,
}
use vsat_frequency_managemen.Calculations.Errors.{Error, assertion_error, value_error}
use vsat_frequency_managemen.Calculations.Placement.{GuardSource, GuardWidths, no_source}
use vsat_frequency_managemen.Prelude.{
  Bool, List, Option, Result, [], err, false, is_some, none, not, ok, raise_if, some, ◌&&◌, ◌>>=◌,
  ◌>>◌, ◌∷◌,
}
use vsat_frequency_managemen.Prelude.Int.{leb_ℤ, ltb_ℤ, max_ℤ, pos, ℤ}

pub data GuardMode : Type 0 where
  fixed percent_of_occupied max_of_fixed_and_percent : GuardMode

-- `GuardPolicySpec`, less its label.
pub record GuardPolicySpec : Type 0 where
  pub mode : GuardMode
  pub source : GuardSource
  pub fixed_left_hz : Option ℤ
  pub fixed_right_hz : Option ℤ
  pub percent_left : Option Decimal
  pub percent_right : Option Decimal

-- The `missing` fields of `__post_init__`, for each mode.
abbrev pub lacks_values : GuardMode → GuardPolicySpec → Bool
lacks_values fixed p = not (is_some p.fixed_left_hz && is_some p.fixed_right_hz)
lacks_values percent_of_occupied p = not (is_some p.percent_left && is_some p.percent_right)
lacks_values max_of_fixed_and_percent p = not (
    is_some p.fixed_left_hz
    && (is_some p.fixed_right_hz && (is_some p.percent_left && is_some p.percent_right)))

abbrev pub hz_below_zero : Option ℤ → Bool
hz_below_zero none = false
hz_below_zero (some hz) = ltb_ℤ hz (pos 0)

abbrev pub percent_below_zero : Option Decimal → Bool
percent_below_zero none = false
percent_below_zero (some percent) = is_below_zero percent

-- The checks of `__post_init__`.
unfoldable pub check_policy : GuardPolicySpec → Result Error (Unit {0})
check_policy p = do
  raise_if (lacks_values p.mode p) value_error
  raise_if (hz_below_zero p.fixed_left_hz) value_error
  raise_if (hz_below_zero p.fixed_right_hz) value_error
  raise_if (percent_below_zero p.percent_left) value_error
  raise_if (percent_below_zero p.percent_right) value_error

abbrev pub no_guard : GuardWidths
no_guard = record { left_hz = pos 0; right_hz = pos 0; source = no_source }

-- `_percent_of`
unfoldable pub percent_of : ℤ → Option Decimal → Result Error ℤ
unfolding decimal exact_product inexact_quotient ceil_hz
percent_of bandwidth_hz none = ok (pos 0)
percent_of bandwidth_hz (some percent) = do
  hundredths ← exact_product (decimal bandwidth_hz) percent
  ok (ceil_hz (inexact_quotient hundredths (decimal (pos 100))))

-- `assert width is not None`
abbrev pub asserted : Option ℤ → Result Error ℤ
asserted none = err assertion_error
asserted (some hz) = ok hz

-- `fixed or 0`
abbrev pub or_zero : Option ℤ → ℤ
or_zero none = pos 0
or_zero (some hz) = hz

-- One width of one policy: the `match` of `resolve`.
unfoldable pub width_by : GuardMode → ℤ → Option ℤ → Option Decimal → Result Error ℤ
unfolding percent_of
width_by fixed bandwidth_hz fixed_hz percent = asserted fixed_hz
width_by percent_of_occupied bandwidth_hz fixed_hz percent = percent_of bandwidth_hz percent
width_by max_of_fixed_and_percent bandwidth_hz fixed_hz percent = do
  share ← percent_of bandwidth_hz percent
  ok (max_ℤ (or_zero fixed_hz) share)

unfoldable pub resolve_policy : GuardPolicySpec → ℤ → Result Error GuardWidths
unfolding width_by
resolve_policy policy bandwidth_hz = do
  raise_if (leb_ℤ bandwidth_hz (pos 0)) value_error
  left ← width_by policy.mode bandwidth_hz policy.fixed_left_hz policy.percent_left
  right ← width_by policy.mode bandwidth_hz policy.fixed_right_hz policy.percent_right
  ok (record { left_hz = left; right_hz = right; source = policy.source })

-- `resolve`
unfoldable pub resolve : Option GuardPolicySpec → ℤ → Result Error GuardWidths
unfolding resolve_policy
resolve none bandwidth_hz = ok no_guard
resolve (some policy) bandwidth_hz = resolve_policy policy bandwidth_hz

unfoldable pub first_applicable : List (Option GuardPolicySpec) → Option GuardPolicySpec
first_applicable [] = none
first_applicable (some policy ∷ candidates) = some policy
first_applicable (none ∷ candidates) = first_applicable candidates

unfoldable pub resolve_hierarchy : List (Option GuardPolicySpec) → ℤ → Result Error GuardWidths
unfolding resolve first_applicable
resolve_hierarchy candidates bandwidth_hz = resolve (first_applicable candidates) bandwidth_hz
