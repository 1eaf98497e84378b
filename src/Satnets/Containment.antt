-- ===== src/Satnets/Containment.antt =====
-- Containment of a Satnet Path's period in the periods of its parents (satnets/containment.py). A
-- record holds the columns that these checks read; a finding's message is display.
pub mod Belonging
pub mod Decided
use vsat_frequency_managemen.Calculations.Errors.{Error}
use vsat_frequency_managemen.Calculations.Periods.{TimePeriod, intersect, period_contains}
use vsat_frequency_managemen.Database.{Direction, fwd, rtn}
use vsat_frequency_managemen.Prelude.{
  Bool, List, Option, Result, [], false, if◌then◌else◌, ltb, none, not, ok, some, true, ℕ, ◌++◌,
  ◌==◌, ◌>>=◌, ◌>>◌, ◌∷◌,
}

pub data Limiter : Type 0 where
  by_satnet by_beam by_assignment : Limiter

pub record Satnet : Type 0 where
  pub beam_id : ℕ
  pub validity : TimePeriod

pub record Beam : Type 0 where
  pub pk : ℕ
  pub validity : TimePeriod

-- `BeamSpectrumAssignment`, with what is read of its direction and its window.
pub record SpectrumAssignment : Type 0 where
  pub config_beam_id : ℕ
  pub config_direction : Direction
  pub config_payload_path_id : ℕ
  pub payload_path_id : ℕ
  pub window_polarization : ℕ
  pub validity : TimePeriod

pub data ContainmentCode : Type 0 where
  assignment_wrong_beam beam_not_the_satnets assignment_wrong_direction : ContainmentCode
  assignment_wrong_polarization assignment_stale_payload_path : ContainmentCode
  no_common_period period_not_contained : ContainmentCode

-- `Finding`; no limiter is the empty string.
pub record ContainmentFinding : Type 0 where
  pub code : ContainmentCode
  pub limiter : Option Limiter

pub record Verdict : Type 0 where
  pub permitted : Option TimePeriod
  pub findings : List ContainmentFinding
  pub limiter : Option Limiter

abbrev pub no_findings : List ContainmentFinding → Bool
no_findings [] = true
no_findings (f ∷ fs) = false

-- `Verdict.ok`
abbrev pub is_contained : Verdict → Bool
is_contained v = no_findings v.findings

abbrev pub blocks_activation : Verdict → Bool
blocks_activation v = not (no_findings v.findings)

abbrev pub problem_if : Bool → ContainmentCode → Limiter → List ContainmentFinding
problem_if true code limiter = record { code = code; limiter = some limiter } ∷ []
problem_if false code limiter = []

-- `polarization and window.polarization != polarization`: no polarization is the empty string.
abbrev pub polarization_differs : Option ℕ → ℕ → Bool
polarization_differs none window_polarization = false
polarization_differs (some p) window_polarization = not (window_polarization == p)

abbrev pub same_direction : Direction → Direction → Bool
same_direction fwd fwd = true
same_direction rtn rtn = true
same_direction _ _ = false

-- `_check_assignment_belongs`
unfoldable pub check_assignment_belongs :
    Satnet
    → Beam
    → SpectrumAssignment
    → Direction
    → (polarization : Option ℕ) → List ContainmentFinding
check_assignment_belongs s b a direction polarization =
    problem_if (not (a.config_beam_id == b.pk)) assignment_wrong_beam by_assignment
    ++ problem_if (not (b.pk == s.beam_id)) beam_not_the_satnets by_beam
    ++ problem_if (not (same_direction a.config_direction direction)) assignment_wrong_direction
        by_assignment
    ++ problem_if (polarization_differs polarization a.window_polarization)
        assignment_wrong_polarization by_assignment
    ++ problem_if (not (a.config_payload_path_id == a.payload_path_id))
        assignment_stale_payload_path by_assignment

-- The parents in the order in which they are asked.
abbrev pub parents : Satnet → Beam → SpectrumAssignment → List (Limiter × TimePeriod)
parents s b a = (by_satnet, s.validity) ∷ (by_beam, b.validity) ∷ (by_assignment, a.validity) ∷ []

unfoldable pub first_breached : TimePeriod → List (Limiter × TimePeriod) → Option Limiter
first_breached requested [] = none
first_breached requested ((label, period) ∷ rest) =
    let later = first_breached requested rest in
    if period_contains period requested then later else some label

-- `_limiting_parent`
unfoldable pub limiting_parent : Satnet → Beam → SpectrumAssignment → TimePeriod → Option Limiter
unfolding first_breached
limiting_parent s b a requested = first_breached requested (parents s b a)

abbrev pub add_bounded : Limiter → Option ℕ → List (Limiter × ℕ) → List (Limiter × ℕ)
add_bounded label none rest = rest
add_bounded label (some end) rest = (label, end) ∷ rest

-- `[(label, period.end) for label, period in candidates if period.end is not None]`
unfoldable pub bounded_parents : List (Limiter × TimePeriod) → List (Limiter × ℕ)
bounded_parents [] = []
bounded_parents ((label, period) ∷ rest) = add_bounded label period.end (bounded_parents rest)

-- `min(bounded, key=...)`: the first of the least.
unfoldable pub first_least : Limiter × ℕ → List (Limiter × ℕ) → Limiter
first_least best [] = best.0
first_least best (item ∷ rest) = first_least (if ltb item.1 best.1 then item else best) rest

-- `max(candidates, key=...)`: the first of the latest.
unfoldable pub first_latest : Limiter × TimePeriod → List (Limiter × TimePeriod) → Limiter
first_latest best [] = best.0
first_latest best (item ∷ rest) =
    first_latest (if ltb (best.1).start (item.1).start then item else best) rest

abbrev pub least_or_latest :
    List (Limiter × ℕ) → Limiter × TimePeriod → List (Limiter × TimePeriod) → Limiter
least_or_latest [] candidate candidates = first_latest candidate candidates
least_or_latest (item ∷ bounded) candidate candidates = first_least item bounded

-- `_earliest_ending`
unfoldable pub earliest_ending : Satnet → Beam → SpectrumAssignment → Limiter
unfolding bounded_parents first_least first_latest
earliest_ending s b a =
    least_or_latest (bounded_parents (parents s b a)) (by_satnet, s.validity)
      ((by_beam, b.validity) ∷ (by_assignment, a.validity) ∷ [])

-- The verdict on the intersection of the three periods.
unfoldable pub judge_period :
    Satnet
    → Beam
    → SpectrumAssignment
    → TimePeriod
    → List ContainmentFinding
    → Option TimePeriod
    → Verdict
unfolding earliest_ending limiting_parent
judge_period s b a requested findings none = record {
  permitted = none;
  findings =
      findings ++ record { code = no_common_period; limiter = some (earliest_ending s b a) } ∷ [];
  limiter = none;
}
judge_period s b a requested findings (some permitted) =
    if period_contains permitted requested
    then record { permitted = some permitted; findings = findings; limiter = none }
    else record {
      permitted = some permitted;
      findings =
          findings
          ++ record { code = period_not_contained; limiter = limiting_parent s b a requested } ∷ [];
      limiter = limiting_parent s b a requested;
    }

-- `evaluate`; `operational` decides nothing here, as in the source.
unfoldable pub evaluate_containment :
    Satnet
    → Beam
    → SpectrumAssignment
    → (requested : TimePeriod) → Direction
    → (polarization : Option ℕ) (operational : Bool) → Result Error Verdict
unfolding check_assignment_belongs judge_period
evaluate_containment s b a requested direction polarization operational = do
  permitted ← intersect (s.validity ∷ b.validity ∷ a.validity ∷ [])
  ok (
      judge_period s b a requested (check_assignment_belongs s b a direction polarization)
        permitted)
