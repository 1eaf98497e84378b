-- ===== src/Paths/Proposals/Clear.antt =====
-- A proposal without findings (satnet_paths/services.py, `preview`).
use vsat_frequency_managemen.Beams.{BeamAssignment, DirectionConfig}
use vsat_frequency_managemen.Calculations.Bandwidth.{place_both_sides}
use vsat_frequency_managemen.Calculations.Periods.{
  IsPeriod, TimePeriod, runs_backwards, time_period,
}
use vsat_frequency_managemen.Database.{Reservation}
use vsat_frequency_managemen.Paths.Preview.{
  PathFinding, PathSide, PathValues, Proposal, SatnetRow, assignment_for, config_for, sides_for,
  translation_of,
}
use vsat_frequency_managemen.Paths.Proposals.{
  check_conflicts, check_containment, containment_findings, judge_sides, polarization_of, preview,
  propose, size_up, spectrum_assignment,
}
use vsat_frequency_managemen.Paths.Proposals.Conflicts.{IsFree, check_conflicts_iff_IsFree}
use vsat_frequency_managemen.Prelude.{
  >>=-eq-ok, Bool-cases, List, Option, [], ap, inl, inr, none, ok, ok-injective, refl, some, subst,
  subst₂, sym, true, ℕ, ◌++◌, ◌↔◌, ◌∙◌, ◌∷◌, ◌≡◌,
}
use vsat_frequency_managemen.Satnets.Containment.{
  ContainmentFinding, Verdict, evaluate_containment, no_findings,
}
use vsat_frequency_managemen.Satnets.Containment.Belonging.{Belongs}
use vsat_frequency_managemen.Satnets.Containment.Decided.{Covered, evaluate_containment-IsVerdict}
use vsat_frequency_managemen.Spectrum.Selectors.Standing.{IsPick, assignment_for-IsPick}

containment_findings-nil :
    (fs : List ContainmentFinding) → (containment_findings fs ≡ []) ↔ (no_findings fs ≡ true)
unfolding containment_findings
containment_findings-nil [] = (λ z. refl, λ t. refl)
containment_findings-nil (f ∷ fs) = (λ z. cc, λ t. cc)

-- The assignment belongs to the path, and the period is inside those of its parents.
abbrev pub IsWithin :
    SatnetRow → DirectionConfig → BeamAssignment → TimePeriod → (polarization : ℕ) → Type 0
IsWithin s config a requested polarization =
    Belongs s.network s.beam (spectrum_assignment config a) config.direction (some polarization)
    × Covered s.network s.beam (spectrum_assignment config a) requested

check_containment_iff_IsWithin :
    (s : SatnetRow) (config : DirectionConfig) (a : BeamAssignment) (requested : TimePeriod)
    (polarization : ℕ) (fs : List PathFinding)
    → IsPeriod requested
    → check_containment s config a requested polarization ≡ ok fs
    → (fs ≡ []) ↔ IsWithin s config a requested polarization
unfolding check_containment
check_containment_iff_IsWithin s config a requested polarization fs h e =
    let (v, returns, verdict) =
      evaluate_containment-IsVerdict s.network s.beam (spectrum_assignment config a) requested
        config.direction (some polarization) true h in
    let (w, e1, r1) =
      >>=-eq-ok
        (evaluate_containment s.network s.beam (spectrum_assignment config a) requested
          config.direction (some polarization) true)
        _ e in
    let same : v ≡ w = ok-injective (sym returns ∙ e1) in
    let listed : containment_findings v.findings ≡ fs =
      ap (λ x. containment_findings (Verdict.findings x)) same ∙ ok-injective r1 in
    let none_listed = containment_findings-nil v.findings in
    (
      λ z. verdict.decides.0 (none_listed.0 (listed ∙ z)),
      λ c. sym listed ∙ none_listed.1 (verdict.decides.1 c),
    )

time_period_returned :
    (start : ℕ) (end : Option ℕ) (p : TimePeriod)
    → time_period start end ≡ ok p
    → IsPeriod p × (record { start = start; end = end } ≡ p)
unfolding time_period
time_period_returned start end p e = elim (Bool-cases (runs_backwards start end)) [
  | inl back ↦ let bad = rw back at e in cc
  | inr forth ↦
      let returned = rw forth at e in
      let same : record { start = start; end = end } ≡ p = ok-injective returned in
      (subst IsPeriod same forth, same)
]

-- Nothing stands in the way of the two sides: the period asked for is inside those of the parents, and
-- both legs are free.
pub record AreClear (rows : List Reservation) (now : ℕ) (s : SatnetRow) (exclude : Option ℕ)
    (config : DirectionConfig) (canonical translated : PathSide) (requested : TimePeriod)
    (oca ota : Option BeamAssignment) : Type 0 where
  pub ca : BeamAssignment
  pub ta : BeamAssignment
  pub polarization : ℕ
  pub at_ca : oca ≡ some ca
  pub at_ta : ota ≡ some ta
  pub at_polarization : polarization_of canonical.frequency_window ≡ ok polarization
  pub within : IsWithin s config ca requested polarization
  pub free_canonical : IsFree rows now exclude config canonical ca requested
  pub free_translated : IsFree rows now exclude config translated ta requested

append_three {ℓ} :
    {A : Type ℓ} (xs ys zs : List A) → (xs ++ ys ++ zs ≡ []) ↔ ((xs ≡ []) × (ys ≡ []) × (zs ≡ []))
append_three [] [] zs = (λ e. (refl, refl, e), λ h. h.2)
append_three [] (y ∷ ys) zs = (λ e. cc, λ h. cc)
append_three (x ∷ xs) ys zs = (λ e. cc, λ h. cc)

judge_sides_iff_AreClear :
    (rows : List Reservation) (now : ℕ) (s : SatnetRow) (values : PathValues) (exclude : Option ℕ)
    (config : DirectionConfig) (canonical translated : PathSide) (oca ota : Option BeamAssignment)
    (fs : List PathFinding)
    → judge_sides rows now s values exclude config canonical translated oca ota ≡ ok fs
    → (fs ≡ [])
      ↔ AreClear rows now s exclude config canonical translated
          (record { start = values.valid_from; end = values.valid_until })
          oca
          ota
unfolding judge_sides
judge_sides_iff_AreClear rows now s values exclude config canonical translated none ota fs e =
    let found = ok-injective e in (λ z. cc, λ c. let bad = c.at_ca in cc)
judge_sides_iff_AreClear rows now s values exclude config canonical translated (some ca) none fs e =
    let found = ok-injective e in (λ z. cc, λ c. let bad = c.at_ta in cc)
judge_sides_iff_AreClear rows now s values exclude config canonical translated (some ca) (some ta)
      fs e =
    let (requested, e0, r0) = >>=-eq-ok (time_period values.valid_from values.valid_until) _ e in
    let (polarization, e1, r1) = >>=-eq-ok (polarization_of canonical.frequency_window) _ r0 in
    let (contained, e2, r2) =
      >>=-eq-ok (check_containment s config ca requested polarization) _ r1 in
    let (on_canonical, e3, r3) =
      >>=-eq-ok (check_conflicts rows config canonical ca requested exclude now) _ r2 in
    let (on_translated, e4, r4) =
      >>=-eq-ok (check_conflicts rows config translated ta requested exclude now) _ r3 in
    let (is_period, same) =
      time_period_returned values.valid_from values.valid_until requested e0 in
    let joined : contained ++ on_canonical ++ on_translated ≡ fs = ok-injective r4 in
    let all = append_three contained on_canonical on_translated in
    let within =
      check_containment_iff_IsWithin s config ca requested polarization contained is_period e2 in
    let free =
      check_conflicts_iff_IsFree rows config canonical ca requested exclude now on_canonical e3 in
    let free' =
      check_conflicts_iff_IsFree rows config translated ta requested exclude now on_translated e4 in
    subst
      (λ q.
        (fs ≡ []) ↔ AreClear rows now s exclude config canonical translated q (some ca) (some ta))
      (sym same)
      (
        λ z.
            let parts = all.0 (joined ∙ z) in
            record {
              ca = ca;
              ta = ta;
              polarization = polarization;
              at_ca = refl;
              at_ta = refl;
              at_polarization = e1;
              within = within.0 parts.0;
              free_canonical = free.0 parts.1;
              free_translated = free'.0 parts.2;
            },
        λ c.
            let given : ◌≡◌ {A = Option BeamAssignment} (some ca) (some c.ca) = c.at_ca in
            let given' : ◌≡◌ {A = Option BeamAssignment} (some ta) (some c.ta) = c.at_ta in
            let same_ca : c.ca ≡ ca = cc in
            let same_ta : c.ta ≡ ta = cc in
            let same_polarization = ok-injective (sym c.at_polarization ∙ e1) in
            sym joined
            ∙ all.1 (
              within.1 (
                  subst₂ (λ a q. IsWithin s config a requested q) same_ca same_polarization
                    c.within),
              free.1 (
                  subst (λ a. IsFree rows now exclude config canonical a requested) same_ca
                    c.free_canonical),
              free'.1 (
                  subst (λ a. IsFree rows now exclude config translated a requested) same_ta
                    c.free_translated),
            ),
      )

-- What stands behind a proposal without findings.
pub record IsUnblocked (rows : List Reservation) (now : ℕ) (s : SatnetRow) (values : PathValues)
    (exclude : Option ℕ) (p : Proposal) : Type 0 where
  pub canonical : PathSide
  pub translated : PathSide
  pub sides : sides_for p.config p.config.payload_path p.placement ≡ ok (canonical, translated)
  pub picked_canonical :
      IsPick p.config.spectrum_assignments now canonical.frequency_window p.canonical_assignment
  pub picked_translated :
      IsPick p.config.spectrum_assignments now translated.frequency_window p.translated_assignment
  pub clear :
      AreClear rows now s exclude p.config canonical translated
        (record { start = values.valid_from; end = values.valid_until })
        p.canonical_assignment
        p.translated_assignment

-- What a preview that returned has established.
pub record IsJudged (rows : List Reservation) (now : ℕ) (s : SatnetRow) (values : PathValues)
    (exclude : Option ℕ) (p : Proposal) : Type 0 where
  pub canonical : PathSide
  pub translated : PathSide
  pub configured : config_for s values.direction ≡ ok p.config
  pub sides : sides_for p.config p.config.payload_path p.placement ≡ ok (canonical, translated)
  pub picked_canonical :
      IsPick p.config.spectrum_assignments now canonical.frequency_window p.canonical_assignment
  pub picked_translated :
      IsPick p.config.spectrum_assignments now translated.frequency_window p.translated_assignment
  pub verdict : (p.findings ≡ []) ↔ IsUnblocked rows now s values exclude p

-- A preview that returns has picked, for each of its two sides, among the direction's assignments the
-- active ones on that side's window that are in force now, one with the lowest edge, or none exactly
-- where there is none. It is without findings exactly when: both sides have an assignment; the
-- canonical one belongs to the path, and the period asked for is inside the validity of the Satnet,
-- the Beam and that assignment; and on each leg some resource is mapped, the allocated range is inside
-- the leg's assignment, and no row of the table that reserves, now, a resource mapped to the leg, and
-- is not the excluded path's, overlaps both the allocated range and the period.
pub preview-IsJudged :
    (rows : List Reservation) (now : ℕ) (s : SatnetRow) (values : PathValues) (exclude : Option ℕ)
    (p : Proposal)
    → preview rows now s values exclude ≡ ok p
    → IsJudged rows now s values exclude p
unfolding preview propose
preview-IsJudged rows now s values exclude p e =
    let (config, e0, r0) = >>=-eq-ok (config_for s values.direction) _ e in
    let (sized, e1, r1) = >>=-eq-ok (size_up s values) _ r0 in
    let (translation, e2, r2) = >>=-eq-ok (translation_of config config.payload_path) _ r1 in
    let (placement, e3, r3) =
      >>=-eq-ok (place_both_sides sized.0 values.canonical_centre_hz sized.2 translation true) _
        r2 in
    let (sides, e4, r4) = >>=-eq-ok (sides_for config config.payload_path placement) _ r3 in
    let (findings, e5, r5) =
      >>=-eq-ok
        (judge_sides rows now s values exclude config sides.0 sides.1
          (assignment_for config now (sides.0).frequency_window)
          (assignment_for config now (sides.1).frequency_window))
        _ r4 in
    let same = ok-injective r5 in
    let meant =
      judge_sides_iff_AreClear rows now s values exclude config sides.0 sides.1
        (assignment_for config now (sides.0).frequency_window)
        (assignment_for config now (sides.1).frequency_window) findings e5 in
    let on_canonical = assignment_for-IsPick config now (sides.0).frequency_window in
    let on_translated = assignment_for-IsPick config now (sides.1).frequency_window in
    subst (IsJudged rows now s values exclude) same (record {
      canonical = sides.0;
      translated = sides.1;
      configured = e0;
      sides = e4;
      picked_canonical = on_canonical;
      picked_translated = on_translated;
      verdict = (
        λ z. record {
          canonical = sides.0;
          translated = sides.1;
          sides = e4;
          picked_canonical = on_canonical;
          picked_translated = on_translated;
          clear = meant.0 z;
        },
        λ c.
            let same_sides : (c.canonical, c.translated) ≡ sides =
              ok-injective (sym c.sides ∙ e4) in
            meant.1 (
              subst
                (λ x.
                  AreClear rows now s exclude config x.0 x.1
                    (record { start = values.valid_from; end = values.valid_until })
                    (assignment_for config now (sides.0).frequency_window)
                    (assignment_for config now (sides.1).frequency_window))
                same_sides c.clear),
      );
    })
