-- ===== src/Paths/Proposals/Conflicts.antt =====
-- What `_check_conflicts` finds on one leg (satnet_paths/services.py).
use vsat_frequency_managemen.Beams.{BeamAssignment, DirectionConfig}
use vsat_frequency_managemen.Calculations.Errors.{Error}
use vsat_frequency_managemen.Calculations.Periods.{TimePeriod, period_overlaps, runs_backwards}
use vsat_frequency_managemen.Calculations.Ranges.{
  FrequencyRange, contains, frequency_range, overlaps,
}
use vsat_frequency_managemen.Database.{Reservation}
use vsat_frequency_managemen.Paths.Preview.{Conflict, PathFinding, PathSide}
use vsat_frequency_managemen.Paths.Proposals.{
  check_conflicts, check_resources, conflict_findings, conflict_with, conflicts_with,
  entitlement_findings, gaps_for, unmapped_or,
}
use vsat_frequency_managemen.Prelude.{
  >>=-eq-ok, All, Bool, Bool-cases, List, Option, Result, [], ap, false, inl, inr, not_both, ok,
  ok-injective, refl, sym, true, ℕ, ◌++◌, ◌↔◌, ◌∙◌, ◌∷◌, ◌≡◌,
}
use vsat_frequency_managemen.Prelude.Found.{AtLeastOne}
use vsat_frequency_managemen.Prelude.Int.{leb_ℤ, ℤ}
use vsat_frequency_managemen.Spectrum.Selectors.{reservations_on, resources_for}
use vsat_frequency_managemen.Spectrum.Selectors.Standing.{
  IsHeld, reservations_on-IsHeld, unmapped_iff,
}

-- A reservation is in the way: it overlaps the range and the period that are asked for.
abbrev pub Clashes : FrequencyRange → TimePeriod → Reservation → Type 0
Clashes proposed requested row =
    (overlaps proposed (record { start_hz = row.allocated_start_hz; end_hz = row.allocated_end_hz })
      ≡ true)
    × (period_overlaps requested (record { start = row.valid_from; end = row.valid_until }) ≡ true)

conflict_with-nil :
    (proposed : FrequencyRange) (requested : TimePeriod) (row : Reservation) (cs : List Conflict)
    → conflict_with proposed requested row ≡ ok cs
    → (cs ≡ []) ↔ (¬ Clashes proposed requested row)
unfolding conflict_with
conflict_with-nil proposed requested row cs e =
    elim (Bool-cases (leb_ℤ row.allocated_end_hz row.allocated_start_hz)) [
      | inl empty ↦ let bad = rw empty at e in cc
      | inr range ↦
          elim (Bool-cases (
            overlaps proposed
              (record { start_hz = row.allocated_start_hz; end_hz = row.allocated_end_hz }))) [
                | inr apart ↦
                    let found = rw (range, apart) at e in
                    (λ z c. not_both _ c.0 apart, λ f. sym (ok-injective found))
                | inl over ↦ elim (Bool-cases (runs_backwards row.valid_from row.valid_until)) [
                  | inl back ↦ let bad = rw (range, over, back) at e in cc
                  | inr forth ↦
                      elim (Bool-cases (
                        period_overlaps requested
                          (record { start = row.valid_from; end = row.valid_until }))) [
                            | inl both ↦
                                let found = rw (range, over, forth, both) at e in
                                (λ z. cc, λ f. absurd (f (over, both)))
                            | inr other ↦
                                let found = rw (range, over, forth, other) at e in
                                (λ z c. not_both _ c.1 other, λ f. sym (ok-injective found))
                          ]
                ]
              ]
    ]

append_nil_iff {ℓ} : {A : Type ℓ} (xs ys : List A) → (xs ++ ys ≡ []) ↔ ((xs ≡ []) × (ys ≡ []))
append_nil_iff [] ys = (λ e. (refl, e), λ h. h.1)
append_nil_iff (x ∷ xs) ys = (λ e. cc, λ h. cc)

pub conflicts_with-nil :
    (proposed : FrequencyRange) (requested : TimePeriod) (rows : List Reservation)
    (cs : List Conflict)
    → conflicts_with proposed requested rows ≡ ok cs
    → (cs ≡ []) ↔ All (λ row. ¬ Clashes proposed requested row) rows
unfolding conflicts_with
conflicts_with-nil proposed requested [] cs e = (λ z. tt, λ h. sym (ok-injective e))
conflicts_with-nil proposed requested (row ∷ rows) cs e =
    let (here, e1, r1) = >>=-eq-ok (conflict_with proposed requested row) _ e in
    let (rest, e2, r2) = >>=-eq-ok (conflicts_with proposed requested rows) _ r1 in
    let joined : here ++ rest ≡ cs = ok-injective r2 in
    let first_turn = conflict_with-nil proposed requested row here e1 in
    let later = conflicts_with-nil proposed requested rows rest e2 in
    let both = append_nil_iff here rest in
    (
      λ z. let parts = both.0 (joined ∙ z) in (first_turn.0 parts.0, later.0 parts.1),
      λ h. sym joined ∙ both.1 (first_turn.1 h.0, later.1 h.1),
    )

entitlement_findings-nil :
    (inside : Bool) (proposed : FrequencyRange) (suggested : Result Error (List FrequencyRange))
    (fs : List PathFinding)
    → entitlement_findings inside proposed suggested ≡ ok fs
    → (fs ≡ []) ↔ (inside ≡ true)
unfolding entitlement_findings
entitlement_findings-nil true proposed suggested fs e = (λ z. refl, λ t. sym (ok-injective e))
entitlement_findings-nil false proposed suggested fs e =
    let (free, e1, r1) = >>=-eq-ok suggested _ e in
    let found = ok-injective r1 in (λ z. cc, λ t. cc)

conflict_findings-nil :
    (cs : List Conflict) (proposed : FrequencyRange)
    (suggested : Result Error (List FrequencyRange)) (fs : List PathFinding)
    → conflict_findings cs proposed suggested ≡ ok fs
    → (fs ≡ []) ↔ (cs ≡ [])
unfolding conflict_findings
conflict_findings-nil [] proposed suggested fs e = (λ z. refl, λ t. sym (ok-injective e))
conflict_findings-nil (c ∷ cs) proposed suggested fs e =
    let (free, e1, r1) = >>=-eq-ok suggested _ e in
    let found = ok-injective r1 in (λ z. cc, λ t. cc)

-- One leg of an allocation that nothing is in the way of.
pub record IsFree (rows : List Reservation) (now : ℕ) (exclude : Option ℕ)
    (config : DirectionConfig) (side : PathSide) (a : BeamAssignment) (requested : TimePeriod)
    : Type 0 where
  pub mapped : AtLeastOne (λ link. link.1 ≡ side.leg) config.spectrum_resources
  pub entitled :
      contains
        (record { start_hz = a.stored.rf_start_hz; end_hz = a.stored.rf_end_hz })
        side.placement.allocated
      ≡ true
  pub unopposed :
      All
        (λ row.
          IsHeld now exclude config.spectrum_resources side.leg row
          → ¬ Clashes side.placement.allocated requested row)
        rows

frequency_range_returned :
    (a b : ℤ) (r : FrequencyRange)
    → frequency_range a b ≡ ok r
    → record { start_hz = a; end_hz = b } ≡ r
unfolding frequency_range
frequency_range_returned a b r e = elim (Bool-cases (leb_ℤ b a)) [
  | inl empty ↦ let bad = rw empty at e in cc
  | inr range ↦ let returned = rw range at e in ok-injective returned
]

check_resources-nil :
    (rows : List Reservation) (config : DirectionConfig) (side : PathSide) (a : BeamAssignment)
    (requested : TimePeriod) (exclude : Option ℕ) (now : ℕ) (ids : List ℕ) (fs : List PathFinding)
    → check_resources rows config side a requested exclude now ids ≡ ok fs
    → (fs ≡ []) ↔ (
        (contains
            (record { start_hz = a.stored.rf_start_hz; end_hz = a.stored.rf_end_hz })
            side.placement.allocated
          ≡ true)
        × All
            (λ row. ¬ Clashes side.placement.allocated requested row)
            (reservations_on rows ids now exclude))
unfolding check_resources
check_resources-nil rows config side a requested exclude now ids fs e =
    let proposed = side.placement.allocated in
    let free = gaps_for rows config side.leg now in
    let (r, e0, r0) = >>=-eq-ok (frequency_range a.stored.rf_start_hz a.stored.rf_end_hz) _ e in
    let (outside, e1, r1) =
      >>=-eq-ok (entitlement_findings (contains r proposed) proposed free) _ r0 in
    let (conflicts, e2, r2) =
      >>=-eq-ok (conflicts_with proposed requested (reservations_on rows ids now exclude)) _ r1 in
    let (clashes, e3, r3) = >>=-eq-ok (conflict_findings conflicts proposed free) _ r2 in
    let same = frequency_range_returned a.stored.rf_start_hz a.stored.rf_end_hz r e0 in
    let inside = entitlement_findings-nil (contains r proposed) proposed free outside e1 in
    let opposed =
      conflicts_with-nil proposed requested (reservations_on rows ids now exclude) conflicts e2 in
    let reported = conflict_findings-nil conflicts proposed free clashes e3 in
    let joined : outside ++ clashes ≡ fs = ok-injective r3 in
    let both = append_nil_iff outside clashes in
    (
      λ z.
          let parts = both.0 (joined ∙ z) in
          (ap (λ w. contains w proposed) same ∙ inside.0 parts.0, opposed.0 (reported.0 parts.1)),
      λ h.
          sym joined
          ∙ both.1 (
            inside.1 (ap (λ w. contains w proposed) (sym same) ∙ h.0),
            reported.1 (opposed.1 h.1),
          ),
    )

-- `_check_conflicts` finds nothing exactly when the leg is free.
pub check_conflicts_iff_IsFree :
    (rows : List Reservation) (config : DirectionConfig) (side : PathSide) (a : BeamAssignment)
    (requested : TimePeriod) (exclude : Option ℕ) (now : ℕ) (fs : List PathFinding)
    → check_conflicts rows config side a requested exclude now ≡ ok fs
    → (fs ≡ []) ↔ IsFree rows now exclude config side a requested
unfolding check_conflicts
check_conflicts_iff_IsFree rows config side a requested exclude now fs e =
    by_ids (resources_for side.leg config.spectrum_resources) refl e
  where
    leg_mapped :
        (¬ (resources_for side.leg config.spectrum_resources ≡ []))
        ↔ AtLeastOne (λ link. link.1 ≡ side.leg) config.spectrum_resources
    leg_mapped = unmapped_iff side.leg config.spectrum_resources

    by_ids :
        (ids : List ℕ)
        → resources_for side.leg config.spectrum_resources ≡ ids
        → unmapped_or ids (check_resources rows config side a requested exclude now) ≡ ok fs
        → (fs ≡ []) ↔ IsFree rows now exclude config side a requested
    by_ids [] at_ids e =
        let found = ok-injective e in (λ z. cc, λ h. absurd (leg_mapped.1 h.mapped at_ids))
    by_ids (id ∷ ids) at_ids e =
        let meant = check_resources-nil rows config side a requested exclude now (id ∷ ids) fs e in
        let held =
          reservations_on-IsHeld (λ row. ¬ Clashes side.placement.allocated requested row) rows
            config.spectrum_resources side.leg now exclude in
        (
          λ z. record {
            mapped = leg_mapped.0 (λ none. cc);
            entitled = (meant.0 z).0;
            unopposed = held.0 (rw at_ids (meant.0 z).1);
          },
          λ h.
              let unopposed = held.1 h.unopposed in
              let opposed_by = rw at_ids at unopposed in meant.1 (h.entitled, opposed_by),
        )
