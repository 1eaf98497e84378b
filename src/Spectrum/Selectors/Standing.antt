-- ===== src/Spectrum/Selectors/Standing.antt =====
-- What the filters of spectrum/selectors.py say of a moment, an assignment and a reservation.
use vsat_frequency_managemen.Beams.{BeamAssignment, DirectionConfig, FrequencyWindow}
use vsat_frequency_managemen.Database.{Leg, Reservation, leg_eq}
use vsat_frequency_managemen.Database.Legs.{leg_eq_iff}
use vsat_frequency_managemen.Paths.Preview.{assignment_for, first_of}
use vsat_frequency_managemen.Prelude.{
  All, All-both, All-keep, All-keep_back, All-keep_forth, All-map, All-self, Bool, Bool-cases, In,
  List, Option, [], any, ap, arith, false, inl, inr, keep, keep_passes, none, not, not_both, refl,
  some, subst, sym, true, ℕ, ◌&&◌, ◌<◌, ◌==◌, ◌↔◌, ◌∷◌, ◌≡◌, ◌≤◌, ◌⊎◌,
}
use vsat_frequency_managemen.Prelude.Found.{AtLeastOne, and_iff, equal_iff, or_iff}
use vsat_frequency_managemen.Prelude.Int.{◌≤ℤ◌}
use vsat_frequency_managemen.Prelude.Sort.{
  All-sorted, All-sorted_back, IsSorted, sorted, sorted-IsSorted,
}
use vsat_frequency_managemen.Spectrum.Selectors.{
  active_assignments, allocated_start_le, excluded, holds_now, in_force, is_entitled, on_window,
  reservations_on, resources_for, rf_start_le,
}
use vsat_frequency_managemen.Spectrum.Table.{names}

-- From `from` on, and before `until` where that is set.
abbrev pub IsInForce : (moment from : ℕ) → Option ℕ → Type 0
IsInForce moment from none = from ≤ moment
IsInForce moment from (some until) = (from ≤ moment) × (moment < until)

in_force_iff :
    (moment from : ℕ) (until : Option ℕ)
    → (in_force moment from until ≡ true) ↔ IsInForce moment from until
in_force_iff moment from none = (λ e. ground arith, λ h. ground arith)
in_force_iff moment from (some until) = (λ e. ground arith, λ h. ground arith)

-- An active assignment on the window, in force at the moment.
abbrev pub IsEligible : (moment window_id : ℕ) → BeamAssignment → Type 0
IsEligible moment window_id a =
    (a.stored.is_active ≡ true)
    × IsInForce moment a.stored.effective_from a.stored.effective_until
    × (a.frequency_window.pk ≡ window_id)

is_entitled-IsEligible :
    (moment window_id : ℕ) (a : BeamAssignment)
    → (is_entitled moment a && on_window (some window_id) a ≡ true) ↔ IsEligible moment window_id a
is_entitled-IsEligible moment window_id a =
    let outer = and_iff (is_entitled moment a) (on_window (some window_id) a) in
    let inner =
      and_iff a.stored.is_active
        (in_force moment a.stored.effective_from a.stored.effective_until) in
    let forced = in_force_iff moment a.stored.effective_from a.stored.effective_until in
    let on = equal_iff a.frequency_window.pk window_id in
    (
      λ e.
          let both = outer.0 e in
          let parts = inner.0 both.0 in (parts.0, forced.0 parts.1, on.0 both.1),
      λ h. outer.1 (inner.1 (h.0, forced.1 h.1), on.1 h.2),
    )

-- The answer is an eligible assignment with the lowest edge, or nothing where none is eligible.
abbrev pub IsPick :
    (assignments : List BeamAssignment) (moment : ℕ)
    → Option FrequencyWindow
    → Option BeamAssignment
    → Type 0
IsPick assignments moment none picked = picked ≡ none
IsPick assignments moment (some w) none = All (λ a. ¬ IsEligible moment w.pk a) assignments
IsPick assignments moment (some w) (some a) =
    In a assignments
    × IsEligible moment w.pk a
    × All (λ b. IsEligible moment w.pk b → a.stored.rf_start_hz ≤ℤ b.stored.rf_start_hz) assignments

start_total : (a b : BeamAssignment) → rf_start_le a b ≡ false → rf_start_le b a ≡ true
start_total a b e = ground arith

start_trans :
    (a b c : BeamAssignment)
    → rf_start_le a b ≡ true
    → rf_start_le b c ≡ true
    → rf_start_le a c ≡ true
start_trans a b c e f = ground arith

start_itself : (a : BeamAssignment) → rf_start_le a a ≡ true
start_itself a = ground arith

below_start :
    (a b : BeamAssignment) → rf_start_le a b ≡ true → a.stored.rf_start_hz ≤ℤ b.stored.rf_start_hz
below_start a b e = ground arith

-- `_assignment_for` of satnet_paths/services.py.
pub assignment_for-IsPick :
    (config : DirectionConfig) (moment : ℕ) (ow : Option FrequencyWindow)
    → IsPick config.spectrum_assignments moment ow (assignment_for config moment ow)
unfolding assignment_for active_assignments
assignment_for-IsPick config moment none = refl
assignment_for-IsPick config moment (some w) =
    by_list (sorted rf_start_le (keep passes config.spectrum_assignments)) refl
  where
    passes : BeamAssignment → Bool
    passes a = is_entitled moment a && on_window (some w.pk) a

    back :
        (P : BeamAssignment → Type 0)
        → All P (sorted rf_start_le (keep passes config.spectrum_assignments))
        → All (λ a. passes a ≡ true → P a) config.spectrum_assignments
    back P h =
        All-keep_back passes P config.spectrum_assignments
          (All-sorted_back rf_start_le P (keep passes config.spectrum_assignments) h)

    found :
        All
          (λ a. In a config.spectrum_assignments × (passes a ≡ true))
          (sorted rf_start_le (keep passes config.spectrum_assignments))
    found =
        All-sorted rf_start_le (λ a. In a config.spectrum_assignments × (passes a ≡ true))
          (keep passes config.spectrum_assignments)
          (All-both (λ a. In a config.spectrum_assignments) (λ a. passes a ≡ true)
            (keep passes config.spectrum_assignments)
            (All-keep (λ a. In a config.spectrum_assignments) passes config.spectrum_assignments
              (All-self config.spectrum_assignments))
            (keep_passes passes config.spectrum_assignments))

    by_list :
        (ys : List BeamAssignment)
        → sorted rf_start_le (keep passes config.spectrum_assignments) ≡ ys
        → IsPick config.spectrum_assignments moment (some w) (first_of ys)
    by_list [] e =
        All-map (λ a no h. absurd (no ((is_entitled-IsEligible moment w.pk a).1 h)))
          config.spectrum_assignments (back (λ a. ⊥) (subst (All (λ a. ⊥)) (sym e) tt))
    by_list (a ∷ ys) e =
        let here =
          (subst (All (λ a. In a config.spectrum_assignments × (passes a ≡ true))) e found).0 in
        let ordered = subst (IsSorted rf_start_le) e (
          sorted-IsSorted rf_start_le start_total start_trans
            (keep passes config.spectrum_assignments)) in
        (
          here.0,
          (is_entitled-IsEligible moment w.pk a).0 here.1,
          All-map
              (λ b under h. below_start a b (under ((is_entitled-IsEligible moment w.pk b).1 h)))
              config.spectrum_assignments
              (back (λ b. rf_start_le a b ≡ true)
                (subst (All (λ b. rf_start_le a b ≡ true)) (sym e) (start_itself a, ordered.0))),
        )

-- A reservation of this path; nothing is, where no path is named.
abbrev pub IsOfPath : Option ℕ → Reservation → Type 0
IsOfPath none row = ⊥
IsOfPath (some pk) row = row.satnet_path_id ≡ some pk

-- A reservation that holds, at the moment, a resource that the leg is mapped to, and is not of the
-- excluded path.
abbrev pub IsHeld : (moment : ℕ) → Option ℕ → List (ℕ × Leg) → Leg → Reservation → Type 0
IsHeld moment exclude links leg row =
    AtLeastOne (λ link. (link.0 ≡ row.spectrum_resource_id) × (link.1 ≡ leg)) links
    × (row.reserves_spectrum ≡ true)
    × IsInForce moment row.valid_from row.valid_until
    × ¬ IsOfPath exclude row

mapped_iff :
    (leg : Leg) (id : ℕ) (links : List (ℕ × Leg))
    → (any (λ r. r == id) (resources_for leg links) ≡ true)
      ↔ AtLeastOne (λ link. (link.0 ≡ id) × (link.1 ≡ leg)) links
unfolding resources_for
mapped_iff leg id [] = (λ e. cc, λ h. absurd h)
mapped_iff leg id (link ∷ links) =
    let rest = mapped_iff leg id links in
    let same_leg = leg_eq_iff link.1 leg in
    let same_id = equal_iff link.0 id in
    elim (Bool-cases (leg_eq link.1 leg)) [
      | inl on ↦
          let split = or_iff (link.0 == id) (any (λ r. r == id) (resources_for leg links)) in
          rw on (
            λ e. elim (split.0 e) [
              | inl here ↦ inl (same_id.0 here, same_leg.0 on)
              | inr later ↦ inr (rest.0 later)
            ],
            λ h.
                split.1
                  (elim h
                    as (λ _.
                      (link.0 == id ≡ true)
                      ⊎ (any (λ r. r == id) (resources_for leg links) ≡ true)) [
                        | inl here ↦ inl (same_id.1 here.0)
                        | inr later ↦ inr (rest.1 later)
                      ]),
          )
      | inr off ↦ rw off (
        λ e. inr (rest.0 e),
        λ h. elim h [ inl here ↦ not_both _ (same_leg.1 here.1) off | inr later ↦ rest.1 later ],
      )
    ]

-- Some link maps the leg.
pub unmapped_iff :
    (leg : Leg) (links : List (ℕ × Leg))
    → (¬ (resources_for leg links ≡ [])) ↔ AtLeastOne (λ link. link.1 ≡ leg) links
unfolding resources_for
unmapped_iff leg [] = (λ f. absurd (f refl), λ h. absurd h)
unmapped_iff leg (link ∷ links) =
    let rest = unmapped_iff leg links in
    let same_leg = leg_eq_iff link.1 leg in
    elim (Bool-cases (leg_eq link.1 leg)) [
      | inl on ↦ rw on (λ f. inl (same_leg.0 on), λ h z. cc)
      | inr off ↦ rw off (
        λ f. inr (rest.0 f),
        λ h. elim h [ inl here ↦ not_both _ (same_leg.1 here) off | inr later ↦ rest.1 later ],
      )
    ]

excluded_iff :
    (exclude : Option ℕ) (row : Reservation)
    → (not (excluded exclude row) ≡ true) ↔ (¬ IsOfPath exclude row)
excluded_iff none row = (λ e h. absurd h, λ f. refl)
excluded_iff (some pk) row = by_path row.satnet_path_id
  where
    by_path : (o : Option ℕ) → (not (names pk o) ≡ true) ↔ (¬ (◌≡◌ {A = Option ℕ} o (some pk)))
    by_path none = (λ e h. cc, λ f. refl)
    by_path (some q) =
        let same = equal_iff q pk in
        elim (Bool-cases (q == pk)) [
          | inl same_path ↦ rw same_path (λ e h. cc, λ f. absurd (f (ap some (same.0 same_path))))
          | inr other_path ↦
              rw other_path
                (λ e h. let inner : q ≡ pk = cc in not_both _ (same.1 inner) other_path, λ f. refl)
        ]

holds_now-IsHeld :
    (moment : ℕ) (exclude : Option ℕ) (links : List (ℕ × Leg)) (leg : Leg) (row : Reservation)
    → (holds_now (resources_for leg links) moment row && not (excluded exclude row) ≡ true)
      ↔ IsHeld moment exclude links leg row
holds_now-IsHeld moment exclude links leg row =
    let mapped = any (λ id. id == row.spectrum_resource_id) (resources_for leg links) in
    let forced = in_force moment row.valid_from row.valid_until in
    let outer =
      and_iff (holds_now (resources_for leg links) moment row) (not (excluded exclude row)) in
    let inner = and_iff (mapped && row.reserves_spectrum) forced in
    let inmost = and_iff mapped row.reserves_spectrum in
    let on_leg = mapped_iff leg row.spectrum_resource_id links in
    let now = in_force_iff moment row.valid_from row.valid_until in
    let other = excluded_iff exclude row in
    (
      λ e.
          let both = outer.0 e in
          let held = inner.0 both.0 in
          let rest = inmost.0 held.0 in (on_leg.0 rest.0, rest.1, now.0 held.1, other.0 both.1),
      λ h. outer.1 (inner.1 (inmost.1 (on_leg.1 h.0, h.1), now.1 h.2), other.1 h.3),
    )

-- What holds of every row that `reservations_on` answers holds of every row of the table that is held.
pub reservations_on-IsHeld :
    (P : Reservation → Type 0) (rows : List Reservation) (links : List (ℕ × Leg)) (leg : Leg)
    (moment : ℕ) (exclude : Option ℕ)
    → All P (reservations_on rows (resources_for leg links) moment exclude)
      ↔ All (λ row. IsHeld moment exclude links leg row → P row) rows
unfolding reservations_on
reservations_on-IsHeld P rows links leg moment exclude =
    let passes = λ (row : Reservation).
      holds_now (resources_for leg links) moment row && not (excluded exclude row) in
    (
      λ h.
          All-map (λ row f held. f ((holds_now-IsHeld moment exclude links leg row).1 held)) rows
            (All-keep_back passes P rows
              (All-sorted_back allocated_start_le P (keep passes rows) h)),
      λ h. All-sorted allocated_start_le P (keep passes rows) (
          All-keep_forth passes P rows
            (All-map (λ row f e. f ((holds_now-IsHeld moment exclude links leg row).0 e)) rows h)),
    )
