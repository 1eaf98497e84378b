-- ===== src/Calculations/Conversion/Matching.antt =====
-- `match_profiles` and `best_profile` (calculations/conversion.py).
use vsat_frequency_managemen.Calculations.Conversion.{
  EquipmentProfileSpec, ProfileMatch, best_profile, evaluate, evaluate_all, is_usable,
  judge_intermediate, match_le, order_matches, profile_le, to_intermediate,
}
use vsat_frequency_managemen.Calculations.Conversion.Inverse.{
  OnlyConversion, to_intermediate-OnlyConversion,
}
use vsat_frequency_managemen.Calculations.Errors.{
  Error, assertion_error, attribute_error, conversion_error, does_not_exist, empty_range,
  exactness_error, sub_hertz_error, value_error,
}
use vsat_frequency_managemen.Calculations.Gaps.{fits}
use vsat_frequency_managemen.Calculations.Gaps.Exact.{covers}
use vsat_frequency_managemen.Calculations.Ranges.{FrequencyRange, IsRange, contains}
use vsat_frequency_managemen.Prelude.{
  All, All-In, All-keep, All-keep_back, All-map, All-self, Bool, Bool-cases, In, List, Option,
  Result, [], arith, err, false, first, first-none, inl, inr, keep, keep_passes, none, not, ok,
  ok-injective, refl, some, sym, true, ◌++◌, ◌↔◌, ◌∙◌, ◌∷◌, ◌≡◌,
}
use vsat_frequency_managemen.Prelude.Sort.{All-sorted, All-sorted_back, sorted, sorted-IsSorted}

-- `evaluate` returns a match for every profile.
pub evaluate_ok :
    (rf : FrequencyRange) (p : EquipmentProfileSpec)
    → IsRange rf
    → (m : ProfileMatch) × (evaluate rf p ≡ ok m) × (m.profile ≡ p)
unfolding evaluate
evaluate_ok rf p h = elim (Bool-cases (contains p.rf_limits rf)) [
  | inl fits ↦ rw fits (judged (to_intermediate rf p) (to_intermediate-OnlyConversion rf p h))
  | inr out ↦ rw out (_, refl, refl)
]
  where
    judged :
        (i : Result Error FrequencyRange)
        → OnlyConversion i
        → (m : ProfileMatch) × (judge_intermediate p i ≡ ok m) × (m.profile ≡ p)
    judged (ok i) h = (_, refl, refl)
    judged (err conversion_error) h = (_, refl, refl)
    judged (err empty_range) h = cc
    judged (err value_error) h = cc
    judged (err exactness_error) h = cc
    judged (err sub_hertz_error) h = cc
    judged (err assertion_error) h = cc
    judged (err does_not_exist) h = cc
    judged (err attribute_error) h = cc

-- Usable: the RF interval lies within the profile's RF limits, converts, and the IF interval lies
-- within the profile's IF limits.
pub record Carries (rf : FrequencyRange) (p : EquipmentProfileSpec) : Type 0 where
  pub rf_fits : contains p.rf_limits rf ≡ true
  pub intermediate : FrequencyRange
  pub converts : to_intermediate rf p ≡ ok intermediate
  pub if_fits : contains p.if_limits intermediate ≡ true

-- The outcome of `evaluate` read as the answer to "is it usable?".
abbrev pub usable : Result Error ProfileMatch → Bool
usable (ok m) = is_usable m
usable (err e) = false

-- A profile is usable exactly when it carries the interval.
pub usable_iff_Carries :
    (rf : FrequencyRange) (p : EquipmentProfileSpec)
    → (usable (evaluate rf p) ≡ true) ↔ Carries rf p
unfolding evaluate judge_intermediate
usable_iff_Carries rf p = (
  λ e. elim (Bool-cases (contains p.rf_limits rf)) [
    | inl fits ↦ found fits (to_intermediate rf p) refl (rw fits at e)
    | inr out ↦ let bad : false ≡ true = rw out at e in cc
  ],
  λ c. rw (c.rf_fits, c.converts, c.if_fits) refl,
)
  where
    found :
        contains p.rf_limits rf ≡ true
        → (i : Result Error FrequencyRange) → to_intermediate rf p ≡ i
        → usable (judge_intermediate p i) ≡ true
        → Carries rf p
    found fits (ok i) e h = record {
      rf_fits = fits;
      intermediate = i;
      converts = e;
      if_fits = ground arith;
    }
    found fits (err conversion_error) e h = cc
    found fits (err empty_range) e h = cc
    found fits (err value_error) e h = cc
    found fits (err exactness_error) e h = cc
    found fits (err sub_hertz_error) e h = cc
    found fits (err assertion_error) e h = cc
    found fits (err does_not_exist) e h = cc
    found fits (err attribute_error) e h = cc

-- Every match of `evaluated` comes from one of the profiles, and every profile has its match.
abbrev Covers : FrequencyRange → List EquipmentProfileSpec → List ProfileMatch → Type 0
Covers rf profiles evaluated =
    All (λ m. (p : EquipmentProfileSpec) × In p profiles × (evaluate rf p ≡ ok m)) evaluated
    × All (λ p. (m : ProfileMatch) × In m evaluated × (evaluate rf p ≡ ok m)) profiles

evaluate_all-Covers :
    (rf : FrequencyRange) (profiles : List EquipmentProfileSpec)
    → IsRange rf
    → (ms : List ProfileMatch) × (evaluate_all rf profiles ≡ ok ms) × Covers rf profiles ms
unfolding evaluate_all
evaluate_all-Covers rf [] h = ([], refl, (tt, tt))
evaluate_all-Covers rf (p ∷ ps) h =
    let (m, e, _) = evaluate_ok rf p h in
    let (ms, es, covers) = evaluate_all-Covers rf ps h in
    (
      m ∷ ms,
      rw (e, es) refl,
      (
        ((p, inl refl, e), All-map (λ x (q, i, k). (q, inr i, k)) ms covers.0),
        ((m, inl refl, e), All-map (λ q (x, i, k). (x, inr i, k)) ps covers.1),
      ),
    )

match_le-total : (a b : ProfileMatch) → match_le a b ≡ false → match_le b a ≡ true
match_le-total a b h = ground arith

match_le_trans :
    (a b c : ProfileMatch) → match_le a b ≡ true → match_le b c ≡ true → match_le a c ≡ true
match_le_trans a b c h k = ground arith

match_le_refl : (a : ProfileMatch) → match_le a a ≡ true
match_le_refl a = ground arith

-- The first usable match in priority order, or none because no match is usable.
abbrev Chosen : List ProfileMatch → Option ProfileMatch → Type 0
Chosen ms none = All (λ m. is_usable m ≡ true → ⊥) ms
Chosen ms (some m) =
    (is_usable m ≡ true) × In m ms × All (λ x. is_usable x ≡ true → match_le m x ≡ true) ms

abbrev usable_first : List ProfileMatch → List ProfileMatch
usable_first ms = sorted match_le (keep is_usable ms)

abbrev rejected_last : List ProfileMatch → List ProfileMatch
rejected_last ms = sorted match_le (keep (λ m. not (is_usable m)) ms)

is_rejected : (m : ProfileMatch) → not (is_usable m) ≡ true → is_usable m ≡ false
is_rejected m h = ground arith

rejected_passed_over : (ms : List ProfileMatch) → first is_usable (rejected_last ms) ≡ none
rejected_passed_over ms = first-none is_usable (rejected_last ms) (
    All-map is_rejected (rejected_last ms) (
      All-sorted match_le (λ m. not (is_usable m) ≡ true) (keep (λ m. not (is_usable m)) ms)
        (keep_passes (λ m. not (is_usable m)) ms)))

order_matches-Chosen : (ms : List ProfileMatch) → Chosen ms (first is_usable (order_matches ms))
unfolding order_matches
order_matches-Chosen ms = by_head (usable_first ms) refl
  where
    by_head :
        (us : List ProfileMatch)
        → usable_first ms ≡ us
        → Chosen ms (first is_usable (usable_first ms ++ rejected_last ms))
    by_head [] e =
        rw (e, rejected_passed_over ms)
          (All-keep_back is_usable (λ _. ⊥) ms
            (All-sorted_back match_le (λ _. ⊥) (keep is_usable ms) (rw e tt)))
    by_head (u ∷ us) e =
        let works = rw e at (
          All-sorted match_le (λ m. is_usable m ≡ true) (keep is_usable ms)
            (keep_passes is_usable ms)) in
        let member = rw e at (
          All-sorted match_le (λ m. In m ms) (keep is_usable ms)
            (All-keep (λ m. In m ms) is_usable ms (All-self ms))) in
        let ordered =
          rw e at (sorted-IsSorted match_le match_le-total match_le_trans (keep is_usable ms)) in
        rw (e, works.0)
          (
            works.0,
            member.0,
            All-keep_back is_usable (λ x. match_le u x ≡ true) ms
                (All-sorted_back match_le (λ x. match_le u x ≡ true) (keep is_usable ms)
                  (rw e (match_le_refl u, ordered.0))),
          )

-- What `best_profile` answers: a profile that carries the interval, ahead of every other such
-- profile by priority and code; or nothing, when no profile carries it.
abbrev pub Best :
    FrequencyRange → List EquipmentProfileSpec → Result Error (Option ProfileMatch) → Type 0
Best rf profiles (ok (some m)) =
    In m.profile profiles
    × Carries rf m.profile
    × ((p : EquipmentProfileSpec) → In p profiles → Carries rf p → profile_le m.profile p ≡ true)
Best rf profiles (ok none) = (p : EquipmentProfileSpec) → In p profiles → ¬ Carries rf p
Best rf profiles (err e) = ⊥

judged-profile :
    (rf : FrequencyRange) (p : EquipmentProfileSpec) (m : ProfileMatch)
    → IsRange rf
    → evaluate rf p ≡ ok m
    → m.profile ≡ p
judged-profile rf p m h e =
    let (m', e', same) = evaluate_ok rf p h in
    let mm : m' ≡ m = ok-injective (sym e' ∙ e) in rw mm at same

usable_of :
    (rf : FrequencyRange) (p : EquipmentProfileSpec) (m : ProfileMatch)
    → evaluate rf p ≡ ok m
    → usable (evaluate rf p) ≡ is_usable m
usable_of rf p m e = rw e refl

Chosen-Best :
    (rf : FrequencyRange) (profiles : List EquipmentProfileSpec) (ms : List ProfileMatch)
    → IsRange rf
    → Covers rf profiles ms
    → (o : Option ProfileMatch) → Chosen ms o
    → Best rf profiles (ok o)
Chosen-Best rf profiles ms h covers none chosen = λ p i carries.
    let (m, im, e) = All-In _ profiles covers.1 p i in
    All-In _ ms chosen m im (sym (usable_of rf p m e) ∙ (usable_iff_Carries rf p).1 carries)
Chosen-Best rf profiles ms h covers (some m) chosen =
    let (p, ip, e) = All-In _ ms covers.0 m chosen.1 in
    let same = judged-profile rf p m h e in
    (
      rw same ip,
      rw same ((usable_iff_Carries rf p).0 (usable_of rf p m e ∙ chosen.0)),
      λ q iq carries.
          let (x, ix, ex) = All-In _ profiles covers.1 q iq in
          let same_x = judged-profile rf q x h ex in
          rw same_x at (
            All-In _ ms chosen.2 x ix
              (sym (usable_of rf q x ex) ∙ (usable_iff_Carries rf q).1 carries)),
    )

-- For a range, `best_profile` never raises. It returns a profile that carries the interval and comes
-- before every other such profile by priority and code, or nothing when no profile carries it.
pub best_profile-Best :
    (rf : FrequencyRange) (profiles : List EquipmentProfileSpec)
    → IsRange rf
    → Best rf profiles (best_profile rf profiles)
unfolding best_profile
best_profile-Best rf profiles h =
    let (ms, e, covers) = evaluate_all-Covers rf profiles h in
    rw e (Chosen-Best rf profiles ms h covers _ (order_matches-Chosen ms))
