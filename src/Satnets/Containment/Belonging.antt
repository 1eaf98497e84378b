-- ===== src/Satnets/Containment/Belonging.antt =====
-- The checks of the assignment itself (satnets/containment.py).
use vsat_frequency_managemen.Database.{Direction, fwd, rtn}
use vsat_frequency_managemen.Prelude.{
  Bool, List, Option, [], arith, false, none, not, refl, some, true, ℕ, ◌&&◌, ◌++◌, ◌==◌, ◌↔◌, ◌∷◌,
  ◌≡◌,
}
use vsat_frequency_managemen.Satnets.Containment.{
  Beam, ContainmentCode, ContainmentFinding, Limiter, Satnet, SpectrumAssignment,
  check_assignment_belongs, no_findings, polarization_differs, problem_if, same_direction,
}

-- The checks of the assignment, as equations between columns.
pub record Belongs (s : Satnet) (b : Beam) (a : SpectrumAssignment) (d : Direction) (p : Option ℕ)
    : Type 0 where
  pub own_beam : a.config_beam_id ≡ b.pk
  pub satnets_beam : b.pk ≡ s.beam_id
  pub on_direction : a.config_direction ≡ d
  pub on_polarization : (q : ℕ) → p ≡ some q → a.window_polarization ≡ q
  pub on_payload_path : a.config_payload_path_id ≡ a.payload_path_id

no_findings-append :
    (xs ys : List ContainmentFinding) → no_findings (xs ++ ys) ≡ no_findings xs && no_findings ys
no_findings-append [] ys = refl
no_findings-append (x ∷ xs) ys = refl

no_findings-problem_if :
    (b : Bool) (c : ContainmentCode) (l : Limiter) → no_findings (problem_if b c l) ≡ not b
no_findings-problem_if true c l = refl
no_findings-problem_if false c l = refl

ruleset counted = (no_findings-append, no_findings-problem_if)

eq_iff : (m n : ℕ) → (not (not (m == n)) ≡ true) ↔ (m ≡ n)
eq_iff m n = (λ e. ground arith, λ e. ground arith)

same_direction_iff : (d e : Direction) → (not (not (same_direction d e)) ≡ true) ↔ (d ≡ e)
same_direction_iff fwd fwd = (λ e. refl, λ e. refl)
same_direction_iff fwd rtn = (λ e. cc, λ e. cc)
same_direction_iff rtn fwd = (λ e. cc, λ e. cc)
same_direction_iff rtn rtn = (λ e. refl, λ e. refl)

polarization_iff :
    (p : Option ℕ) (w : ℕ)
    → (not (polarization_differs p w) ≡ true) ↔ ((q : ℕ) → p ≡ some q → w ≡ q)
polarization_iff none w = (λ e q h. cc, λ f. refl)
polarization_iff (some p) w =
    (λ e q h. let at_w : w ≡ p = (eq_iff w p).0 e in cc, λ f. (eq_iff w p).1 (f p refl))

and_iff :
    (a b c d e : Bool)
    → (a && b && c && d && e ≡ true)
      ↔ ((a ≡ true) × (b ≡ true) × (c ≡ true) × (d ≡ true) × (e ≡ true))
and_iff a b c d e = (λ h. ground arith, λ h. ground arith)

pub check_assignment_belongs-Belongs :
    (s : Satnet) (b : Beam) (a : SpectrumAssignment) (d : Direction) (p : Option ℕ)
    → (no_findings (check_assignment_belongs s b a d p) ≡ true) ↔ Belongs s b a d p
unfolding check_assignment_belongs
check_assignment_belongs-Belongs s b a d p =
    let split =
      and_iff (not (not (a.config_beam_id == b.pk))) (not (not (b.pk == s.beam_id)))
        (not (not (same_direction a.config_direction d)))
        (not (polarization_differs p a.window_polarization))
        (not (not (a.config_payload_path_id == a.payload_path_id))) in
    (
      λ e.
          let all = split.0 (simp counted at e) in
          record {
            own_beam = (eq_iff a.config_beam_id b.pk).0 all.0;
            satnets_beam = (eq_iff b.pk s.beam_id).0 all.1;
            on_direction = (same_direction_iff a.config_direction d).0 all.2;
            on_polarization = (polarization_iff p a.window_polarization).0 all.3;
            on_payload_path = (eq_iff a.config_payload_path_id a.payload_path_id).0 all.4;
          },
      λ h.
          let all = split.1 (
            (eq_iff a.config_beam_id b.pk).1 h.own_beam,
            (eq_iff b.pk s.beam_id).1 h.satnets_beam,
            (same_direction_iff a.config_direction d).1 h.on_direction,
            (polarization_iff p a.window_polarization).1 h.on_polarization,
            (eq_iff a.config_payload_path_id a.payload_path_id).1 h.on_payload_path,
          ) in
          simp (counted, all),
    )
