-- ===== src/Satnets/Containment/Decided.antt =====
-- What the verdict of `evaluate` means (satnets/containment.py).
use vsat_frequency_managemen.Calculations.Errors.{Error}
use vsat_frequency_managemen.Calculations.Periods.{
  IsPeriod, TimePeriod, period_contains, runs_backwards,
}
use vsat_frequency_managemen.Calculations.Periods.Laws.{
  Before, During, Meets, intersect-Meets, period_contains_iff_During,
}
use vsat_frequency_managemen.Database.{Direction}
use vsat_frequency_managemen.Prelude.{
  All, Bool, Bool-cases, List, Option, Result, [], arith, err, false, inl, inr, none, not_both, ok,
  refl, some, subst, true, ℕ, ◌++◌, ◌>>=◌, ◌↔◌, ◌∷◌, ◌≡◌, ◌⊎◌,
}
use vsat_frequency_managemen.Satnets.Containment.{
  Beam, ContainmentFinding, Limiter, Satnet, SpectrumAssignment, Verdict, by_assignment, by_beam,
  by_satnet, check_assignment_belongs, evaluate_containment, first_breached, is_contained,
  judge_period, limiting_parent, no_findings,
}
use vsat_frequency_managemen.Satnets.Containment.Belonging.{
  Belongs, check_assignment_belongs-Belongs,
}

-- The period of the parent that a limiter names.
abbrev pub validity_of : Satnet → Beam → SpectrumAssignment → Limiter → TimePeriod
validity_of s b a by_satnet = s.validity
validity_of s b a by_beam = b.validity
validity_of s b a by_assignment = a.validity

-- Every moment that the request covers is inside the validity of each parent.
abbrev pub Covered : Satnet → Beam → SpectrumAssignment → TimePeriod → Type 0
Covered s b a requested =
    (t : ℕ) → During t requested → (l : Limiter) → During t (validity_of s b a l)

-- A named parent does not hold the request.
abbrev pub Breaches : Satnet → Beam → SpectrumAssignment → TimePeriod → Option Limiter → Type 0
Breaches s b a requested none = ⊥
Breaches s b a requested (some l) = period_contains (validity_of s b a l) requested ≡ false

limiting_parent-Breaches :
    (s : Satnet) (b : Beam) (a : SpectrumAssignment) (requested : TimePeriod)
    → ((l : Limiter) → period_contains (validity_of s b a l) requested ≡ true)
      ⊎ Breaches s b a requested (limiting_parent s b a requested)
unfolding limiting_parent first_breached
limiting_parent-Breaches s b a requested =
    elim (Bool-cases (period_contains s.validity requested)) [
      | inr out ↦ rw out (inr out)
      | inl in_satnet ↦ elim (Bool-cases (period_contains b.validity requested)) [
        | inr out ↦ rw (in_satnet, out) (inr out)
        | inl in_beam ↦ elim (Bool-cases (period_contains a.validity requested)) [
          | inr out ↦ rw (in_satnet, in_beam, out) (inr out)
          | inl in_assignment ↦ inl (each in_satnet in_beam in_assignment)
        ]
      ]
    ]
  where
    each :
        period_contains s.validity requested ≡ true
        → period_contains b.validity requested ≡ true
        → period_contains a.validity requested ≡ true
        → (l : Limiter) → period_contains (validity_of s b a l) requested ≡ true
    each in_satnet in_beam in_assignment by_satnet = in_satnet
    each in_satnet in_beam in_assignment by_beam = in_beam
    each in_satnet in_beam in_assignment by_assignment = in_assignment

-- The three periods that are intersected hold a moment exactly when each parent does.
All-each :
    (s : Satnet) (b : Beam) (a : SpectrumAssignment) (t : ℕ)
    → All (During t) (s.validity ∷ b.validity ∷ a.validity ∷ [])
      ↔ ((l : Limiter) → During t (validity_of s b a l))
All-each s b a t = (λ h l. each h l, λ f. (f by_satnet, (f by_beam, (f by_assignment, tt))))
  where
    each :
        All (During t) (s.validity ∷ b.validity ∷ a.validity ∷ [])
        → (l : Limiter) → During t (validity_of s b a l)
    each h by_satnet = h.0
    each h by_beam = h.1.0
    each h by_assignment = h.1.1.0

-- What a verdict says of the request.
pub record IsVerdict (s : Satnet) (b : Beam) (a : SpectrumAssignment) (requested : TimePeriod)
    (d : Direction) (p : Option ℕ) (v : Verdict) : Type 0 where
  pub decides : (is_contained v ≡ true) ↔ (Belongs s b a d p × Covered s b a requested)
  pub names_limiter :
      (q : TimePeriod)
      → v.permitted ≡ some q
      → period_contains q requested ≡ false
      → Breaches s b a requested v.limiter
  pub permits :
      (q : TimePeriod)
      → v.permitted ≡ some q
      → (t : ℕ) → During t q ↔ ((l : Limiter) → During t (validity_of s b a l))

no_findings-last :
    (xs : List ContainmentFinding) (x : ContainmentFinding) → ¬ (no_findings (xs ++ x ∷ []) ≡ true)
no_findings-last [] x e = cc
no_findings-last (y ∷ ys) x e = cc

starts_During : (p : TimePeriod) → IsPeriod p → During p.start p
starts_During p h = (omega arith, before p.end h)
  where
    before : (e : Option ℕ) → runs_backwards p.start e ≡ false → Before p.start e
    before none h = tt
    before (some e) h = ground arith

module _ (s : Satnet) (b : Beam) (a : SpectrumAssignment) (requested : TimePeriod) (d : Direction)
    (p : Option ℕ) (h : IsPeriod requested) where
  judged_none :
      (fs : List ContainmentFinding)
      → ((t : ℕ) → ¬ All (During t) (s.validity ∷ b.validity ∷ a.validity ∷ []))
      → IsVerdict s b a requested d p (judge_period s b a requested fs none)
  unfolding judge_period
  judged_none fs empty = record {
    decides = (
      λ e. absurd (no_findings-last fs _ e),
      λ c. absurd (
          empty requested.start
            ((All-each s b a requested.start).1 (c.1 requested.start (starts_During requested h)))),
    );
    names_limiter = λ q e out. cc;
    permits = λ q e t. cc;
  }

  -- The period that the request may reach over holds the request exactly when it is covered.
  period_contains-Covered :
      (q : TimePeriod)
      → ((t : ℕ) → During t q ↔ All (During t) (s.validity ∷ b.validity ∷ a.validity ∷ []))
      → (period_contains q requested ≡ true) ↔ Covered s b a requested
  period_contains-Covered q same =
      let held = period_contains_iff_During q requested h in
      (
        λ e t d. (All-each s b a t).0 ((same t).0 (held.0 e t d)),
        λ c. held.1 (λ t d. (same t).1 ((All-each s b a t).1 (c t d))),
      )

  permitted_by :
      (q : TimePeriod)
      → ((t : ℕ) → During t q ↔ All (During t) (s.validity ∷ b.validity ∷ a.validity ∷ []))
      → (r : TimePeriod) → ◌≡◌ {A = Option TimePeriod} (some q) (some r)
      → (t : ℕ) → During t r ↔ ((l : Limiter) → During t (validity_of s b a l))
  permitted_by q same r e t =
      let qr : q ≡ r = cc in
      let each = All-each s b a t in
      let at_q : During t q ↔ ((l : Limiter) → During t (validity_of s b a l)) =
        (λ x. each.0 ((same t).0 x), λ f. (same t).1 (each.1 f)) in
      subst (λ x. During t x ↔ ((l : Limiter) → During t (validity_of s b a l))) qr at_q

  limits :
      (q : TimePeriod)
      → ((t : ℕ) → During t q ↔ All (During t) (s.validity ∷ b.validity ∷ a.validity ∷ []))
      → period_contains q requested ≡ false
      → Breaches s b a requested (limiting_parent s b a requested)
  limits q same out = elim (limiting_parent-Breaches s b a requested) [
    | inr breached ↦ breached
    | inl each ↦
        let covered : Covered s b a requested =
          λ t d l. (period_contains_iff_During (validity_of s b a l) requested h).0 (each l) t d in
        not_both _ ((period_contains-Covered q same).1 covered) out
  ]

  judged_some :
      (q : TimePeriod)
      → ((t : ℕ) → During t q ↔ All (During t) (s.validity ∷ b.validity ∷ a.validity ∷ []))
      → IsVerdict s b a requested d p
          (judge_period s b a requested (check_assignment_belongs s b a d p) (some q))
  unfolding judge_period
  judged_some q same = elim (Bool-cases (period_contains q requested)) [
    | inl within ↦ rw within (record {
      decides = (
        λ e. (
          (check_assignment_belongs-Belongs s b a d p).0 e,
          (period_contains-Covered q same).0 within,
        ),
        λ c. (check_assignment_belongs-Belongs s b a d p).1 c.0,
      );
      names_limiter = λ r e out. cc;
      permits = permitted_by q same;
    })
    | inr out ↦ rw out (record {
      decides = (
        λ e. absurd (no_findings-last _ _ e),
        λ c. not_both _ ((period_contains-Covered q same).1 c.1) out,
      );
      names_limiter = λ r e away. limits q same out;
      permits = permitted_by q same;
    })
  ]

-- For a request that does not run backwards, the containment check always returns a verdict. It is without
-- findings exactly when the assignment belongs to the path (its beam, direction, polarization and
-- payload path) and every moment requested is within the validity of the Satnet, of the Beam and of
-- the assignment. The permitted period that it offers holds exactly the moments that all three allow,
-- and the limiter that it names for a request outside is a parent that does not hold the request.
pub evaluate_containment-IsVerdict :
    (s : Satnet) (b : Beam) (a : SpectrumAssignment) (requested : TimePeriod) (d : Direction)
    (p : Option ℕ) (operational : Bool)
    → IsPeriod requested
    → (v : Verdict) × (evaluate_containment s b a requested d p operational ≡ ok v)
      × IsVerdict s b a requested d p v
unfolding evaluate_containment
evaluate_containment-IsVerdict s b a requested d p operational h =
    decided _ (intersect-Meets s.validity (b.validity ∷ a.validity ∷ []))
  where
    decided :
        (m : Result Error (Option TimePeriod))
        → Meets (s.validity ∷ b.validity ∷ a.validity ∷ []) m
        → (v : Verdict) × (m >>= (λ permitted.
              ok (judge_period s b a requested (check_assignment_belongs s b a d p) permitted))
            ≡ ok v)
          × IsVerdict s b a requested d p v
    decided (ok none) empty = (_, refl, judged_none s b a requested d p h _ empty)
    decided (ok (some q)) meets = (_, refl, judged_some s b a requested d p h q meets.1)
    decided (err e) never = elim never [ ]
