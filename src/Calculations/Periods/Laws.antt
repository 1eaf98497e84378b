-- ===== src/Calculations/Periods/Laws.antt =====
-- What the operations of calculations/periods.py mean for single moments, and the intersection.
use vsat_frequency_managemen.Calculations.Errors.{Error}
use vsat_frequency_managemen.Calculations.Periods.{
  IsPeriod, TimePeriod, add_end, bounded_ends, earliest, end_within, intersect, period_contains,
  period_overlaps, runs_backwards, starts,
}
use vsat_frequency_managemen.Prelude.{
  All, All-both, Bool-cases, List, Option, Result, [], arith, err, false, if◌then◌else◌, inl, inr,
  ltb, maximum, maximum-le, minimum-ge, none, ok, some, suc, true, ℕ, ◌-◌, ◌<◌, ◌↔◌, ◌∷◌, ◌≡◌, ◌≤◌,
}

abbrev pub Before : ℕ → Option ℕ → Type 0
Before t none = Unit
Before t (some e) = t < e

-- A moment inside a period.
abbrev pub During : ℕ → TimePeriod → Type 0
During t p = (p.start ≤ t) × Before t p.end

-- Two periods, each ending after its start or not at all, overlap exactly when some moment lies in both.
pub period_overlaps_iff_shared :
    (p other : TimePeriod)
    → IsPeriod p
    → IsPeriod other
    → (period_overlaps p other ≡ true) ↔ ((t : ℕ) × During t p × During t other)
period_overlaps_iff_shared p other h k = (
  λ e. (if ltb p.start other.start then other.start else p.start, ground arith, ground arith),
  λ s. ground arith,
)

Before-ends : (t : ℕ) (es : List ℕ) → Before t (earliest es) ↔ All (λ e. suc t ≤ e) es
Before-ends t [] = (λ h. tt, λ h. tt)
Before-ends t (e ∷ es) = minimum-ge e es (suc t)

All-add_end :
    (t : ℕ) (o : Option ℕ) (es : List ℕ)
    → All (λ e. suc t ≤ e) (add_end o es) ↔ (Before t o × All (λ e. suc t ≤ e) es)
All-add_end t none es = (λ h. (tt, h), λ h. h.1)
All-add_end t (some e) es = (λ h. h, λ h. h)

ends_after :
    (t : ℕ) (ps : List TimePeriod)
    → All (λ e. suc t ≤ e) (bounded_ends ps) ↔ All (λ p. Before t p.end) ps
ends_after t [] = (λ h. tt, λ h. tt)
ends_after t (p ∷ ps) = grind (arith, All-add_end t p.end (bounded_ends ps), ends_after t ps)

starts_before :
    (t : ℕ) (ps : List TimePeriod) → All (λ s. s ≤ t) (starts ps) ↔ All (λ p. p.start ≤ t) ps
starts_before t [] = (λ h. tt, λ h. tt)
starts_before t (p ∷ ps) = grind (arith, starts_before t ps)

All-left {ℓ κ} :
    {A : Type ℓ} (P Q : A → Type κ) (xs : List A) → All (λ a. P a × Q a) xs → All P xs × All Q xs
All-left P Q [] h = (tt, tt)
All-left P Q (x ∷ xs) h = let rest = All-left P Q xs h.1 in ((h.0.0, rest.0), (h.0.1, rest.1))

-- The two bounds that `intersect` computes.
abbrev pub latest_start : TimePeriod → List TimePeriod → ℕ
latest_start p ps = maximum p.start (starts ps)

abbrev pub first_end : TimePeriod → List TimePeriod → Option ℕ
first_end p ps = earliest (bounded_ends (p ∷ ps))

During-bounds :
    (t : ℕ) (p : TimePeriod) (ps : List TimePeriod)
    → ((latest_start p ps ≤ t) × Before t (first_end p ps)) ↔ All (During t) (p ∷ ps)
During-bounds t p ps = (
  λ h.
      All-both (λ q. q.start ≤ t) (λ q. Before t q.end) (p ∷ ps)
        ((starts_before t (p ∷ ps)).0 ((maximum-le p.start (starts ps) t).0 h.0))
        ((ends_after t (p ∷ ps)).0 ((Before-ends t (bounded_ends (p ∷ ps))).0 h.1)),
  λ h.
      let both = All-left (λ q. q.start ≤ t) (λ q. Before t q.end) (p ∷ ps) h in
      (
        (maximum-le p.start (starts ps) t).1 ((starts_before t (p ∷ ps)).1 both.0),
        (Before-ends t (bounded_ends (p ∷ ps))).1 ((ends_after t (p ∷ ps)).1 both.1),
      ),
)

no_moment : (t s : ℕ) (e : Option ℕ) → runs_backwards s e ≡ true → ¬ ((s ≤ t) × Before t e)
no_moment t s none back h = cc
no_moment t s (some e) back h = ground arith

-- What `intersect` returns for its non-empty input.
abbrev pub Meets : List TimePeriod → Result Error (Option TimePeriod) → Type 0
Meets ps (ok (some q)) = IsPeriod q × ((t : ℕ) → During t q ↔ All (During t) ps)
Meets ps (ok none) = (t : ℕ) → ¬ (All (During t) ps)
Meets ps (err e) = ⊥

-- The intersection of at least one period always succeeds. It is a period that holds exactly the
-- moments common to all of them, or nothing, when they have no common moment.
pub intersect-Meets : (p : TimePeriod) (ps : List TimePeriod) → Meets (p ∷ ps) (intersect (p ∷ ps))
unfolding intersect
intersect-Meets p ps = elim (Bool-cases (runs_backwards (latest_start p ps) (first_end p ps))) [
  | inl back ↦ rw back (λ t h. no_moment t _ _ back ((During-bounds t p ps).1 h))
  | inr forth ↦ rw (forth) (forth, λ t. During-bounds t p ps)
]

-- A period contains another exactly when every moment of the other lies in it.
pub period_contains_iff_During :
    (p other : TimePeriod)
    → IsPeriod other
    → (period_contains p other ≡ true) ↔ ((t : ℕ) → During t other → During t p)
period_contains_iff_During p other h = (λ e t d. ground arith, λ f. ends p.end other.end h f)
  where
    late : ℕ → ℕ → ℕ
    late a b = if ltb a b then b else a

    ends :
        (e o : Option ℕ)
        → runs_backwards other.start o ≡ false
        → ((t : ℕ) → (other.start ≤ t) × Before t o → (p.start ≤ t) × Before t e)
        → (if ltb other.start p.start then false else end_within e o) ≡ true
    ends none none h f = ground (arith, f other.start (omega arith, tt))
    ends none (some o) h f = ground (arith, f other.start (omega arith, ground arith))
    ends (some e) none h f =
        let before = (f (late other.start e) (ground arith, tt)).1 in absurd (ground arith)
    ends (some e) (some o) h f =
        ground
          (arith, f other.start (omega arith, ground arith), f (o - 1) (ground arith, ground arith))
