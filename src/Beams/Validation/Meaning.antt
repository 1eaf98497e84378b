-- ===== src/Beams/Validation/Meaning.antt =====
-- What the Boolean tests of beams/validation.py say of legs, directions, pairs and lists.
use vsat_frequency_managemen.Beams.Validation.{
  ResourceLink, WindowAssignment, has_assignment, is_mapped, is_pair,
}
use vsat_frequency_managemen.Database.{Direction, Leg, fwd, leg_eq, rtn}
use vsat_frequency_managemen.Database.Legs.{leg_eq_iff}
use vsat_frequency_managemen.Prelude.{
  Bool, List, any, inl, inr, refl, true, ℕ, ◌&&◌, ◌==◌, ◌||◌, ◌↔◌, ◌≡◌, ◌⊎◌,
}
use vsat_frequency_managemen.Prelude.Found.{AtLeastOne, and_iff, any-AtLeastOne, equal_iff, or_iff}
use vsat_frequency_managemen.Satnets.Containment.{same_direction}

pub own_direction_iff : (d e : Direction) → (same_direction d e ≡ true) ↔ (d ≡ e)
own_direction_iff fwd fwd = (λ e. refl, λ e. refl)
own_direction_iff fwd rtn = (λ e. cc, λ e. cc)
own_direction_iff rtn fwd = (λ e. cc, λ e. cc)
own_direction_iff rtn rtn = (λ e. refl, λ e. refl)

-- The pair stands in the list.
abbrev pub IsListed : ℕ → ℕ → List (ℕ × ℕ) → Type 0
IsListed up down permitted = AtLeastOne (λ pair. (pair.0 ≡ up) × (pair.1 ≡ down)) permitted

pub is_pair-IsListed :
    (up down : ℕ) (permitted : List (ℕ × ℕ))
    → (any (is_pair up down) permitted ≡ true) ↔ IsListed up down permitted
is_pair-IsListed up down permitted =
    any-AtLeastOne (is_pair up down) (λ pair. (pair.0 ≡ up) × (pair.1 ≡ down))
      (λ pair. two_equal pair.0 up pair.1 down) permitted
  where
    two_equal : (a b c d : ℕ) → ((a == b) && (c == d) ≡ true) ↔ ((a ≡ b) × (c ≡ d))
    two_equal a b c d =
        let both = and_iff (a == b) (c == d) in
        let left = equal_iff a b in
        let right = equal_iff c d in
        (
          λ h. let parts = both.0 h in (left.0 parts.0, right.0 parts.1),
          λ h. both.1 (left.1 h.0, right.1 h.1),
        )

pub either_leg :
    (leg up down : Leg) → (leg_eq leg up || leg_eq leg down ≡ true) ↔ ((leg ≡ up) ⊎ (leg ≡ down))
either_leg leg up down =
    let split = or_iff (leg_eq leg up) (leg_eq leg down) in
    (
      λ h. elim (split.0 h) [
        | inl e ↦ inl ((leg_eq_iff leg up).0 e)
        | inr e ↦ inr ((leg_eq_iff leg down).0 e)
      ],
      λ h. split.1 (elim h as (λ _. (leg_eq leg up ≡ true) ⊎ (leg_eq leg down ≡ true)) [
        | inl e ↦ inl ((leg_eq_iff leg up).1 e)
        | inr e ↦ inr ((leg_eq_iff leg down).1 e)
      ]),
    )

pub is_mapped-AtLeastOne :
    (leg : Leg) (links : List ResourceLink)
    → (is_mapped leg links ≡ true) ↔ AtLeastOne (λ link. link.leg ≡ leg) links
is_mapped-AtLeastOne leg links =
    any-AtLeastOne (λ link. leg_eq link.leg leg) (λ link. link.leg ≡ leg)
      (λ link. leg_eq_iff link.leg leg) links

pub has_assignment-AtLeastOne :
    (id : ℕ) (assignments : List WindowAssignment)
    → (has_assignment id assignments ≡ true)
      ↔ AtLeastOne (λ a. (a.is_active ≡ true) × (a.frequency_window_id ≡ id)) assignments
has_assignment-AtLeastOne id assignments =
    any-AtLeastOne (λ a. a.is_active && a.frequency_window_id == id)
      (λ a. (a.is_active ≡ true) × (a.frequency_window_id ≡ id))
      (λ a. active_on a.is_active a.frequency_window_id) assignments
  where
    active_on : (b : Bool) (n : ℕ) → (b && n == id ≡ true) ↔ ((b ≡ true) × (n ≡ id))
    active_on b n =
        let both = and_iff b (n == id) in
        let on = equal_iff n id in
        (λ h. let parts = both.0 h in (parts.0, on.0 parts.1), λ h. both.1 (h.0, on.1 h.1))
