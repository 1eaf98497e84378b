-- ===== src/Beams/Validation/Chains.antt =====
-- When the checks of one direction block nothing (beams/validation.py).
use vsat_frequency_managemen.Beams.Validation.{
  BeamCode, BeamFinding, ChainPath, PoolEntry, ResourceLink, WindowAssignment,
  canonical_leg_not_in_chain, check_canonical_leg, check_equipment, check_links, check_pair,
  check_polarizations, check_pool, equipment_inactive, equipment_wrong_band, is_blocking, is_pair,
  polarization_not_permitted, report_if, spectrum_resource_deactivated,
  spectrum_resource_wrong_satellite,
}
use vsat_frequency_managemen.Beams.Validation.Meaning.{IsListed, either_leg, is_pair-IsListed}
use vsat_frequency_managemen.Calculations.Validation.{error, warning}
use vsat_frequency_managemen.Database.{Direction, Leg, leg_eq}
use vsat_frequency_managemen.Prelude.{
  All, Bool, Bool-cases, List, Option, [], any, arith, false, if◌then◌else◌, inl, inr, none, not,
  not_both, refl, some, sym, true, ℕ, ◌++◌, ◌==◌, ◌||◌, ◌↔◌, ◌∙◌, ◌∷◌, ◌≡◌, ◌⊎◌,
}
use vsat_frequency_managemen.Prelude.Found.{equal_iff}

-- No finding blocks.
abbrev pub IsOpen : List BeamFinding → Type 0
IsOpen fs = any is_blocking fs ≡ false

open_append :
    (xs ys : List BeamFinding)
    → any is_blocking (xs ++ ys) ≡ any is_blocking xs || any is_blocking ys
open_append [] ys = refl
open_append (x ∷ xs) ys = ground (arith, open_append xs ys)

pub IsOpen-append : (xs ys : List BeamFinding) → IsOpen (xs ++ ys) ↔ (IsOpen xs × IsOpen ys)
IsOpen-append xs ys =
    let split = open_append xs ys in
    let both = or_false (any is_blocking xs) (any is_blocking ys) in
    (λ h. both.0 (sym split ∙ h), λ h. split ∙ both.1 h)
  where
    or_false : (a b : Bool) → (a || b ≡ false) ↔ ((a ≡ false) × (b ≡ false))
    or_false a b = (λ h. ground arith, λ h. ground arith)

pub IsOpen-error :
    (b : Bool) (c : BeamCode) (d : Option Direction)
    → IsOpen (report_if (not b) c error d) ↔ (b ≡ true)
IsOpen-error true c d = (λ h. refl, λ h. refl)
IsOpen-error false c d = (λ h. cc, λ h. cc)

pub IsOpen-warning :
    (b : Bool) (c : BeamCode) (d : Option Direction) → IsOpen (report_if b c warning d)
IsOpen-warning true c d = refl
IsOpen-warning false c d = refl

-- A polarization pair that the path permits, or a path that lists none.
abbrev pub IsPermitted : List (ℕ × ℕ) → ℕ → ℕ → Type 0
IsPermitted permitted up down = (permitted ≡ []) ⊎ IsListed up down permitted

IsOpen-check_pair :
    (d : Direction) (permitted : List (ℕ × ℕ)) (up down : ℕ)
    → IsOpen (check_pair d permitted up down) ↔ IsPermitted permitted up down
unfolding check_pair
IsOpen-check_pair d [] up down = (λ h. inl refl, λ h. refl)
IsOpen-check_pair d (p ∷ ps) up down =
    let found = IsOpen-error (any (is_pair up down) (p ∷ ps)) polarization_not_permitted (some d) in
    let listed = is_pair-IsListed up down (p ∷ ps) in
    (λ h. inr (listed.0 (found.0 h)), λ h. elim h [ inl nil ↦ cc | inr e ↦ found.1 (listed.1 e) ])

abbrev pub ArePolarized : List (ℕ × ℕ) → Option ℕ → Option ℕ → Type 0
ArePolarized permitted (some up) (some down) = IsPermitted permitted up down
ArePolarized permitted _ _ = ⊥

pub IsOpen-check_polarizations :
    (d : Direction) (permitted : List (ℕ × ℕ)) (up down : Option ℕ)
    → IsOpen (check_polarizations d permitted up down) ↔ ArePolarized permitted up down
unfolding check_polarizations
IsOpen-check_polarizations d permitted (some up) (some down) = IsOpen-check_pair d permitted up down
IsOpen-check_polarizations d permitted (some up) none = (λ h. cc, λ h. absurd h)
IsOpen-check_polarizations d permitted none down = (λ h. cc, λ h. absurd h)

-- The leg on which the centre is entered is one of the chain's.
abbrev pub IsOnChain : ChainPath → Option Leg → Type 0
IsOnChain path none = ⊥
IsOnChain path (some leg) = (leg ≡ path.uplink_window_side) ⊎ (leg ≡ path.downlink_window_side)

pub IsOpen-check_canonical_leg :
    (d : Direction) (path : ChainPath) (leg : Option Leg)
    → IsOpen (check_canonical_leg d path leg) ↔ IsOnChain path leg
unfolding check_canonical_leg
IsOpen-check_canonical_leg d path none = (λ h. cc, λ h. absurd h)
IsOpen-check_canonical_leg d path (some leg) =
    let up = path.uplink_window_side in
    let down = path.downlink_window_side in
    let checked =
      IsOpen-error (leg_eq leg up || leg_eq leg down) canonical_leg_not_in_chain (some d) in
    let meant = either_leg leg up down in (λ h. meant.0 (checked.0 h), λ h. checked.1 (meant.1 h))

-- One turn of a loop that tests an identifier, then a flag.
IsOpen-turn :
    (id wanted : ℕ) (active : Bool) (c c' : BeamCode) (d : Option Direction)
    → IsOpen (if id == wanted then report_if (not active) c error d else report_if true c' error d)
      ↔ ((id ≡ wanted) × (active ≡ true))
IsOpen-turn id wanted active c c' d = elim (Bool-cases (id == wanted)) [
  | inl same ↦
      let flag = IsOpen-error active c d in
      rw same (λ h. ((equal_iff id wanted).0 same, flag.0 h), λ h. flag.1 h.1)
  | inr other ↦ rw other (λ h. cc, λ h. not_both _ ((equal_iff id wanted).1 h.0) other)
]

abbrev pub IsUsable : ℕ → PoolEntry → Type 0
IsUsable band_id profile = (profile.band_id ≡ band_id) × (profile.is_active ≡ true)

IsOpen-check_pool :
    (d : Direction) (band_id : ℕ) (profiles : List PoolEntry)
    → IsOpen (check_pool d band_id profiles) ↔ All (IsUsable band_id) profiles
unfolding check_pool
IsOpen-check_pool d band_id [] = (λ h. tt, λ h. refl)
IsOpen-check_pool d band_id (p ∷ ps) =
    let turn =
      IsOpen-turn p.band_id band_id p.is_active equipment_inactive equipment_wrong_band (some d) in
    let rest = IsOpen-check_pool d band_id ps in
    let both =
      IsOpen-append
        (if p.band_id == band_id
          then report_if (not p.is_active) equipment_inactive error (some d)
          else report_if true equipment_wrong_band error (some d))
        (check_pool d band_id ps) in
    (
      λ h. let parts = both.0 h in (turn.0 parts.0, rest.0 parts.1),
      λ h. both.1 (turn.1 h.0, rest.1 h.1),
    )

pub IsOpen-check_equipment :
    (d : Direction) (band_id : ℕ) (profiles : List PoolEntry)
    → IsOpen (check_equipment d band_id profiles) ↔ All (IsUsable band_id) profiles
unfolding check_equipment
IsOpen-check_equipment d band_id [] = (λ h. tt, λ h. refl)
IsOpen-check_equipment d band_id (p ∷ ps) = IsOpen-check_pool d band_id (p ∷ ps)

abbrev pub IsCarried : ℕ → ResourceLink → Type 0
IsCarried satellite_id link = (link.satellite_id ≡ satellite_id) × (link.is_active ≡ true)

pub IsOpen-check_links :
    (d : Direction) (satellite_id : ℕ) (links : List ResourceLink)
    → IsOpen (check_links d satellite_id links) ↔ All (IsCarried satellite_id) links
unfolding check_links
IsOpen-check_links d satellite_id [] = (λ h. tt, λ h. refl)
IsOpen-check_links d satellite_id (l ∷ ls) =
    let turn =
      IsOpen-turn l.satellite_id satellite_id l.is_active spectrum_resource_deactivated
        spectrum_resource_wrong_satellite (some d) in
    let rest = IsOpen-check_links d satellite_id ls in
    let both =
      IsOpen-append
        (if l.satellite_id == satellite_id
          then report_if (not l.is_active) spectrum_resource_deactivated error (some d)
          else report_if true spectrum_resource_wrong_satellite error (some d))
        (check_links d satellite_id ls) in
    (
      λ h. let parts = both.0 h in (turn.0 parts.0, rest.0 parts.1),
      λ h. both.1 (turn.1 h.0, rest.1 h.1),
    )

abbrev pub IsAssigned : ℕ → WindowAssignment → Type 0
IsAssigned id a = (a.is_active ≡ true) × (a.frequency_window_id ≡ id)

-- Blocked by none of several checks.
pub IsOpen-three :
    (a b c : List BeamFinding) → IsOpen (a ++ b ++ c) ↔ (IsOpen a × IsOpen b × IsOpen c)
IsOpen-three a b c =
    by_parts (any is_blocking a) (any is_blocking b) (any is_blocking c) (simp open_append)
  where
    by_parts :
        (x y z : Bool)
        → any is_blocking (a ++ b ++ c) ≡ x || y || z
        → (any is_blocking (a ++ b ++ c) ≡ false) ↔ ((x ≡ false) × (y ≡ false) × (z ≡ false))
    by_parts x y z e = (λ h. ground arith, λ h. ground arith)

pub IsOpen-seven :
    (a b c d e f g : List BeamFinding)
    → IsOpen (a ++ b ++ c ++ d ++ e ++ f ++ g)
      ↔ (IsOpen a × IsOpen b × IsOpen c × IsOpen d × IsOpen e × IsOpen f × IsOpen g)
IsOpen-seven a b c d e f g =
    by_parts (any is_blocking a) (any is_blocking b) (any is_blocking c) (any is_blocking d)
      (any is_blocking e) (any is_blocking f) (any is_blocking g) (simp open_append)
  where
    by_parts :
        (t u v w x y z : Bool)
        → any is_blocking (a ++ b ++ c ++ d ++ e ++ f ++ g) ≡ t || u || v || w || x || y || z
        → (any is_blocking (a ++ b ++ c ++ d ++ e ++ f ++ g) ≡ false) ↔ (
            (t ≡ false)
            × (u ≡ false)
            × (v ≡ false)
            × (w ≡ false)
            × (x ≡ false)
            × (y ≡ false)
            × (z ≡ false))
    by_parts t u v w x y z e = (λ h. ground arith, λ h. ground arith)
