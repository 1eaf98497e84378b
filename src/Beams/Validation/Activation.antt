-- ===== src/Beams/Validation/Activation.antt =====
-- When a Beam is valid (beams/validation.py, `validate`).
use vsat_frequency_managemen.Beams.Validation.{
  BeamFinding, BeamRow, ChainConfig, ChainPath, check_beam_shape, check_directions,
  check_satellites, direction_disabled, failed, is_activatable, is_blocking, is_configured,
  no_enabled_direction, outcome, payload_path_wrong_satellite, report_if, state_for, validate,
  wrong_satellite,
}
use vsat_frequency_managemen.Beams.Validation.Chains.{
  IsOpen, IsOpen-append, IsOpen-error, IsOpen-three, IsOpen-warning,
}
use vsat_frequency_managemen.Beams.Validation.Directions.{IsSoundDirection, check_directions_lem}
use vsat_frequency_managemen.Calculations.Conversion.Matching.{usable}
use vsat_frequency_managemen.Calculations.Validation.{error, warning}
use vsat_frequency_managemen.Database.{Direction}
use vsat_frequency_managemen.Prelude.{
  All, All-keep_back, All-keep_forth, Bool, Bool-cases, List, Option, [], any, arith, false, inl,
  inr, keep, none, not, refl, some, subst, sym, true, ◌++◌, ◌↔◌, ◌∷◌, ◌≡◌,
}
use vsat_frequency_managemen.Prelude.Found.{AtLeastOne, any-AtLeastOne, equal_iff}

abbrev pub IsOwnSatellite : BeamRow → ChainConfig → Type 0
IsOwnSatellite beam c = by_path c.payload_path
  where
    by_path : Option ChainPath → Type 0
    by_path none = Unit
    by_path (some path) = path.satellite_id ≡ beam.satellite_id

wrong_satellite_iff :
    (beam : BeamRow) (c : ChainConfig)
    → (wrong_satellite beam c.payload_path ≡ false) ↔ IsOwnSatellite beam c
wrong_satellite_iff beam c = by_path c.payload_path
  where
    by_path :
        (p : Option ChainPath)
        → (wrong_satellite beam p ≡ false) ↔ IsOwnSatellite beam (record c { payload_path = p })
    by_path none = (λ e. tt, λ e. refl)
    by_path (some path) =
        let meant = equal_iff path.satellite_id beam.satellite_id in
        (λ e. meant.0 (ground arith), λ e. rw (meant.1 e) refl)

satellite_turn :
    (b : Bool) (d : Option Direction)
    → IsOpen (report_if b payload_path_wrong_satellite error d) ↔ (b ≡ false)
satellite_turn true d = (λ h. cc, λ h. cc)
satellite_turn false d = (λ h. refl, λ h. refl)

check_satellites_lem :
    (beam : BeamRow) (cs : List ChainConfig)
    → IsOpen (check_satellites beam cs) ↔ All (IsOwnSatellite beam) cs
unfolding check_satellites
check_satellites_lem beam [] = (λ h. tt, λ h. refl)
check_satellites_lem beam (c ∷ cs) =
    let here = satellite_turn (wrong_satellite beam c.payload_path) (some c.direction) in
    let meant = wrong_satellite_iff beam c in
    let rest = check_satellites_lem beam cs in
    let both =
      IsOpen-append
        (report_if (wrong_satellite beam c.payload_path) payload_path_wrong_satellite error
          (some c.direction))
        (check_satellites beam cs) in
    (
      λ h. let parts = both.0 h in (meant.0 (here.0 parts.0), rest.0 parts.1),
      λ h. both.1 (here.1 (meant.1 h.0), rest.1 h.1),
    )

abbrev pub some_enabled : List ChainConfig → Bool
some_enabled cs = any (λ c. c.is_enabled) cs

check_beam_shape_lem :
    (beam : BeamRow) (cs : List ChainConfig)
    → IsOpen (check_beam_shape beam cs) ↔ ((some_enabled cs ≡ true) × All (IsOwnSatellite beam) cs)
unfolding check_beam_shape
check_beam_shape_lem beam cs =
    let enabled = IsOpen-error (some_enabled cs) no_enabled_direction none in
    let satellites = check_satellites_lem beam cs in
    let disabled = IsOpen-warning (any (λ c. not c.is_enabled) cs) direction_disabled none in
    let all =
      IsOpen-three (report_if (not (some_enabled cs)) no_enabled_direction error none)
        (check_satellites beam cs)
        (report_if (any (λ c. not c.is_enabled) cs) direction_disabled warning none) in
    (
      λ h. let parts = all.0 h in (enabled.0 parts.0, satellites.0 parts.1),
      λ h. all.1 (enabled.1 h.0, satellites.1 h.1, disabled),
    )

configured_of :
    (beam : BeamRow) (c : ChainConfig) → IsSoundDirection beam c → is_configured c ≡ true
configured_of beam c s = rw (s.at_path, s.at_uplink, s.at_downlink) refl

all_configured :
    (beam : BeamRow) (cs : List ChainConfig)
    → All (IsSoundDirection beam) cs
    → any (λ c. not (is_configured c)) cs ≡ false
all_configured beam [] h = refl
all_configured beam (c ∷ cs) h = rw (configured_of beam c h.0) (all_configured beam cs h.1)

keep_enabled :
    (cs : List ChainConfig)
    → some_enabled cs ≡ true
    → (c : ChainConfig) × (rest : List ChainConfig) × (keep (λ c. c.is_enabled) cs ≡ c ∷ rest)
keep_enabled [] e = cc
keep_enabled (c ∷ cs) e = elim (Bool-cases c.is_enabled) [
  | inl on ↦ (c, keep (λ c. c.is_enabled) cs, rw on refl)
  | inr off ↦
      let later = rw off at e in
      let (d, rest, kept) = keep_enabled cs later in (d, rest, rw off kept)
]

-- A Beam that may be activated.
pub record IsReady (beam : BeamRow) : Type 0 where
  pub enabled : AtLeastOne (λ c. c.is_enabled ≡ true) beam.direction_configs
  pub satellites : All (IsOwnSatellite beam) beam.direction_configs
  pub directions : All (λ c. c.is_enabled ≡ true → IsSoundDirection beam c) beam.direction_configs

valid_state :
    (enabled : List ChainConfig) (fs : List BeamFinding)
    → is_activatable (record { findings = fs; state = state_for enabled fs }) ≡ true
    → IsOpen fs
unfolding state_for
valid_state [] fs e = cc
valid_state (c ∷ cs) fs e = elim (Bool-cases (any (λ c. not (is_configured c)) (c ∷ cs))) [
  | inl partial ↦ let bad = rw partial at e in cc
  | inr whole ↦ elim (Bool-cases (any is_blocking fs)) [
    | inl blocked ↦ let bad = rw (whole, blocked) at e in cc
    | inr unblocked ↦ unblocked
  ]
]

state_valid :
    (c : ChainConfig) (cs : List ChainConfig) (fs : List BeamFinding)
    → any (λ c. not (is_configured c)) (c ∷ cs) ≡ false
    → IsOpen fs
    → is_activatable (record { findings = fs; state = state_for (c ∷ cs) fs }) ≡ true
unfolding state_for
state_valid c cs fs whole unblocked = rw (whole, unblocked) refl

-- A Beam is valid, and may be activated, exactly when a direction is enabled, every direction's payload
-- path is on the Beam's satellite, and every enabled direction is complete and sound: the path's own
-- windows and direction, a polarization pair that the path permits (any, where it lists none), a
-- canonical leg of the chain, active equipment of the Beam's band, both legs mapped to resources,
-- active ones of the Beam's satellite, and an active assignment on both windows.
pub validate_iff_IsReady : (beam : BeamRow) → (is_activatable (validate beam) ≡ true) ↔ IsReady beam
unfolding validate
validate_iff_IsReady beam =
    let configs = beam.direction_configs in
    let on = keep (λ c. c.is_enabled) configs in
    let shape = check_beam_shape_lem beam configs in
    let some_on =
      any-AtLeastOne (λ c. c.is_enabled) (λ c. c.is_enabled ≡ true) (λ c. (λ e. e, λ e. e))
        configs in
    let directions = check_directions_lem beam on in
    let both = IsOpen-append (check_beam_shape beam configs) (check_directions beam on) in
    (
      λ e.
          let parts =
            both.0 (valid_state on (check_beam_shape beam configs ++ check_directions beam on) e) in
          let on_shape = shape.0 parts.0 in
          record {
            enabled = some_on.0 on_shape.0;
            satellites = on_shape.1;
            directions =
                All-keep_back (λ c. c.is_enabled) (IsSoundDirection beam) configs
                  (directions.0 parts.1);
          },
      λ r.
          let first_on = some_on.1 r.enabled in
          let sound =
            All-keep_forth (λ c. c.is_enabled) (IsSoundDirection beam) configs r.directions in
          let unblocked = both.1 (shape.1 (first_on, r.satellites), directions.1 sound) in
          let (c, rest, kept) = keep_enabled configs first_on in
          let fs = check_beam_shape beam configs ++ check_directions beam on in
          let whole =
            all_configured beam (c ∷ rest) (subst (All (IsSoundDirection beam)) kept sound) in
          subst (λ cs. is_activatable (record { findings = fs; state = state_for cs fs }) ≡ true)
            (sym kept) (state_valid c rest fs whole unblocked),
    )

none_blocks :
    (beam : BeamRow)
    → is_activatable (validate beam) ≡ true
    → any is_blocking (validate beam).findings ≡ false
unfolding validate
none_blocks beam e =
    valid_state (keep (λ c. c.is_enabled) beam.direction_configs) (validate beam).findings e

-- The recorded outcome is a failure exactly when the Beam may not be activated.
outcome-validate :
    (beam : BeamRow) → (outcome (validate beam) ≡ failed) ↔ (is_activatable (validate beam) ≡ false)
unfolding outcome
outcome-validate beam = elim (Bool-cases (is_activatable (validate beam))) [
  | inl usable ↦
      let unblocked = none_blocks beam usable in
      rw (usable, unblocked)
        (
          λ e. elim (Bool-cases (any (λ f. not (is_blocking f)) (validate beam).findings)) [
            | inl warned ↦ let bad = rw warned at e in cc
            | inr quiet ↦ let bad = rw quiet at e in cc
          ],
          λ e. cc,
        )
  | inr refused ↦ elim (Bool-cases (any is_blocking (validate beam).findings)) [
    | inl blocked ↦ rw (refused, blocked) (λ e. refl, λ e. refl)
    | inr unblocked ↦ rw (refused, unblocked) (λ e. refl, λ e. refl)
  ]
]
