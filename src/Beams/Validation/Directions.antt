-- ===== src/Beams/Validation/Directions.antt =====
-- When the enabled directions of a Beam block nothing (beams/validation.py, `_check_direction`).
use vsat_frequency_managemen.Beams.Validation.{
  BeamRow, ChainConfig, ChainPath, check_chain, check_direction, check_directions,
}
use vsat_frequency_managemen.Beams.Validation.Chains.{IsOpen, IsOpen-append}
use vsat_frequency_managemen.Beams.Validation.Sound.{IsOpen-check_chain, IsSoundChain}
use vsat_frequency_managemen.Prelude.{
  All, List, Option, [], none, refl, some, subst, subst₂, sym, ℕ, ◌↔◌, ◌∙◌, ◌∷◌, ◌≡◌,
}

-- A direction that is complete and sound.
pub record IsSoundDirection (beam : BeamRow) (c : ChainConfig) : Type 0 where
  pub path : ChainPath
  pub uplink : ℕ
  pub downlink : ℕ
  pub at_path : c.payload_path ≡ some path
  pub at_uplink : c.uplink_window_id ≡ some uplink
  pub at_downlink : c.downlink_window_id ≡ some downlink
  pub chain : IsSoundChain beam c path uplink downlink

some_same : {A : Type 0} {a b : A} → ◌≡◌ {A = Option A} (some a) (some b) → a ≡ b
some_same e = cc

check_direction_lem :
    (beam : BeamRow) (c : ChainConfig) → IsOpen (check_direction beam c) ↔ IsSoundDirection beam c
unfolding check_direction check_chain
check_direction_lem beam c =
    by_parts c.payload_path c.uplink_window_id c.downlink_window_id refl refl refl
  where
    by_parts :
        (p : Option ChainPath) (u d : Option ℕ)
        → c.payload_path ≡ p
        → c.uplink_window_id ≡ u
        → c.downlink_window_id ≡ d
        → IsOpen (check_chain beam c p u d) ↔ IsSoundDirection beam c
    by_parts none u d ep eu ed = (λ h. cc, λ s. let bad = s.at_path in cc)
    by_parts (some path) none d ep eu ed = (λ h. cc, λ s. let bad = s.at_uplink in cc)
    by_parts (some path) (some uplink) none ep eu ed = (λ h. cc, λ s. let bad = s.at_downlink in cc)
    by_parts (some path) (some uplink) (some downlink) ep eu ed =
        let meant = IsOpen-check_chain beam c path uplink downlink in
        (
          λ h. record {
            path = path;
            uplink = uplink;
            downlink = downlink;
            at_path = ep;
            at_uplink = eu;
            at_downlink = ed;
            chain = meant.0 h;
          },
          λ s.
              let same_path : s.path ≡ path = some_same (sym s.at_path ∙ ep) in
              let same_up : s.uplink ≡ uplink = some_same (sym s.at_uplink ∙ eu) in
              let same_down : s.downlink ≡ downlink = some_same (sym s.at_downlink ∙ ed) in
              meant.1 (
                subst (λ p. IsSoundChain beam c p uplink downlink) same_path
                  (subst₂ (λ u d. IsSoundChain beam c s.path u d) same_up same_down s.chain)),
        )

pub check_directions_lem :
    (beam : BeamRow) (cs : List ChainConfig)
    → IsOpen (check_directions beam cs) ↔ All (IsSoundDirection beam) cs
unfolding check_directions
check_directions_lem beam [] = (λ h. tt, λ h. refl)
check_directions_lem beam (c ∷ cs) =
    let here = check_direction_lem beam c in
    let rest = check_directions_lem beam cs in
    let both = IsOpen-append (check_direction beam c) (check_directions beam cs) in
    (
      λ h. let parts = both.0 h in (here.0 parts.0, rest.0 parts.1),
      λ h. both.1 (here.1 h.0, rest.1 h.1),
    )
