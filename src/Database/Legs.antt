-- ===== src/Database/Legs.antt =====
-- The comparison of legs (inventory/constants.py, `SpectrumLeg`).
use vsat_frequency_managemen.Database.{
  Leg, hub_downlink, hub_uplink, leg_eq, remote_downlink, remote_uplink,
}
use vsat_frequency_managemen.Prelude.{refl, subst, true, ◌↔◌, ◌≡◌}

pub leg_eq_iff : (l m : Leg) → (leg_eq l m ≡ true) ↔ (l ≡ m)
leg_eq_iff l m = (same l m, λ e. subst (λ n. leg_eq l n ≡ true) e (itself l))
  where
    itself : (l : Leg) → leg_eq l l ≡ true
    itself hub_uplink = refl
    itself remote_downlink = refl
    itself remote_uplink = refl
    itself hub_downlink = refl

    same : (l m : Leg) → leg_eq l m ≡ true → l ≡ m
    same hub_uplink hub_uplink e = refl
    same hub_uplink remote_downlink e = cc
    same hub_uplink remote_uplink e = cc
    same hub_uplink hub_downlink e = cc
    same remote_downlink hub_uplink e = cc
    same remote_downlink remote_downlink e = refl
    same remote_downlink remote_uplink e = cc
    same remote_downlink hub_downlink e = cc
    same remote_uplink hub_uplink e = cc
    same remote_uplink remote_downlink e = cc
    same remote_uplink remote_uplink e = refl
    same remote_uplink hub_downlink e = cc
    same hub_downlink hub_uplink e = cc
    same hub_downlink remote_downlink e = cc
    same hub_downlink remote_uplink e = cc
    same hub_downlink hub_downlink e = refl
