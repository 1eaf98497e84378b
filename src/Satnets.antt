-- ===== src/Satnets.antt =====
-- Satnets (satnets/).
pub mod Containment
