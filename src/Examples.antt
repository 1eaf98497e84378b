-- ===== src/Examples.antt =====
-- The theorems at concrete inputs, and runs of the definitions.
pub mod Arithmetic
pub mod Bandwidth
pub mod Beams
pub mod Proposals
pub mod Creation
pub mod Widths
pub mod Data
pub mod Services
pub mod Decisions
