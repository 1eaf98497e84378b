-- ===== src/Calculations.antt =====
-- The calculation engine (calculations/): pure arithmetic on frequencies and periods.
pub mod Errors
pub mod Ranges
pub mod Periods
pub mod Translation
pub mod Conversion
pub mod Gaps
pub mod Placement
pub mod Decimals
pub mod Validation
pub mod Bandwidth
pub mod Guards
