-- ===== src/Paths.antt =====
-- Satnet Paths (satnet_paths/).
pub mod Lifecycle
pub mod Preview
pub mod Proposals
pub mod Derived
pub mod Creation
pub mod Editing
