-- ===== src/Policy.antt =====
-- The policy domain of the backend: backend/src/modules/policies.
pub mod Constants
pub mod Validators
pub mod Chain
pub mod Creation
pub mod Listing
