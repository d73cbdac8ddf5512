-- ===== src/Policy/Chain.antt =====
-- backend/src/modules/policies/policy-chain.service.ts.
pub mod Types
pub mod Reads
pub mod Writes
