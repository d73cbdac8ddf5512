-- ===== src/Registry.antt =====
-- backend/src/modules/blockchain/contract-registry.service.ts: the ABIs and the deployment manifest that
-- boot loads.
pub mod Json
pub mod Abis
pub mod Load
pub mod Accessors
