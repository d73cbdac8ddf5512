-- ===== src/Scripts.antt =====
-- contracts/scripts: the checks that the build runs on the contracts.
pub mod StaticAnalysis
pub mod ContractSize
pub mod Stress
