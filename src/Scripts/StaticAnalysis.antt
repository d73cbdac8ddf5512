-- ===== src/Scripts/StaticAnalysis.antt =====
-- contracts/scripts/static-analysis.ts: Slither where it is installed, and a scan of the sources
-- for risky patterns where it is not.
pub mod Sanitize
pub mod Scan
pub mod Slither
pub mod Run
