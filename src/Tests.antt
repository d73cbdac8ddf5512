-- ===== src/Tests.antt =====
-- Concrete inputs that the theorems are applied to, and runs of the definitions on them.
mod Data
mod Store
mod Inputs
mod Chain
mod Pages
mod Boot
mod Access
mod Sources
mod Deployed
mod Failures
mod Builds
mod Stress
mod Walks
