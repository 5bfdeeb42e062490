-- ===== src/Examples.antt =====
-- Tests of the models at concrete inputs, and the theorems at inputs that meet their hypotheses.
mod Fixtures
mod Matrix
mod Deployments
mod Recoveries
mod Conformance
mod Generations
mod Checker
mod Extension
mod Variants
mod Policies
mod Manifests
mod Audits
mod Servers
mod Stores
mod Suites
mod Json
mod Snapshots
mod Repositories
mod Evidence
