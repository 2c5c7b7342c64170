-- ===== src/Tests.antt =====
-- Tests of the model at small inputs, and the theorems at inputs that meet their hypotheses.
mod Data
mod Memory
mod Race
mod Factory
mod Typed
mod Redis
mod Plain
mod Isolation
mod Pipelines
mod Lock
mod Calm
