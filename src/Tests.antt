-- ===== src/Tests.antt =====
-- Concrete inputs for the modelled code, and the theorems applied to them.
pub mod Fixtures
pub mod Managers
pub mod Sequences
pub mod Starvations
pub mod Schedulers
pub mod Iterations
pub mod Policies
pub mod Samplings
pub mod Engines
pub mod Configs
