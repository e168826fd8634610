-- ===== src/Sequence.antt =====
-- vllm/sequence.py. `Status`, `Data`, `Member` (class Sequence) and `Group` hold the definitions;
-- the other children hold what is proved of them.
pub mod Status
pub mod Data
pub mod Member
pub mod Group
pub mod Blocks
pub mod Accounting
pub mod Starvation
