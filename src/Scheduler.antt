-- ===== src/Scheduler.antt =====
-- vllm/core/scheduler_v2.py: SchedulerV2. `State` is the state; `Waste` and `Pausing` have the methods
-- that classify, pause and resume a request, `Preempting` and `Aborting` those that preempt and abort
-- one, and `Discarding`, `Batching`, `Filling` and `Iteration` those of an iteration; the other
-- children hold the proofs.
pub mod State
pub mod Waste
pub mod Pausing
pub mod Preempting
pub mod Aborting
pub mod Discarding
pub mod Batching
pub mod Filling
pub mod Iteration
pub mod Soundness
pub mod Queues
pub mod Discards
pub mod Rooms
pub mod Loads
pub mod Serving
pub mod Batches
pub mod Rounds
pub mod SafePauses
pub mod Sorted
pub mod Filled
pub mod Counted
pub mod Metadata
pub mod Iterations
pub mod Strategies
pub mod Pauses
pub mod PauseModes
pub mod Resuming
pub mod Preemptions
pub mod SwapPreemption
pub mod Starving
pub mod Removals
pub mod Aborts
pub mod AbortAll
