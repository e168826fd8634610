-- ===== src/BlockManager.antt =====
-- vllm/core/block_manager.py. `Allocator`, `Memory`, `Tables` and `Manager` hold the definitions,
-- from the allocators up to the methods of BlockSpaceManager; the other children the proofs.
pub mod Allocator
pub mod Memory
pub mod Tables
pub mod Manager
pub mod Allocation
pub mod Eviction
pub mod Balance
pub mod RefCounts
pub mod Moves
pub mod SwapLoop
pub mod SwapTable
pub mod Valid
pub mod Freeing
pub mod Growing
pub mod Swapping
pub mod Sharing
pub mod Allocating
pub mod SwapMethods
pub mod SwapIn
pub mod SwapBack
pub mod SameBlocks
pub mod Fresh
