-- ===== src/Lib.antt =====
-- Verification of the key-value cache accounting of mars, a serving engine for language models
-- whose requests call external APIs while they are generated.
--
-- The program. A request is a SequenceGroup of Sequences (vllm/sequence.py). The tokens of a
-- sequence are kept in logical blocks (vllm/block.py), and the cache of its tokens in physical
-- blocks on two devices. BlockSpaceManager (vllm/core/block_manager.py) keeps a table of physical
-- blocks for each sequence; it takes blocks from the BlockAllocator of a device, shares them between
-- sequences by a reference count, moves them between the devices, and gives them back. SchedulerV2
-- (vllm/core/scheduler_v2.py) decides in each iteration which tokens are recomputed, which blocks
-- are swapped and which tokens run, and calls the manager for it; a sequence counts how often it is
-- passed over.
--
-- The files.
--   Prelude             exceptions as values, integers, dictionaries, list lemmas; Outcomes says
--                       what a call ends in: a value with a property, or an exception
--   Block               vllm/block.py; Block/Laws its proofs
--   Sequence            vllm/sequence.py: Status, Data (SequenceData), Member (Sequence), Group
--                       (SequenceGroup); the proofs in Blocks (the logical blocks), Accounting (the
--                       tokens in flight, discarded and swapped) and Starvation
--   BlockManager        vllm/core/block_manager.py: Allocator (BlockAllocator), Memory (both
--                       allocators and the reference counts), Tables (the loops over one table),
--                       Manager, Allocation and Eviction (the methods of BlockSpaceManager); the
--                       proofs in Balance and RefCounts (the allocators), Moves, SwapLoop, SwapTable
--                       and Swapping (the swap loops), Growing, Valid, and one for each method or
--                       two: Fresh, Allocating, Sharing, Freeing, SwapMethods, SwapIn, SwapBack
--   Sorting, Policy     vllm/core/policy.py: Python's stable sort, and the priorities by which a
--                       queue is sorted; their Laws and Policy/Orders the proofs
--   Scheduler           vllm/core/scheduler_v2.py: State (SchedulerV2), Waste (discard_waste,
--                       swap_waste, classify, add_seq_group), Pausing (pause_seq_group and
--                       resume_seq_group), Preempting and Aborting; Discarding
--                       (passive_discard_by_order), Batching (_schedule), Filling
--                       (_schedule_chunk_and_fill) and Iteration (schedule); the proofs in
--                       Strategies, Pauses, PauseModes, Resuming, Preemptions, SwapPreemption,
--                       Aborts, Removals and AbortAll, and for the iteration in Soundness, Loads, Discards, Rooms, Serving,
--                       Batches, Rounds, SafePauses, Sorted, Filled, Starving, Counted, Metadata and
--                       Iterations
--   Engine              vllm/engine/llm_engine.py: add_request, _check_stop, resume_request and
--                       resume_request_single; Outputs has _process_sequence_group_samples for
--                       groups without beam search; Created, Returns, Overruns, Stops
--                       and Steps the proofs
--   Sampling            vllm/sampling_params.py: what SamplingParams verifies; Laws and Accepts the
--                       proofs
--   Config              vllm/config.py: SchedulerConfig; Config/Laws its proofs
--   Tests               concrete inputs
--
-- The correspondence. A method is a function of the same name that takes the object and returns the
-- new one beside its result, in `Result`, whose `err` is the exception. A physical block is a shared
-- mutable object in the code; here it is the pair of device and number that names the object, and
-- `ref_count` is a store from names to numbers. Python's dictionaries are association lists in
-- insertion order; the order in which a set is listed is a field of the manager, of which the
-- theorems ask only that each block of the set is listed once.
--
-- Bounds. Numbers are unbounded, as in Python. Three loops are on fuel. In
-- _append_tokens_to_blocks the number of tokens is enough, since a round writes at least one token
-- where the block size is positive. In _schedule the number of groups in the queue is enough, since
-- each round pops one; in its preemption loop the number of groups in the three lists of victims is
-- enough, since a round that goes on discards one. The theorems whose result is `Ends` show it: a
-- call that ends does not run out of fuel.
--
-- The groups of the scheduler are shared objects: a store holds them by request id, and the queues
-- hold the ids. A list that the code pops from its end is walked from its end. Times are in
-- milliseconds. The wastes of the strategies, which the code computes in floats, are exact natural
-- numbers of 10⁻⁷ token-seconds, and the priorities of V2 integers of 10⁻⁴ token-seconds; rounding
-- is not modelled. The clock is a parameter of `schedule`.
--
-- Not modelled: the methods of SchedulerV2 that nothing calls, the rest of the engine (beam search,
-- step, set-up, logging), the workers and the model code (tensors), the servers, texts,
-- log-probabilities and the histories for statistics. Of the queues no theorem says yet that a
-- request stands in one of them at a time.
pub mod Block
pub mod BlockManager
pub mod Config
pub mod Engine
pub mod Policy
pub mod Prelude
pub mod Sampling
pub mod Scheduler
pub mod Sequence
pub mod Sorting
pub mod Tests
