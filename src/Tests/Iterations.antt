-- ===== src/Tests/Iterations.antt =====
-- The theorems on an iteration of SchedulerV2 (vllm/core/scheduler_v2.py) at concrete inputs.
use mars_codebase.Scheduler.Iterations.{Iterated, schedule-Ends}
use mars_codebase.Scheduler.State.{SchedulerV2}
use mars_codebase.Prelude.{
  Bool-cases, Ends, List, Result, [], arith, err, inl, inr, ok, refl, total, ℕ, ◌==◌, ◌∷◌, ◌≡◌, ◌≤◌,
}
use mars_codebase.Scheduler.Soundness.{AllSingle, IsSound, put-AllSingle}
use mars_codebase.Scheduler.Rooms.{Roomed, make_room-Ends}
use mars_codebase.Scheduler.Filling.{
  SchedulerOutputs, running_args, active_discard, avoid_starvation, candidates_of, count_rounds,
  count_starvation, drop_candidates, finish, named, schedule_chunk_and_fill, schedule_combined,
  schedule_running, sort_queue, split_priority, try_values,
}
use mars_codebase.Tests.Fixtures.{group, scheduler, served, served-IsValid, served-no_window}
use mars_codebase.Scheduler.Iteration.{
  SequenceGroupMetadata, schedule, metadata_list, metadata_of, read_blocks, seq_entries,
  set_max_ragged_batch, statistics,
}
use mars_codebase.Scheduler.Batching.{
  Batch, ScheduleArgs, initial_batch, make_room, schedule_batch, admit, chunk_inflight, chunk_swap,
  clear_delayed, is_refused, schedule_round, schedule_rounds, serve,
}
use mars_codebase.Scheduler.Discards.{Discarded, passive_discard_by_order-Ends}
use mars_codebase.Scheduler.Rounds.{Scheduled, schedule_batch-Ends}
use mars_codebase.Scheduler.Loads.{same}
use mars_codebase.Scheduler.Discarding.{passive_discard_by_order, paused_in}
use mars_codebase.BlockManager.Allocation.{
  allocate, allocate_discarded, allocate_inflight, allocate_swapped,
}
use mars_codebase.BlockManager.Memory.{allocate_on}
use mars_codebase.Sequence.Group.{get_max_num_running_seqs}
use mars_codebase.BlockManager.Tables.{append_blocks}
use mars_codebase.Sequence.Data.{num_required_blocks_inflight, populate_workload}
use mars_codebase.Policy.{get_priority, rank_all, sort_by_priority}
use mars_codebase.BlockManager.Eviction.{
  get_block_table, get_physical_blocks, get_seq_blocks_by_device, tables_of,
}
use mars_codebase.Sequence.Member.{check_reset_starvation_scheduled}
use mars_codebase.BlockManager.Manager.{can_fulfill_blocks, get_memory_requirement}
use mars_codebase.Scheduler.Waste.{running_batch, running_blocks}
use mars_codebase.BlockManager.Allocator.{new_allocator}
use mars_codebase.Scheduler.Preempting.{get_num_batched_tokens}

no_groups : AllSingle []
no_groups i g e = absurd (cc e)

scheduler-IsSound : IsSound scheduler
unfolding served
scheduler-IsSound = record {
  valid = served-IsValid;
  no_window = served-no_window;
  single = put-AllSingle [] 1 group no_groups refl;
}

abbrev args : ScheduleArgs
args = running_args scheduler 60

passive_discard_by_order-Ends_example :
    Ends (Discarded scheduler 1 (1 ∷ [])) (passive_discard_by_order scheduler 1 (1 ∷ []) [] 60)
passive_discard_by_order-Ends_example =
    passive_discard_by_order-Ends scheduler 1 (1 ∷ []) [] 60 scheduler-IsSound

abbrev batch : Batch
batch = initial_batch scheduler [] (1 ∷ []) []

make_room-Ends_example : Ends (Roomed 3 1 batch) (make_room args 2 3 1 batch)
make_room-Ends_example = make_room-Ends args 2 3 1 batch scheduler-IsSound (omega arith)

once : (j : ℕ) → total (same j) (1 ∷ []) ≤ 1
once j = elim (Bool-cases (j == 1)) [ inl e ↦ rw e (omega arith) | inr e ↦ rw e (omega arith) ]

schedule_batch-Ends_example :
    Ends (Scheduled scheduler (1 ∷ []) []) (schedule_batch args scheduler (1 ∷ []) [] [])
schedule_batch-Ends_example =
    schedule_batch-Ends args scheduler (1 ∷ []) [] [] scheduler-IsSound once

schedule-Ends_example :
    Ends (λ out. Iterated out.0 out.1 out.2) (schedule scheduler 60 (λ i. 70) [])
schedule-Ends_example = schedule-Ends scheduler 60 (λ i. 70) [] scheduler-IsSound

-- The tokens that an iteration serves, or 0 where it raises.
abbrev tokens : Result (List SequenceGroupMetadata × SchedulerOutputs × SchedulerV2) → ℕ
tokens (ok out) = out.1.num_batched_tokens
tokens (err e) = 0

test_schedule : tokens (schedule scheduler 60 (λ i. 70) []) ≡ 3
unfolding schedule set_max_ragged_batch paused_in read_blocks schedule_chunk_and_fill active_discard
    running_batch running_blocks get_seq_blocks_by_device get_physical_blocks tables_of
    schedule_running candidates_of drop_candidates sort_queue named sort_by_priority rank_all
    get_priority schedule_batch schedule_rounds schedule_round get_max_num_running_seqs
    chunk_inflight chunk_swap serve populate_workload get_memory_requirement
    num_required_blocks_inflight is_refused can_fulfill_blocks make_room admit allocate
    allocate_discarded allocate_swapped allocate_inflight append_blocks allocate_on clear_delayed
    schedule_combined avoid_starvation split_priority finish count_starvation count_rounds
    try_values check_reset_starvation_scheduled get_num_batched_tokens statistics seq_entries
    get_block_table metadata_of metadata_list served new_allocator
test_schedule = refl
