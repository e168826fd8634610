-- ===== src/Scheduler/Iteration.antt =====
-- vllm/core/scheduler_v2.py: SchedulerV2.schedule, with _set_max_ragged_batch. The statistics that it
-- records are left out; the reads they make, which may raise, are in `statistics`.
use mars_codebase.Prelude.Dict
use mars_codebase.Prelude.Dict.{Dict}
use mars_codebase.Prelude.{
  ok, Bool, List, Result, [], assertion_error, guard, if◌then◌else◌, leb, ℕ, ◌+◌, ◌==◌, ◌>>=◌, ◌>>◌,
  ◌∷◌,
}
use mars_codebase.Sequence.Status.{SequenceStatus}
use mars_codebase.Prelude.Int.{difference, eq_ℤ, negsuc}
use mars_codebase.Scheduler.State.{SchedulerV2, group_of, with_group}
use mars_codebase.BlockManager.Valid.{entry}
use mars_codebase.Scheduler.Filling.{SchedulerOutputs, named, schedule_chunk_and_fill}
use mars_codebase.Sequence.Data.{SequenceData}
use mars_codebase.Sequence.Group.{SequenceGroup, first_seq, get_seqs_in}
use mars_codebase.BlockManager.Allocation.{update}
use mars_codebase.BlockManager.Eviction.{get_block_table, get_seq_blocks_by_device}
use mars_codebase.Sequence.Member.{Sequence}
use mars_codebase.Scheduler.Discarding.{is_preserve, paused_in}
use mars_codebase.Block.{gpu}

-- SequenceGroupMetadata, of vllm/sequence.py, less the sampling parameters. The two dictionaries by
-- sequence ids are one.
pub record SequenceGroupMetadata : Type 0 where
  pub request_id : ℕ
  pub is_prompt : Bool
  pub seq_data : Dict (SequenceData × List ℕ)
  pub only_swap : Bool

-- sum(len(get_seq_blocks_by_device(group, Device.GPU)) for ...), where nothing is counted.
unfoldable pub read_blocks : SchedulerV2 → List (ℕ × SequenceGroup) → Result (Unit {0})
read_blocks sch [] = ok tt
read_blocks sch ((i, g) ∷ groups) = do
  blocks ← get_seq_blocks_by_device sch.block_manager g gpu
  read_blocks sch groups

-- SchedulerV2._set_max_ragged_batch, which does not use the numbers that it computes.
unfoldable pub set_max_ragged_batch : SchedulerV2 → Result SchedulerV2
set_max_ragged_batch sch = do
  groups ← paused_in is_preserve sch sch.paused
  read_blocks sch groups
  ok (record sch {
    batch_max_tokens = 384;
    max_swap_in_blocks = 1000000000;
    max_swap_out_blocks = 1000000000;
  })

-- The reads of the statistics.
unfoldable pub statistics : SchedulerV2 → List ℕ → Result (Unit {0})
statistics sch scheduled = do
  groups ← paused_in is_preserve sch sch.paused
  read_blocks sch groups
  served ← named sch scheduled
  read_blocks sch served

-- The data and the block table of each sequence of a list.
unfoldable pub seq_entries :
    SchedulerV2
    → List Sequence
    → Dict (SequenceData × List ℕ)
    → Result (Dict (SequenceData × List ℕ))
seq_entries sch [] entries = ok entries
seq_entries sch (seq ∷ seqs) entries = do
  numbers ← get_block_table sch.block_manager seq
  seq_entries sch seqs (Dict.put entries seq.seq_id (seq.content, numbers))

-- `if seq_group.time_before_processing == -1.0`, with times in milliseconds.
abbrev pub note_start : ℕ → SequenceGroup → SequenceGroup
note_start clock g =
    if eq_ℤ g.time_before_processing (negsuc 999)
    then record g { time_before_processing = difference clock g.arrival_time }
    else g

-- The metadata of a group at a time of the clock.
unfoldable pub metadata_of :
    SchedulerV2 → ℕ → ℕ → Bool → Result (SequenceGroupMetadata × SchedulerV2)
metadata_of sch clock i prompt = do
  g ← group_of sch i
  entries ← seq_entries sch (get_seqs_in SequenceStatus.running g) []
  seq ← first_seq g
  let d = seq.content
  ok (
    record {
      request_id = g.request_id;
      is_prompt = prompt;
      seq_data = entries;
      only_swap = d.running_inflight_tokens + d.resume_discard_tokens == 0;
    },
    with_group sch i (note_start clock g),
  )

-- The loop over the groups and their flags. `clock` gives the time at each group.
unfoldable pub metadata_list :
    SchedulerV2 → (ℕ → ℕ) → List ℕ → List Bool → Result (List SequenceGroupMetadata × SchedulerV2)
metadata_list sch clock [] prompts = ok ([], sch)
metadata_list sch clock (i ∷ queue) [] = ok ([], sch)
metadata_list sch clock (i ∷ queue) (prompt ∷ prompts) = do
  (entry, sch') ← metadata_of sch (clock i) i prompt
  (entries, sch'') ← metadata_list sch' clock queue prompts
  ok (entry ∷ entries, sch'')

-- SchedulerV2.schedule, at the time `now` and with the later times of the clock.
unfoldable pub schedule :
    SchedulerV2
    → ℕ
    → (ℕ → ℕ)
    → Dict ℕ
    → Result (List SequenceGroupMetadata × SchedulerOutputs × SchedulerV2)
schedule sch now clock paused_swap_out = do
  limited ← set_max_ragged_batch sch
  (outputs, sch') ← schedule_chunk_and_fill limited now (update [] paused_swap_out) []
  guard (leb outputs.num_batched_tokens limited.batch_max_tokens) assertion_error
  statistics sch' outputs.scheduled_seq_groups
  (entries, sch'') ← metadata_list sch' clock outputs.scheduled_seq_groups outputs.is_prompt
  ok (entries, outputs, sch'')
