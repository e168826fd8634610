-- ===== src/Scheduler/Batching.antt =====
-- vllm/core/scheduler_v2.py: SchedulerV2._schedule, which fills a batch from a queue. Its lists are
-- the scheduler's own where the code shares them: what it pops is gone from the queue.
use mars_codebase.Prelude.Dict.{Dict}
use mathlib.Core.List.{reverse}
use mars_codebase.BlockManager.Allocation.{allocate}
use mars_codebase.Prelude.{
  Bool, List, Result, [], assertion_error, err, false, guard, if◌then◌else◌, length, ltb, min, not,
  ok, out_of_fuel, suc, true, zero, ℕ, ◌&&◌, ◌++◌, ◌+◌, ◌-◌, ◌==◌, ◌>>=◌, ◌>>◌, ◌||◌, ◌∷◌,
}
use mars_codebase.Scheduler.State.{SchedulerV2, group_of, map_seqs, with_group}
use mars_codebase.BlockManager.Manager.{can_fulfill_blocks, get_memory_requirement}
use mars_codebase.Sequence.Data.{SequenceData, clear_workload, get_len, populate_workload}
use mars_codebase.Scheduler.Discarding.{passive_discard_by_order}
use mars_codebase.Sequence.Member.{Sequence}
use mars_codebase.BlockManager.Memory.{num_free_blocks}
use mars_codebase.Sequence.Status.{SequenceStatus}
use mars_codebase.Sequence.Group.{SequenceGroup, first_seq, get_max_num_running_seqs}
use mars_codebase.Block.{gpu}
use mars_codebase.Scheduler.Pausing.{map_first}
use mars_codebase.BlockManager.Eviction.{get_seq_blocks_by_device}

-- The arguments that do not change. `max_sequences` is `max_num_seqs - used_sequences`, which may be
-- negative. `num_batched_seqs` stays 0 in the code.
pub record ScheduleArgs : Type 0 where
  pub preempt_if_need : Bool
  pub self_preempt : Bool
  pub stop_if_batch_limit : Bool
  pub stop_if_no_swap : Bool
  pub max_num_seqs : ℕ
  pub used_sequences : ℕ
  pub now : ℕ

-- The local variables, and the scheduler.
pub record Batch : Type 0 where
  pub sch : SchedulerV2
  pub targets : List ℕ
  pub preemption_targets : List ℕ
  pub scheduled : List ℕ
  pub preempted : List ℕ
  pub ignored : List ℕ
  pub delayed : List ℕ
  pub num_batched_tokens : ℕ
  pub swaps_in : Dict ℕ

-- A change of the data of the sequence get_seqs()[0] of a stored group.
abbrev pub change_first : (Sequence → Sequence) → SchedulerV2 → ℕ → SequenceGroup → SchedulerV2
change_first f sch i g = with_group sch i (record g { seqs_dict = map_first f g.seqs_dict })

abbrev pub change_data : (SequenceData → SequenceData) → Sequence → Sequence
change_data f s = record s { content = f s.content }

abbrev pub delay : ℕ → Batch → Batch
delay i b = record b { delayed = b.delayed ++ i ∷ [] }

-- A prompt that is too long: the sequences are finished.
abbrev pub ignore_group : ℕ → SequenceGroup → Batch → Batch
ignore_group i g b = record b {
  sch =
      with_group b.sch i (map_seqs (λ s. record s { status = SequenceStatus.finished_ignored }) g);
  ignored = b.ignored ++ i ∷ [];
}

-- n_swap_blocks and n_inflight_tokens
unfoldable pub chunk_swap : SchedulerV2 → SequenceData → ℕ
chunk_swap sch d = min sch.max_swap_in_blocks d.swap_length

unfoldable pub chunk_inflight : Batch → SequenceData → ℕ
chunk_inflight b d =
    if d.swap_length == chunk_swap b.sch d
    then min (b.sch.batch_max_tokens - b.num_batched_tokens) d.inflight_length
    else 0

-- The blocks that are missing.
abbrev pub missing_blocks : Batch → ℕ → ℕ
missing_blocks b new_blocks = new_blocks - num_free_blocks gpu b.sch.block_manager.memory

-- The tests before the preemption, each of which ends the loop.
unfoldable pub is_refused : ScheduleArgs → Batch → ℕ → Bool
is_refused args b new_blocks =
    if can_fulfill_blocks b.sch.block_manager new_blocks
    then false
    else if not args.preempt_if_need
    then true
    else if length b.preemption_targets == 0 && not args.self_preempt
    then true
    else not args.self_preempt
      && ltb b.sch.max_swap_out_blocks (missing_blocks b new_blocks)
      && args.stop_if_no_swap

-- Whom a round of the preemption loop discards.
pub data Source : Type 0 where
  paused_ones nobody delayed_ones later_ones itself : Source

unfoldable pub choose_source : ScheduleArgs → Batch → Source
choose_source args b =
    if ltb 0 (length b.preemption_targets)
    then Source.paused_ones
    else if not args.self_preempt
    then Source.nobody
    else if ltb 0 (length b.delayed)
    then Source.delayed_ones
    else if ltb 0 (length b.targets)
    then Source.later_ones
    else Source.itself

-- passive_discard on a list from its first to its last group: what is left of the list, and the
-- batch. It swaps nothing out, so `max_swap_out_blocks` stays.
unfoldable pub discard_from : ScheduleArgs → ℕ → List ℕ → Batch → Result (List ℕ × Batch)
discard_from args required victims b = do
  d ← passive_discard_by_order b.sch required (reverse victims) b.preempted args.now
  ok (reverse d.victims, record b { sch = d.scheduler; preempted = d.preempted })

-- The last case: the group itself is discarded, where it has blocks.
unfoldable pub discard_itself : ScheduleArgs → ℕ → Batch → Result Batch
discard_itself args i b = do
  g ← group_of b.sch i
  blocks ← get_seq_blocks_by_device b.sch.block_manager g gpu
  (_, b') ← discard_from args (length blocks) (i ∷ []) b
  ok b'

-- The preemption loop. It tells whether the blocks are there in the end. A round that goes on has
-- discarded a group, so the number of groups in the lists is fuel enough.
unfoldable pub make_room : ScheduleArgs → ℕ → ℕ → ℕ → Batch → Result (Bool × Batch)
make_room args zero new_blocks i b = err out_of_fuel
make_room args (suc fuel) new_blocks i b =
    elim (can_fulfill_blocks b.sch.block_manager new_blocks) [
      | true ↦ ok (true, b)
      | false ↦ elim (ltb b.sch.max_swap_out_blocks (missing_blocks b new_blocks)) [
        | true ↦ ok (false, delay i b)
        | false ↦ elim (choose_source args b) [
          | Source.paused_ones ↦ do
            (rest, b') ← discard_from args (missing_blocks b new_blocks) b.preemption_targets b
            make_room args fuel new_blocks i (record b' { preemption_targets = rest })
          | Source.nobody ↦ ok (false, delay i b)
          | Source.delayed_ones ↦ do
            (rest, b') ← discard_from args (missing_blocks b new_blocks) b.delayed b
            make_room args fuel new_blocks i (record b' { delayed = rest })
          | Source.later_ones ↦ do
            (rest, b') ← discard_from args (missing_blocks b new_blocks) b.targets b
            make_room args fuel new_blocks i (record b' { targets = rest })
          | Source.itself ↦ do b' ← discard_itself args i b; ok (false, b')
        ]
      ]
    ]

-- The number of groups that the preemption loop may discard.
abbrev pub candidates : Batch → ℕ
candidates b = length b.preemption_targets + length b.delayed + length b.targets

-- The end of a round, once there is room.
unfoldable pub admit : ℕ → ℕ → Batch → Result Batch
admit i n_swap_blocks b = do
  g ← group_of b.sch i
  seq ← first_seq g
  (m, swaps) ← allocate b.sch.block_manager g b.swaps_in
  let run : Sequence → Sequence = λ s. record s { status = SequenceStatus.running }
  ok (record b {
    sch = record (change_first run b.sch i g) {
      block_manager = m;
      max_swap_in_blocks = b.sch.max_swap_in_blocks - n_swap_blocks;
    };
    scheduled = b.scheduled ++ i ∷ [];
    num_batched_tokens = b.num_batched_tokens + seq.content.running_inflight_tokens;
    swaps_in = swaps;
  })

-- The rest of a round for a group with a workload. The Boolean says whether the loop goes on.
unfoldable pub serve : ScheduleArgs → ℕ → SequenceGroup → ℕ → ℕ → Batch → Result (Bool × Batch)
serve args i g n_swap_blocks n_inflight_tokens b = do
  let work : SequenceData → SequenceData =
      λ d. populate_workload d 0 n_swap_blocks n_inflight_tokens
  let b' : Batch = record b { sch = change_first (change_data work) b.sch i g }
  g' ← group_of b'.sch i
  new_blocks ← get_memory_requirement b'.sch.block_manager g'
  elim (is_refused args b' new_blocks) [
    | true ↦ ok (false, delay i b')
    | false ↦ do
      (room, b'') ← make_room args (suc (candidates b')) new_blocks i b'
      elim room [
        | true ↦ do b''' ← admit i n_swap_blocks b''; ok (true, b''')
        | false ↦ ok (true, b'')
      ]
  ]

-- A round of the loop, on a group that is popped.
unfoldable pub schedule_round : ScheduleArgs → ℕ → Batch → Result (Bool × Batch)
schedule_round args i b = do
  g ← group_of b.sch i
  seq ← first_seq g
  elim (ltb b.sch.prompt_limit (get_len seq.content)) [
    | true ↦ ok (true, ignore_group i g b)
    | false ↦ elim (ltb args.max_num_seqs (args.used_sequences + get_max_num_running_seqs g)) [
      | true ↦ ok (false, delay i b)
      | false ↦ elim (chunk_inflight b seq.content == 0 && chunk_swap b.sch seq.content == 0) [
        | true ↦ ok (not args.stop_if_batch_limit, delay i b)
        | false ↦ do
          guard (seq.content.discard_length == 0) assertion_error
          serve args i g (chunk_swap b.sch seq.content) (chunk_inflight b seq.content) b
      ]
    ]
  ]

-- The loop. Each round pops a group, so the number of groups is fuel enough.
unfoldable pub schedule_rounds : ScheduleArgs → ℕ → Batch → Result Batch
schedule_rounds args zero b = elim b.targets [ [] ↦ ok b | i ∷ targets ↦ err out_of_fuel ]
schedule_rounds args (suc fuel) b = elim b.targets [
  | [] ↦ ok b
  | i ∷ targets ↦ do
    (again, b') ← schedule_round args i (record b { targets = targets })
    elim again [ true ↦ schedule_rounds args fuel b' | false ↦ ok b' ]
]

-- `for seq_group in delayed: ...clear_workload()`
unfoldable pub clear_delayed : List ℕ → SchedulerV2 → Result SchedulerV2
clear_delayed [] sch = ok sch
clear_delayed (i ∷ delayed) sch = do
  g ← group_of sch i
  seq ← first_seq g
  clear_delayed delayed (change_first (change_data clear_workload) sch i g)

abbrev pub initial_batch : SchedulerV2 → List ℕ → List ℕ → Dict ℕ → Batch
initial_batch sch targets preemption_targets swaps_in = record {
  sch = sch;
  targets = targets;
  preemption_targets = preemption_targets;
  scheduled = [];
  preempted = [];
  ignored = [];
  delayed = [];
  num_batched_tokens = 0;
  swaps_in = swaps_in;
}

-- SchedulerV2._schedule
unfoldable pub schedule_batch : ScheduleArgs → SchedulerV2 → List ℕ → List ℕ → Dict ℕ → Result Batch
schedule_batch args sch targets preemption_targets swaps_in = do
  guard (length preemption_targets == 0 || args.preempt_if_need) assertion_error
  b ← schedule_rounds args (length targets) (initial_batch sch targets preemption_targets swaps_in)
  let spent : SchedulerV2 = record b.sch {
    batch_max_tokens = b.sch.batch_max_tokens - b.num_batched_tokens;
  }
  cleared ← clear_delayed b.delayed spent
  ok (record b { sch = cleared })
