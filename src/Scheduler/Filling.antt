-- ===== src/Scheduler/Filling.antt =====
-- vllm/core/scheduler_v2.py: SchedulerV2._schedule_chunk_and_fill and _active_discard. The numbers
-- that the former computes and does not use are left out, and the code behind `continue`.
use mars_codebase.Prelude.Dict.{Dict}
use mars_codebase.Sequence.Member.{
  Sequence, check_reset_starvation_scheduled, check_starvation_high_priority, increment_starvation,
}
use mars_codebase.Sequence.Group.{SequenceGroup, Strategy, first_seq, keep}
use mars_codebase.Prelude.Int.{leb_ℤ, pos}
use mars_codebase.Scheduler.Batching.{Batch, ScheduleArgs, change_first, schedule_batch}
use mars_codebase.Scheduler.State.{PreemptionMode, SchedulerV2, group_of, with_group}
use mars_codebase.Prelude.{
  ok, Bool, List, Result, [], err, false, if◌then◌else◌, index_error, length, ltb, map, max, none,
  not, replicate, true, ℕ, ◌&&◌, ◌++◌, ◌+◌, ◌==◌, ◌>>=◌, ◌∷◌,
}
use mars_codebase.Sequence.Status.{SequenceStatus, is_status}
use mars_codebase.BlockManager.Eviction.{can_swap_out}
use mars_codebase.Policy.{Query, Ranked, sort_by_priority}
use mars_codebase.Scheduler.Waste.{running_batch, running_blocks}
use mars_codebase.Scheduler.Aborting.{mem_id}
use mars_codebase.Scheduler.Preempting.{get_num_batched_tokens, preempt_by_recompute}
use mars_codebase.Scheduler.Discarding.{is_preserve, paused_in}
use mars_codebase.Scheduler.Pausing.{pause_by_recompute, pause_by_swap}

-- The groups of a queue, with their names.
unfoldable pub named : SchedulerV2 → List ℕ → Result (List (ℕ × SequenceGroup))
named sch [] = ok []
named sch (i ∷ queue) = do g ← group_of sch i; groups ← named sch queue; ok ((i, g) ∷ groups)

-- The scores that a sort keeps in the groups.
abbrev pub keep_scores : List Ranked → SchedulerV2 → SchedulerV2
keep_scores [] sch = sch
keep_scores (r ∷ ranked) sch = keep_scores ranked (with_group sch r.name r.group)

-- self.policy.sort_by_priority(now, queue, ...)
unfoldable pub sort_queue : SchedulerV2 → Query → List ℕ → Result (List ℕ × SchedulerV2)
sort_queue sch q queue = do
  groups ← named sch queue
  ranked ← sort_by_priority sch.policy q groups
  ok (map (λ r. r.name) ranked, keep_scores ranked sch)

-- The default arguments of sort_by_priority, with `running`.
abbrev pub plain_query : ℕ → Bool → Query
plain_query now in_running = record {
  now = now;
  in_running = in_running;
  batch = 0;
  use_cached_score = false;
}

-- `victim = self.swapped.pop(0)`, and its preemption.
unfoldable pub discard_first : List ℕ → SchedulerV2 → Result SchedulerV2
discard_first [] sch = err index_error
discard_first (i ∷ queue) sch = preempt_by_recompute (record sch { swapped = queue }) i

-- SchedulerV2._active_discard
unfoldable pub active_discard : SchedulerV2 → ℕ → Result SchedulerV2
active_discard sch now =
    if length sch.waiting == 0 && ltb 0 (length sch.swapped)
    then (do
      (queue, sch') ← sort_queue sch (plain_query now false) sch.swapped
      discard_first queue sch')
    else ok sch

-- paused_preemption_candidates: the name, the waste and the strategy of each group that is paused
-- by PRESERVE.
unfoldable pub candidates_of : SchedulerV2 → Dict PreemptionMode → Result (List (ℕ × ℕ × Strategy))
candidates_of sch paused = do
  groups ← paused_in is_preserve sch paused
  ok (
      map
        (λ (p : ℕ × SequenceGroup). (p.0, p.1.sampling_params.waste, p.1.sampling_params.strategy))
        groups)

-- max_waste. It starts at -1, which no waste is below.
abbrev pub max_waste : List (ℕ × ℕ × Strategy) → ℕ
max_waste [] = 0
max_waste ((i, waste, strategy) ∷ cands) = max waste (max_waste cands)

-- A candidate below the greatest waste leaves the GPU as its strategy says.
unfoldable pub drop_candidate : SchedulerV2 → ℕ → Strategy → Dict ℕ → Result (SchedulerV2 × Dict ℕ)
drop_candidate sch i Strategy.recompute swaps_out = do
  sch' ← pause_by_recompute sch i
  ok (sch', swaps_out)
drop_candidate sch i Strategy.swap swaps_out = do
  g ← group_of sch i
  can ← can_swap_out sch.block_manager g none
  if can then pause_by_swap sch i swaps_out none else ok (sch, swaps_out)
drop_candidate sch i Strategy.preserve swaps_out = ok (sch, swaps_out)

-- The loop over the candidates: the preemption targets, and what the rest of them leaves.
unfoldable pub drop_candidates :
    ℕ → List (ℕ × ℕ × Strategy) → SchedulerV2 → Dict ℕ → Result (List ℕ × SchedulerV2 × Dict ℕ)
drop_candidates most [] sch swaps_out = ok ([], sch, swaps_out)
drop_candidates most ((i, waste, strategy) ∷ cands) sch swaps_out = elim (ltb waste most) [
  | true ↦ do
    (sch', swaps_out') ← drop_candidate sch i strategy swaps_out
    drop_candidates most cands sch' swaps_out'
  | false ↦ do
    (targets, sch', swaps_out') ← drop_candidates most cands sch swaps_out
    ok (i ∷ targets, sch', swaps_out')
]

-- The status test and check_starvation_high_priority, for a request that may be scheduled.
unfoldable pub asks_priority : SchedulerV2 → ℕ → Result (Bool × SchedulerV2)
asks_priority sch i = do
  g ← group_of sch i
  seq ← first_seq g
  if is_status seq.status SequenceStatus.waiting
      then (do
        (seq', high) ← check_starvation_high_priority seq
        ok (high, change_first (λ s. seq') sch i g))
      else ok (false, sch)

-- The requests with high priority, the others, and the scheduler.
unfoldable pub split_priority : List ℕ → SchedulerV2 → Result (List ℕ × List ℕ × SchedulerV2)
split_priority [] sch = ok ([], [], sch)
split_priority (i ∷ queue) sch = do
  (high, sch') ← asks_priority sch i
  (front, back, sch'') ← split_priority queue sch'
  ok (if high then (i ∷ front, back, sch'') else (front, i ∷ back, sch''))

-- The requests with high priority first, where starvation is avoided.
unfoldable pub avoid_starvation : List ℕ → SchedulerV2 → Result (List ℕ × SchedulerV2)
avoid_starvation queue sch =
    if sch.starvation_avoidance
    then (do (front, back, sch') ← split_priority queue sch; ok (front ++ back, sch'))
    else ok (queue, sch)

-- A change of each sequence in a status, which may raise.
unfoldable pub try_values :
    (Sequence → Result Sequence) → SequenceStatus → Dict Sequence → Result (Dict Sequence)
try_values f status [] = ok []
try_values f status ((k, s) ∷ d) = do
  s' ← if is_status s.status status then f s else ok s
  d' ← try_values f status d
  ok ((k, s') ∷ d')

-- The loop over a queue that counts the rounds of its sequences.
unfoldable pub count_rounds :
    (SequenceGroup → Bool)
    → (Sequence → Result Sequence)
    → SequenceStatus
    → List ℕ
    → SchedulerV2
    → Result SchedulerV2
count_rounds test f status [] sch = ok sch
count_rounds test f status (i ∷ queue) sch = do
  g ← group_of sch i
  seqs ← if test g then try_values f status g.seqs_dict else ok g.seqs_dict
  count_rounds test f status queue (with_group sch i (record g { seqs_dict = seqs }))

-- time_before_processing > 0
abbrev pub was_processed : SequenceGroup → Bool
was_processed g = not (leb_ℤ g.time_before_processing (pos 0))

unfoldable pub count_starvation : SchedulerV2 → Result SchedulerV2
count_starvation sch =
    if sch.starvation_avoidance
    then (do
      sch' ← count_rounds was_processed increment_starvation SequenceStatus.waiting sch.waiting sch
      count_rounds (λ g. true) check_reset_starvation_scheduled SequenceStatus.running sch'.running
          sch')
    else ok sch

-- The fields of SchedulerOutputs that are not constant, of vllm/core/scheduler.py.
pub record SchedulerOutputs : Type 0 where
  pub scheduled_seq_groups : List ℕ
  pub num_batched_tokens : ℕ
  pub blocks_to_swap_in : Dict ℕ
  pub blocks_to_swap_out : Dict ℕ
  pub ignored_seq_groups : List ℕ
  pub is_prompt : List Bool

-- The names of a list that stand in a queue.
abbrev pub within : List ℕ → List ℕ → List ℕ
within queue ids = keep (λ i. mem_id i queue) ids

-- The arguments of the two calls of _schedule.
abbrev pub running_args : SchedulerV2 → ℕ → ScheduleArgs
running_args sch now = record {
  preempt_if_need = true;
  self_preempt = true;
  stop_if_batch_limit = false;
  stop_if_no_swap = false;
  max_num_seqs = sch.max_num_seqs;
  used_sequences = 0;
  now = now;
}

abbrev pub combined_args : SchedulerV2 → ℕ → ℕ → ScheduleArgs
combined_args sch now scheduled = record (running_args sch now) {
  self_preempt = false;
  used_sequences = scheduled;
}

-- The first part: the paused requests, and then the running ones.
unfoldable pub schedule_running : SchedulerV2 → ℕ → Dict ℕ → Dict ℕ → Result (Batch × Dict ℕ)
schedule_running sch now swaps_out swaps_in = do
  cands ← candidates_of sch sch.paused
  (targets, sch1, swaps_out') ← drop_candidates (max_waste cands) cands sch swaps_out
  (queue, sch2) ← sort_queue sch1 (plain_query now true) sch1.running
  b ← schedule_batch (running_args sch2 now) sch2 queue targets swaps_in
  let queue' = b.targets ++ b.scheduled ++ b.delayed
  ok (record b { sch = record b.sch { running = queue' } }, swaps_out')

-- The counter of the iterations since the last sort with new scores.
abbrev pub next_counter : SchedulerV2 → ℕ
next_counter sch = sch.skip_sorting_counter + 1

-- The second part: the swapped and the waiting requests.
unfoldable pub schedule_combined : SchedulerV2 → ℕ → ℕ → Batch → Result Batch
schedule_combined sch now batch first = do
  let cached = not (ltb sch.skip_sorting_limit (next_counter sch))
  let sch1 : SchedulerV2 = record sch {
    skip_sorting_counter = if cached then next_counter sch else 0;
  }
  let q : Query = record { now = now; in_running = false; batch = batch; use_cached_score = cached }
  (queue, sch2) ← sort_queue sch1 q (sch1.swapped ++ sch1.waiting)
  (queue', sch3) ← avoid_starvation queue sch2
  schedule_batch (combined_args sch3 now (length first.scheduled)) sch3 queue'
      first.preemption_targets first.swaps_in

-- The end: the queues, the counts of the rounds, and the outputs.
unfoldable pub finish : Batch → Batch → Dict ℕ → Result (SchedulerOutputs × SchedulerV2)
finish first b swaps_out = do
  let from_wait = within b.sch.waiting b.scheduled
  let from_swap = within b.sch.swapped b.scheduled
  let scheduled = from_wait ++ first.scheduled ++ from_swap
  let left = b.delayed ++ b.targets
  sch ← count_starvation (record b.sch {
    running = b.sch.running ++ b.scheduled;
    swapped = within b.sch.swapped left;
    waiting = within b.sch.waiting left;
  })
  groups ← named sch scheduled
  num ← get_num_batched_tokens (map (λ (p : ℕ × SequenceGroup). p.1) groups)
  ok (
    record {
      scheduled_seq_groups = scheduled;
      num_batched_tokens = num;
      blocks_to_swap_in = b.swaps_in;
      blocks_to_swap_out = swaps_out;
      ignored_seq_groups = first.ignored ++ b.ignored;
      is_prompt =
          replicate (length from_wait) true
          ++ replicate (length first.scheduled) false
          ++ replicate (length from_swap) false;
    },
    sch,
  )

-- SchedulerV2._schedule_chunk_and_fill at the time `now`
unfoldable pub schedule_chunk_and_fill :
    SchedulerV2 → ℕ → Dict ℕ → Dict ℕ → Result (SchedulerOutputs × SchedulerV2)
schedule_chunk_and_fill sch now swaps_out swaps_in = do
  sch1 ← active_discard sch now
  batch ← running_batch sch1 sch1.running
  blocks ← running_blocks sch1 sch1.running
  (first, swaps_out') ← schedule_running sch1 now swaps_out swaps_in
  b ← schedule_combined first.sch now batch first
  finish first b swaps_out'
