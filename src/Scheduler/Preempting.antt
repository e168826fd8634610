-- ===== src/Scheduler/Preempting.antt =====
-- Preempting a request, and the small methods of SchedulerV2 (vllm/core/scheduler_v2.py).
use mars_codebase.Prelude.Dict
use mars_codebase.BlockManager.Eviction
use mars_codebase.BlockManager.Allocation
use mars_codebase.Prelude.Dict.{Dict}
use mars_codebase.Sequence.Group.{
  SequenceGroup, get_seqs, first_seq, group_finished, group_paused, num_seqs,
}
use mars_codebase.Sequence.Member.{Sequence}
use mars_codebase.Prelude.{
  List, Result, [], assertion_error, guard, if◌then◌else◌, length, none, not, ok, runtime_error,
  true, ℕ, ◌&&◌, ◌++◌, ◌+◌, ◌-◌, ◌==◌, ◌>>=◌, ◌>>◌, ◌∷◌,
}
use mars_codebase.Scheduler.Pausing.{all_inflight, all_swapped_data, free_seqs, map_first}
use mars_codebase.Scheduler.State.{SchedulerV2, group_of, map_seqs}
use mars_codebase.Prelude.Int.{ℤ}
use mars_codebase.Sequence.Status.{SequenceStatus, is_status}
use mars_codebase.Sequence.Data.{get_len}
use mars_codebase.BlockManager.Eviction.{can_swap_out, get_block_table, swap_in, swap_out, limit_of}
use mars_codebase.BlockManager.Allocation.{update}
use mars_codebase.BlockManager.Manager.{token_2_block}

unfoldable pub preempt_by_recompute : SchedulerV2 → ℕ → Result SchedulerV2
preempt_by_recompute sch request_id = do
  g ← group_of sch request_id
  guard (num_seqs g == 1) assertion_error
  m ← free_seqs (get_seqs g) sch.block_manager
  let g' =
      map_seqs (λ s. record s { status = SequenceStatus.waiting; content = all_inflight s.content })
        g
  ok (record sch {
    block_manager = m;
    groups = Dict.put sch.groups request_id (record g' { discarded = true });
    waiting = sch.waiting ++ request_id ∷ [];
  })

-- SchedulerV2._swap_out
unfoldable pub swap_out_group : SchedulerV2 → ℕ → Dict ℕ → Result (SchedulerV2 × Dict ℕ)
swap_out_group sch request_id blocks_to_swap_out = do
  g ← group_of sch request_id
  can ← can_swap_out sch.block_manager g none
  guard can runtime_error
  (m, mapping, all_swapped) ← swap_out sch.block_manager g (limit_of none) SequenceStatus.running
  guard all_swapped assertion_error
  let change : Sequence → Sequence = λ s.
      if is_status s.status SequenceStatus.running
      then record s { status = SequenceStatus.swapped }
      else s
  ok (
    record sch { block_manager = m; groups = Dict.put sch.groups request_id (map_seqs change g) },
    update blocks_to_swap_out mapping,
  )

-- SchedulerV2._preempt_by_swap
unfoldable pub preempt_by_swap : SchedulerV2 → ℕ → Dict ℕ → Result (SchedulerV2 × Dict ℕ)
preempt_by_swap sch request_id blocks_to_swap_out = do
  g ← group_of sch request_id
  seq ← first_seq g
  guard (Dict.contains sch.block_manager.block_tables seq.seq_id) assertion_error
  numbers ← get_block_table sch.block_manager seq
  guard
      (length numbers
        == token_2_block sch.block_manager (get_len seq.content - seq.content.inflight_length))
      assertion_error
  (sch', swaps) ← swap_out_group sch request_id blocks_to_swap_out
  g' ← group_of sch' request_id
  numbers' ← get_block_table sch'.block_manager seq
  let change : Sequence → Sequence =
      λ s. record s { content = all_swapped_data (length numbers') s.content }
  ok (
    record sch' {
      groups =
          Dict.put sch'.groups request_id (record g' { seqs_dict = map_first change g'.seqs_dict });
      swapped = sch'.swapped ++ request_id ∷ [];
    },
    swaps,
  )

-- SchedulerV2._swap_in, which returns the number of blocks that move.
unfoldable pub swap_in_group :
    SchedulerV2 → ℕ → Dict ℕ → ℤ → SequenceStatus → Result (SchedulerV2 × Dict ℕ × ℕ)
swap_in_group sch request_id blocks_to_swap_in max_swap_blocks status = do
  g ← group_of sch request_id
  (m, mapping) ← swap_in sch.block_manager g max_swap_blocks status
  ok (record sch { block_manager = m }, update blocks_to_swap_in mapping, length mapping)

unfoldable pub free_seq : SchedulerV2 → Sequence → Result SchedulerV2
free_seq sch seq = do m ← Eviction.free sch.block_manager seq; ok (record sch { block_manager = m })

unfoldable pub fork_seq : SchedulerV2 → Sequence → Sequence → Result SchedulerV2
fork_seq sch parent_seq child_seq = do
  m ← Allocation.fork sch.block_manager parent_seq child_seq
  ok (record sch { block_manager = m })

-- The list comprehension of free_finished_seq_groups.
unfoldable pub unfinished_queue : SchedulerV2 → List ℕ → Result (List ℕ)
unfinished_queue sch [] = ok []
unfinished_queue sch (request_id ∷ queue) = do
  g ← group_of sch request_id
  rest ← unfinished_queue sch queue
  ok (if not (group_finished g) && not (group_paused g) then request_id ∷ rest else rest)

unfoldable pub free_finished_seq_groups : SchedulerV2 → Result SchedulerV2
free_finished_seq_groups sch = do
  queue ← unfinished_queue sch sch.running
  ok (record sch { running = queue })

unfoldable pub get_num_unfinished_seq_groups : SchedulerV2 → ℕ
get_num_unfinished_seq_groups sch =
    length sch.waiting + length sch.running + length sch.swapped + length sch.paused

-- The two sums of get_num_batched_tokens, as one.
unfoldable pub get_num_batched_tokens : List SequenceGroup → Result ℕ
get_num_batched_tokens [] = ok 0
get_num_batched_tokens (g ∷ requests) = do
  seq ← first_seq g
  rest ← get_num_batched_tokens requests
  ok (seq.content.resume_discard_tokens + seq.content.running_inflight_tokens + rest)
