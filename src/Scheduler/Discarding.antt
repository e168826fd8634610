-- ===== src/Scheduler/Discarding.antt =====
-- vllm/core/scheduler_v2.py: passive_discard_by_order, which makes room on the GPU. A list that the
-- code pops from its end is walked from its end: it is given reversed.
use mars_codebase.Prelude.Dict
use mars_codebase.Prelude.Dict.{Dict}
use mars_codebase.Sequence.Group.{SequenceGroup, first_seq}
use mathlib.Core.List.{reverse}
use mars_codebase.Prelude.{
  ok, Bool, List, Result, [], false, guard, if◌then◌else◌, leb, length, ltb, map, min, true,
  value_error, ℕ, ◌++◌, ◌-◌, ◌>>=◌, ◌>>◌, ◌∷◌,
}
use mars_codebase.Scheduler.State.{PreemptionMode, SchedulerV2, group_of}
use mars_codebase.Scheduler.Preempting.{preempt_by_recompute}
use mars_codebase.Block.{cpu, gpu}
use mars_codebase.Policy.{predicted_api_remaining_time}
use mars_codebase.BlockManager.Eviction.{get_seq_blocks_by_device}
use mars_codebase.Sorting.{sort_by}
use mars_codebase.Scheduler.Pausing.{pause_by_recompute}
use mars_codebase.Scheduler.Aborting.{mem_id, remove_id}
use mars_codebase.BlockManager.Memory.{num_free_blocks}

-- `if request_id not in self.paused: self._preempt_by_recompute(...)`, else pause_by_recompute
unfoldable pub discard_victim : SchedulerV2 → ℕ → Result SchedulerV2
discard_victim sch i =
    if Dict.contains sch.paused i then pause_by_recompute sch i else preempt_by_recompute sch i

-- The same for a group that is swapped, which leaves the queue first.
unfoldable pub discard_swapped : SchedulerV2 → ℕ → Result SchedulerV2
discard_swapped sch i = if Dict.contains sch.paused i then pause_by_recompute sch i else (do
  guard (mem_id i sch.swapped) value_error
  preempt_by_recompute (record sch { swapped = remove_id i sch.swapped }) i)

-- The inner loop: swapped groups are discarded until the CPU has `n` free blocks.
unfoldable pub make_cpu_room : ℕ → List ℕ → SchedulerV2 → Result (List ℕ × SchedulerV2)
make_cpu_room n [] sch = ok ([], sch)
make_cpu_room n (i ∷ queue) sch = elim (ltb (num_free_blocks cpu sch.block_manager.memory) n) [
  | true ↦ do sch' ← discard_swapped sch i; make_cpu_room n queue sch'
  | false ↦ ok (i ∷ queue, sch)
]

-- What the outer loop changes: the victims that are left, from the last to the first, the swapped
-- groups that are left, the preempted ones, and the scheduler.
pub record Discards : Type 0 where
  pub victims : List ℕ
  pub swapped_list : List ℕ
  pub preempted : List ℕ
  pub scheduler : SchedulerV2

-- One round of it, on the last victim, which is popped.
unfoldable pub discard_round : ℕ → ℕ → Discards → Result (ℕ × Discards)
discard_round required i d = do
  g ← group_of d.scheduler i
  blocks ← get_seq_blocks_by_device d.scheduler.block_manager g gpu
  guard (ltb 0 (length blocks)) value_error
  seq ← first_seq g
  (queue, sch) ← make_cpu_room (min (length blocks) required) d.swapped_list d.scheduler
  sch' ← discard_victim sch i
  ok (
    required - length blocks,
    record d { swapped_list = queue; preempted = d.preempted ++ i ∷ []; scheduler = sch' },
  )

unfoldable pub discard_rounds : ℕ → List ℕ → Discards → Result Discards
discard_rounds required [] d = ok (record d { victims = [] })
discard_rounds required (i ∷ rest) d = elim (ltb 0 required) [
  | true ↦ do (required', d') ← discard_round required i d; discard_rounds required' rest d'
  | false ↦ ok (record d { victims = i ∷ rest })
]

-- The groups that are paused in a mode, with their names.
unfoldable pub paused_in :
    (PreemptionMode → Bool) → SchedulerV2 → Dict PreemptionMode → Result (List (ℕ × SequenceGroup))
paused_in test sch [] = ok []
paused_in test sch ((i, mode) ∷ rest) = do
  g ← group_of sch i
  groups ← paused_in test sch rest
  ok (if test mode then (i, g) ∷ groups else groups)

abbrev pub is_swap : PreemptionMode → Bool
is_swap PreemptionMode.swap = true
is_swap _ = false

abbrev pub is_preserve : PreemptionMode → Bool
is_preserve PreemptionMode.preserve = true
is_preserve _ = false

-- The keys `predicted_api_remaining_time(now)`.
unfoldable pub with_remaining : ℕ → List (ℕ × SequenceGroup) → Result (List (ℕ × ℕ))
with_remaining now [] = ok []
with_remaining now ((i, g) ∷ groups) = do
  remaining ← predicted_api_remaining_time now g
  rest ← with_remaining now groups
  ok ((remaining, i) ∷ rest)

-- `swapped_discard_list`, from its first to its last group.
unfoldable pub swapped_discard_list : SchedulerV2 → ℕ → Result (List ℕ)
swapped_discard_list sch now = do
  groups ← paused_in is_swap sch sch.paused
  keyed ← with_remaining now groups
  ok (sch.swapped ++ map (λ (p : ℕ × ℕ). p.1) (sort_by (λ p q. leb p.0 q.0) keyed))

-- passive_discard_by_order, on the victims from the last to the first; it returns 0 blocks that are
-- swapped out, and leaves `blocks_to_swap_out` alone.
unfoldable pub passive_discard_by_order : SchedulerV2 → ℕ → List ℕ → List ℕ → ℕ → Result Discards
passive_discard_by_order sch required_blocks victims preempted now = do
  queue ← swapped_discard_list sch now
  discard_rounds required_blocks victims (record {
    victims = victims;
    swapped_list = reverse queue;
    preempted = preempted;
    scheduler = sch;
  })
