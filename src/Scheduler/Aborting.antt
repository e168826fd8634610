-- ===== src/Scheduler/Aborting.antt =====
-- SchedulerV2.abort_seq_group (vllm/core/scheduler_v2.py).
use mars_codebase.Prelude.Dict
use mars_codebase.Sequence.Group.{get_unfinished_seqs, keep}
use mathlib.Core.List.{reverse}
use mars_codebase.Prelude.{
  Bool, List, Result, [], false, if◌then◌else◌, not, ok, true, ℕ, ◌==◌, ◌>>=◌, ◌||◌, ◌∷◌,
}
use mars_codebase.Sequence.Status.{SequenceStatus, is_finished}
use mars_codebase.Scheduler.State.{SchedulerV2, group_of, map_seqs}
use mars_codebase.Scheduler.Pausing.{free_seqs}
use mars_codebase.Prelude.Dict.{Dict}
use mars_codebase.Sequence.Member.{Sequence}

-- request_id in ids
abbrev pub mem_id : ℕ → List ℕ → Bool
mem_id i [] = false
mem_id i (j ∷ ids) = i == j || mem_id i ids

-- queue.remove(seq_group), which takes the first one.
abbrev pub remove_id : ℕ → List ℕ → List ℕ
remove_id i [] = []
remove_id i (j ∷ ids) = if i == j then ids else j ∷ remove_id i ids

-- request_ids.remove(request_id). A list stands for the set of what is in it.
abbrev pub discard_id : ℕ → List ℕ → List ℕ
discard_id i ids = keep (λ j. not (i == j)) ids

-- The status that the loop over the sequences sets.
abbrev pub aborted : Sequence → Sequence
aborted s =
    if is_finished s.status then s else record s { status = SequenceStatus.finished_aborted }

-- The loop over the sequences of a group.
unfoldable pub abort_group : SchedulerV2 → ℕ → Result SchedulerV2
abort_group sch request_id = do
  g ← group_of sch request_id
  m ← free_seqs (get_unfinished_seqs g) sch.block_manager
  ok (record sch {
    block_manager = m;
    groups = Dict.put sch.groups request_id (map_seqs aborted g);
  })

-- The loop over a queue: the ids still to be visited, those still to be aborted, and the queue. Once
-- no id is left to be aborted, the rest of the loop does nothing, as the code's return.
unfoldable pub abort_queue :
    List ℕ → List ℕ → List ℕ → SchedulerV2 → Result (List ℕ × List ℕ × SchedulerV2)
abort_queue [] ids queue sch = ok (ids, queue, sch)
abort_queue (i ∷ rest) ids queue sch = elim (mem_id i ids) [
  | true ↦ do sch' ← abort_group sch i; abort_queue rest (discard_id i ids) (remove_id i queue) sch'
  | false ↦ abort_queue rest ids queue sch
]

unfoldable pub abort_seq_group : SchedulerV2 → List ℕ → Result SchedulerV2
abort_seq_group sch request_ids = do
  (ids, queue1, sch1) ← abort_queue (reverse sch.waiting) request_ids sch.waiting sch
  (ids', queue2, sch2) ← abort_queue (reverse sch.running) ids sch.running sch1
  (_, queue3, sch3) ← abort_queue (reverse sch.swapped) ids' sch.swapped sch2
  ok (record sch3 { waiting = queue1; running = queue2; swapped = queue3 })
