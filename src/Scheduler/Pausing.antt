-- ===== src/Scheduler/Pausing.antt =====
-- Pausing a request for an API call, and resuming it (vllm/core/scheduler_v2.py).
use mars_codebase.Prelude.Dict
use mars_codebase.BlockManager.Eviction
use mars_codebase.Sequence.Group.{SequenceGroup, get_seqs, first_seq, group_paused}
use mars_codebase.Scheduler.State.{
  ApiPolicy, PreemptionMode, SchedulerV2, group_of, map_seqs, policy_d, policy_g, policy_h,
  policy_h_b, policy_h_d, policy_h_s, policy_p, policy_s, policy_unknown, policy_v, with_group,
}
use mars_codebase.Prelude.{
  List, Option, Result, [], attribute_error, err, if◌then◌else◌, leb, length, ltb, ok, or_raise,
  true, value_error, ℕ, ◌++◌, ◌>>=◌, ◌∷◌, some,
}
use mars_codebase.Sequence.Status.{SequenceStatus, is_status}
use mars_codebase.Sequence.Data.{SequenceData, clear_workload, get_len}
use mars_codebase.BlockManager.Eviction.{can_swap_out, get_block_table, swap_out, limit_of}
use mars_codebase.BlockManager.Manager.{BlockSpaceManager}
use mars_codebase.Sequence.Member.{Sequence}
use mars_codebase.Prelude.Dict.{Dict}
use mars_codebase.Scheduler.Waste.{classify}
use mars_codebase.BlockManager.Allocation.{update}

-- The mode that pause_seq_group chooses, from `api_policy`, `heuristic_coef` and `api_exec_time`.
unfoldable pub pause_mode : ApiPolicy → ℕ → ℕ → Result PreemptionMode
pause_mode policy_h coef exec =
    ok (if leb coef exec then PreemptionMode.swap else PreemptionMode.preserve)
pause_mode policy_h_s coef exec =
    ok (if leb 4000 exec then PreemptionMode.swap else PreemptionMode.preserve)
pause_mode policy_h_d coef exec =
    ok (if leb 7000 exec then PreemptionMode.recompute else PreemptionMode.preserve)
pause_mode policy_h_b coef exec = ok (
    if ltb exec 4000
    then PreemptionMode.preserve
    else if ltb exec 7000
    then PreemptionMode.swap
    else PreemptionMode.recompute)
pause_mode policy_g coef exec = ok PreemptionMode.preserve
pause_mode policy_d coef exec = ok PreemptionMode.recompute
pause_mode policy_s coef exec = ok PreemptionMode.swap
pause_mode policy_p coef exec = ok PreemptionMode.preserve
pause_mode policy_v coef exec = ok PreemptionMode.preserve
pause_mode policy_unknown coef exec = err value_error

-- What pause_by_recompute sets: nothing is cached, and every token is in flight.
abbrev pub all_inflight : SequenceData → SequenceData
all_inflight d = record (clear_workload d) {
  discard_start_idx = 0;
  discard_length = 0;
  swap_start_idx = 0;
  swap_length = 0;
  inflight_length = get_len d;
}

-- self.block_manager.free(seq), for the sequences one after the other
unfoldable pub free_seqs : List Sequence → BlockSpaceManager → Result BlockSpaceManager
free_seqs [] m = ok m
free_seqs (seq ∷ seqs) m = do m' ← Eviction.free m seq; free_seqs seqs m'

unfoldable pub pause_by_recompute : SchedulerV2 → ℕ → Result SchedulerV2
pause_by_recompute sch request_id = do
  g ← group_of sch request_id
  m ← free_seqs (get_seqs g) sch.block_manager
  let g' = map_seqs (λ s. record s { content = all_inflight s.content }) g
  ok (record sch {
    block_manager = m;
    groups = Dict.put sch.groups request_id (record g' { discarded = true });
    paused = Dict.put sch.paused request_id PreemptionMode.recompute;
  })

-- What pause_seq_group sets after a swap of `n` blocks.
abbrev pub all_swapped_data : ℕ → SequenceData → SequenceData
all_swapped_data n d = record (clear_workload d) {
  discard_start_idx = 0;
  discard_length = 0;
  swap_start_idx = 0;
  swap_length = n;
}

-- A change of the object get_seqs()[0].
abbrev pub map_first : (Sequence → Sequence) → Dict Sequence → Dict Sequence
map_first f [] = []
map_first f ((k, s) ∷ d) = (k, f s) ∷ d

-- The branch of pause_seq_group for the mode SWAP.
unfoldable pub pause_by_swap : SchedulerV2 → ℕ → Dict ℕ → Option ℕ → Result (SchedulerV2 × Dict ℕ)
pause_by_swap sch request_id blocks_to_swapout first_n_blocks = do
  g ← group_of sch request_id
  can ← can_swap_out sch.block_manager g first_n_blocks
  if can
      then (do
        (m, gpu_to_cpu, all_swapped) ←
            swap_out sch.block_manager g (limit_of first_n_blocks) SequenceStatus.paused_api
        seq ← first_seq g
        numbers ← get_block_table m seq
        let change : Sequence → Sequence =
            λ s. record s { content = all_swapped_data (length numbers) s.content }
        ok (
          record sch {
            block_manager = m;
            groups =
                Dict.put sch.groups request_id
                  (record g { seqs_dict = map_first change g.seqs_dict });
            paused = Dict.put sch.paused request_id PreemptionMode.swap;
          },
          update blocks_to_swapout gpu_to_cpu,
        ))
      else ok (
        record sch { paused = Dict.put sch.paused request_id PreemptionMode.preserve },
        blocks_to_swapout,
      )

-- SchedulerV2.pause_seq_group at the time `now`; no policy chooses PARTIAL.
unfoldable pub pause_seq_group :
    SchedulerV2 → ℕ → ℕ → Dict ℕ → Option ℕ → Result (SchedulerV2 × Dict ℕ)
pause_seq_group sch request_id now blocks_to_swapout first_n_blocks = do
  g ← group_of sch request_id
  let g' : SequenceGroup = record g {
    sampling_params = record g.sampling_params { api_call_time = some now };
  }
  let sch' = with_group sch request_id g'
  mode ← pause_mode sch.api_policy sch.heuristic_coef g.sampling_params.api_exec_time
  elim mode [
    | PreemptionMode.preserve ↦ ok (
      record sch' { paused = Dict.put sch.paused request_id PreemptionMode.preserve },
      blocks_to_swapout,
    )
    | PreemptionMode.recompute ↦ do
      sch'' ← pause_by_recompute sch' request_id
      ok (sch'', blocks_to_swapout)
    | PreemptionMode.partial ↦ ok (
      record sch' { paused = Dict.put sch.paused request_id PreemptionMode.partial },
      blocks_to_swapout,
    )
    | PreemptionMode.swap ↦ pause_by_swap sch' request_id blocks_to_swapout first_n_blocks
  ]

unfoldable pub get_paused_seq_group : SchedulerV2 → ℕ → Result PreemptionMode
get_paused_seq_group sch request_id = or_raise (Dict.get sch.paused request_id) value_error

-- `for seq in seq_group.get_seqs(status=RESUMED_API): seq.status = status`
abbrev pub resume_seqs : SequenceStatus → SequenceGroup → SequenceGroup
resume_seqs status g =
    map_seqs
      (λ s.
        if is_status s.status SequenceStatus.resumed_api then record s { status = status } else s)
      g

-- SchedulerV2.resume_seq_group. The mode PARTIAL appends to `self.resuming`, which is never set.
unfoldable pub resume_seq_group : SchedulerV2 → ℕ → Result SchedulerV2
resume_seq_group sch request_id = do
  mode ← get_paused_seq_group sch request_id
  g ← group_of sch request_id
  g' ← classify sch g
  let kept = with_group sch request_id g'
  let gone : SchedulerV2 = record sch { paused = Dict.delete sch.paused request_id }
  if group_paused g' then ok kept else elim mode [
    | PreemptionMode.preserve ↦ ok (
        with_group (record gone { running = sch.running ++ request_id ∷ [] }) request_id
          (resume_seqs SequenceStatus.running g'))
    | PreemptionMode.swap ↦ ok (
        with_group (record gone { swapped = sch.swapped ++ request_id ∷ [] }) request_id
          (resume_seqs SequenceStatus.swapped g'))
    | PreemptionMode.recompute ↦ ok (
        with_group (record gone { waiting = request_id ∷ sch.waiting }) request_id
          (resume_seqs SequenceStatus.waiting g'))
    | PreemptionMode.partial ↦ err attribute_error
  ]
