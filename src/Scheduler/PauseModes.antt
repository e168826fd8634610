-- ===== src/Scheduler/PauseModes.antt =====
-- pause_seq_group in every mode (vllm/core/scheduler_v2.py).
use mars_codebase.Prelude.Dict
use mars_codebase.Sequence.Group.{SequenceGroup}
use mars_codebase.Prelude.{
  Option, false, inl, inr, length, map, ok, refl, some, true, ℕ, ◌≡◌, ◌⊎◌, ==_refl, Bool, sym, ◌∙◌,
}
use mars_codebase.BlockManager.Eviction.{
  can_swap_out, get_block_table, get_physical_blocks, get_seq_blocks_by_device,
}
use mars_codebase.Scheduler.Pausing.{
  all_swapped_data, map_first, pause_by_swap, pause_mode, pause_seq_group,
}
use mars_codebase.Sequence.Member.{Sequence}
use mars_codebase.Scheduler.Pauses.{
  IsPausing, Paused, can_swap_out-ok, paused_seqs, unfinished, pause_by_recompute-ok,
}
use mars_codebase.Scheduler.State.{PreemptionMode, SchedulerV2, with_group}
use mars_codebase.Sequence.Status.{SequenceStatus}
use mars_codebase.BlockManager.Allocation.{update}
use mars_codebase.BlockManager.Tables.{BlockTable}
use mars_codebase.BlockManager.SwapMethods.{swap_out-IsValid}
use mars_codebase.Prelude.Dict.{Dict}
use mars_codebase.BlockManager.Manager.{BlockSpaceManager}

-- What a pause in a mode leaves: where a swap is refused, the blocks are kept.
abbrev pub PausedIn :
    SchedulerV2 → ℕ → SequenceGroup → Option ℕ → PreemptionMode → SchedulerV2 → Type 0
PausedIn sch request_id g first_n_blocks mode sch' =
    Paused sch request_id mode sch'
    ⊎ (mode ≡ PreemptionMode.swap)
      × (can_swap_out sch.block_manager g first_n_blocks ≡ ok false)
      × Paused sch request_id PreemptionMode.preserve sch'

module _ (sch : SchedulerV2) (request_id : ℕ) (g : SequenceGroup) (seq : Sequence)
    (table : BlockTable) (swaps : Dict ℕ) (first_n_blocks : Option ℕ) where
  pause_by_swap-ok :
      IsPausing sch.block_manager g seq table
      → Dict.get sch.groups request_id ≡ some g
      → (sch' : SchedulerV2) × (swaps' : Dict ℕ) × (pause_by_swap sch request_id swaps
            first_n_blocks
          ≡ ok (sch', swaps'))
        × PausedIn sch request_id g first_n_blocks PreemptionMode.swap sch'
  unfolding pause_by_swap get_block_table
  pause_by_swap-ok p e =
      let (b, can) = can_swap_out-ok sch.block_manager g seq table first_n_blocks p in by_test b can
    where
      by_test :
          (b : Bool)
          → can_swap_out sch.block_manager g first_n_blocks ≡ ok b
          → (sch' : SchedulerV2) × (swaps' : Dict ℕ) × (pause_by_swap sch request_id swaps
                first_n_blocks
              ≡ ok (sch', swaps'))
            × PausedIn sch request_id g first_n_blocks PreemptionMode.swap sch'
      by_test false can = (
        record sch { paused = Dict.put sch.paused request_id PreemptionMode.preserve },
        swaps,
        rw (e, can) refl,
        inr (refl, can, (p.valid, refl, refl, refl, refl)),
      )
      by_test true can =
          let (m, pairs, all, done, (v, (table', there, _), _, _)) =
            swap_out-IsValid sch.block_manager g SequenceStatus.paused_api seq table first_n_blocks
              p.valid (unfinished sch.block_manager g seq table p)
              (paused_seqs sch.block_manager g seq table p) p.held can in
          let numbers = map (λ b. b.block_number) table' in
          let change : Sequence → Sequence =
            λ s. record s { content = all_swapped_data (length numbers) s.content } in
          (
            record sch {
              block_manager = m;
              groups =
                  Dict.put sch.groups request_id
                    (record g { seqs_dict = map_first change g.seqs_dict });
              paused = Dict.put sch.paused request_id PreemptionMode.swap;
            },
            update swaps pairs,
            rw (e, can, done, p.only, there) refl,
            inl (v, refl, refl, refl, refl),
          )

-- The group after the time of the call is set, which is in the store.
abbrev called : ℕ → SequenceGroup → SequenceGroup
called now g = record g { sampling_params = record g.sampling_params { api_call_time = some now } }

can_swap_out-called :
    (m : BlockSpaceManager) (now : ℕ) (g : SequenceGroup) (first_n_blocks : Option ℕ)
    → can_swap_out m (called now g) first_n_blocks ≡ can_swap_out m g first_n_blocks
unfolding can_swap_out get_seq_blocks_by_device get_physical_blocks
can_swap_out-called m now g first_n_blocks = refl

stored :
    (sch : SchedulerV2) (request_id now : ℕ) (g : SequenceGroup)
    → Dict.get (with_group sch request_id (called now g)).groups request_id ≡ some (called now g)
stored sch request_id now g =
    rw (Dict.get-put sch.groups request_id request_id (called now g), ==_refl request_id) refl

pub pause_seq_group-ok :
    (sch : SchedulerV2) (request_id now : ℕ) (g : SequenceGroup) (seq : Sequence)
    (table : BlockTable) (swaps : Dict ℕ) (first_n_blocks : Option ℕ) (mode : PreemptionMode)
    → IsPausing sch.block_manager g seq table
    → Dict.get sch.groups request_id ≡ some g
    → pause_mode sch.api_policy sch.heuristic_coef g.sampling_params.api_exec_time ≡ ok mode
    → (sch' : SchedulerV2) × (swaps' : Dict ℕ) × (pause_seq_group sch request_id now swaps
          first_n_blocks
        ≡ ok (sch', swaps'))
      × PausedIn sch request_id g first_n_blocks mode sch'
unfolding pause_seq_group
pause_seq_group-ok sch id now g seq table swaps first_n PreemptionMode.preserve p e c = (
  record (with_group sch id (called now g)) {
    paused = Dict.put sch.paused id PreemptionMode.preserve;
  },
  swaps,
  rw (e, c) refl,
  inl (p.valid, refl, refl, refl, refl),
)
pause_seq_group-ok sch id now g seq table swaps first_n PreemptionMode.partial p e c = (
  record (with_group sch id (called now g)) {
    paused = Dict.put sch.paused id PreemptionMode.partial;
  },
  swaps,
  rw (e, c) refl,
  inl (p.valid, refl, refl, refl, refl),
)
pause_seq_group-ok sch id now g seq table swaps first_n PreemptionMode.recompute p e c =
    let (sch', done, left, _) =
      pause_by_recompute-ok (with_group sch id (called now g)) id (called now g) p.valid
        (stored sch id now g) in
    (sch', swaps, rw (e, c, done) refl, inl left)
pause_seq_group-ok sch id now g seq table swaps first_n PreemptionMode.swap p e c =
    let p' : IsPausing sch.block_manager (called now g) seq table = record {
      valid = p.valid;
      only = p.only;
      status = p.status;
      held = p.held;
    } in
    let (sch', swaps', done, left) =
      pause_by_swap-ok (with_group sch id (called now g)) id (called now g) seq table swaps first_n
        p' (stored sch id now g) in
    (sch', swaps', rw (e, c, done) refl, refused sch' left)
  where
    refused :
        (sch' : SchedulerV2)
        → PausedIn
            (with_group sch id (called now g))
            id
            (called now g)
            first_n
            PreemptionMode.swap
            sch'
        → PausedIn sch id g first_n PreemptionMode.swap sch'
    refused s (inl left) = inl left
    refused s (inr (m, can, left)) =
        inr (m, sym (can_swap_out-called sch.block_manager now g first_n) ∙ can, left)
