-- ===== src/Tests/Schedulers.antt =====
-- The theorems on SchedulerV2 (vllm/core/scheduler_v2.py) at concrete inputs.
use mars_codebase.Prelude.Dict
use mars_codebase.Prelude.Dict.{Dict}
use mars_codebase.Sequence.Group.{
  SequenceGroup, get_seqs, Strategy, group_paused, get_unfinished_seqs, group_finished,
}
use mars_codebase.BlockManager.Allocator.{new_allocator}
use mars_codebase.Tests.Fixtures.{
  content, group, sequence, served, served-IsValid, served-table, table, scheduler,
}
use mars_codebase.Prelude.{
  Bool-cases, inl, inr, arith, total, ◌+◌, ◌==◌, ◌||◌, [], attribute_error, err, false, ok, refl,
  some, true, ℕ, ◌∷◌, ◌≡◌, ◌≢◌, ◌≤◌, ◌⊎◌, length,
}
use mars_codebase.Scheduler.State.{PreemptionMode, SchedulerV2}
use mars_codebase.BlockManager.Eviction.{
  get_physical_blocks, get_seq_blocks_by_device, tables_of, can_swap_out,
}
use mars_codebase.Sequence.Member.{Sequence}
use mars_codebase.Sequence.Status.{SequenceStatus}
use mars_codebase.Scheduler.Pausing.{pause_by_recompute, resume_seq_group}
use mars_codebase.Scheduler.Waste.{
  Wastes, classify, discard_waste, predicted_wastes, running_batch, running_blocks, swap_waste,
}
use mars_codebase.Sequence.Data.{num_required_blocks_inflight}
use mars_codebase.BlockManager.Memory.{allocate_on}
use mars_codebase.Scheduler.Resuming.{Resumed, StillPaused, resume_seq_group-cases}
use mars_codebase.BlockManager.Valid.{IsValid}
use mars_codebase.Scheduler.Strategies.{classify-least, waste_of}
use mars_codebase.Scheduler.Pauses.{Paused, pause_by_recompute-ok, without}
use mars_codebase.BlockManager.Tables.{append_blocks, BlockTable}
use mars_codebase.Scheduler.Preemptions.{Restarted, preempt_by_recompute-ok}
use mars_codebase.Scheduler.Preempting.{preempt_by_recompute, preempt_by_swap}
use mars_codebase.Block.{cpu}
use mars_codebase.BlockManager.SwapTable.{pending}
use mars_codebase.Scheduler.SwapPreemption.{IsSwappable, preempt_by_swap-ok}
use mars_codebase.Scheduler.Aborting.{abort_group, abort_seq_group, mem_id}
use mars_codebase.Scheduler.Aborts.{abort_group-ok}
use mars_codebase.Scheduler.AbortAll.{IsFinished, abort_seq_group-aborts}
use mars_codebase.Scheduler.Loads.{same}

abbrev wastes : Wastes
wastes = record { w_p = 0; w_d = 14816; w_s = 7825440 }

known : predicted_wastes scheduler group ≡ ok wastes
unfolding predicted_wastes discard_waste swap_waste running_batch running_blocks
    get_seq_blocks_by_device get_physical_blocks tables_of served num_required_blocks_inflight
    new_allocator append_blocks allocate_on
known = refl

classify-least_example :
    (g' : SequenceGroup) × (classify scheduler group ≡ ok g')
    × (g'.seqs_dict ≡ group.seqs_dict)
    × (g'.sampling_params.waste ≡ waste_of wastes g'.sampling_params.strategy)
    × ((strategy : Strategy) → g'.sampling_params.waste ≤ waste_of wastes strategy)
classify-least_example = classify-least scheduler group wastes known

abbrev paused_sequence : Sequence
paused_sequence = record sequence { status = SequenceStatus.paused_api }

abbrev paused_group : SequenceGroup
paused_group = record group { seqs_dict = (7, paused_sequence) ∷ [] }

abbrev pausing : SchedulerV2
pausing = record scheduler { groups = (1, paused_group) ∷ []; running = [] }

pause_by_recompute-ok_example :
    (sch' : SchedulerV2) × (pause_by_recompute pausing 1 ≡ ok sch')
    × Paused pausing 1 PreemptionMode.recompute sch'
    × (sch'.block_manager.block_tables ≡ without (get_seqs paused_group) served.block_tables)
pause_by_recompute-ok_example = pause_by_recompute-ok pausing 1 paused_group served-IsValid refl

preempt_by_recompute-ok_example :
    (sch' : SchedulerV2) × (g' : SequenceGroup) × (seq' : Sequence) × (preempt_by_recompute
        scheduler 1
      ≡ ok sch')
    × IsValid sch'.block_manager
    × (sch'.block_manager.block_tables ≡ Dict.delete served.block_tables 7)
    × (sch'.waiting ≡ 1 ∷ [])
    × (Dict.get sch'.groups 1 ≡ some g')
    × (g'.discarded ≡ true)
    × (get_seqs g' ≡ seq' ∷ [])
    × Restarted sequence seq'
preempt_by_recompute-ok_example =
    preempt_by_recompute-ok scheduler 1 group sequence served-IsValid refl refl

-- The request after its API call returned.
abbrev resumed_group : SequenceGroup
resumed_group = record group {
  seqs_dict = (7, record sequence { status = SequenceStatus.resumed_api }) ∷ [];
}

abbrev resuming : SchedulerV2
resuming = record pausing {
  groups = (1, resumed_group) ∷ [];
  paused = (1, PreemptionMode.swap) ∷ [];
}

abbrev idle_wastes : Wastes
idle_wastes = record { w_p = 0; w_d = 7408; w_s = 3680160 }

resumed_known : predicted_wastes resuming resumed_group ≡ ok idle_wastes
unfolding predicted_wastes discard_waste swap_waste running_batch running_blocks served
    num_required_blocks_inflight new_allocator append_blocks allocate_on
resumed_known = refl

resume_seq_group-cases_example :
    ((group_paused resumed_group ≡ true)
      × (sch' : SchedulerV2) × (resume_seq_group resuming 1 ≡ ok sch')
      × StillPaused resuming sch')
    ⊎ ((group_paused resumed_group ≡ false)
        × (PreemptionMode.swap ≢ PreemptionMode.partial)
        × (sch' : SchedulerV2) × (resume_seq_group resuming 1 ≡ ok sch')
        × Resumed resuming 1 PreemptionMode.swap sch')
    ⊎ ((group_paused resumed_group ≡ false)
        × (PreemptionMode.swap ≡ PreemptionMode.partial)
        × (resume_seq_group resuming 1 ≡ err attribute_error))
resume_seq_group-cases_example =
    resume_seq_group-cases resuming 1 resumed_group idle_wastes PreemptionMode.swap refl refl
      resumed_known

-- The sequence once its prompt is cached.
abbrev cached_sequence : Sequence
cached_sequence = record sequence {
  content = record content { inflight_length = 0; running_inflight_tokens = 0 };
}

abbrev cached_group : SequenceGroup
cached_group = record group { seqs_dict = (7, cached_sequence) ∷ [] }

abbrev preempting : SchedulerV2
preempting = record scheduler { groups = (1, cached_group) ∷ [] }

cached_group-IsSwappable : IsSwappable preempting 1 cached_group cached_sequence table
unfolding can_swap_out get_seq_blocks_by_device get_physical_blocks tables_of served
    num_required_blocks_inflight new_allocator append_blocks allocate_on
cached_group-IsSwappable = record {
  valid = served-IsValid;
  stored = refl;
  only = refl;
  runs = refl;
  held = served-table;
  can = refl;
}

preempt_by_swap-ok_example :
    (sch' : SchedulerV2) × (swaps' : Dict ℕ) × (table' : BlockTable) × (g' : SequenceGroup)
    × (preempt_by_swap preempting 1 [] ≡ ok (sch', swaps'))
    × IsValid sch'.block_manager
    × (Dict.get sch'.block_manager.block_tables 7 ≡ some table')
    × (length table' ≡ 2)
    × (pending cpu table' ≡ 0)
    × (sch'.swapped ≡ 1 ∷ [])
    × (Dict.get sch'.groups 1 ≡ some g')
    × (get_seqs g'
        ≡ record cached_sequence {
          status = SequenceStatus.swapped;
          content = record cached_sequence.content {
            discard_start_idx = 0;
            discard_length = 0;
            swap_start_idx = 0;
            swap_length = 2;
            resume_discard_tokens = 0;
            resume_swap_blocks = 0;
            running_inflight_tokens = 0;
          };
        }
          ∷ [])
unfolding served append_blocks num_required_blocks_inflight allocate_on new_allocator
preempt_by_swap-ok_example =
    preempt_by_swap-ok preempting 1 cached_group cached_sequence table [] cached_group-IsSwappable
      refl

abort_group-ok_example :
    (sch' : SchedulerV2) × (g' : SequenceGroup) × (abort_group scheduler 1 ≡ ok sch')
    × IsValid sch'.block_manager
    × (sch'.block_manager.block_tables ≡ without (get_unfinished_seqs group) served.block_tables)
    × (sch'.groups ≡ Dict.put scheduler.groups 1 g')
    × (group_finished g' ≡ true)
abort_group-ok_example = abort_group-ok scheduler 1 group served-IsValid refl

no_id_twice :
    (j : ℕ)
    → total (same j) scheduler.waiting
        + total (same j) scheduler.running
        + total (same j) scheduler.swapped
      ≤ 1
no_id_twice j = elim (Bool-cases (j == 1)) [
  | inl e ↦ rw e (omega arith)
  | inr e ↦ rw e (omega arith)
]

abort_seq_group-aborts_example :
    (sch' : SchedulerV2) × (abort_seq_group scheduler (1 ∷ 1 ∷ []) ≡ ok sch')
    × IsValid sch'.block_manager
    × (sch'.waiting ≡ [])
    × (sch'.running ≡ [])
    × (sch'.swapped ≡ [])
    × ((j : ℕ)
        → mem_id j (1 ∷ 1 ∷ []) ≡ true
        → (mem_id j [] || mem_id j (1 ∷ []) || mem_id j []) ≡ true
        → IsFinished sch'.groups j)
    × ((j : ℕ)
        → mem_id j (1 ∷ 1 ∷ []) ≡ false
        → Dict.get sch'.groups j ≡ Dict.get scheduler.groups j)
abort_seq_group-aborts_example =
    abort_seq_group-aborts scheduler (1 ∷ 1 ∷ []) served-IsValid tt ((group, refl), tt) tt
      no_id_twice
