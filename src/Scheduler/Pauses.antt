-- ===== src/Scheduler/Pauses.antt =====
-- What a pause leaves (vllm/core/scheduler_v2.py).
use mars_codebase.Prelude.Dict
use mars_codebase.Sequence.Group.{SequenceGroup, get_seqs, get_seqs_in, get_unfinished_seqs, keep}
use mars_codebase.Prelude.{
  Bool, List, Option, [], ap, leb, length, ok, refl, some, true, ℕ, ◌++◌, ◌∙◌, ◌∷◌, ◌≡◌,
}
use mars_codebase.Prelude.Dict.{Dict}
use mars_codebase.Block.{cpu, gpu, is_device}
use mars_codebase.BlockManager.Eviction.{
  at_most, can_swap_out, get_physical_blocks, get_seq_blocks_by_device, tables_of,
}
use mars_codebase.Scheduler.State.{PreemptionMode, SchedulerV2, map_seqs}
use mars_codebase.BlockManager.Memory.{num_free_blocks}
use mars_codebase.Sequence.Status.{SequenceStatus}
use mars_codebase.BlockManager.Tables.{BlockTable}
use mars_codebase.Sequence.Member.{Sequence}
use mars_codebase.BlockManager.Freeing.{free-IsValid}
use mars_codebase.Scheduler.Pausing.{all_inflight, free_seqs, pause_by_recompute}
use mars_codebase.BlockManager.Manager.{BlockSpaceManager}
use mars_codebase.BlockManager.Valid.{IsValid}

-- The tables without those of some sequences.
abbrev pub without : List Sequence → Dict BlockTable → Dict BlockTable
without [] tables = tables
without (seq ∷ seqs) tables = without seqs (Dict.delete tables seq.seq_id)

pub free_seqs-ok :
    (seqs : List Sequence) (m : BlockSpaceManager)
    → IsValid m
    → (m' : BlockSpaceManager) × (free_seqs seqs m ≡ ok m')
      × IsValid m'
      × (m'.block_tables ≡ without seqs m.block_tables)
unfolding free_seqs
free_seqs-ok [] m v = (m, refl, v, refl)
free_seqs-ok (seq ∷ seqs) m v =
    let (m', done, v', same, _) = free-IsValid m seq v in
    let (m'', done', v'', same') = free_seqs-ok seqs m' v' in
    (m'', rw done done', v'', same' ∙ ap (without seqs) same)

-- The queues, and what is paused besides, are those of before, and the group is paused.
abbrev pub Paused : SchedulerV2 → ℕ → PreemptionMode → SchedulerV2 → Type 0
Paused sch request_id mode sch' =
    IsValid sch'.block_manager
    × (sch'.paused ≡ Dict.put sch.paused request_id mode)
    × (sch'.waiting ≡ sch.waiting)
    × (sch'.running ≡ sch.running)
    × (sch'.swapped ≡ sch.swapped)

-- pause_by_recompute returns for a valid manager and a group in the store: the manager is valid and
-- has the tables of before but those of the group's sequences, the queues are the same, and the
-- group is paused for recomputation.
pub pause_by_recompute-ok :
    (sch : SchedulerV2) (request_id : ℕ) (g : SequenceGroup)
    → IsValid sch.block_manager
    → Dict.get sch.groups request_id ≡ some g
    → (sch' : SchedulerV2) × (pause_by_recompute sch request_id ≡ ok sch')
      × Paused sch request_id PreemptionMode.recompute sch'
      × (sch'.block_manager.block_tables ≡ without (get_seqs g) sch.block_manager.block_tables)
unfolding pause_by_recompute
pause_by_recompute-ok sch request_id g v e =
    let (m, done, v', same) = free_seqs-ok (get_seqs g) sch.block_manager v in
    let g' = map_seqs (λ s. record s { content = all_inflight s.content }) g in
    (
      record sch {
        block_manager = m;
        groups = Dict.put sch.groups request_id (record g' { discarded = true });
        paused = Dict.put sch.paused request_id PreemptionMode.recompute;
      },
      rw (e, done) refl,
      (v', refl, refl, refl, refl),
      same,
    )

module _ (m : BlockSpaceManager) (g : SequenceGroup) (seq : Sequence) (table : BlockTable) where
  -- The group has one sequence, which is paused and has a table.
  pub record IsPausing : Type 0 where
    pub valid : IsValid m
    pub only : get_seqs g ≡ seq ∷ []
    pub status : seq.status ≡ SequenceStatus.paused_api
    pub held : Dict.get m.block_tables seq.seq_id ≡ some table

  pub unfinished : IsPausing → get_unfinished_seqs g ≡ seq ∷ []
  unfinished p = rw (p.only, p.status) refl

  pub paused_seqs : IsPausing → get_seqs_in SequenceStatus.paused_api g ≡ seq ∷ []
  paused_seqs p = rw (p.only, p.status) refl

  pub can_swap_out-ok :
      (first_n_blocks : Option ℕ)
      → IsPausing
      → (b : Bool) × (can_swap_out m g first_n_blocks ≡ ok b)
  unfolding can_swap_out get_seq_blocks_by_device get_physical_blocks tables_of
  can_swap_out-ok first_n_blocks p =
      let blocks = keep (λ b. is_device b.device gpu) (m.list_of_set (table ++ [])) in
      (
        leb (at_most (length blocks) first_n_blocks) (num_free_blocks cpu m.memory),
        rw (unfinished p, p.held) refl,
      )
