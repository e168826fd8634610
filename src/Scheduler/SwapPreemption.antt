-- ===== src/Scheduler/SwapPreemption.antt =====
-- _preempt_by_swap (vllm/core/scheduler_v2.py).
use mars_codebase.Prelude.Dict
use mars_codebase.Prelude.{map}
use mars_codebase.Sequence.Group.{SequenceGroup, get_seqs, values}
use mars_codebase.Prelude.{
  [], ap, arith, if◌then◌else◌, length, none, ok, refl, some, sym, true, ℕ, ◌∙◌, ◌∷◌, ◌≡◌, ==_refl,
  suc, ◌++◌, ◌-◌,
}
use mars_codebase.BlockManager.Moves.{away}
use mars_codebase.BlockManager.Eviction.{can_swap_out, get_block_table}
use mars_codebase.BlockManager.Allocation.{update}
use mars_codebase.BlockManager.Valid.{IsValid, entry-some}
use mars_codebase.BlockManager.SwapMethods.{swap_out-IsValid}
use mars_codebase.Scheduler.State.{SchedulerV2, map_seqs}
use mars_codebase.BlockManager.Tables.{BlockTable}
use mars_codebase.BlockManager.SwapTable.{pending}
use mars_codebase.Sequence.Status.{SequenceStatus, is_status}
use mars_codebase.Prelude.Dict.{Dict}
use mars_codebase.Block.{cpu, PhysicalTokenBlock}
use mars_codebase.Sequence.Member.{Sequence}
use mars_codebase.Scheduler.Preempting.{swap_out_group, preempt_by_swap}
use mars_codebase.BlockManager.Manager.{BlockSpaceManager, token_2_block}
use mars_codebase.Sequence.Data.{clear_workload, get_len}
use mars_codebase.Scheduler.Pausing.{all_swapped_data, map_first}
use mars_codebase.Scheduler.Preemptions.{values-map_values}

module _ (sch : SchedulerV2) (request_id : ℕ) (g : SequenceGroup) (seq : Sequence)
    (table : BlockTable) where
  -- The group has one sequence, which runs and has a table, in a valid manager that can swap it out.
  pub record IsSwappable : Type 0 where
    pub valid : IsValid sch.block_manager
    pub stored : Dict.get sch.groups request_id ≡ some g
    pub only : get_seqs g ≡ seq ∷ []
    pub runs : seq.status ≡ SequenceStatus.running
    pub held : Dict.get sch.block_manager.block_tables seq.seq_id ≡ some table
    pub can : can_swap_out sch.block_manager g none ≡ ok true

  -- The group once its running sequences are swapped.
  abbrev swapped_group : SequenceGroup
  swapped_group =
      map_seqs
        (λ s.
          if is_status s.status SequenceStatus.running
          then record s { status = SequenceStatus.swapped }
          else s)
        g

  swap_out_group-ok :
      (swaps : Dict ℕ)
      → IsSwappable
      → (m : BlockSpaceManager) × (swaps' : Dict ℕ) × (table' : BlockTable) × (swap_out_group sch
            request_id swaps
          ≡ ok (
            record sch { block_manager = m; groups = Dict.put sch.groups request_id swapped_group },
            swaps',
          ))
        × IsValid m
        × (Dict.get m.block_tables seq.seq_id ≡ some table')
        × (length table' ≡ length table)
        × (pending cpu table' ≡ 0)
  unfolding swap_out_group
  swap_out_group-ok swaps p =
      let (m, pairs, all, done, (v, (table', there, len), _, moved)) =
        swap_out-IsValid sch.block_manager g SequenceStatus.running seq table none p.valid
          (rw (p.only, p.runs) refl) (rw (p.only, p.runs) refl) p.held p.can in
      let (away, every) = moved tt in
      (
        m,
        update swaps pairs,
        table',
        rw (p.stored, p.can, done, every) refl,
        v,
        there,
        omega (
          arith,
          len,
          ap length (entry-some sch.block_manager.block_tables seq.seq_id table p.held),
        ),
        ap (pending cpu) (sym (entry-some m.block_tables seq.seq_id table' there)) ∙ away,
      )

length-numbers :
    (table : BlockTable)
    → length (map (λ (b : PhysicalTokenBlock). b.block_number) table) ≡ length table
length-numbers [] = refl
length-numbers (b ∷ table) = ap suc (length-numbers table)

values-map_first :
    (f : Sequence → Sequence) (d : Dict Sequence) (s : Sequence)
    → values d ≡ s ∷ []
    → values (map_first f d) ≡ f s ∷ []
values-map_first f [] s h = cc
values-map_first f ((k, t) ∷ d) s h = cc

-- A group with one sequence, which runs and has a table for all its cached tokens, in a scheduler
-- whose valid manager can swap it out: preempt_by_swap returns, the manager is valid, the whole table,
-- as long as before, is on the CPU, the group is at the end of the swapped queue, and its sequence is
-- swapped, with the length of the table as its swap length.
pub preempt_by_swap-ok :
    (sch : SchedulerV2) (request_id : ℕ) (g : SequenceGroup) (seq : Sequence) (table : BlockTable)
    (swaps : Dict ℕ)
    → IsSwappable sch request_id g seq table
    → length table
      ≡ token_2_block sch.block_manager (get_len seq.content - seq.content.inflight_length)
    → (sch' : SchedulerV2) × (swaps' : Dict ℕ) × (table' : BlockTable) × (g' : SequenceGroup)
      × (preempt_by_swap sch request_id swaps ≡ ok (sch', swaps'))
      × IsValid sch'.block_manager
      × (Dict.get sch'.block_manager.block_tables seq.seq_id ≡ some table')
      × (length table' ≡ length table)
      × (pending cpu table' ≡ 0)
      × (sch'.swapped ≡ sch.swapped ++ request_id ∷ [])
      × (Dict.get sch'.groups request_id ≡ some g')
      × (get_seqs g'
          ≡ record seq {
            status = SequenceStatus.swapped;
            content = record seq.content {
              discard_start_idx = 0;
              discard_length = 0;
              swap_start_idx = 0;
              swap_length = length table;
              resume_discard_tokens = 0;
              resume_swap_blocks = 0;
              running_inflight_tokens = 0;
            };
          }
            ∷ [])
unfolding preempt_by_swap get_block_table clear_workload
preempt_by_swap-ok sch request_id g seq table swaps p size =
    let (m, swaps', table', done, v, there, len, away) =
      swap_out_group-ok sch request_id g seq table swaps p in
    let present : Dict.contains sch.block_manager.block_tables seq.seq_id ≡ true =
      rw (p.held, Dict.contains) refl in
    let g1 = swapped_group sch request_id g seq table in
    let numbers = map (λ (b : PhysicalTokenBlock). b.block_number) table' in
    let change : Sequence → Sequence =
      λ s. record s { content = all_swapped_data (length numbers) s.content } in
    let g' : SequenceGroup = record g1 { seqs_dict = map_first change g1.seqs_dict } in
    (
      record sch {
        block_manager = m;
        groups = Dict.put (Dict.put sch.groups request_id g1) request_id g';
        swapped = sch.swapped ++ request_id ∷ [];
      },
      swaps',
      table',
      g',
      rw
          (
            p.stored,
            p.only,
            present,
            p.held,
            length-numbers table,
            sym size,
            ==_refl (length table),
            done,
            Dict.get-put sch.groups request_id request_id g1,
            ==_refl request_id,
            there,
          )
          refl,
      v,
      there,
      len,
      away,
      refl,
      rw
          (
            Dict.get-put (Dict.put sch.groups request_id g1) request_id request_id g',
            ==_refl request_id,
          )
          refl,
      values-map_first change g1.seqs_dict (record seq { status = SequenceStatus.swapped })
            (rw (values-map_values, p.only, p.runs) refl)
          ∙ rw (length-numbers table', len) refl,
    )
