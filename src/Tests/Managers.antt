-- ===== src/Tests/Managers.antt =====
-- The theorems on BlockSpaceManager (vllm/core/block_manager.py) at concrete inputs.
use mars_codebase.Prelude.Dict
use mars_codebase.BlockManager.Allocation.{allocate, fork}
use mars_codebase.BlockManager.Eviction.{
  free, can_swap_out, get_physical_blocks, get_seq_blocks_by_device, reset, swap_out, tables_of,
  limit_of, can_swap_in, move_seqs, swap_in, swap_out_from_back,
}
use mars_codebase.Tests.Fixtures.{
  child, group, manager, manager-IsValid, sequence, served, served-IsValid, served-table, table,
  returned,
}
use mars_codebase.Block.{Device, PhysicalTokenBlock, cpu, gpu}
use mars_codebase.Prelude.Dict.{Dict}
use mars_codebase.Sequence.Status.{SequenceStatus}
use mars_codebase.Prelude.{
  Bool, List, [], arith, false, length, none, ok, refl, some, ℕ, ◌+◌, ◌==◌, ◌≡◌, ◌≤◌, ap, subst,
  sym, true, ◌∷◌,
}
use mars_codebase.BlockManager.Manager.{
  BlockSpaceManager, can_fulfill_blocks, get_memory_requirement, required_new_blocks,
}
use mars_codebase.BlockManager.Balance.{count, exists}
use mars_codebase.BlockManager.Memory.{allocator, num_free_blocks, allocate_on, free_on}
use mars_codebase.BlockManager.Valid.{IsValid, entry}
use mars_codebase.BlockManager.Allocating.{allocate-IsValid, discard_blocks, inflight_blocks}
use mars_codebase.BlockManager.Allocator.{new_allocator}
use mars_codebase.BlockManager.SwapMethods.{Swapped, swap_out-IsValid}
use mars_codebase.BlockManager.Sharing.{fork-IsValid}
use mars_codebase.BlockManager.Freeing.{free-IsValid, reset-IsValid}
use mars_codebase.Sequence.Data.{num_required_blocks_inflight}
use mars_codebase.BlockManager.Tables.{
  append_blocks, BlockTable, move_block, move_table, target_block,
}
use mars_codebase.BlockManager.SwapIn.{swap_in-IsValid}
use mars_codebase.BlockManager.SwapBack.{swap_out_from_back-IsValid}

allocate-IsValid_example :
    (m' : BlockSpaceManager) × (swaps' : Dict ℕ) × (allocate manager group [] ≡ ok (m', swaps'))
    × IsValid m'
    × (length (entry m'.block_tables 7)
        ≡ length (entry manager.block_tables 7)
          + discard_blocks sequence
          + inflight_blocks sequence)
    × ((k : ℕ) → (7 == k) ≡ false → Dict.get m'.block_tables k ≡ Dict.get manager.block_tables k)
    × (num_free_blocks gpu manager.memory ≤ num_free_blocks gpu m'.memory + 2)
unfolding can_fulfill_blocks get_memory_requirement num_required_blocks_inflight new_allocator
    append_blocks allocate_on
allocate-IsValid_example =
    allocate-IsValid manager group sequence 2 [] manager-IsValid refl refl refl refl refl

swap_out-IsValid_example :
    (m' : BlockSpaceManager) × (pairs : List (ℕ × ℕ)) × (all : Bool) × (swap_out served group
        (limit_of none)
        SequenceStatus.running
      ≡ ok (m', pairs, all))
    × Swapped cpu (limit_of none) served sequence m' all
unfolding can_swap_out get_seq_blocks_by_device get_physical_blocks tables_of served
    num_required_blocks_inflight new_allocator append_blocks allocate_on
swap_out-IsValid_example =
    swap_out-IsValid served group SequenceStatus.running sequence table none served-IsValid refl
      refl served-table refl

free-IsValid_example :
    (m' : BlockSpaceManager) × (free served sequence ≡ ok m')
    × IsValid m'
    × (m'.block_tables ≡ Dict.delete served.block_tables 7)
    × ((x : PhysicalTokenBlock)
        → m'.ref_count x + count x (entry served.block_tables 7) ≡ served.ref_count x)
free-IsValid_example = free-IsValid served sequence served-IsValid

reset-IsValid_example :
    (m' : BlockSpaceManager) × (reset served ≡ ok m')
    × IsValid m'
    × (m'.block_tables ≡ [])
    × ((x : PhysicalTokenBlock)
        → (m'.ref_count x ≡ 0)
          × (count x (allocator x.device m'.memory).free_blocks ≡ exists m'.memory x))
reset-IsValid_example = reset-IsValid served served-IsValid

fork-IsValid_example :
    (m' : BlockSpaceManager) × (fork served sequence child ≡ ok m')
    × IsValid m'
    × (Dict.get m'.block_tables 8 ≡ some table)
    × ((d : Device) → num_free_blocks d m'.memory ≡ num_free_blocks d served.memory)
unfolding served num_required_blocks_inflight new_allocator append_blocks allocate_on
fork-IsValid_example = fork-IsValid served sequence child table served-IsValid served-table refl

-- The manager once the table is on the CPU.
unfoldable swapped_manager : BlockSpaceManager
unfolding swap_out served
swapped_manager =
    (returned (swap_out served group (limit_of none) SequenceStatus.running) (served, [], true)).0

swapped_manager-IsValid : IsValid swapped_manager
unfolding swapped_manager can_swap_out get_seq_blocks_by_device get_physical_blocks tables_of served
    num_required_blocks_inflight new_allocator append_blocks allocate_on
swapped_manager-IsValid =
    let (m, pairs, all, e, (v, _, _, _)) =
      swap_out-IsValid served group SequenceStatus.running sequence table none served-IsValid refl
        refl served-table refl in
    subst IsValid
      (sym (
        ap (λ r. (returned {A = BlockSpaceManager × List (ℕ × ℕ) × Bool} r (served, [], true)).0)
          e))
      v

abbrev swapped_table : BlockTable
swapped_table =
    record { device = cpu; block_number = 3 } ∷ record { device = cpu; block_number = 2 } ∷ []

swap_in-IsValid_example :
    (m' : BlockSpaceManager) × (pairs : List (ℕ × ℕ)) × (all : Bool) × (swap_in swapped_manager
        group
        (limit_of none)
        SequenceStatus.running
      ≡ ok (m', pairs))
    × Swapped gpu (limit_of none) swapped_manager sequence m' all
unfolding swapped_manager move_seqs move_table move_block target_block can_swap_in
    required_new_blocks get_seq_blocks_by_device get_physical_blocks tables_of served
    num_required_blocks_inflight new_allocator append_blocks allocate_on free_on
swap_in-IsValid_example =
    swap_in-IsValid swapped_manager group SequenceStatus.running sequence swapped_table none
      swapped_manager-IsValid refl refl refl refl refl

swap_out_from_back-IsValid_example :
    (m' : BlockSpaceManager) × (swaps' : Dict ℕ) × (table' : BlockTable) × (swap_out_from_back
        served sequence 1 []
      ≡ ok (m', swaps'))
    × IsValid m'
    × (m'.block_tables ≡ Dict.put served.block_tables 7 table')
    × (length table' ≡ length table)
    × (num_free_blocks cpu served.memory ≤ num_free_blocks cpu m'.memory + 1)
unfolding served num_required_blocks_inflight new_allocator append_blocks allocate_on
swap_out_from_back-IsValid_example =
    swap_out_from_back-IsValid served sequence table 1 [] served-IsValid served-table (omega arith)
