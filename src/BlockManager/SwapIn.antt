-- ===== src/BlockManager/SwapIn.antt =====
-- swap_in (vllm/core/block_manager.py) for a group with one sequence, behind can_swap_in.
use mars_codebase.Prelude.Dict
use mars_codebase.Prelude.{
  Bool, List, Option, [], arith, leb→le, length, le→leb, none, ok, some, true, ℕ, ◌++◌, ◌+◌, ◌-◌,
  ◌∙◌, ◌∷◌, ◌≡◌, ◌≤◌,
}
use mars_codebase.BlockManager.Eviction.{
  at_most, can_swap_in, get_physical_blocks, get_seq_blocks_by_device, swap_in, tables_of, limit_of,
}
use mars_codebase.Block.{cpu, gpu, is_device}
use mars_codebase.BlockManager.Valid.{IsValid}
use mars_codebase.Sequence.Member.{Sequence}
use mars_codebase.BlockManager.SwapMethods.{
  Swapped, at_most_room, ok_injective, pending_listing, swap_loop,
}
use mars_codebase.Sequence.Group.{SequenceGroup, get_seqs, get_seqs_in, get_unfinished_seqs, keep}
use mars_codebase.BlockManager.Manager.{BlockSpaceManager, leaves_watermark, required_new_blocks}
use mars_codebase.BlockManager.SameBlocks.{length-keep}
use mars_codebase.Prelude.Dict.{Dict}
use mars_codebase.BlockManager.Memory.{num_free_blocks}
use mars_codebase.BlockManager.Tables.{BlockTable, number_mapping}
use mars_codebase.Sequence.Status.{SequenceStatus}
use mars_codebase.BlockManager.SwapTable.{pending}
use mars_codebase.BlockManager.Moves.{allowance}

-- The blocks that can_swap_in counts, for a group whose only unfinished sequence is `seq`.
can_swap_in_room :
    (m : BlockSpaceManager) (g : SequenceGroup) (seq : Sequence) (table : BlockTable)
    (max_swap_blocks : Option ℕ)
    → IsValid m
    → get_unfinished_seqs g ≡ seq ∷ []
    → get_seqs g ≡ seq ∷ []
    → Dict.get m.block_tables seq.seq_id ≡ some table
    → can_swap_in m g max_swap_blocks none ≡ ok true
    → allowance (limit_of max_swap_blocks) (pending gpu table) ≤ num_free_blocks gpu m.memory
unfolding can_swap_in required_new_blocks get_seq_blocks_by_device get_physical_blocks tables_of
can_swap_in_room m g seq table max_swap_blocks v only alone e can =
    let blocks = m.list_of_set (table ++ []) in
    let n = length (keep (λ b. is_device b.device cpu) blocks) in
    let more = length seq.logical_token_blocks - length table in
    let same : pending gpu blocks ≡ pending gpu table = pending_listing gpu m seq table v e in
    let test : ok (leaves_watermark m (at_most n max_swap_blocks + more)) ≡ ok true =
      rw (only, alone, e) at can in
    let room =
      leb→le (m.watermark_blocks + (at_most n max_swap_blocks + more))
        (num_free_blocks gpu m.memory) (ok_injective test) in
    at_most_room max_swap_blocks n (pending gpu table) (num_free_blocks gpu m.memory)
      (length-keep gpu blocks ∙ same) (le→leb _ _ (omega (arith, room)))

-- Where can_swap_in allows it, given no number of in-flight tokens, swap_in returns, for a valid
-- manager and a group whose only sequence is unfinished and has the status: it leaves a valid manager, a table
-- as long as before and the tables of the other sequences, and with no limit the whole table is then
-- on the GPU.
pub swap_in-IsValid :
    (m : BlockSpaceManager) (g : SequenceGroup) (status : SequenceStatus) (seq : Sequence)
    (table : BlockTable) (max_swap_blocks : Option ℕ)
    → IsValid m
    → get_seqs g ≡ seq ∷ []
    → get_unfinished_seqs g ≡ seq ∷ []
    → get_seqs_in status g ≡ seq ∷ []
    → Dict.get m.block_tables seq.seq_id ≡ some table
    → can_swap_in m g max_swap_blocks none ≡ ok true
    → (m' : BlockSpaceManager) × (pairs : List (ℕ × ℕ)) × (all : Bool) × (swap_in m g
          (limit_of max_swap_blocks)
          status
        ≡ ok (m', pairs))
      × Swapped gpu (limit_of max_swap_blocks) m seq m' all
unfolding swap_in
swap_in-IsValid m g status seq table max_swap_blocks v alone only chosen e can =
    let (tables, s, done, result) =
      swap_loop gpu (limit_of max_swap_blocks) m seq table v e
        (can_swap_in_room m g seq table max_swap_blocks v only alone e can) in
    (
      record m { memory = s.memory; block_tables = tables },
      number_mapping s.mapping,
      s.all_moved,
      rw (chosen, done),
      result,
    )
