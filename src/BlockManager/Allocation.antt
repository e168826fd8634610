-- ===== src/BlockManager/Allocation.antt =====
-- vllm/core/block_manager.py: the methods of BlockSpaceManager that allocate or share blocks.
use mars_codebase.Prelude.Dict
use mars_codebase.Prelude.Dict.{Dict}
use mars_codebase.BlockManager.Memory.{Memory, allocate_on, free_on}
use mars_codebase.Block.{PhysicalTokenBlock, gpu, is_device}
use mars_codebase.Prelude.{
  Bool, List, Option, Result, [], assertion_error, attribute_error, err, guard, if◌then◌else◌,
  index_error, last?, length, ltb, none, ok, or_raise, set_last, some, true, ℕ, ◌%◌, ◌-◌, ◌==◌,
  ◌>>=◌, ◌>>◌, ◌∷◌,
}
use mars_codebase.Sequence.Group.{SequenceGroup, first_seq, num_seqs}
use mars_codebase.BlockManager.Tables.{
  BlockTable, append_blocks, insert_blocks, move_in_place, number_mapping, share_all,
}
use mars_codebase.BlockManager.Manager.{
  BlockSpaceManager, assert_resumed, refuse_window, table_of, token_2_block,
}
use mars_codebase.Sequence.Member.{
  Sequence, num_new_blocks_for_inflight, num_new_blocks_for_resume_discard,
  num_new_blocks_for_resume_swap,
}
use mars_codebase.Prelude.Int.{pos}
use mars_codebase.Sequence.Data.{logical_query_len}

-- The three parts of allocate: for discarded tokens, for swapped blocks (with the numbers of the
-- blocks that move) and for in-flight tokens.
unfoldable pub allocate_discarded :
    BlockSpaceManager → Sequence → BlockTable → Memory → Result (BlockTable × Memory)
allocate_discarded m seq table mem =
    if ltb 0 seq.content.resume_discard_tokens
    then insert_blocks (num_new_blocks_for_resume_discard seq)
        (token_2_block m seq.content.discard_start_idx) table mem
    else ok (table, mem)

unfoldable pub allocate_swapped :
    Sequence → BlockTable → Memory → Result (BlockTable × Memory × List (ℕ × ℕ))
allocate_swapped seq table mem =
    if ltb 0 seq.content.resume_swap_blocks
    then (do
      (table', s) ← move_in_place gpu table (record {
        mapping = [];
        limit = pos (num_new_blocks_for_resume_swap seq);
        all_moved = true;
        memory = mem;
      })
      ok (table', s.memory, number_mapping s.mapping))
    else ok (table, mem, [])

unfoldable pub allocate_inflight :
    BlockSpaceManager
    → SequenceGroup
    → Sequence
    → BlockTable
    → Memory
    → Result (BlockTable × Memory)
allocate_inflight m g seq table mem =
    if ltb 0 seq.content.running_inflight_tokens
    then (do
      assert_resumed seq.content
      refuse_window m
      append_blocks (num_new_blocks_for_inflight seq) (num_seqs g) table mem)
    else ok (table, mem)

-- The table of a sequence, which allocate makes where there is none.
abbrev pub table_or_new : BlockSpaceManager → ℕ → BlockTable
table_or_new m seq_id = elim (Dict.get m.block_tables seq_id) [ none ↦ [] | some table ↦ table ]

-- dict.update
abbrev pub update : Dict ℕ → List (ℕ × ℕ) → Dict ℕ
update d [] = d
update d ((k, v) ∷ pairs) = update (Dict.put d k v) pairs

unfoldable pub allocate :
    BlockSpaceManager → SequenceGroup → Dict ℕ → Result (BlockSpaceManager × Dict ℕ)
allocate m g blocks_to_swap_in = do
  seq ← first_seq g
  (table, mem) ← allocate_discarded m seq (table_or_new m seq.seq_id) m.memory
  (table', mem', pairs) ← allocate_swapped seq table mem
  (table'', mem'') ← allocate_inflight m g seq table' mem'
  ok (
    record m { memory = mem''; block_tables = Dict.put m.block_tables seq.seq_id table'' },
    update blocks_to_swap_in pairs,
  )

unfoldable pub is_last_physical_full : Sequence → Result Bool
is_last_physical_full seq = do
  num_tks_to_cache ← logical_query_len seq.content
  last_block ← or_raise (last? seq.logical_token_blocks) index_error
  ok (num_tks_to_cache % seq.block_size == last_block.num_tokens)

-- The copy-on-write part of append_slot.
unfoldable pub copy_on_write :
    BlockTable → PhysicalTokenBlock → Memory → Result (BlockTable × Memory × Option (ℕ × ℕ))
copy_on_write table last_block mem = do
  (new_block, mem') ← allocate_on gpu mem
  mem'' ← free_on gpu mem' last_block
  ok (set_last table new_block, mem'', some (last_block.block_number, new_block.block_number))

unfoldable pub append_slot :
    BlockSpaceManager → Sequence → Result (BlockSpaceManager × Option (ℕ × ℕ))
append_slot m seq = do
  table ← table_of m seq.seq_id
  last_block ← or_raise (last? table) index_error
  guard (is_device last_block.device gpu) assertion_error
  (table', mem, pairs) ←
      if ltb 1 (m.ref_count last_block)
      then (do
        full ← is_last_physical_full seq
        if full then ok (table, m.memory, none) else copy_on_write table last_block m.memory)
      else ok (table, m.memory, none)
  refuse_window m
  (table'', mem') ← append_blocks (num_new_blocks_for_inflight seq - length table') 1 table' mem
  ok (record m { memory = mem'; block_tables = Dict.put m.block_tables seq.seq_id table'' }, pairs)

-- prepend_slot begins by reading `discard_start_idx` of the sequence, which has no such attribute.
abbrev pub prepend_slot : BlockSpaceManager → Sequence → Result BlockSpaceManager
prepend_slot m seq = err attribute_error

unfoldable pub fork : BlockSpaceManager → Sequence → Sequence → Result BlockSpaceManager
fork m parent_seq child_seq = do
  src ← table_of m parent_seq.seq_id
  ok (record m {
    memory = share_all src m.memory;
    block_tables = Dict.put m.block_tables child_seq.seq_id src;
  })
