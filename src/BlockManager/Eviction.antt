-- ===== src/BlockManager/Eviction.antt =====
-- vllm/core/block_manager.py: the methods of BlockSpaceManager that swap and free blocks.
use mars_codebase.Prelude.Dict
use mars_codebase.Prelude.Dict.{Dict}
use mars_codebase.BlockManager.Tables.{
  BlockTable, Moves, free_all, move_in_place, move_table, number_mapping,
}
use mars_codebase.Sequence.Group.{SequenceGroup, get_seqs_in, get_unfinished_seqs, keep}
use mars_codebase.Block.{Device, PhysicalTokenBlock, cpu, gpu, is_device, is_same}
use mars_codebase.Sequence.Status.{SequenceStatus}
use mars_codebase.Prelude.{
  Bool, List, Option, Result, [], if◌then◌else◌, key_error, leb, length, map, min, none, ok,
  or_raise, some, take, true, ℕ, ◌++◌, ◌+◌, ◌==◌, ◌>>=◌, ◌∷◌, attribute_error, guard, ◌>>◌,
}
use mars_codebase.BlockManager.Manager.{
  BlockSpaceManager, leaves_watermark, required_new_blocks, table_of,
}
use mars_codebase.BlockManager.Memory.{Memory, num_free_blocks}
use mars_codebase.Prelude.Int.{pos, ℤ, negsuc}
use mars_codebase.Sequence.Member.{Sequence}
use mathlib.Core.List.{reverse}
use mars_codebase.BlockManager.Allocation.{update}

-- The tables of some sequences, one after the other.
unfoldable pub tables_of : BlockSpaceManager → List Sequence → Result BlockTable
tables_of m [] = ok []
tables_of m (seq ∷ seqs) = do
  table ← table_of m seq.seq_id
  tables ← tables_of m seqs
  ok (table ++ tables)

-- BlockSpaceManager._get_physical_blocks
unfoldable pub get_physical_blocks : BlockSpaceManager → SequenceGroup → Result BlockTable
get_physical_blocks m g = do blocks ← tables_of m (get_unfinished_seqs g); ok (m.list_of_set blocks)

unfoldable pub get_seq_blocks_by_device :
    BlockSpaceManager → SequenceGroup → Device → Result BlockTable
get_seq_blocks_by_device m g d = do
  blocks ← get_physical_blocks m g
  ok (keep (λ b. is_device b.device d) blocks)

-- `n` blocks, or at most the number given.
abbrev pub at_most : ℕ → Option ℕ → ℕ
at_most n none = n
at_most n (some k) = min n k

unfoldable pub can_swap_in : BlockSpaceManager → SequenceGroup → Option ℕ → Option ℕ → Result Bool
can_swap_in m g max_swap_blocks inflight_tokens = do
  blocks ← get_seq_blocks_by_device m g cpu
  new_blocks ← required_new_blocks m g inflight_tokens
  ok (leaves_watermark m (at_most (length blocks) max_swap_blocks + new_blocks))

unfoldable pub can_swap_out : BlockSpaceManager → SequenceGroup → Option ℕ → Result Bool
can_swap_out m g first_n_blocks = do
  blocks ← get_seq_blocks_by_device m g gpu
  ok (leb (at_most (length blocks) first_n_blocks) (num_free_blocks cpu m.memory))

-- required_resume_blocks reads `discard_start_idx` of a resuming sequence, which has no such
-- attribute.
unfoldable pub required_resume_blocks : BlockSpaceManager → SequenceGroup → Option ℕ → Result ℕ
required_resume_blocks m g max_swap_blocks = do
  blocks ← get_seq_blocks_by_device m g cpu
  guard (length (get_seqs_in SequenceStatus.resuming g) == 0) attribute_error
  ok (at_most (length blocks) max_swap_blocks)

-- The loop of swap_in and of swap_out over the sequences.
unfoldable pub move_seqs :
    Device → List Sequence → Dict BlockTable → Moves → Result (Dict BlockTable × Moves)
move_seqs t [] tables s = ok (tables, s)
move_seqs t (seq ∷ seqs) tables s = do
  table ← or_raise (Dict.get tables seq.seq_id) key_error
  (table', s') ← move_table t table s
  move_seqs t seqs (Dict.put tables seq.seq_id table') s'

-- The integer that an optional number of blocks stands for.
abbrev pub limit_of : Option ℕ → ℤ
limit_of none = negsuc 0
limit_of (some n) = pos n

abbrev pub start_moves : ℤ → Memory → Moves
start_moves limit mem = record { mapping = []; limit = limit; all_moved = true; memory = mem }

unfoldable pub swap_in :
    BlockSpaceManager
    → SequenceGroup
    → ℤ
    → SequenceStatus
    → Result (BlockSpaceManager × List (ℕ × ℕ))
swap_in m g max_num_blocks status = do
  (tables, s) ←
      move_seqs gpu (get_seqs_in status g) m.block_tables (start_moves max_num_blocks m.memory)
  ok (record m { memory = s.memory; block_tables = tables }, number_mapping s.mapping)

unfoldable pub swap_out :
    BlockSpaceManager
    → SequenceGroup
    → ℤ
    → SequenceStatus
    → Result (BlockSpaceManager × List (ℕ × ℕ) × Bool)
swap_out m g first_n_blocks status = do
  (tables, s) ←
      move_seqs cpu (get_seqs_in status g) m.block_tables (start_moves first_n_blocks m.memory)
  ok (record m { memory = s.memory; block_tables = tables }, number_mapping s.mapping, s.all_moved)

-- The table is walked from its end.
unfoldable pub swap_out_from_back :
    BlockSpaceManager → Sequence → ℕ → Dict ℕ → Result (BlockSpaceManager × Dict ℕ)
swap_out_from_back m seq num_swap blocks_to_swap_out = do
  table ← table_of m seq.seq_id
  (back, s) ← move_in_place cpu (reverse table) (start_moves (pos num_swap) m.memory)
  ok (
    record m {
      memory = s.memory;
      block_tables = Dict.put m.block_tables seq.seq_id (reverse back);
    },
    update blocks_to_swap_out (number_mapping s.mapping),
  )

-- BlockSpaceManager._free_block_table
unfoldable pub free_block_table : BlockSpaceManager → BlockTable → Result BlockSpaceManager
free_block_table m table = do
  mem ← free_all (m.list_of_set table) m.memory
  ok (record m { memory = mem })

-- BlockSpaceManager.free
unfoldable pub free : BlockSpaceManager → Sequence → Result BlockSpaceManager
free m seq = elim (Dict.get m.block_tables seq.seq_id) [
  | none ↦ ok m
  | some table ↦ do
    m' ← free_block_table m table
    ok (record m' { block_tables = Dict.delete m'.block_tables seq.seq_id })
]

-- list.remove(x): the first place that holds the block
abbrev pub remove_block : PhysicalTokenBlock → BlockTable → BlockTable
remove_block b [] = []
remove_block b (c ∷ table) = if is_same c b then table else c ∷ remove_block b table

abbrev pub remove_blocks : BlockTable → BlockTable → BlockTable
remove_blocks [] table = table
remove_blocks (b ∷ blocks) table = remove_blocks blocks (remove_block b table)

-- BlockSpaceManager._free_blocks, with free_fst_blk_tokens, which calls it on the sequence's own
-- table: the first blocks are freed and taken off the table.
unfoldable pub free_fst_blk_tokens :
    BlockSpaceManager → Sequence → ℕ → Result (BlockSpaceManager × ℕ)
free_fst_blk_tokens m seq num_blocks = do
  table ← table_of m seq.seq_id
  let first_blocks = take num_blocks table
  mem ← free_all first_blocks m.memory
  let rest = remove_blocks first_blocks table
  let m' : BlockSpaceManager = record m {
    memory = mem;
    block_tables = Dict.put m.block_tables seq.seq_id rest;
  }
  m'' ← if length rest == 0 then free m' seq else ok m'
  ok (m'', length first_blocks)

-- BlockSpaceManager.reset
unfoldable pub reset_tables : Dict BlockTable → BlockSpaceManager → Result BlockSpaceManager
reset_tables [] m = ok m
reset_tables ((k, table) ∷ tables) m = do m' ← free_block_table m table; reset_tables tables m'

unfoldable pub reset : BlockSpaceManager → Result BlockSpaceManager
reset m = do m' ← reset_tables m.block_tables m; ok (record m' { block_tables = [] })

unfoldable pub get_block_table : BlockSpaceManager → Sequence → Result (List ℕ)
get_block_table m seq = do table ← table_of m seq.seq_id; ok (map (λ b. b.block_number) table)
