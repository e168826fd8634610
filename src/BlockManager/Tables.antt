-- ===== src/BlockManager/Tables.antt =====
-- vllm/core/block_manager.py: the loops of BlockSpaceManager over one block table.
use mars_codebase.Prelude.{
  Bool, List, Option, Result, [], drop, if◌then◌else◌, none, ok, some, suc, take, zero, ℕ, ◌&&◌,
  ◌++◌, ◌+◌, ◌>>=◌, ◌||◌, ◌∷◌,
}
use mars_codebase.Block.{Device, PhysicalTokenBlock, gpu, is_device, is_same}
use mars_codebase.BlockManager.Memory.{Memory, allocate_on, free_on, other, set_ref_count, share}
use mars_codebase.Prelude.Int.{decrement, is_zero, ℤ}

-- BlockTable = List[PhysicalTokenBlock]
abbrev pub BlockTable : Type 0
BlockTable = List PhysicalTokenBlock

-- mapping.get(block), of a dictionary from blocks to blocks
abbrev pub find_block :
    PhysicalTokenBlock → List (PhysicalTokenBlock × PhysicalTokenBlock) → Option PhysicalTokenBlock
find_block b [] = none
find_block b ((c, target) ∷ mapping) = if is_same c b then some target else find_block b mapping

-- The variables of the loops of swap_in and swap_out.
pub record Moves : Type 0 where
  pub mapping : List (PhysicalTokenBlock × PhysicalTokenBlock)
  pub limit : ℤ
  pub all_moved : Bool
  pub memory : Memory

-- The `if block in mapping: ... else: ...` of both loops: the block that takes the contents.
unfoldable pub target_block :
    Device → PhysicalTokenBlock → Moves → Result (PhysicalTokenBlock × Moves)
target_block t b s = elim (find_block b s.mapping) [
  | some target ↦ ok (target, record s { memory = share s.memory target })
  | none ↦ do
    (target, m) ← allocate_on t s.memory
    ok (
      target,
      record s { mapping = s.mapping ++ (b, target) ∷ []; limit = decrement s.limit; memory = m },
    )
]

-- One round: a block that is on the target device already, or past the limit, stays in the table.
unfoldable pub move_block :
    Device → PhysicalTokenBlock → Moves → Result (PhysicalTokenBlock × Moves)
move_block t b s =
    if is_device b.device t || is_zero s.limit
    then ok (b, record s { all_moved = s.all_moved && is_device b.device t })
    else (do
      (target, s') ← target_block t b s
      m ← free_on (other t) s'.memory b
      ok (target, record s' { memory = m }))

-- The loop over a table, which builds `new_block_table`: of swap_in with the target `gpu`, and of
-- swap_out with the target `cpu`.
unfoldable pub move_table : Device → BlockTable → Moves → Result (BlockTable × Moves)
move_table t [] s = ok ([], s)
move_table t (b ∷ table) s = do
  (b', s') ← move_block t b s
  (table', s'') ← move_table t table s'
  ok (b' ∷ table', s'')

-- The loops that change the table in place: of swap_out_from_back with the target `cpu`, on the
-- table from its end, and of allocate with the target `gpu`. The round is that of the loops above,
-- but a block that is in the mapping already keeps its place in the table; `all_moved` is not read.
unfoldable pub move_in_place : Device → BlockTable → Moves → Result (BlockTable × Moves)
move_in_place t [] s = ok ([], s)
move_in_place t (b ∷ table) s = do
  (b', s') ← move_block t b s
  (table', s'') ← move_in_place t table s'
  ok (elim (find_block b s.mapping) [ some _ ↦ b | none ↦ b' ] ∷ table', s'')

-- { source.block_number: target.block_number for source, target in mapping.items() }
abbrev pub number_mapping : List (PhysicalTokenBlock × PhysicalTokenBlock) → List (ℕ × ℕ)
number_mapping [] = []
number_mapping ((b, target) ∷ mapping) =
    (b.block_number, target.block_number) ∷ number_mapping mapping

-- for _ in range(n): block = self.gpu_allocator.allocate(); block.ref_count = r;
--                    block_table.append(block)
unfoldable pub append_blocks : ℕ → ℕ → BlockTable → Memory → Result (BlockTable × Memory)
append_blocks zero r table m = ok (table, m)
append_blocks (suc n) r table m = do
  (b, m') ← allocate_on gpu m
  append_blocks n r (table ++ b ∷ []) (set_ref_count m' b r)

-- list.insert(i, x)
abbrev pub insert_at : ℕ → PhysicalTokenBlock → BlockTable → BlockTable
insert_at i b table = take i table ++ b ∷ drop i table

-- for i in range(n): block = self.gpu_allocator.allocate(); block_table.insert(start + i, block)
unfoldable pub insert_blocks : ℕ → ℕ → BlockTable → Memory → Result (BlockTable × Memory)
insert_blocks zero start table m = ok (table, m)
insert_blocks (suc n) start table m = do
  (b, m') ← allocate_on gpu m
  insert_blocks n (start + 1) (insert_at start b table) m'

-- for block in blocks: free it by its device
unfoldable pub free_all : List PhysicalTokenBlock → Memory → Result Memory
free_all [] m = ok m
free_all (b ∷ blocks) m = do m' ← free_on b.device m b; free_all blocks m'

-- for block in blocks: block.ref_count += 1
unfoldable pub share_all : List PhysicalTokenBlock → Memory → Memory
share_all [] m = m
share_all (b ∷ blocks) m = share_all blocks (share m b)
