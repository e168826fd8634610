-- ===== src/BlockManager/Allocator.antt =====
-- vllm/core/block_manager.py: BlockAllocator. The attribute `ref_count` of the block objects, which
-- the tables and the allocators share, is a store that each method takes and returns.
use mars_codebase.Prelude.{
  List, Result, [], err, guard, if◌then◌else◌, length, not, ok, suc, value_error, zero, ℕ, ◌-◌,
  ◌==◌, ◌>>=◌, ◌>>◌, ◌∷◌,
}
use mars_codebase.Block.{Device, PhysicalTokenBlock, is_same}

-- The head of `free_blocks` is the end of Python's list.
pub record BlockAllocator : Type 0 where
  pub device : Device
  pub block_size : ℕ
  pub num_blocks : ℕ
  pub free_blocks : List PhysicalTokenBlock

abbrev pub Store : Type 0
Store = PhysicalTokenBlock → ℕ

-- block.ref_count = n
abbrev pub assign : Store → PhysicalTokenBlock → ℕ → Store
assign s b n c = if is_same b c then n else s c

-- The loop of BlockAllocator.__init__, after its first `n` rounds.
abbrev pub fresh_blocks : Device → ℕ → List PhysicalTokenBlock
fresh_blocks d zero = []
fresh_blocks d (suc n) = record { device = d; block_number = n } ∷ fresh_blocks d n

-- BlockAllocator.__init__
unfoldable pub new_allocator : Device → ℕ → ℕ → BlockAllocator
new_allocator device block_size num_blocks = record {
  device = device;
  block_size = block_size;
  num_blocks = num_blocks;
  free_blocks = fresh_blocks device num_blocks;
}

-- self.free_blocks.pop()
abbrev pub pop_free :
    List PhysicalTokenBlock → Result (PhysicalTokenBlock × List PhysicalTokenBlock)
pop_free [] = err value_error
pop_free (b ∷ rest) = ok (b, rest)

-- BlockAllocator.allocate
unfoldable pub allocate :
    BlockAllocator → Store → Result (PhysicalTokenBlock × BlockAllocator × Store)
allocate a s = do
  (b, rest) ← pop_free a.free_blocks
  ok (b, record a { free_blocks = rest }, assign s b 1)

-- BlockAllocator.free
unfoldable pub free : BlockAllocator → Store → PhysicalTokenBlock → Result (BlockAllocator × Store)
free a s b = do
  guard (not (s b == 0)) value_error
  let n = s b - 1
  ok (
      if n == 0
      then (record a { free_blocks = b ∷ a.free_blocks }, assign s b n)
      else (a, assign s b n))

-- BlockAllocator.get_num_free_blocks
abbrev pub get_num_free_blocks : BlockAllocator → ℕ
get_num_free_blocks a = length a.free_blocks
