-- ===== src/BlockManager/Memory.antt =====
-- vllm/core/block_manager.py: the two allocators of a BlockSpaceManager with the blocks' counts.
use mars_codebase.BlockManager.Allocator
use mars_codebase.BlockManager.Allocator.{BlockAllocator, Store, assign, get_num_free_blocks}
use mars_codebase.Prelude.{Result, ok, ℕ, ◌+◌, ◌>>=◌}
use mars_codebase.Block.{Device, PhysicalTokenBlock, cpu, gpu}

pub record Memory : Type 0 where
  pub gpu_allocator : BlockAllocator
  pub cpu_allocator : BlockAllocator
  pub ref_count : Store

-- self.gpu_allocator or self.cpu_allocator
abbrev pub allocator : Device → Memory → BlockAllocator
allocator gpu m = m.gpu_allocator
allocator cpu m = m.cpu_allocator

abbrev pub other : Device → Device
other gpu = cpu
other cpu = gpu

abbrev pub with_allocator : Device → Memory → BlockAllocator → Store → Memory
with_allocator gpu m a s = record m { gpu_allocator = a; ref_count = s }
with_allocator cpu m a s = record m { cpu_allocator = a; ref_count = s }

-- self.gpu_allocator.allocate(), self.cpu_allocator.allocate()
unfoldable pub allocate_on : Device → Memory → Result (PhysicalTokenBlock × Memory)
unfolding Allocator.allocate
allocate_on d m = do
  (b, a, s) ← Allocator.allocate (allocator d m) m.ref_count
  ok (b, with_allocator d m a s)

-- self.gpu_allocator.free(block), self.cpu_allocator.free(block)
unfoldable pub free_on : Device → Memory → PhysicalTokenBlock → Result Memory
unfolding Allocator.free
free_on d m b = do
  (a, s) ← Allocator.free (allocator d m) m.ref_count b
  ok (with_allocator d m a s)

-- block.ref_count = n
abbrev pub set_ref_count : Memory → PhysicalTokenBlock → ℕ → Memory
set_ref_count m b n = record m { ref_count = assign m.ref_count b n }

-- block.ref_count += 1
abbrev pub share : Memory → PhysicalTokenBlock → Memory
share m b = set_ref_count m b (m.ref_count b + 1)

-- self.gpu_allocator.get_num_free_blocks(), self.cpu_allocator.get_num_free_blocks()
abbrev pub num_free_blocks : Device → Memory → ℕ
num_free_blocks d m = get_num_free_blocks (allocator d m)
