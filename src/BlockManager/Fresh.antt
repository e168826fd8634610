-- ===== src/BlockManager/Fresh.antt =====
-- BlockSpaceManager.__init__ (vllm/core/block_manager.py) builds a valid manager.
use mars_codebase.Block.{Device, PhysicalTokenBlock, cpu, gpu, is_device}
use mars_codebase.Prelude.{
  Option, [], arith, if◌then◌else◌, ltb, refl, suc, zero, ℕ, ◌&&◌, ◌≡◌, ap, length,
}
use mars_codebase.BlockManager.Memory.{num_free_blocks}
use mars_codebase.BlockManager.Valid.{IsValid, ListsSet}
use mars_codebase.BlockManager.Balance.{Balanced, count}
use mars_codebase.BlockManager.Tables.{BlockTable}
use mars_codebase.BlockManager.Manager.{BlockSpaceManager, fresh_manager}
use mars_codebase.BlockManager.Allocator.{fresh_blocks, new_allocator}

count-fresh_blocks :
    (d : Device) (n : ℕ) (b : PhysicalTokenBlock)
    → count b (fresh_blocks d n) ≡ (if is_device d b.device && ltb b.block_number n then 1 else 0)
count-fresh_blocks d zero b = ground arith
count-fresh_blocks d (suc n) b = ground (arith, count-fresh_blocks d n b)

fresh-Balanced :
    (k num_gpu num_cpu : ℕ) (b : PhysicalTokenBlock)
    → Balanced
        (record {
          gpu_allocator = new_allocator gpu k num_gpu;
          cpu_allocator = new_allocator cpu k num_cpu;
          ref_count = λ c. 0;
        })
        b
        0
unfolding new_allocator
fresh-Balanced k num_gpu num_cpu b =
    ground (arith, count-fresh_blocks gpu num_gpu b, count-fresh_blocks cpu num_cpu b)

length-fresh_blocks : (d : Device) (n : ℕ) → length (fresh_blocks d n) ≡ n
length-fresh_blocks d zero = refl
length-fresh_blocks d (suc n) = ap suc (length-fresh_blocks d n)

-- The manager is valid, holds no table, and has all its blocks free.
abbrev pub IsInitial : ℕ → ℕ → BlockSpaceManager → Type 0
IsInitial num_gpu num_cpu m =
    IsValid m
    × (m.block_tables ≡ [])
    × (num_free_blocks gpu m.memory ≡ num_gpu)
    × (num_free_blocks cpu m.memory ≡ num_cpu)

pub fresh_manager-IsInitial :
    (block_size num_gpu num_cpu watermark : ℕ) (window : Option ℕ)
    (list_of_set : BlockTable → BlockTable)
    → ListsSet list_of_set
    → IsInitial num_gpu num_cpu
        (fresh_manager block_size num_gpu num_cpu watermark window list_of_set)
unfolding new_allocator
fresh_manager-IsInitial k num_gpu num_cpu watermark window listing lists = (
  record { balanced = fresh-Balanced k num_gpu num_cpu; distinct = tt; lists = lists },
  refl,
  length-fresh_blocks gpu num_gpu,
  length-fresh_blocks cpu num_cpu,
)
