-- ===== src/BlockManager/SwapBack.antt =====
-- swap_out_from_back (vllm/core/block_manager.py).
use mars_codebase.Prelude.Dict
use mathlib.Core.List.{reverse, reverse-cons}
use mars_codebase.BlockManager.Memory.{num_free_blocks}
use mars_codebase.BlockManager.Eviction.{swap_out_from_back}
use mars_codebase.BlockManager.Manager.{BlockSpaceManager}
use mars_codebase.BlockManager.Valid.{
  AllDistinct-put, IsDistinct, IsValid, count-append, entry-IsDistinct, entry-some, others, refs,
  refs-put_split, refs-split,
}
use mars_codebase.Prelude.{
  [], ap, arith, length, ok, refl, some, subst, ℕ, ◌+◌, ◌∷◌, ◌≡◌, ◌≤◌, length-reverse,
}
use mars_codebase.BlockManager.Allocation.{update}
use mars_codebase.BlockManager.Moves.{IsBalanced-cong}
use mars_codebase.BlockManager.Tables.{BlockTable, number_mapping}
use mars_codebase.BlockManager.Swapping.{move_in_place-ok}
use mars_codebase.Prelude.Dict.{Dict}
use mars_codebase.Sequence.Member.{Sequence}
use mars_codebase.Block.{PhysicalTokenBlock, cpu}
use mars_codebase.BlockManager.Balance.{count}

count-reverse :
    (x : PhysicalTokenBlock) (table : BlockTable) → count x (reverse table) ≡ count x table
count-reverse x [] = refl
count-reverse x (b ∷ table) =
    rw (reverse-cons b table)
      (omega (arith, count-append x (reverse table) (b ∷ []), count-reverse x table))

-- For a valid manager with at least `n` free blocks on the CPU and a sequence with a table,
-- swap_out_from_back of `n` blocks returns: it leaves a valid manager, a table as long as before and
-- the tables of the other sequences, and it takes no more than `n` free blocks on the CPU.
pub swap_out_from_back-IsValid :
    (m : BlockSpaceManager) (seq : Sequence) (table : BlockTable) (n : ℕ) (swaps : Dict ℕ)
    → IsValid m
    → Dict.get m.block_tables seq.seq_id ≡ some table
    → n ≤ num_free_blocks cpu m.memory
    → (m' : BlockSpaceManager) × (swaps' : Dict ℕ) × (table' : BlockTable) × (swap_out_from_back m
          seq n swaps
        ≡ ok (m', swaps'))
      × IsValid m'
      × (m'.block_tables ≡ Dict.put m.block_tables seq.seq_id table')
      × (length table' ≡ length table)
      × (num_free_blocks cpu m.memory ≤ num_free_blocks cpu m'.memory + n)
unfolding swap_out_from_back
swap_out_from_back-IsValid m seq table n swaps v e enough =
    let k = seq.seq_id in
    let out = others m.block_tables k in
    let same = entry-some m.block_tables k table e in
    let d = subst IsDistinct same (entry-IsDistinct m.block_tables k v.distinct) in
    let bal =
      IsBalanced-cong m.memory (λ x. refs x m.block_tables) (λ x. count x (reverse table) + out x)
        (λ x.
          omega (arith, refs-split x m.block_tables k, ap (count x) same, count-reverse x table))
        v.balanced in
    let (back, s, done, bal', d', len, less) =
      move_in_place-ok cpu n (reverse table) m.memory out bal
        (λ x. omega (arith, d x, count-reverse x table)) enough in
    let tables = Dict.put m.block_tables k (reverse back) in
    (
      record m { memory = s.memory; block_tables = tables },
      update swaps (number_mapping s.mapping),
      reverse back,
      rw (e, done) refl,
      record {
        balanced =
            IsBalanced-cong s.memory (λ x. count x back + out x) (λ x. refs x tables)
              (λ x.
                omega
                  (arith, refs-put_split x m.block_tables k (reverse back), count-reverse x back))
              bal';
        distinct =
            AllDistinct-put m.block_tables k (reverse back) v.distinct
              (λ x. omega (arith, d' x, count-reverse x back));
        lists = v.lists;
      },
      refl,
      omega (arith, length-reverse back, len, length-reverse table),
      less,
    )
