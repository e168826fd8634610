-- ===== src/BlockManager/Sharing.antt =====
-- fork (vllm/core/block_manager.py).
use mars_codebase.BlockManager.Allocation.{fork}
use mars_codebase.Prelude.Dict
use mars_codebase.Prelude.Dict.{Dict}
use mars_codebase.Prelude.{
  ==_refl, [], ap, arith, none, ok, refl, some, subst, ◌+◌, ◌<◌, ◌∙◌, ◌∷◌, ◌≡◌, ◌≤◌,
}
use mars_codebase.BlockManager.Valid.{
  AllDistinct-put, IsDistinct, IsValid, entry-IsDistinct, entry-none, entry-some, one_self, refs,
  refs-put, refs-split,
}
use mars_codebase.BlockManager.Balance.{IsBalanced, count}
use mars_codebase.BlockManager.Memory.{Memory, num_free_blocks, share}
use mars_codebase.Block.{Device, PhysicalTokenBlock}
use mars_codebase.BlockManager.Tables.{BlockTable, share_all}
use mars_codebase.BlockManager.Manager.{BlockSpaceManager}
use mars_codebase.BlockManager.Allocator.{Store, assign}
use mars_codebase.BlockManager.Moves.{
  IsBalanced-cong, assign-with_block, num_free_blocks-share, with_block,
}
use mars_codebase.Sequence.Member.{Sequence}
use mars_codebase.BlockManager.RefCounts.{share-balance}

num_free_blocks-share_all :
    (d : Device) (blocks : BlockTable) (m : Memory)
    → num_free_blocks d (share_all blocks m) ≡ num_free_blocks d m
unfolding share_all
num_free_blocks-share_all d [] m = refl
num_free_blocks-share_all d (b ∷ blocks) m =
    num_free_blocks-share_all d blocks (share m b) ∙ num_free_blocks-share d m b

share_all-balance :
    (blocks : BlockTable) (m : Memory) (held : Store)
    → IsBalanced m held
    → ((x : PhysicalTokenBlock) → count x blocks ≤ held x)
    → IsBalanced (share_all blocks m) (λ x. count x blocks + held x)
unfolding share_all
share_all-balance [] m held bal le = IsBalanced-cong m held (λ x. 0 + held x) (λ x. omega arith) bal
share_all-balance (b ∷ blocks) m held bal le =
    let h : 0 < held b = omega (arith, le b, one_self b) in
    let bal' =
      IsBalanced-cong (share m b) (assign held b (held b + 1)) (with_block held b)
        (λ x. assign-with_block held b (held b) x refl) (share-balance m held b bal h) in
    IsBalanced-cong (share_all blocks (share m b)) (λ x. count x blocks + with_block held b x)
      (λ x. count x (b ∷ blocks) + held x) (λ x. omega arith)
      (share_all-balance blocks (share m b) (with_block held b) bal' (λ x. omega (arith, le x)))

-- On a valid manager, forking a sequence that has a table to one that has none returns: the manager
-- stays valid, the child's table is the parent's, and no free block is taken on either device.
pub fork-IsValid :
    (m : BlockSpaceManager) (parent child : Sequence) (src : BlockTable)
    → IsValid m
    → Dict.get m.block_tables parent.seq_id ≡ some src
    → Dict.get m.block_tables child.seq_id ≡ none
    → (m' : BlockSpaceManager) × (fork m parent child ≡ ok m')
      × IsValid m'
      × (Dict.get m'.block_tables child.seq_id ≡ some src)
      × ((d : Device) → num_free_blocks d m'.memory ≡ num_free_blocks d m.memory)
unfolding fork
fork-IsValid m parent child src v e absent =
    let same = entry-some m.block_tables parent.seq_id src e in
    let d = subst IsDistinct same (entry-IsDistinct m.block_tables parent.seq_id v.distinct) in
    let tables = Dict.put m.block_tables child.seq_id src in
    (
      record m { memory = share_all src m.memory; block_tables = tables },
      rw e,
      record {
        balanced =
            IsBalanced-cong (share_all src m.memory) (λ x. count x src + refs x m.block_tables)
              (λ x. refs x tables)
              (λ x. omega (
                arith,
                refs-put x m.block_tables child.seq_id src,
                ap (count x) (entry-none m.block_tables child.seq_id absent),
              ))
              (share_all-balance src m.memory (λ x. refs x m.block_tables) v.balanced
                (λ x. omega (arith, refs-split x m.block_tables parent.seq_id, ap (count x) same)));
        distinct = AllDistinct-put m.block_tables child.seq_id src v.distinct d;
        lists = v.lists;
      },
      rw (Dict.get-put m.block_tables child.seq_id child.seq_id src, ==_refl child.seq_id),
      (λ dev. num_free_blocks-share_all dev src m.memory),
    )
