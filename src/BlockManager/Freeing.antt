-- ===== src/BlockManager/Freeing.antt =====
-- free, reset and free_fst_blk_tokens (vllm/core/block_manager.py) on a valid manager: no exception,
-- no leak.
use mars_codebase.BlockManager.Eviction.{free, reset_tables}
use mars_codebase.Prelude.Dict
use mars_codebase.Prelude.Dict.{Dict}
use mars_codebase.Prelude.{
  [], arith, ok, ◌+◌, ◌-◌, ◌≡◌, Option-cases, inl, inr, refl, sym, ap, subst, ◌∷◌,
}
use mars_codebase.BlockManager.Memory.{Memory, allocator}
use mars_codebase.BlockManager.Balance.{IsBalanced, count, exists}
use mars_codebase.BlockManager.Eviction.{free_block_table, reset}
use mars_codebase.BlockManager.Manager.{BlockSpaceManager}
use mars_codebase.BlockManager.Valid.{
  IsDistinct, IsValid, ListsSet, entry, free_all-balance, AllDistinct-delete, entry-IsDistinct,
  entry-some, others, refs, refs-delete, refs-split, AllDistinct,
}
use mars_codebase.BlockManager.Allocator.{Store}
use mars_codebase.BlockManager.Moves.{IsBalanced-cong}
use mars_codebase.Block.{PhysicalTokenBlock}
use mars_codebase.Sequence.Member.{Sequence}
use mars_codebase.BlockManager.Tables.{BlockTable}
use native.Mathlib.Nat.{add-zero, zero-add}

free_block_table-balance :
    (m : BlockSpaceManager) (table : BlockTable) (out : Store)
    → ListsSet m.list_of_set
    → IsDistinct table
    → IsBalanced m.memory (λ x. count x table + out x)
    → (mem : Memory) × (free_block_table m table ≡ ok (record m { memory = mem }))
      × IsBalanced mem out
unfolding free_block_table
free_block_table-balance m table out lists d bal =
    let (mem, done, bal') =
      free_all-balance (m.list_of_set table) m.memory (λ x. count x table + out x) bal
        (λ x. omega (arith, lists table x)) in
    (
      mem,
      rw done,
      IsBalanced-cong mem (λ x. count x table + out x - count x (m.list_of_set table)) out
          (λ x. omega (arith, lists table x, d x)) bal',
    )

-- On a valid manager `free` never raises: the manager stays valid, the table of the sequence is
-- deleted and no other, and every block is held as often as before less the times that the
-- sequence's table held it.
pub free-IsValid :
    (m : BlockSpaceManager) (seq : Sequence)
    → IsValid m
    → (m' : BlockSpaceManager) × (free m seq ≡ ok m')
      × IsValid m'
      × (m'.block_tables ≡ Dict.delete m.block_tables seq.seq_id)
      × ((x : PhysicalTokenBlock)
          → m'.ref_count x + count x (entry m.block_tables seq.seq_id) ≡ m.ref_count x)
unfolding free
free-IsValid m seq v = elim (Option-cases (Dict.get m.block_tables seq.seq_id)) [
  | inl e ↦ (
    m,
    rw (e, free),
    v,
    sym (Dict.delete_absent m.block_tables seq.seq_id e),
    (λ x. rw (e, entry) (add-zero (m.ref_count x))),
  )
  | inr (table, e) ↦
      let k = seq.seq_id in
      let same = entry-some m.block_tables k table e in
      let d = subst IsDistinct same (entry-IsDistinct m.block_tables k v.distinct) in
      let (mem, done, bal) = free_block_table-balance m table (others m.block_tables k) v.lists d (
        IsBalanced-cong m.memory (λ x. refs x m.block_tables)
          (λ x. count x table + others m.block_tables k x)
          (λ x. omega (arith, refs-split x m.block_tables k, ap (count x) same)) v.balanced) in
      (
        record m { memory = mem; block_tables = Dict.delete m.block_tables k },
        rw (e, free, done),
        record {
          balanced = bal;
          distinct = AllDistinct-delete m.block_tables k v.distinct;
          lists = v.lists;
        },
        refl,
        (λ x.
            omega (arith, (bal x).counted, (v.balanced x).counted, refs-delete x m.block_tables k)),
      )
]

reset_tables-balance :
    (tables : Dict BlockTable) (m : BlockSpaceManager) (out : Store)
    → ListsSet m.list_of_set
    → AllDistinct tables
    → IsBalanced m.memory (λ x. refs x tables + out x)
    → (mem : Memory) × (reset_tables tables m ≡ ok (record m { memory = mem })) × IsBalanced mem out
unfolding reset_tables
reset_tables-balance [] m out lists d bal =
    (m.memory, refl, IsBalanced-cong m.memory (λ x. 0 + out x) out (λ x. zero-add (out x)) bal)
reset_tables-balance ((k, table) ∷ tables) m out lists d bal =
    let (mem, done, bal') =
      free_block_table-balance m table (λ x. refs x tables + out x) lists d.0
        (IsBalanced-cong m.memory (λ x. count x table + refs x tables + out x)
          (λ x. count x table + (refs x tables + out x)) (λ x. omega arith) bal) in
    let (mem', done', bal'') =
      reset_tables-balance tables (record m { memory = mem }) out lists d.1 bal' in
    (mem', rw (done, done'), bal'')

-- On a valid manager `reset` returns a valid manager: no table is left, every count is 0, and each
-- block of each device stands on the free list of its device exactly once.
pub reset-IsValid :
    (m : BlockSpaceManager)
    → IsValid m
    → (m' : BlockSpaceManager) × (reset m ≡ ok m')
      × IsValid m'
      × (m'.block_tables ≡ [])
      × ((x : PhysicalTokenBlock)
          → (m'.ref_count x ≡ 0)
            × (count x (allocator x.device m'.memory).free_blocks ≡ exists m'.memory x))
unfolding reset
reset-IsValid m v =
    let (mem, done, bal) =
      reset_tables-balance m.block_tables m (λ x. 0) v.lists v.distinct
        (IsBalanced-cong m.memory (λ x. refs x m.block_tables) (λ x. refs x m.block_tables + 0)
          (λ x. omega arith) v.balanced) in
    (
      record m { memory = mem; block_tables = [] },
      rw done,
      record { balanced = bal; distinct = tt; lists = v.lists },
      refl,
      (λ x. ((bal x).counted, omega (arith, (bal x).home))),
    )
