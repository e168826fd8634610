-- ===== src/BlockManager/Valid.antt =====
-- The invariant of BlockSpaceManager (vllm/core/block_manager.py), and the laws of its tables.
use mars_codebase.Prelude.Dict
use mars_codebase.Prelude.Dict.{Dict}
use mars_codebase.Block.{PhysicalTokenBlock, is_same}
use mars_codebase.Prelude.{
  Bool-cases, [], ap, arith, inl, inr, min, none, ok, refl, some, ℕ, ◌++◌, ◌+◌, ◌-◌, ◌<◌, ◌==◌, ◌∷◌,
  ◌≡◌, ◌≤◌, ==_refl,
}
use mars_codebase.BlockManager.Balance.{
  IsBalanced, count, free_on-balance, is_same_eq, is_same_refl, one,
}
use mars_codebase.BlockManager.Allocator.{Store, assign}
use mars_codebase.BlockManager.Tables.{BlockTable, free_all}
use mars_codebase.BlockManager.Moves.{IsBalanced-cong}
use mars_codebase.BlockManager.Memory.{Memory}
use mars_codebase.BlockManager.Manager.{BlockSpaceManager}

-- In how many places the tables hold a block.
abbrev pub refs : PhysicalTokenBlock → Dict BlockTable → ℕ
refs x [] = 0
refs x ((k, table) ∷ tables) = count x table + refs x tables

-- No block stands twice in a list.
abbrev pub IsDistinct : BlockTable → Type 0
IsDistinct table = (x : PhysicalTokenBlock) → count x table ≤ 1

abbrev pub AllDistinct : Dict BlockTable → Type 0
AllDistinct [] = Unit
AllDistinct ((k, table) ∷ tables) = IsDistinct table × AllDistinct tables

-- The listing of a set has each block of the list once, and no other.
abbrev pub ListsSet : (BlockTable → BlockTable) → Type 0
ListsSet list_of_set =
    (table : BlockTable) (x : PhysicalTokenBlock)
    → count x (list_of_set table) ≡ min 1 (count x table)

-- The count of each block is the number of tables that hold it, and the block is on the free list of
-- its own device, and on it once, exactly when no table holds it.
pub record IsValid (m : BlockSpaceManager) : Type 0 where
  pub balanced : IsBalanced m.memory (λ x. refs x m.block_tables)
  pub distinct : AllDistinct m.block_tables
  pub lists : ListsSet m.list_of_set

abbrev pub entry : Dict BlockTable → ℕ → BlockTable
entry tables k = elim (Dict.get tables k) [ none ↦ [] | some table ↦ table ]

pub refs-put :
    (x : PhysicalTokenBlock) (tables : Dict BlockTable) (k : ℕ) (table : BlockTable)
    → refs x (Dict.put tables k table) + count x (entry tables k) ≡ refs x tables + count x table
refs-put x [] k table = omega arith
refs-put x ((j, old) ∷ tables) k table = ground (arith, refs-put x tables k table)

pub refs-delete :
    (x : PhysicalTokenBlock) (tables : Dict BlockTable) (k : ℕ)
    → refs x (Dict.delete tables k) + count x (entry tables k) ≡ refs x tables
refs-delete x [] k = omega arith
refs-delete x ((j, old) ∷ tables) k = ground (arith, refs-delete x tables k)

pub AllDistinct-put :
    (tables : Dict BlockTable) (k : ℕ) (table : BlockTable)
    → AllDistinct tables
    → IsDistinct table
    → AllDistinct (Dict.put tables k table)
AllDistinct-put [] k table d h = (h, tt)
AllDistinct-put ((j, old) ∷ tables) k table d h = elim (Bool-cases (j == k)) [
  | inl e ↦ rw e (h, d.1)
  | inr e ↦ rw e (d.0, AllDistinct-put tables k table d.1 h)
]

pub AllDistinct-delete :
    (tables : Dict BlockTable) (k : ℕ) → AllDistinct tables → AllDistinct (Dict.delete tables k)
AllDistinct-delete [] k d = tt
AllDistinct-delete ((j, old) ∷ tables) k d = elim (Bool-cases (j == k)) [
  | inl e ↦ rw e d.1
  | inr e ↦ rw e (d.0, AllDistinct-delete tables k d.1)
]

pub entry-IsDistinct :
    (tables : Dict BlockTable) (k : ℕ) → AllDistinct tables → IsDistinct (entry tables k)
entry-IsDistinct [] k d = λ x. omega arith
entry-IsDistinct ((j, old) ∷ tables) k d = elim (Bool-cases (j == k)) [
  | inl e ↦ rw (e, entry) d.0
  | inr e ↦ rw (e, entry) (entry-IsDistinct tables k d.1)
]

pub entry-some :
    (tables : Dict BlockTable) (k : ℕ) (table : BlockTable)
    → Dict.get tables k ≡ some table
    → entry tables k ≡ table
entry-some tables k table e = rw (e, entry)

-- What the other tables hold, beside a sequence's own.
abbrev pub others : Dict BlockTable → ℕ → Store
others tables k x = refs x (Dict.delete tables k)

pub refs-split :
    (x : PhysicalTokenBlock) (tables : Dict BlockTable) (k : ℕ)
    → refs x tables ≡ count x (entry tables k) + others tables k x
refs-split x tables k = omega (arith, refs-delete x tables k)

pub refs-put_split :
    (x : PhysicalTokenBlock) (tables : Dict BlockTable) (k : ℕ) (table : BlockTable)
    → refs x (Dict.put tables k table) ≡ count x table + others tables k x
refs-put_split x tables k table = omega (arith, refs-put x tables k table, refs-delete x tables k)

pub count-append :
    (x : PhysicalTokenBlock) (xs ys : BlockTable) → count x (xs ++ ys) ≡ count x xs + count x ys
count-append x [] ys = omega arith
count-append x (b ∷ xs) ys = omega (arith, count-append x xs ys)

pub one_self : (b : PhysicalTokenBlock) → one b b ≡ 1
one_self b = rw is_same_refl

pub assign-minus :
    (held : Store) (b x : PhysicalTokenBlock) → assign held b (held b - 1) x ≡ held x - one b x
assign-minus held b x = elim (Bool-cases (is_same b x)) [
  | inl e ↦ rw e (omega (arith, ap held (is_same_eq b x e)))
  | inr e ↦ rw e (omega arith)
]

-- Blocks that are held as often as the list names them can be freed one after the other.
pub free_all-balance :
    (blocks : BlockTable) (m : Memory) (held : Store)
    → IsBalanced m held
    → ((x : PhysicalTokenBlock) → count x blocks ≤ held x)
    → (m' : Memory) × (free_all blocks m ≡ ok m') × IsBalanced m' (λ x. held x - count x blocks)
unfolding free_all
free_all-balance [] m held bal le =
    (m, refl, IsBalanced-cong m held (λ x. held x - 0) (λ x. omega arith) bal)
free_all-balance (b ∷ blocks) m held bal le =
    let h : 0 < held b = omega (arith, le b, one_self b) in
    let (m', done, bal') = free_on-balance b.device m held b bal refl h in
    let bal'' =
      IsBalanced-cong m' (assign held b (held b - 1)) (λ x. held x - one b x)
        (λ x. assign-minus held b x) bal' in
    let (m'', done', final) =
      free_all-balance blocks m' (λ x. held x - one b x) bal'' (λ x. omega (arith, le x)) in
    (
      m'',
      rw done done',
      IsBalanced-cong m'' (λ x. held x - one b x - count x blocks)
          (λ x. held x - count x (b ∷ blocks)) (λ x. omega arith) final,
    )

pub entry-none : (tables : Dict BlockTable) (k : ℕ) → Dict.get tables k ≡ none → entry tables k ≡ []
entry-none tables k e = rw (e, entry)

pub entry-put_self :
    (tables : Dict BlockTable) (k : ℕ) (table : BlockTable)
    → entry (Dict.put tables k table) k ≡ table
entry-put_self tables k table = rw (entry, Dict.get-put tables k k table, ==_refl k)
