-- ===== src/BlockManager/Growing.antt =====
-- allocate, append_slot and fork (vllm/core/block_manager.py) on a valid manager.
use mars_codebase.Prelude.{
  arith, err, inl, length, ok, refl, suc, value_error, zero, ℕ, ◌+◌, ◌<◌, ◌≡◌, ◌⊎◌, Bool-cases, [],
  ap, inr, length-append, ltb, ltb→lt, ◌++◌, ◌-◌, ◌∷◌, ◌≤◌, drop, take, take-append-drop,
}
use mars_codebase.BlockManager.Memory.{Memory, num_free_blocks, allocate_on, set_ref_count}
use mars_codebase.BlockManager.Balance.{
  IsBalanced, count, allocate_on-available, allocate_on-balance, is_same_eq, is_same_refl, one,
}
use mars_codebase.BlockManager.Allocator.{Store, assign}
use mars_codebase.BlockManager.Tables.{BlockTable, append_blocks, insert_at, insert_blocks}
use mars_codebase.Block.{gpu, PhysicalTokenBlock, is_same}
use mars_codebase.BlockManager.Valid.{IsDistinct, count-append}
use mars_codebase.BlockManager.Moves.{IsBalanced-cong, assign-with_block}
use mars_codebase.BlockManager.RefCounts.{
  allocate_on-empty, allocate_on-num_free_blocks, set_ref_count-balance,
}

-- A table that grew by `n` blocks, beside what `out` holds.
abbrev pub Grown : ℕ → BlockTable → Memory → Store → BlockTable → Memory → Type 0
Grown n table m out table' m' =
    IsBalanced m' (λ x. count x table' + out x)
    × IsDistinct table'
    × (length table' ≡ length table + n)
    × (num_free_blocks gpu m ≡ num_free_blocks gpu m' + n)

assign_twice :
    (held : Store) (c : PhysicalTokenBlock) (n : ℕ) (x : PhysicalTokenBlock)
    → assign (assign held c n) c n x ≡ assign held c n x
assign_twice held c n x = ground arith

-- A block that a table does not hold, added once.
one_of_new :
    (table : BlockTable) (c x : PhysicalTokenBlock)
    → count c table ≡ 0
    → one c x ≤ 1 - count x table
one_of_new table c x h = elim (Bool-cases (is_same c x)) [
  | inl e ↦ rw e (omega (arith, ap (λ y. count y table) (is_same_eq c x e)))
  | inr e ↦ rw e (omega arith)
]

-- Blocks that are appended one more, with count 1.
grow_step :
    (table : BlockTable) (m : Memory) (out : Store) (c : PhysicalTokenBlock) (m' : Memory)
    → IsBalanced m (λ x. count x table + out x)
    → IsDistinct table
    → allocate_on gpu m ≡ ok (c, m')
    → IsBalanced (set_ref_count m' c 1) (λ x. count x (table ++ c ∷ []) + out x)
      × IsDistinct (table ++ c ∷ [])
      × (length (table ++ c ∷ []) ≡ length table + 1)
grow_step table m out c m' bal d e =
    let held : Store = λ x. count x table + out x in
    let (home, unheld, bal') = allocate_on-balance gpu m held c m' bal e in
    let bal'' =
      set_ref_count-balance m' (assign held c 1) c 1 bal' (rw is_same_refl (omega arith))
        (omega arith) in
    (
      IsBalanced-cong (set_ref_count m' c 1) (assign (assign held c 1) c 1)
          (λ x. count x (table ++ c ∷ []) + out x)
          (λ x. omega (
            arith,
            assign_twice held c 1 x,
            assign-with_block held c 0 x unheld,
            count-append x table (c ∷ []),
          ))
          bal'',
      (λ x. omega (arith, count-append x table (c ∷ []), d x, one_of_new table c x (omega arith))),
      length-append table (c ∷ []),
    )

-- Appending blocks of count 1 returns when enough blocks are free, and else raises.
pub append_blocks-cases :
    (n : ℕ) (table : BlockTable) (m : Memory) (out : Store)
    → IsBalanced m (λ x. count x table + out x)
    → IsDistinct table
    → ((table' : BlockTable) × (m' : Memory) × (append_blocks n 1 table m ≡ ok (table', m'))
        × Grown n table m out table' m')
      ⊎ ((num_free_blocks gpu m < n) × (append_blocks n 1 table m ≡ err value_error))
unfolding append_blocks
append_blocks-cases zero table m out bal d =
    inl (table, m, refl, (bal, d, omega arith, omega arith))
append_blocks-cases (suc n) table m out bal d = elim (Bool-cases (ltb 0 (num_free_blocks gpu m))) [
  | inr h ↦
      let z : num_free_blocks gpu m ≡ 0 = ground (arith, h) in
      inr (omega arith, rw (allocate_on-empty gpu m z))
  | inl h ↦
      let (c, m', e) = allocate_on-available gpu m (ltb→lt _ _ h) in
      let (bal', d', len) = grow_step table m out c m' bal d e in
      let less = allocate_on-num_free_blocks gpu m c m' e in
      elim (append_blocks-cases n (table ++ c ∷ []) (set_ref_count m' c 1) out bal' d') [
        | inr (few, e') ↦ inr (omega (arith, less), rw (e, e'))
        | inl (table', m'', e', (bal'', d'', len', less')) ↦ inl (
          table',
          m'',
          rw (e, e'),
          (bal'', d'', omega (arith, len, len'), omega (arith, less, less')),
        )
      ]
]

count-insert_at :
    (x : PhysicalTokenBlock) (i : ℕ) (b : PhysicalTokenBlock) (table : BlockTable)
    → count x (insert_at i b table) ≡ one b x + count x table
count-insert_at x i b table = omega (
  arith,
  count-append x (take i table) (b ∷ drop i table),
  count-append x (take i table) (drop i table),
  ap (count x) (take-append-drop i table),
)

length-insert_at :
    (i : ℕ) (b : PhysicalTokenBlock) (table : BlockTable)
    → length (insert_at i b table) ≡ length table + 1
length-insert_at i b table = omega (
  arith,
  length-append (take i table) (b ∷ drop i table),
  length-append (take i table) (drop i table),
  ap length (take-append-drop i table),
)

-- Inserting blocks returns when enough blocks are free, and else raises.
pub insert_blocks-cases :
    (n i : ℕ) (table : BlockTable) (m : Memory) (out : Store)
    → IsBalanced m (λ x. count x table + out x)
    → IsDistinct table
    → ((table' : BlockTable) × (m' : Memory) × (insert_blocks n i table m ≡ ok (table', m'))
        × Grown n table m out table' m')
      ⊎ ((num_free_blocks gpu m < n) × (insert_blocks n i table m ≡ err value_error))
unfolding insert_blocks
insert_blocks-cases zero i table m out bal d =
    inl (table, m, refl, (bal, d, omega arith, omega arith))
insert_blocks-cases (suc n) i table m out bal d =
    elim (Bool-cases (ltb 0 (num_free_blocks gpu m))) [
      | inr h ↦
          let z : num_free_blocks gpu m ≡ 0 = ground (arith, h) in
          inr (omega arith, rw (allocate_on-empty gpu m z))
      | inl h ↦
          let held : Store = λ x. count x table + out x in
          let (c, m', e) = allocate_on-available gpu m (ltb→lt _ _ h) in
          let (_, unheld, bal') = allocate_on-balance gpu m held c m' bal e in
          let less = allocate_on-num_free_blocks gpu m c m' e in
          let bal'' =
            IsBalanced-cong m' (assign held c 1) (λ x. count x (insert_at i c table) + out x)
              (λ x. omega (arith, assign-with_block held c 0 x unheld, count-insert_at x i c table))
              bal' in
          let d' : IsDistinct (insert_at i c table) = λ x.
            omega (arith, count-insert_at x i c table, d x, one_of_new table c x (omega arith)) in
          elim (insert_blocks-cases n (i + 1) (insert_at i c table) m' out bal'' d') [
            | inr (few, e') ↦ inr (omega (arith, less), rw (e, e'))
            | inl (table', m'', e', (bal3, d3, len, less')) ↦ inl (
              table',
              m'',
              rw (e, e'),
              (
                bal3,
                d3,
                omega (arith, len, length-insert_at i c table),
                omega (arith, less, less'),
              ),
            )
          ]
    ]
