-- ===== src/BlockManager/SwapTable.antt =====
-- The whole of a swap loop over a table (vllm/core/block_manager.py).
use mars_codebase.Prelude.{
  [], ap, arith, err, inl, inr, length, ok, refl, suc, value_error, ℕ, ◌+◌, ◌<◌, ◌∙◌, ◌∷◌, ◌≡◌, ◌≤◌,
  ◌⊎◌,
}
use mars_codebase.BlockManager.Allocator.{Store}
use mars_codebase.Block.{Device, PhysicalTokenBlock, cpu, gpu}
use mars_codebase.BlockManager.SwapLoop.{allowance_mono, move_block-cases}
use mars_codebase.BlockManager.Moves.{
  IsBalanced-cong, IsNegative, Targets, Targets-mono, allowance, away, with_block,
}
use mars_codebase.BlockManager.Tables.{BlockTable, Moves, move_table}
use mars_codebase.BlockManager.Memory.{num_free_blocks}
use mars_codebase.BlockManager.Balance.{IsBalanced, count}

-- The blocks of a table that are not on the device.
abbrev pub pending : Device → BlockTable → ℕ
pending t [] = 0
pending t (b ∷ table) = away t b + pending t table

moved_away : (t : Device) (b : PhysicalTokenBlock) (n : ℕ) → b.device ≡ t → n ≡ 0 → away t b + n ≡ 0
moved_away gpu b n e h = ground arith
moved_away cpu b n e h = ground arith

-- The loop over a table, beside what `out` holds: where it returns, the memory is balanced, it took
-- no more free blocks than there were blocks to move, and without a limit it moved them all.
module _ (t : Device) where
  abbrev pub MovedTable : BlockTable → Moves → Store → Store → BlockTable → Moves → Type 0
  MovedTable table s out kept table' s' =
      (move_table t table s ≡ ok (table', s'))
      × IsBalanced s'.memory (λ x. count x table' + out x)
      × Targets t s'.mapping (λ x. count x table' + kept x)
      × ((k : ℕ)
          → num_free_blocks t s.memory + allowance s'.limit k
            ≤ num_free_blocks t s'.memory + allowance s.limit (pending t table + k))
      × (IsNegative s.limit
          → IsNegative s'.limit × (pending t table' ≡ 0) × (s'.all_moved ≡ s.all_moved))
      × (length table' ≡ length table)

  pub move_table-cases :
      (table : BlockTable) (s : Moves) (out kept : Store)
      → IsBalanced s.memory (λ x. count x table + out x)
      → ((x : PhysicalTokenBlock) → kept x ≤ out x)
      → Targets t s.mapping kept
      → ((table' : BlockTable) × (s' : Moves) × MovedTable table s out kept table' s')
        ⊎ ((num_free_blocks t s.memory < allowance s.limit (pending t table))
            × (move_table t table s ≡ err value_error))
  unfolding move_table
  move_table-cases [] s out kept bal le w = inl (
    [],
    s,
    (
      refl,
      bal,
      Targets-mono t s.mapping kept (λ x. 0 + kept x) (λ x. omega arith) w,
      (λ k. omega (arith, allowance_mono s.limit k (0 + k) (omega arith))),
      (λ n. (n, refl, refl)),
      refl,
    ),
  )
  move_table-cases (b ∷ table) s out kept bal le w =
      elim (move_block-cases t b s (λ x. count x table + out x) kept
        (IsBalanced-cong s.memory (λ x. count x (b ∷ table) + out x)
          (with_block (λ x. count x table + out x) b) (λ x. omega arith) bal)
        (λ x. omega (arith, le x)) w) [
          | inr (few, e) ↦ inr (
            omega (arith, allowance_mono s.limit (away t b) (pending t (b ∷ table)) (omega arith)),
            rw e,
          )
          | inl (b', s', (e, bal', w', spent, neg)) ↦
              elim (move_table-cases table s' (with_block out b') (with_block kept b')
                (IsBalanced-cong s'.memory (with_block (λ x. count x table + out x) b')
                  (λ x. count x table + with_block out b' x) (λ x. omega arith) bal')
                (λ x. omega (arith, le x)) w') [
                  | inr (few, e') ↦ inr (omega (arith, spent (pending t table)), rw (e, e'))
                  | inl (table', s'', (e', bal'', w'', spent', neg', len)) ↦ inl (
                    b' ∷ table',
                    s'',
                    (
                      rw (e, e'),
                      IsBalanced-cong s''.memory (λ x. count x table' + with_block out b' x)
                          (λ x. count x (b' ∷ table') + out x) (λ x. omega arith) bal'',
                      Targets-mono t s''.mapping (λ x. count x table' + with_block kept b' x)
                          (λ x. count x (b' ∷ table') + kept x) (λ x. omega arith) w'',
                      (λ k. omega (
                        arith,
                        spent (pending t table + k),
                        spent' k,
                        allowance_mono s.limit (away t b + (pending t table + k))
                            (pending t (b ∷ table) + k) (omega arith),
                      )),
                      (λ n.
                          let (n', home, same) = neg n in
                          let (n'', done, same') = neg' n' in
                          (n'', moved_away t b' (pending t table') home done, same' ∙ same)),
                      ap suc len,
                    ),
                  )
                ]
        ]
