-- ===== src/BlockManager/SwapMethods.antt =====
-- swap_in and swap_out (vllm/core/block_manager.py) for a group with one sequence to be moved.
use mars_codebase.Prelude.Dict
use mars_codebase.Prelude.Dict.{Dict}
use mars_codebase.Prelude.{
  Bool, Option, [], false, length, none, ok, some, true, ℕ, ◌==◌, ◌∷◌, ◌≡◌, ◌≤◌, List, ap, arith,
  inl, inr, refl, subst, sym, ◌+◌, ◌∙◌, leb, leb→le, min, ◌++◌, ==_refl,
}
use mars_codebase.BlockManager.SwapTable.{pending, move_table-cases}
use mars_codebase.BlockManager.Memory.{num_free_blocks}
use mars_codebase.BlockManager.Tables.{BlockTable, Moves, number_mapping}
use mars_codebase.BlockManager.Valid.{
  IsValid, entry, AllDistinct-put, IsDistinct, entry-IsDistinct, entry-put_self, entry-some, others,
  refs, refs-put_split, refs-split, count-append,
}
use mars_codebase.Sequence.Member.{Sequence}
use mars_codebase.BlockManager.Manager.{BlockSpaceManager}
use mars_codebase.BlockManager.Eviction.{
  move_seqs, start_moves, can_swap_out, get_physical_blocks, get_seq_blocks_by_device, swap_out,
  tables_of, at_most, limit_of,
}
use mars_codebase.Prelude.Int.{ℤ}
use mars_codebase.Block.{Device, cpu, gpu, is_device}
use mars_codebase.BlockManager.Moves.{IsNegative, allowance, IsBalanced-cong}
use mars_codebase.Sequence.Status.{SequenceStatus}
use mars_codebase.BlockManager.Balance.{count}
use mars_codebase.BlockManager.Swapping.{move_table-distinct}
use mars_codebase.Sequence.Group.{SequenceGroup, get_seqs_in, get_unfinished_seqs, keep}
use mars_codebase.BlockManager.SameBlocks.{length-keep, pending_same}

-- What a swap of the sequence leaves: a valid manager, a table as long as before, the tables of the
-- other sequences, and, without a limit, every block of the table on the target device.
abbrev pub Swapped : Device → ℤ → BlockSpaceManager → Sequence → BlockSpaceManager → Bool → Type 0
Swapped t limit m seq m' all =
    IsValid m'
    × ((table' : BlockTable) × (Dict.get m'.block_tables seq.seq_id ≡ some table')
        × (length table' ≡ length (entry m.block_tables seq.seq_id)))
    × ((k : ℕ) → (seq.seq_id == k) ≡ false → Dict.get m'.block_tables k ≡ Dict.get m.block_tables k)
    × (IsNegative limit → (pending t (entry m'.block_tables seq.seq_id) ≡ 0) × (all ≡ true))

module _ (t : Device) (limit : ℤ) (m : BlockSpaceManager) (seq : Sequence)
    (table : BlockTable) where
  pub swap_loop :
      IsValid m
      → Dict.get m.block_tables seq.seq_id ≡ some table
      → allowance limit (pending t table) ≤ num_free_blocks t m.memory
      → (tables : Dict BlockTable) × (s : Moves) × (move_seqs t
            (seq ∷ [])
            m.block_tables
            (start_moves limit m.memory)
          ≡ ok (tables, s))
        × Swapped t limit m seq (record m { memory = s.memory; block_tables = tables }) s.all_moved
  unfolding move_seqs
  swap_loop v e enough =
      let k = seq.seq_id in
      let out = others m.block_tables k in
      let same = entry-some m.block_tables k table e in
      let d = subst IsDistinct same (entry-IsDistinct m.block_tables k v.distinct) in
      let bal =
        IsBalanced-cong m.memory (λ x. refs x m.block_tables) (λ x. count x table + out x)
          (λ x. omega (arith, refs-split x m.block_tables k, ap (count x) same)) v.balanced in
      let s = start_moves limit m.memory in
      elim (move_table-cases t table s out (λ x. 0) bal (λ x. omega arith) tt) [
        | inr (few, _) ↦ absurd (omega arith)
        | inl (table', s', (done, bal', _, _, all, len)) ↦
            let tables = Dict.put m.block_tables k table' in
            let d' : IsDistinct table' = λ x. omega (
              arith,
              move_table-distinct t table s out (λ y. 0) table' s' bal (λ y. omega arith) tt
                  (λ y h. refl) (λ y. omega (arith, d y)) done x,
            ) in
            (
              tables,
              s',
              rw (e, done),
              (
                record {
                  balanced =
                      IsBalanced-cong s'.memory (λ x. count x table' + out x) (λ x. refs x tables)
                        (λ x. sym (refs-put_split x m.block_tables k table')) bal';
                  distinct = AllDistinct-put m.block_tables k table' v.distinct d';
                  lists = v.lists;
                },
                (
                  table',
                  rw (Dict.get-put m.block_tables k k table', ==_refl k) refl,
                  omega (arith, len, ap length same),
                ),
                (λ j h. rw (Dict.get-put m.block_tables k j table', h)),
                (λ n.
                    let (_, none_left, moved) = all n in
                    (ap (pending t) (entry-put_self m.block_tables k table') ∙ none_left, moved)),
              ),
            )
      ]

pub ok_injective : {a b : Bool} → ok a ≡ ok b → a ≡ b
ok_injective h = ground (arith, h)

pub at_most_room :
    (first_n_blocks : Option ℕ) (n k free : ℕ)
    → n ≡ k
    → leb (at_most n first_n_blocks) free ≡ true
    → allowance (limit_of first_n_blocks) k ≤ free
at_most_room none n k free e h = omega (arith, leb→le n free h)
at_most_room (some f) n k free e h = omega (arith, leb→le (min n f) free h)

-- A table and the listing of its blocks have as many blocks to be moved.
pub pending_listing :
    (t : Device) (m : BlockSpaceManager) (seq : Sequence) (table : BlockTable)
    → IsValid m
    → Dict.get m.block_tables seq.seq_id ≡ some table
    → pending t (m.list_of_set (table ++ [])) ≡ pending t table
pending_listing t m seq table v e =
    let d =
      subst IsDistinct (entry-some m.block_tables seq.seq_id table e)
        (entry-IsDistinct m.block_tables seq.seq_id v.distinct) in
    pending_same t (m.list_of_set (table ++ [])) table
      (λ x. omega (arith, v.lists (table ++ []) x, count-append x table [], d x))

-- The blocks that can_swap_out counts, for a group whose only unfinished sequence is `seq`.
can_swap_out_room :
    (m : BlockSpaceManager) (g : SequenceGroup) (seq : Sequence) (table : BlockTable)
    (first_n_blocks : Option ℕ)
    → IsValid m
    → get_unfinished_seqs g ≡ seq ∷ []
    → Dict.get m.block_tables seq.seq_id ≡ some table
    → can_swap_out m g first_n_blocks ≡ ok true
    → allowance (limit_of first_n_blocks) (pending cpu table) ≤ num_free_blocks cpu m.memory
unfolding can_swap_out get_seq_blocks_by_device get_physical_blocks tables_of
can_swap_out_room m g seq table first_n_blocks v only e can =
    let blocks = m.list_of_set (table ++ []) in
    let same : pending cpu blocks ≡ pending cpu table = pending_listing cpu m seq table v e in
    let test : ok (
          leb (at_most (length (keep (λ b. is_device b.device gpu) blocks)) first_n_blocks)
            (num_free_blocks cpu m.memory))
        ≡ ok true =
      rw (only, e) at can in
    at_most_room first_n_blocks (length (keep (λ b. is_device b.device gpu) blocks))
      (pending cpu table) (num_free_blocks cpu m.memory) (length-keep cpu blocks ∙ same)
      (ok_injective test)

-- Where can_swap_out allows it, swap_out returns, for a valid manager and a group whose only
-- unfinished sequence has the status: it leaves a valid manager, a table as long as before and the
-- tables of the other sequences; with no limit the whole table is then on the CPU, and the result
-- says so.
pub swap_out-IsValid :
    (m : BlockSpaceManager) (g : SequenceGroup) (status : SequenceStatus) (seq : Sequence)
    (table : BlockTable) (first_n_blocks : Option ℕ)
    → IsValid m
    → get_unfinished_seqs g ≡ seq ∷ []
    → get_seqs_in status g ≡ seq ∷ []
    → Dict.get m.block_tables seq.seq_id ≡ some table
    → can_swap_out m g first_n_blocks ≡ ok true
    → (m' : BlockSpaceManager) × (pairs : List (ℕ × ℕ)) × (all : Bool) × (swap_out m g
          (limit_of first_n_blocks)
          status
        ≡ ok (m', pairs, all))
      × Swapped cpu (limit_of first_n_blocks) m seq m' all
unfolding swap_out
swap_out-IsValid m g status seq table first_n_blocks v only chosen e can =
    let (tables, s, done, result) =
      swap_loop cpu (limit_of first_n_blocks) m seq table v e
        (can_swap_out_room m g seq table first_n_blocks v only e can) in
    (
      record m { memory = s.memory; block_tables = tables },
      number_mapping s.mapping,
      s.all_moved,
      rw (chosen, done),
      result,
    )
