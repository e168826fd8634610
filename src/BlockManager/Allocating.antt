-- ===== src/BlockManager/Allocating.antt =====
-- allocate (vllm/core/block_manager.py): the memory requirement that the scheduler tests is enough.
use mars_codebase.BlockManager.Allocation.{
  allocate, allocate_discarded, allocate_inflight, allocate_swapped, update,
}
use mars_codebase.Prelude.Dict
use mars_codebase.Prelude.Dict.{Dict}
use mars_codebase.Prelude.{
  Bool-cases, List, [], arith, if◌then◌else◌, inl, inr, length, ltb, none, ok, refl, true, ℕ, ◌+◌,
  ◌≡◌, ◌≤◌, >>=-eq-ok, ap, false, leb→le, sym, ◌==◌, ◌>>◌,
}
use mars_codebase.BlockManager.Growing.{Grown, append_blocks-cases, insert_blocks-cases}
use mars_codebase.Sequence.Group.{SequenceGroup, first_seq, num_seqs}
use mars_codebase.Block.{gpu}
use mars_codebase.BlockManager.Tables.{BlockTable, number_mapping}
use mars_codebase.BlockManager.Manager.{
  BlockSpaceManager, assert_resumed, get_memory_requirement, refuse_window, token_2_block,
  can_fulfill_blocks,
}
use mars_codebase.BlockManager.Balance.{IsBalanced, count}
use mars_codebase.BlockManager.Memory.{Memory, num_free_blocks}
use mars_codebase.Sequence.Member.{
  Sequence, num_new_blocks_for_inflight, num_new_blocks_for_resume_discard,
  num_new_blocks_for_resume_swap,
}
use mars_codebase.BlockManager.Swapping.{move_in_place-ok}
use mars_codebase.BlockManager.Allocator.{Store}
use mars_codebase.BlockManager.Valid.{
  IsDistinct, AllDistinct-put, IsValid, entry, entry-IsDistinct, entry-put_self, others, refs,
  refs-put_split, refs-split,
}
use mars_codebase.BlockManager.Moves.{IsBalanced-cong}

-- `n` if there is something to do, else nothing.
abbrev pub when : ℕ → ℕ → ℕ
when todo n = if ltb 0 todo then n else 0

abbrev pub discard_blocks : Sequence → ℕ
discard_blocks seq = when seq.content.resume_discard_tokens (num_new_blocks_for_resume_discard seq)

abbrev pub swap_blocks : Sequence → ℕ
swap_blocks seq = when seq.content.resume_swap_blocks (num_new_blocks_for_resume_swap seq)

abbrev pub inflight_blocks : Sequence → ℕ
inflight_blocks seq = when seq.content.running_inflight_tokens (num_new_blocks_for_inflight seq)

-- What a requirement says, where there is one.
requirement_parts :
    (m : BlockSpaceManager) (g : SequenceGroup) (seq : Sequence) (r : ℕ)
    → first_seq g ≡ ok seq
    → get_memory_requirement m g ≡ ok r
    → (r ≡ discard_blocks seq + swap_blocks seq + inflight_blocks seq)
      × (ltb 0 seq.content.running_inflight_tokens ≡ true → assert_resumed seq.content ≡ ok tt)
unfolding get_memory_requirement
requirement_parts m g seq r f e = elim (Bool-cases (ltb 0 seq.content.running_inflight_tokens)) [
  | inl h ↦
      let e' : (assert_resumed seq.content
            >> ok (discard_blocks seq + swap_blocks seq + num_new_blocks_for_inflight seq))
          ≡ ok r =
        rw (f, h) at e in
      let (_, resumed, same) = >>=-eq-ok (assert_resumed seq.content) _ e' in
      (rw h (ground (arith, same)), λ _. resumed)
  | inr h ↦
      let e' : ok (discard_blocks seq + swap_blocks seq) ≡ ok r = rw (f, h) at e in
      (rw h (ground (arith, e')), λ h'. absurd (cc))
]

module _ (m : BlockSpaceManager) (seq : Sequence) (table : BlockTable) (mem : Memory)
    (out : Store) where
  allocate_discarded-ok :
      IsBalanced mem (λ x. count x table + out x)
      → IsDistinct table
      → discard_blocks seq ≤ num_free_blocks gpu mem
      → (table' : BlockTable) × (mem' : Memory) × (allocate_discarded m seq table mem
          ≡ ok (table', mem'))
        × Grown (discard_blocks seq) table mem out table' mem'
  unfolding allocate_discarded
  allocate_discarded-ok bal d enough = elim (Bool-cases (ltb 0 seq.content.resume_discard_tokens)) [
    | inr h ↦ (table, mem, rw h, (bal, d, rw h (omega arith), rw h (omega arith)))
    | inl h ↦
        elim (insert_blocks-cases (num_new_blocks_for_resume_discard seq)
          (token_2_block m seq.content.discard_start_idx) table mem out bal d) [
            | inr (few, _) ↦ absurd (ground (arith, h))
            | inl (table', mem', e, (bal', d', len, less)) ↦
                (table', mem', rw h e, (bal', d', rw h len, rw h less))
          ]
  ]

  allocate_swapped-ok :
      IsBalanced mem (λ x. count x table + out x)
      → IsDistinct table
      → swap_blocks seq ≤ num_free_blocks gpu mem
      → (table' : BlockTable) × (mem' : Memory) × (pairs : List (ℕ × ℕ)) × (allocate_swapped seq
            table mem
          ≡ ok (table', mem', pairs))
        × IsBalanced mem' (λ x. count x table' + out x)
        × IsDistinct table'
        × (length table' ≡ length table)
        × (num_free_blocks gpu mem ≤ num_free_blocks gpu mem' + swap_blocks seq)
  unfolding allocate_swapped
  allocate_swapped-ok bal d enough = elim (Bool-cases (ltb 0 seq.content.resume_swap_blocks)) [
    | inr h ↦ (table, mem, [], rw h, bal, d, refl, rw h (omega arith))
    | inl h ↦
        let n = num_new_blocks_for_resume_swap seq in
        let (table', s', e, bal', d', len, less) =
          move_in_place-ok gpu n table mem out bal d (ground (arith, h)) in
        (table', s'.memory, number_mapping s'.mapping, rw (h, e), bal', d', len, rw h less)
  ]

  allocate_inflight-ok :
      (g : SequenceGroup)
      → IsBalanced mem (λ x. count x table + out x)
      → IsDistinct table
      → inflight_blocks seq ≤ num_free_blocks gpu mem
      → num_seqs g ≡ 1
      → m.block_sliding_window ≡ none
      → (ltb 0 seq.content.running_inflight_tokens ≡ true → assert_resumed seq.content ≡ ok tt)
      → (table' : BlockTable) × (mem' : Memory) × (allocate_inflight m g seq table mem
          ≡ ok (table', mem'))
        × Grown (inflight_blocks seq) table mem out table' mem'
  unfolding allocate_inflight
  allocate_inflight-ok g bal d enough one_seq window resumed =
      elim (Bool-cases (ltb 0 seq.content.running_inflight_tokens)) [
        | inr h ↦ (table, mem, rw h, (bal, d, rw h (omega arith), rw h (omega arith)))
        | inl h ↦ elim (append_blocks-cases (num_new_blocks_for_inflight seq) table mem out bal d) [
          | inr (few, _) ↦ absurd (ground (arith, h))
          | inl (table', mem', e, (bal', d', len, less)) ↦ (
            table',
            mem',
            rw (h, resumed h, refuse_window, window, one_seq) e,
            (bal', d', rw h len, rw h less),
          )
        ]
      ]

-- On a valid manager without a sliding window, for a group of one sequence: where the memory
-- requirement is a number of blocks that are free, allocate returns. The manager stays valid, the
-- table of the sequence grows by the blocks for discarded and in-flight tokens, no other table
-- changes, and no more free GPU blocks are taken than the requirement says.
pub allocate-IsValid :
    (m : BlockSpaceManager) (g : SequenceGroup) (seq : Sequence) (r : ℕ) (swaps : Dict ℕ)
    → IsValid m
    → first_seq g ≡ ok seq
    → num_seqs g ≡ 1
    → m.block_sliding_window ≡ none
    → get_memory_requirement m g ≡ ok r
    → can_fulfill_blocks m r ≡ true
    → (m' : BlockSpaceManager) × (swaps' : Dict ℕ) × (allocate m g swaps ≡ ok (m', swaps'))
      × IsValid m'
      × (length (entry m'.block_tables seq.seq_id)
          ≡ length (entry m.block_tables seq.seq_id) + discard_blocks seq + inflight_blocks seq)
      × ((k : ℕ)
          → (seq.seq_id == k) ≡ false
          → Dict.get m'.block_tables k ≡ Dict.get m.block_tables k)
      × (num_free_blocks gpu m.memory ≤ num_free_blocks gpu m'.memory + r)
unfolding allocate can_fulfill_blocks
allocate-IsValid m g seq r swaps v f one_seq window need fits =
    let k = seq.seq_id in
    let out = others m.block_tables k in
    let (parts, resumed) = requirement_parts m g seq r f need in
    let room : r ≤ num_free_blocks gpu m.memory = leb→le r (num_free_blocks gpu m.memory) fits in
    let bal0 =
      IsBalanced-cong m.memory (λ x. refs x m.block_tables)
        (λ x. count x (entry m.block_tables k) + out x) (λ x. refs-split x m.block_tables k)
        v.balanced in
    let (t1, m1, e1, (bal1, d1, len1, less1)) =
      allocate_discarded-ok m seq (entry m.block_tables k) m.memory out bal0
        (entry-IsDistinct m.block_tables k v.distinct) (omega arith) in
    let (t2, m2, pairs, e2, bal2, d2, len2, less2) =
      allocate_swapped-ok m seq t1 m1 out bal1 d1 (omega arith) in
    let (t3, m3, e3, (bal3, d3, len3, less3)) =
      allocate_inflight-ok m seq t2 m2 out g bal2 d2 (omega arith) one_seq window resumed in
    let tables = Dict.put m.block_tables k t3 in
    (
      record m { memory = m3; block_tables = tables },
      update swaps pairs,
      rw (f, e1, e2, e3),
      record {
        balanced =
            IsBalanced-cong m3 (λ x. count x t3 + out x) (λ x. refs x tables)
              (λ x. sym (refs-put_split x m.block_tables k t3)) bal3;
        distinct = AllDistinct-put m.block_tables k t3 v.distinct d3;
        lists = v.lists;
      },
      omega (arith, len1, len2, len3, ap length (entry-put_self m.block_tables k t3)),
      (λ j h. rw (Dict.get-put m.block_tables k j t3, h)),
      omega (arith, less1, less2, less3, parts),
    )
