-- ===== src/BlockManager/Swapping.antt =====
-- The swap loops on a table without duplicates (vllm/core/block_manager.py): the new table has none
-- either, and the loops that change the table in place do what the others do.
use mars_codebase.BlockManager.Tables.{
  BlockTable, Moves, find_block, move_block, target_block, move_in_place, move_table,
}
use mars_codebase.Prelude.{
  >>=-eq-ok, Bool-cases, List, [], arith, false, inl, inr, none, ok, ◌++◌, ◌<◌, ◌||◌, ◌∷◌, ◌≡◌, ◌⊎◌,
  ap, refl, ◌+◌, ◌≤◌, Error, Result, err, ◌>>=◌, length, true, ℕ, ◌∙◌,
}
use mars_codebase.Prelude.Int.{is_zero, pos}
use mars_codebase.Block.{Device, PhysicalTokenBlock, is_device, is_same}
use mars_codebase.BlockManager.Memory.{allocate_on, free_on, other, Memory, num_free_blocks}
use mars_codebase.BlockManager.Balance.{IsBalanced, allocate_on-balance, count, is_same_eq}
use mars_codebase.BlockManager.Allocator.{Store}
use mars_codebase.BlockManager.Valid.{IsDistinct, one_self}
use mars_codebase.BlockManager.Moves.{Targets, IsBalanced-cong, with_block}
use mars_codebase.BlockManager.SwapLoop.{move_block-cases}
use mars_codebase.BlockManager.SwapTable.{move_table-cases}

-- No block of the table is in the mapping yet.
abbrev pub IsFresh : List (PhysicalTokenBlock × PhysicalTokenBlock) → BlockTable → Type 0
IsFresh mapping table = (x : PhysicalTokenBlock) → 0 < count x table → find_block x mapping ≡ none

find_block-append :
    (mapping : List (PhysicalTokenBlock × PhysicalTokenBlock)) (b c x : PhysicalTokenBlock)
    → find_block x mapping ≡ none
    → is_same b x ≡ false
    → find_block x (mapping ++ (b, c) ∷ []) ≡ none
find_block-append [] b c x h e = rw e
find_block-append ((d, u) ∷ mapping) b c x h e = elim (Bool-cases (is_same d x)) [
  | inl p ↦ absurd (ground (arith, p))
  | inr p ↦ rw p (find_block-append mapping b c x (ground (arith, p)) e)
]

module _ (t : Device) (b : PhysicalTokenBlock) (s : Moves) (held : Store) where
  -- What a round leaves, where the block is not in the mapping.
  abbrev FreshRound : PhysicalTokenBlock → Moves → Type 0
  FreshRound b' s' =
      ((b' ≡ b) × (s'.mapping ≡ s.mapping))
      ⊎ ((held b' ≡ 0) × (s'.mapping ≡ s.mapping ++ (b, b') ∷ []))

  target_block-fresh :
      (b' : PhysicalTokenBlock) (s' : Moves)
      → IsBalanced s.memory held
      → find_block b s.mapping ≡ none
      → target_block t b s ≡ ok (b', s')
      → (held b' ≡ 0) × (s'.mapping ≡ s.mapping ++ (b, b') ∷ [])
  unfolding target_block
  target_block-fresh b' s' bal f e =
      let ((c, m), e', done) = >>=-eq-ok (allocate_on t s.memory) _ (rw (f, target_block) at e) in
      let (_, unheld, _) = allocate_on-balance t s.memory held c m bal e' in
      (ground arith, ground arith)

  move_block-fresh :
      (b' : PhysicalTokenBlock) (s' : Moves)
      → IsBalanced s.memory held
      → find_block b s.mapping ≡ none
      → move_block t b s ≡ ok (b', s')
      → FreshRound b' s'
  unfolding move_block
  move_block-fresh b' s' bal f e = elim (Bool-cases (is_device b.device t || is_zero s.limit)) [
    | inl h ↦ inl (ground (arith, h), ground (arith, h))
    | inr h ↦
        let ((c, s1), e', rest) = >>=-eq-ok (target_block t b s) _ (rw (h, move_block) at e) in
        let (m, freed, done) = >>=-eq-ok (free_on (other t) s1.memory b) _ rest in
        let (unheld, kept) = target_block-fresh c s1 bal f e' in inr (ground arith, ground arith)
  ]

IsFresh-step :
    (t : Device) (b : PhysicalTokenBlock) (table : BlockTable) (s : Moves) (held : Store)
    (b' : PhysicalTokenBlock) (s' : Moves)
    → IsFresh s.mapping (b ∷ table)
    → count b (b ∷ table) ≤ 1
    → FreshRound t b s held b' s'
    → IsFresh s'.mapping table
IsFresh-step t b table s held b' s' fresh once (inl (_, e)) x h = rw e (fresh x (omega arith))
IsFresh-step t b table s held b' s' fresh once (inr (_, e)) x h = rw e (
    find_block-append s.mapping b b' x (fresh x (omega arith)) (elim (Bool-cases (is_same b x)) [
      | inr p ↦ p
      | inl p ↦ absurd (omega (arith, one_self b, ap (λ y. count y table) (is_same_eq b x p)))
    ]))

-- A loop that changes the table in place does what the loop that builds a new one does.
pub move_in_place-eq :
    (t : Device) (table : BlockTable) (s : Moves) (out kept : Store)
    → IsBalanced s.memory (λ x. count x table + out x)
    → ((x : PhysicalTokenBlock) → kept x ≤ out x)
    → Targets t s.mapping kept
    → IsFresh s.mapping table
    → IsDistinct table
    → move_in_place t table s ≡ move_table t table s
unfolding move_in_place move_table
move_in_place-eq t [] s out kept bal le w fresh d = refl
move_in_place-eq t (b ∷ table) s out kept bal le w fresh d =
    let out1 : Store = λ x. count x table + out x in
    let bal1 =
      IsBalanced-cong s.memory (λ x. count x (b ∷ table) + out x) (with_block out1 b)
        (λ x. omega arith) bal in
    let f = fresh b (omega (arith, one_self b)) in
    elim (move_block-cases t b s out1 kept bal1 (λ x. omega (arith, le x)) w) [
      | inr (_, e) ↦ rw e
      | inl (b', s', (e, bal', w', _, _)) ↦
          let round = move_block-fresh t b s (with_block out1 b) b' s' bal1 f e in
          let bal2 =
            IsBalanced-cong s'.memory (with_block out1 b')
              (λ x. count x table + with_block out b' x) (λ x. omega arith) bal' in
          let fresh' = IsFresh-step t b table s (with_block out1 b) b' s' fresh (d b) round in
          rw (
            e,
            f,
            move_in_place-eq t table s' (with_block out b') (with_block kept b') bal2
                (λ x. omega (arith, le x)) w' fresh' (λ x. omega (arith, d x)),
          )
    ]

raised {ℓ κ} :
    {A : Type ℓ} {B : Type κ} (m : Result A) (f : A → Result B) {e : Error} {b : B}
    → m ≡ err e
    → (m >>= f) ≡ ok b
    → ⊥
raised (ok a) f h h' = cc
raised (err e) f h h' = cc

-- The block of a round is new to what came before and to the rest of the table.
once_more :
    (b b' : PhysicalTokenBlock) (table : BlockTable) (before out : Store) (s s' : Moves)
    (t : Device)
    → ((x : PhysicalTokenBlock) → before x ≤ out x)
    → ((x : PhysicalTokenBlock) → before x + count x (b ∷ table) ≤ 1)
    → FreshRound t b s (with_block (λ y. count y table + out y) b) b' s'
    → (x : PhysicalTokenBlock) → with_block before b' x + count x table ≤ 1
once_more b b' table before out s s' t le d (inl (e, _)) x = rw e (omega (arith, d x))
once_more b b' table before out s s' t le d (inr (z, _)) x = elim (Bool-cases (is_same b' x)) [
  | inl p ↦
      let same = is_same_eq b' x p in
      rw p (omega (arith, z, le b', ap before same, ap (λ y. count y table) same))
  | inr p ↦ rw p (omega (arith, d x))
]

-- The new table has no duplicates, and shares no block with `before`.
pub move_table-distinct :
    (t : Device) (table : BlockTable) (s : Moves) (out before : Store) (table' : BlockTable)
    (s' : Moves)
    → IsBalanced s.memory (λ x. count x table + out x)
    → ((x : PhysicalTokenBlock) → before x ≤ out x)
    → Targets t s.mapping before
    → IsFresh s.mapping table
    → ((x : PhysicalTokenBlock) → before x + count x table ≤ 1)
    → move_table t table s ≡ ok (table', s')
    → (x : PhysicalTokenBlock) → before x + count x table' ≤ 1
unfolding move_table
move_table-distinct t [] s out before table' s' bal le w fresh d e x =
    let same : table' ≡ [] = ground arith in omega (arith, d x, ap (count x) same)
move_table-distinct t (b ∷ table) s out before table' s' bal le w fresh d e x =
    let out1 : Store = λ y. count y table + out y in
    let bal1 =
      IsBalanced-cong s.memory (λ y. count y (b ∷ table) + out y) (with_block out1 b)
        (λ y. omega arith) bal in
    let f = fresh b (omega (arith, one_self b)) in
    elim (move_block-cases t b s out1 before bal1 (λ y. omega (arith, le y)) w) [
      | inr (_, e') ↦ absurd (raised (move_block t b s) _ e' e)
      | inl (b', s', (e', bal', w', _, _)) ↦
          let round = move_block-fresh t b s (with_block out1 b) b' s' bal1 f e' in
          let bal2 =
            IsBalanced-cong s'.memory (with_block out1 b')
              (λ y. count y table + with_block out b' y) (λ y. omega arith) bal' in
          let fresh' =
            IsFresh-step t b table s (with_block out1 b) b' s' fresh (omega (arith, d b)) round in
          let ((rest, s2), e2, done) =
            >>=-eq-ok (move_table t table s') (λ p. ok (b' ∷ p.0, p.1)) (rw e' at e) in
          let same : table' ≡ b' ∷ rest = ground arith in
          let ih =
            move_table-distinct t table s' (with_block out b') (with_block before b') rest s2 bal2
              (λ y. omega (arith, le y)) w' fresh'
              (once_more b b' table before out s s' t le d round) e2 x in
          omega (arith, ih, ap (count x) same)
    ]

-- A loop that starts with an empty mapping on the table of a valid memory, within a limit of `n`
-- blocks, where `n` blocks are free.
pub move_in_place-ok :
    (t : Device) (n : ℕ) (table : BlockTable) (m : Memory) (out : Store)
    → IsBalanced m (λ x. count x table + out x)
    → IsDistinct table
    → n ≤ num_free_blocks t m
    → (table' : BlockTable) × (s' : Moves) × (move_in_place t table
          (record { mapping = []; limit = pos n; all_moved = true; memory = m })
        ≡ ok (table', s'))
      × IsBalanced s'.memory (λ x. count x table' + out x)
      × IsDistinct table'
      × (length table' ≡ length table)
      × (num_free_blocks t m ≤ num_free_blocks t s'.memory + n)
move_in_place-ok t n table m out bal d enough =
    let s : Moves = record { mapping = []; limit = pos n; all_moved = true; memory = m } in
    let same = move_in_place-eq t table s out (λ x. 0) bal (λ x. omega arith) tt (λ x h. refl) d in
    elim (move_table-cases t table s out (λ x. 0) bal (λ x. omega arith) tt) [
      | inr (few, _) ↦ absurd (omega arith)
      | inl (table', s', (e, bal', _, spent, _, len)) ↦ (
        table',
        s',
        same ∙ e,
        bal',
        (λ x. omega (
          arith,
          move_table-distinct t table s out (λ y. 0) table' s' bal (λ y. omega arith) tt
              (λ y h. refl) (λ y. omega (arith, d y)) e x,
        )),
        len,
        omega (arith, spent 0),
      )
    ]
