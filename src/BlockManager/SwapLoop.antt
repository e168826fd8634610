-- ===== src/BlockManager/SwapLoop.antt =====
-- One round and the whole of the swap loops (vllm/core/block_manager.py).
use mars_codebase.Prelude.{
  Bool-cases, arith, false, inl, inr, ok, suc, true, ℕ, ◌&&◌, ◌+◌, ◌-◌, ◌||◌, ◌≡◌, ◌≤◌, subst, ◌<◌,
  err, value_error, zero, ◌⊎◌,
}
use mars_codebase.BlockManager.Memory.{Memory, other, num_free_blocks}
use mars_codebase.BlockManager.Moves.{
  IsBalanced-cong, IsNegative, Targeted, Targets, Targets-mono, allowance, away, with_block,
  target_block-cases,
}
use mars_codebase.BlockManager.Allocator.{Store, assign}
use mars_codebase.BlockManager.Tables.{Moves, move_block}
use mars_codebase.Block.{Device, PhysicalTokenBlock, is_device, is_same}
use mars_codebase.Prelude.Int.{is_zero, negsuc, pos, ℤ}
use mars_codebase.BlockManager.Balance.{IsBalanced, free_on-balance, is_same_eq, is_same_refl}
use mars_codebase.BlockManager.RefCounts.{free_on-num_free_blocks}

device_of : (d t : Device) → is_device d t ≡ true → d ≡ t
device_of d t h = ground arith

other_of : (d t : Device) → is_device d t ≡ false → d ≡ other t
other_of d t h = ground arith

pub allowance_mono : (l : ℤ) (j k : ℕ) → j ≤ k → allowance l j ≤ allowance l k
allowance_mono (pos n) j k h = omega arith
allowance_mono (negsuc n) j k h = h

-- Once `target` is in the table, `b` is given back.
taken_back :
    (out : Store) (b target x : PhysicalTokenBlock)
    → let held = with_block (with_block out b) target in
      assign held b (held b - 1) x ≡ with_block out target x
taken_back out b target x = elim (Bool-cases (is_same b x)) [
  | inl e ↦
      let same : b ≡ x = is_same_eq b x e in
      subst
        (λ y.
          assign (with_block (with_block out b) target) b
            (with_block (with_block out b) target b - 1) y
          ≡ with_block out target y)
        same (rw is_same_refl (omega arith))
  | inr e ↦ rw e (omega arith)
]

not_negative : (l : ℤ) → is_zero l ≡ true → IsNegative l → ⊥
not_negative (pos n) h = λ k. k
not_negative (negsuc n) h = cc

-- A block to be moved within the limit needs a free block.
needed :
    (l : ℤ) (t : Device) (b : PhysicalTokenBlock)
    → (is_device b.device t || is_zero l) ≡ false
    → 0 < allowance l (away t b)
needed (pos zero) t b h = absurd (ground arith)
needed (pos (suc n)) t b h = ground (arith, h)
needed (negsuc n) t b h = ground (arith, h)

-- A round on the block `b` of a table, beside what `out` holds.
module _ (t : Device) (b : PhysicalTokenBlock) (s : Moves) (out kept : Store) where
  abbrev pub MovedBlock : PhysicalTokenBlock → Moves → Type 0
  MovedBlock b' s' =
      (move_block t b s ≡ ok (b', s'))
      × IsBalanced s'.memory (with_block out b')
      × Targets t s'.mapping (with_block kept b')
      × ((k : ℕ)
          → num_free_blocks t s.memory + allowance s'.limit k
            ≤ num_free_blocks t s'.memory + allowance s.limit (away t b + k))
      × (IsNegative s.limit → IsNegative s'.limit × (b'.device ≡ t) × (s'.all_moved ≡ s.all_moved))

  abbrev stay : Moves
  stay = record s { all_moved = s.all_moved && is_device b.device t }

  move_block-stay :
      IsBalanced s.memory (with_block out b)
      → Targets t s.mapping kept
      → (is_device b.device t || is_zero s.limit) ≡ true
      → MovedBlock b stay
  unfolding move_block
  move_block-stay bal w h = (
    rw h,
    bal,
    Targets-mono t s.mapping kept (with_block kept b) (λ x. omega arith) w,
    (λ k. omega (arith, allowance_mono s.limit k (away t b + k) (omega arith))),
    (λ n. elim (Bool-cases (is_device b.device t)) [
      | inl e ↦ (n, device_of b.device t e, ground (arith, e))
      | inr e ↦ absurd (not_negative s.limit (ground (arith, e)) n)
    ]),
  )

  move_block-go :
      (target : PhysicalTokenBlock) (s' : Moves)
      → (is_device b.device t || is_zero s.limit) ≡ false
      → Targeted t b s (with_block out b) kept target s'
      → (m : Memory) × MovedBlock target (record s' { memory = m })
  unfolding move_block
  move_block-go target s' h (eq, bal, w, home, spent, neg, same) =
      let held = with_block (with_block out b) target in
      let e : is_device b.device t ≡ false = ground (arith, h) in
      let z : is_zero s.limit ≡ false = ground (arith, h) in
      let (m, done, bal') =
        free_on-balance (other t) s'.memory held b bal (other_of b.device t e)
          (rw is_same_refl (omega arith)) in
      (
        m,
        (
          rw (h, eq, done),
          IsBalanced-cong m (assign held b (held b - 1)) (with_block out target)
              (λ x. taken_back out b target x) bal',
          w,
          (λ k. omega (
            arith,
            spent k z,
            free_on-num_free_blocks t s'.memory m b done,
            allowance_mono s.limit (suc k) (away t b + k) (rw e (omega arith)),
          )),
          (λ n. (neg n, home, same)),
        ),
      )

  -- A round returns if its block stays, is shared or finds a free block; else it raises.
  pub move_block-cases :
      IsBalanced s.memory (with_block out b)
      → ((x : PhysicalTokenBlock) → kept x ≤ out x)
      → Targets t s.mapping kept
      → ((b' : PhysicalTokenBlock) × (s' : Moves) × MovedBlock b' s')
        ⊎ ((num_free_blocks t s.memory < allowance s.limit (away t b))
            × (move_block t b s ≡ err value_error))
  unfolding move_block
  move_block-cases bal le w = elim (Bool-cases (is_device b.device t || is_zero s.limit)) [
    | inl h ↦ inl (b, stay, move_block-stay bal w h)
    | inr h ↦
        elim (target_block-cases t b s (with_block out b) kept bal (λ x. omega (arith, le x)) w) [
          | inl (target, s', moved) ↦
              let (m, r) = move_block-go target s' h moved in
              inl (target, record s' { memory = m }, r)
          | inr (z, e) ↦ inr (rw z (needed s.limit t b h), rw (h, e))
        ]
  ]
