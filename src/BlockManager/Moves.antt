-- ===== src/BlockManager/Moves.antt =====
-- The swap loops (vllm/core/block_manager.py) keep the memory balanced, and return as long as
-- enough blocks of the target device are free.
use mars_codebase.Prelude.{
  Bool-cases, List, Option-cases, [], arith, inl, inr, ok, some, subst, ◌++◌, ◌+◌, ◌<◌, ◌∷◌, ◌≡◌,
  ◌≤◌, false, if◌then◌else◌, min, none, refl, suc, ℕ, ap, err, ltb, ltb→lt, value_error, zero, ◌⊎◌,
}
use mars_codebase.BlockManager.Tables.{Moves, find_block, target_block}
use mars_codebase.BlockManager.Memory.{Memory, allocate_on, share, num_free_blocks}
use mars_codebase.Block.{Device, PhysicalTokenBlock, is_same, is_device, cpu, gpu}
use mars_codebase.BlockManager.Allocator.{Store, assign}
use mathlib.Core.Path.{fun_ext}
use mars_codebase.Prelude.Int.{decrement, is_zero, negsuc, pos, ℤ}
use mars_codebase.BlockManager.Balance.{
  IsBalanced, allocate_on-available, allocate_on-balance, is_same_eq, is_same_refl, one,
}
use mars_codebase.BlockManager.RefCounts.{
  allocate_on-empty, allocate_on-num_free_blocks, share-balance,
}

pub IsBalanced-cong :
    (m : Memory) (f g : Store)
    → ((b : PhysicalTokenBlock) → f b ≡ g b)
    → IsBalanced m f
    → IsBalanced m g
IsBalanced-cong m f g h bal = subst (IsBalanced m) (fun_ext h) bal

-- The blocks that the mapping names as targets are held, and are on the target device.
abbrev pub Targets : Device → List (PhysicalTokenBlock × PhysicalTokenBlock) → Store → Type 0
Targets t [] held = Unit
Targets t ((b, target) ∷ mapping) held =
    (0 < held target) × (target.device ≡ t) × Targets t mapping held

pub Targets-mono :
    (t : Device) (mapping : List (PhysicalTokenBlock × PhysicalTokenBlock)) (f g : Store)
    → ((b : PhysicalTokenBlock) → f b ≤ g b)
    → Targets t mapping f
    → Targets t mapping g
Targets-mono t [] f g h w = tt
Targets-mono t ((b, target) ∷ mapping) f g h w =
    (omega (arith, h target), w.1, Targets-mono t mapping f g h w.2)

Targets-append :
    (t : Device) (mapping : List (PhysicalTokenBlock × PhysicalTokenBlock)) (held : Store)
    (b target : PhysicalTokenBlock)
    → Targets t mapping held
    → 0 < held target
    → target.device ≡ t
    → Targets t (mapping ++ (b, target) ∷ []) held
Targets-append t [] held b target w h e = (h, e, tt)
Targets-append t ((c, u) ∷ mapping) held b target w h e =
    (w.0, w.1, Targets-append t mapping held b target w.2 h e)

find_block-Targets :
    (t : Device) (mapping : List (PhysicalTokenBlock × PhysicalTokenBlock)) (held : Store)
    (b target : PhysicalTokenBlock)
    → Targets t mapping held
    → find_block b mapping ≡ some target
    → (0 < held target) × (target.device ≡ t)
find_block-Targets t [] held b target w e = absurd (cc)
find_block-Targets t ((c, u) ∷ mapping) held b target w e = elim (Bool-cases (is_same c b)) [
  | inl p ↦ subst (λ x. (0 < held x) × (x.device ≡ t)) (ground (arith, p)) (w.0, w.1)
  | inr p ↦ find_block-Targets t mapping held b target w.2 (ground (arith, p))
]

-- The place of a block in a table, beside what `out` holds.
abbrev pub with_block : Store → PhysicalTokenBlock → Store
with_block out b x = one b x + out x

-- How many blocks a loop still allocates at most, where `k` blocks are to be moved.
abbrev pub allowance : ℤ → ℕ → ℕ
allowance (pos n) k = min n k
allowance (negsuc n) k = k

abbrev pub IsNegative : ℤ → Type 0
IsNegative (pos n) = ⊥
IsNegative (negsuc n) = Unit

-- 1 for a block that is to be moved.
abbrev pub away : Device → PhysicalTokenBlock → ℕ
away t b = if is_device b.device t then 0 else 1

decrement-IsNegative : (l : ℤ) → IsNegative l → IsNegative (decrement l)
decrement-IsNegative (pos n) h = absurd h
decrement-IsNegative (negsuc n) h = tt

allowance-decrement :
    (l : ℤ) (k : ℕ) → is_zero l ≡ false → allowance (decrement l) k + 1 ≤ allowance l (suc k)
allowance-decrement (pos zero) k h = absurd (cc)
allowance-decrement (pos (suc n)) k h = omega arith
allowance-decrement (negsuc n) k h = omega arith

pub allowance-suc : (l : ℤ) (k : ℕ) → allowance l k ≤ allowance l (suc k)
allowance-suc (pos n) k = omega arith
allowance-suc (negsuc n) k = omega arith

pub num_free_blocks-share :
    (d : Device) (m : Memory) (c : PhysicalTokenBlock)
    → num_free_blocks d (share m c) ≡ num_free_blocks d m
num_free_blocks-share gpu m c = refl
num_free_blocks-share cpu m c = refl

pub assign-with_block :
    (held : Store) (c : PhysicalTokenBlock) (n : ℕ) (x : PhysicalTokenBlock)
    → held c ≡ n
    → assign held c (n + 1) x ≡ with_block held c x
assign-with_block held c n x h = elim (Bool-cases (is_same c x)) [
  | inl e ↦ rw e (omega (arith, ap held (is_same_eq c x e)))
  | inr e ↦ rw e (omega arith)
]

-- `kept` is the part of what is held that the mapping's targets are held by.
module _ (t : Device) (b : PhysicalTokenBlock) (s : Moves) (held kept : Store) where
  abbrev pub Targeted : PhysicalTokenBlock → Moves → Type 0
  Targeted target s' =
      (target_block t b s ≡ ok (target, s'))
      × IsBalanced s'.memory (with_block held target)
      × Targets t s'.mapping (with_block kept target)
      × (target.device ≡ t)
      × ((k : ℕ)
          → is_zero s.limit ≡ false
          → num_free_blocks t s.memory + allowance s'.limit k
            ≤ num_free_blocks t s'.memory + allowance s.limit (suc k))
      × (IsNegative s.limit → IsNegative s'.limit)
      × (s'.all_moved ≡ s.all_moved)

  target_block-new :
      (c : PhysicalTokenBlock) (m' : Memory)
      → IsBalanced s.memory held
      → Targets t s.mapping kept
      → find_block b s.mapping ≡ none
      → allocate_on t s.memory ≡ ok (c, m')
      → Targeted c
          (record s { mapping = s.mapping ++ (b, c) ∷ []; limit = decrement s.limit; memory = m' })
  unfolding target_block
  target_block-new c m' bal w f e =
      let (home, unheld, bal') = allocate_on-balance t s.memory held c m' bal e in
      (
        rw (f, target_block, e),
        IsBalanced-cong m' (assign held c 1) (with_block held c)
            (λ x. assign-with_block held c 0 x unheld) bal',
        Targets-append t s.mapping (with_block kept c) b c
            (Targets-mono t s.mapping kept (with_block kept c) (λ x. omega arith) w)
            (rw is_same_refl (omega arith)) home,
        home,
        (λ k nz. omega (
          arith,
          allocate_on-num_free_blocks t s.memory c m' e,
          allowance-decrement s.limit k nz,
        )),
        decrement-IsNegative s.limit,
        refl,
      )

  target_block-shared :
      (g : PhysicalTokenBlock)
      → IsBalanced s.memory held
      → ((x : PhysicalTokenBlock) → kept x ≤ held x)
      → Targets t s.mapping kept
      → find_block b s.mapping ≡ some g
      → Targeted g (record s { memory = share s.memory g })
  unfolding target_block
  target_block-shared g bal le w f =
      let (found, home) = find_block-Targets t s.mapping kept b g w f in
      let h : 0 < held g = omega (arith, le g) in
      (
        rw (f, target_block),
        IsBalanced-cong (share s.memory g) (assign held g (held g + 1)) (with_block held g)
            (λ x. assign-with_block held g (held g) x refl) (share-balance s.memory held g bal h),
        Targets-mono t s.mapping kept (with_block kept g) (λ x. omega arith) w,
        home,
        (λ k nz. omega (arith, num_free_blocks-share t s.memory g, allowance-suc s.limit k)),
        (λ n. n),
        refl,
      )

  -- What takes a block's contents is found, or is allocated if a block is free.
  pub target_block-cases :
      IsBalanced s.memory held
      → ((x : PhysicalTokenBlock) → kept x ≤ held x)
      → Targets t s.mapping kept
      → ((target : PhysicalTokenBlock) × (s' : Moves) × Targeted target s')
        ⊎ ((num_free_blocks t s.memory ≡ 0) × (target_block t b s ≡ err value_error))
  unfolding target_block
  target_block-cases bal le w = elim (Option-cases (find_block b s.mapping)) [
    | inr (g, f) ↦ inl (g, record s { memory = share s.memory g }, target_block-shared g bal le w f)
    | inl f ↦ elim (Bool-cases (ltb 0 (num_free_blocks t s.memory))) [
      | inl h ↦
          let (c, m', e) = allocate_on-available t s.memory (ltb→lt _ _ h) in
          inl (
            c,
            record s { mapping = s.mapping ++ (b, c) ∷ []; limit = decrement s.limit; memory = m' },
            target_block-new c m' bal w f e,
          )
      | inr h ↦
          let z : num_free_blocks t s.memory ≡ 0 = ground (arith, h) in
          inr (z, rw (f, target_block, allocate_on-empty t s.memory z))
    ]
  ]
