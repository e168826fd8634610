-- ===== src/BlockManager/RefCounts.antt =====
-- The reference counts and the lengths of the free lists (vllm/core/block_manager.py).
use mars_codebase.Prelude.{
  List, [], ok, ℕ, ◌+◌, ◌∷◌, ◌≡◌, Bool-cases, arith, inl, inr, refl, false, ◌<◌, subst, ap, sym,
  err, length, value_error,
}
use mars_codebase.BlockManager.Memory.{
  Memory, allocate_on, allocator, free_on, num_free_blocks, other, set_ref_count, share,
}
use mars_codebase.BlockManager.Balance.{
  Balanced, IsBalanced, allocate_on-ok, is_same_eq, is_same_refl, is_used_pos,
}
use mars_codebase.BlockManager.Allocator.{Store, assign}
use mars_codebase.Block.{Device, PhysicalTokenBlock, cpu, gpu, is_same}

-- A block that nobody holds cannot be freed.
pub free_on-double :
    (d : Device) (m : Memory) (held : Store) (c : PhysicalTokenBlock)
    → IsBalanced m held
    → held c ≡ 0
    → free_on d m c ≡ err value_error
unfolding free_on
free_on-double d m held c bal h = ground (arith, (bal c).counted)

counted_self :
    (m : Memory) (c : PhysicalTokenBlock) (n k : ℕ)
    → Balanced m c k
    → 0 < k
    → 0 < n
    → Balanced (set_ref_count m c n) c n
counted_self m c n k bal h h' =
    ground (arith, is_same_refl c, bal.home, bal.away, is_used_pos k, is_used_pos n)

counted_other :
    (m : Memory) (c b : PhysicalTokenBlock) (n k : ℕ)
    → Balanced m b k
    → is_same c b ≡ false
    → Balanced (set_ref_count m c n) b k
counted_other m c b n k bal e = ground (arith, bal.counted, bal.home, bal.away)

-- `block.ref_count = n` of a block that is held.
pub set_ref_count-balance :
    (m : Memory) (held : Store) (c : PhysicalTokenBlock) (n : ℕ)
    → IsBalanced m held
    → 0 < held c
    → 0 < n
    → IsBalanced (set_ref_count m c n) (assign held c n)
set_ref_count-balance m held c n bal h h' b = elim (Bool-cases (is_same c b)) [
  | inl e ↦ rw e (
      subst (λ x. Balanced (set_ref_count m c n) x n) (is_same_eq c b e)
        (counted_self m c n (held c) (bal c) h h'))
  | inr e ↦ rw e (counted_other m c b n (held b) (bal b) e)
]

-- `block.ref_count += 1` of a block that is held.
pub share-balance :
    (m : Memory) (held : Store) (c : PhysicalTokenBlock)
    → IsBalanced m held
    → 0 < held c
    → IsBalanced (share m c) (assign held c (held c + 1))
share-balance m held c bal h =
    subst (λ n. IsBalanced (set_ref_count m c (n + 1)) (assign held c (held c + 1)))
      (sym (bal c).counted) (set_ref_count-balance m held c (held c + 1) bal h (omega arith))

pub allocate_on-num_free_blocks :
    (d : Device) (m : Memory) (c : PhysicalTokenBlock) (m' : Memory)
    → allocate_on d m ≡ ok (c, m')
    → num_free_blocks d m ≡ num_free_blocks d m' + 1
allocate_on-num_free_blocks gpu m c m' e =
    let (rest, f, g) = allocate_on-ok gpu m c m' e in
    omega (arith, ap length f, ap (num_free_blocks gpu) g)
allocate_on-num_free_blocks cpu m c m' e =
    let (rest, f, g) = allocate_on-ok cpu m c m' e in
    omega (arith, ap length f, ap (num_free_blocks cpu) g)

pub allocate_on-empty :
    (d : Device) (m : Memory) → num_free_blocks d m ≡ 0 → allocate_on d m ≡ err value_error
unfolding allocate_on
allocate_on-empty d m h = go (allocator d m).free_blocks refl
  where
    go :
        (l : List PhysicalTokenBlock)
        → (allocator d m).free_blocks ≡ l
        → allocate_on d m ≡ err value_error
    go [] f = rw f
    go (c ∷ rest) f = absurd (omega (arith, ap length f))

pub free_on-num_free_blocks :
    (d : Device) (m m' : Memory) (c : PhysicalTokenBlock)
    → free_on (other d) m c ≡ ok m'
    → num_free_blocks d m' ≡ num_free_blocks d m
unfolding free_on
free_on-num_free_blocks gpu m m' c e = ground arith
free_on-num_free_blocks cpu m m' c e = ground arith
