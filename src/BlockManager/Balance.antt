-- ===== src/BlockManager/Balance.antt =====
-- The balance of the memory (vllm/core/block_manager.py): the count of a block is the number of
-- places that hold it, and a block is on its free list exactly when nobody holds it.
use mars_codebase.Prelude.{
  List, [], if◌then◌else◌, ltb, ok, suc, zero, ℕ, ◌+◌, ◌∷◌, ◌≡◌, Bool-cases, arith, inl, inr, refl,
  true, false, ◌<◌, subst, ap, sym, ◌-◌, length, ◌==◌, ◌∙◌,
}
use mars_codebase.BlockManager.Memory.{
  Memory, allocate_on, allocator, with_allocator, free_on, other,
}
use mars_codebase.Block.{Device, PhysicalTokenBlock, cpu, gpu, is_same}
use mars_codebase.BlockManager.Allocator.{assign, Store, get_num_free_blocks}

-- How often a list holds a block.
abbrev pub count : PhysicalTokenBlock → List PhysicalTokenBlock → ℕ
count b [] = 0
count b (c ∷ cs) = (if is_same c b then 1 else 0) + count b cs

abbrev pub is_used : ℕ → ℕ
is_used zero = 0
is_used (suc n) = 1

-- The allocator of the block's device made an object with this number.
abbrev pub exists : Memory → PhysicalTokenBlock → ℕ
exists m b = if ltb b.block_number (allocator b.device m).num_blocks then 1 else 0

-- What holds of a block that is held in `held` places.
pub record Balanced (m : Memory) (b : PhysicalTokenBlock) (held : ℕ) : Type 0 where
  pub counted : m.ref_count b ≡ held
  pub home : count b (allocator b.device m).free_blocks + is_used held ≡ exists m b
  pub away : count b (allocator (other b.device) m).free_blocks ≡ 0

-- Every block is held as often as `held` says.
abbrev pub IsBalanced : Memory → (PhysicalTokenBlock → ℕ) → Type 0
IsBalanced m held = (b : PhysicalTokenBlock) → Balanced m b (held b)

-- 1 for the block itself, 0 for another.
abbrev pub one : PhysicalTokenBlock → PhysicalTokenBlock → ℕ
one c b = if is_same c b then 1 else 0

pub is_same_refl : (b : PhysicalTokenBlock) → is_same b b ≡ true
is_same_refl b = ground arith

pub is_same_eq : (a b : PhysicalTokenBlock) → is_same a b ≡ true → a ≡ b
is_same_eq a b h = ground arith

pub is_same_sym : (a b : PhysicalTokenBlock) → is_same a b ≡ is_same b a
is_same_sym a b = ground arith

pub is_used_zero : (n : ℕ) → is_used n ≡ 0 → n ≡ 0
is_used_zero zero h = refl
is_used_zero (suc n) h = absurd (omega arith)

pub is_used_pos : (n : ℕ) → 0 < n → is_used n ≡ 1
is_used_pos zero h = absurd (omega arith)
is_used_pos (suc n) h = refl

-- What `allocate` did, where it returned.
pub allocate_on-ok :
    (d : Device) (m : Memory) (c : PhysicalTokenBlock) (m' : Memory)
    → allocate_on d m ≡ ok (c, m')
    → (rest : List PhysicalTokenBlock) × ((allocator d m).free_blocks ≡ c ∷ rest)
      × (m'
          ≡ with_allocator d m
              (record (allocator d m) { free_blocks = rest })
              (assign m.ref_count c 1))
unfolding allocate_on
allocate_on-ok d m c m' e = go (allocator d m).free_blocks refl
  where
    go :
        (l : List PhysicalTokenBlock)
        → (allocator d m).free_blocks ≡ l
        → (rest : List PhysicalTokenBlock) × ((allocator d m).free_blocks ≡ c ∷ rest)
          × (m'
              ≡ with_allocator d m
                  (record (allocator d m) { free_blocks = rest })
                  (assign m.ref_count c 1))
    go [] f = absurd (ground arith)
    go (x ∷ rest) f = (rest, ground arith, ground arith)

-- A block on a free list is free, and on its own device.
free-facts :
    (d : Device) (m : Memory) (held : PhysicalTokenBlock → ℕ) (c : PhysicalTokenBlock)
    → IsBalanced m held
    → 0 < count c (allocator d m).free_blocks
    → (c.device ≡ d) × (held c ≡ 0)
free-facts gpu m held c bal h = ground (arith, (bal c).home, (bal c).away, is_used_zero (held c))
free-facts cpu m held c bal h = ground (arith, (bal c).home, (bal c).away, is_used_zero (held c))

abbrev changed : Device → Memory → List PhysicalTokenBlock → PhysicalTokenBlock → ℕ → Memory
changed d m l c n =
    with_allocator d m (record (allocator d m) { free_blocks = l }) (assign m.ref_count c n)

changed_other :
    (d : Device) (m : Memory) (c b : PhysicalTokenBlock) (l : List PhysicalTokenBlock) (n held : ℕ)
    → Balanced m b held
    → is_same c b ≡ false
    → count b l ≡ count b (allocator d m).free_blocks
    → Balanced (changed d m l c n) b held
changed_other gpu m c b l n held bal e same = ground (arith, bal.counted, bal.home, bal.away)
changed_other cpu m c b l n held bal e same = ground (arith, bal.counted, bal.home, bal.away)

changed_self :
    (d : Device) (m : Memory) (c : PhysicalTokenBlock) (l : List PhysicalTokenBlock) (n held : ℕ)
    → Balanced m c held
    → c.device ≡ d
    → count c l + is_used n ≡ exists m c
    → Balanced (changed d m l c n) c n
changed_self gpu m c l n held bal home total = ground (arith, bal.away, is_same_refl c)
changed_self cpu m c l n held bal home total = ground (arith, bal.away, is_same_refl c)

-- A memory in which only the free list of `d` and the count of `c` change.
with_allocator-balance :
    (d : Device) (m : Memory) (held : PhysicalTokenBlock → ℕ) (c : PhysicalTokenBlock)
    (l : List PhysicalTokenBlock) (n : ℕ)
    → IsBalanced m held
    → c.device ≡ d
    → ((b : PhysicalTokenBlock)
        → is_same c b ≡ false
        → count b l ≡ count b (allocator d m).free_blocks)
    → count c l + is_used n ≡ exists m c
    → IsBalanced (changed d m l c n) (assign held c n)
with_allocator-balance d m held c l n bal home same total b = elim (Bool-cases (is_same c b)) [
  | inl e ↦ rw e (
      subst (λ x. Balanced (changed d m l c n) x n) (is_same_eq c b e)
        (changed_self d m c l n (held c) (bal c) home total))
  | inr e ↦ rw e (changed_other d m c b l n (held b) (bal b) e (same b e))
]

is_same_home : (a b : PhysicalTokenBlock) → is_same a b ≡ true → a.device ≡ b.device
is_same_home a b h = ground arith

-- Where `allocate` returns, the block is on the right device, was held nowhere, and is held once.
pub allocate_on-balance :
    (d : Device) (m : Memory) (held : Store) (c : PhysicalTokenBlock) (m' : Memory)
    → IsBalanced m held
    → allocate_on d m ≡ ok (c, m')
    → (c.device ≡ d) × (held c ≡ 0) × IsBalanced m' (assign held c 1)
allocate_on-balance d m held c m' bal e =
    let (rest, f, g) = allocate_on-ok d m c m' e in
    let self : count c (c ∷ rest) ≡ suc (count c rest) = ground (arith, is_same_refl c) in
    let facts = free-facts d m held c bal (rw f (omega (arith, self))) in
    let total : count c rest + is_used 1 ≡ exists m c =
      home_total d m c rest (held c) (bal c) facts.0 facts.1 f in
    (
      facts.0,
      facts.1,
      subst (λ x. IsBalanced x (assign held c 1)) (sym g)
          (with_allocator-balance d m held c rest 1 bal facts.0 (λ b e'. rw f (ground (arith, e')))
            total),
    )
  where
    home_total :
        (d : Device) (m : Memory) (c : PhysicalTokenBlock) (rest : List PhysicalTokenBlock) (n : ℕ)
        → Balanced m c n
        → c.device ≡ d
        → n ≡ 0
        → (allocator d m).free_blocks ≡ c ∷ rest
        → count c rest + is_used 1 ≡ exists m c
    home_total gpu m c rest n bal home e f =
        ground (arith, bal.home, is_same_refl c, ap (count c) f)
    home_total cpu m c rest n bal home e f =
        ground (arith, bal.home, is_same_refl c, ap (count c) f)

-- `allocate` returns as long as a block is free, and takes one block from the list.
pub allocate_on-available :
    (d : Device) (m : Memory)
    → 0 < get_num_free_blocks (allocator d m)
    → (c : PhysicalTokenBlock) × (m' : Memory) × (allocate_on d m ≡ ok (c, m'))
unfolding allocate_on
allocate_on-available d m h = go (allocator d m).free_blocks refl
  where
    go :
        (l : List PhysicalTokenBlock)
        → (allocator d m).free_blocks ≡ l
        → (c : PhysicalTokenBlock) × (m' : Memory) × (allocate_on d m ≡ ok (c, m'))
    go [] f = absurd (omega (arith, ap length f))
    go (c ∷ rest) f = (c, changed d m rest c 1, rw f)

abbrev freed_list : ℕ → PhysicalTokenBlock → List PhysicalTokenBlock → List PhysicalTokenBlock
freed_list n c l = if n == 0 then c ∷ l else l

free_on-eq :
    (d : Device) (m : Memory) (c : PhysicalTokenBlock) (n : ℕ)
    → m.ref_count c ≡ suc n
    → free_on d m c ≡ ok (changed d m (freed_list n c (allocator d m).free_blocks) c n)
unfolding free_on
free_on-eq gpu m c n e = ground arith
free_on-eq cpu m c n e = ground arith

freed_total :
    (d : Device) (m : Memory) (c : PhysicalTokenBlock) (n : ℕ)
    → Balanced m c (suc n)
    → c.device ≡ d
    → count c (freed_list n c (allocator d m).free_blocks) + is_used n ≡ exists m c
freed_total gpu m c zero bal e = ground (arith, bal.home, is_same_refl c)
freed_total gpu m c (suc n) bal e = ground (arith, bal.home)
freed_total cpu m c zero bal e = ground (arith, bal.home, is_same_refl c)
freed_total cpu m c (suc n) bal e = ground (arith, bal.home)

-- Where a block is held, `free` returns, and the block is held once less.
pub free_on-balance :
    (d : Device) (m : Memory) (held : Store) (c : PhysicalTokenBlock)
    → IsBalanced m held
    → c.device ≡ d
    → 0 < held c
    → (m' : Memory) × (free_on d m c ≡ ok m') × IsBalanced m' (assign held c (held c - 1))
free_on-balance d m held c bal home h =
    let n = held c - 1 in
    let e : held c ≡ suc n = omega arith in
    (
      changed d m (freed_list n c (allocator d m).free_blocks) c n,
      free_on-eq d m c n ((bal c).counted ∙ e),
      with_allocator-balance d m held c (freed_list n c (allocator d m).free_blocks) n bal home
          (λ b e'. ground (arith, e')) (freed_total d m c n (subst (Balanced m c) e (bal c)) home),
    )
