-- ===== src/BlockManager/SameBlocks.antt =====
-- Lists that hold the same blocks equally often have as many blocks off a device: the size of a set
-- of blocks (vllm/core/block_manager.py) does not depend on how the set is listed.
use mars_codebase.BlockManager.Balance.{count, is_same_eq, one}
use mars_codebase.BlockManager.Eviction.{remove_block}
use mars_codebase.BlockManager.SwapTable.{pending}
use mars_codebase.Prelude.{
  Bool-cases, [], arith, inl, inr, length, refl, ◌+◌, ◌<◌, ◌∷◌, ◌≡◌, ap, false, sym,
}
use mars_codebase.Block.{Device, PhysicalTokenBlock, cpu, gpu, is_device, is_same}
use mars_codebase.BlockManager.Tables.{BlockTable}
use mars_codebase.BlockManager.Valid.{one_self}
use mars_codebase.BlockManager.Moves.{away}
use mars_codebase.Sequence.Group.{keep}
use mars_codebase.BlockManager.Memory.{other}

zero_one : (c b : PhysicalTokenBlock) → is_same c b ≡ false → one c b ≡ 0
zero_one c b e = rw e

count-remove_block :
    (b x : PhysicalTokenBlock) (table : BlockTable)
    → 0 < count b table
    → count x (remove_block b table) + one b x ≡ count x table
count-remove_block b x [] h = absurd (omega arith)
count-remove_block b x (c ∷ table) h = elim (Bool-cases (is_same c b)) [
  | inl e ↦
      let same : one b x ≡ one c x = ap (λ y. one y x) (sym (is_same_eq c b e)) in
      rw e (omega (arith, same))
  | inr e ↦
      let there : 0 < count b table = omega (arith, h, zero_one c b e) in
      rw e (omega (arith, count-remove_block b x table there))
]

pending-remove_block :
    (t : Device) (b : PhysicalTokenBlock) (table : BlockTable)
    → 0 < count b table
    → pending t (remove_block b table) + away t b ≡ pending t table
pending-remove_block t b [] h = absurd (omega arith)
pending-remove_block t b (c ∷ table) h = elim (Bool-cases (is_same c b)) [
  | inl e ↦
      let same : away t b ≡ away t c = ap (away t) (sym (is_same_eq c b e)) in
      rw e (omega (arith, same))
  | inr e ↦
      let there : 0 < count b table = omega (arith, h, zero_one c b e) in
      rw e (omega (arith, pending-remove_block t b table there))
]

pub pending_same :
    (t : Device) (xs ys : BlockTable)
    → ((x : PhysicalTokenBlock) → count x xs ≡ count x ys)
    → pending t xs ≡ pending t ys
pending_same t [] [] h = refl
pending_same t [] (y ∷ ys) h = absurd (omega (arith, h y, one_self y))
pending_same t (x ∷ xs) ys h =
    let there : 0 < count x ys = omega (arith, h x, one_self x) in
    omega (
      arith,
      pending-remove_block t x ys there,
      pending_same t xs (remove_block x ys)
          (λ z. omega (arith, h z, count-remove_block x z ys there)),
    )

-- The blocks of a list that stand on the other device.
pub length-keep :
    (t : Device) (table : BlockTable)
    → length (keep (λ b. is_device b.device (other t)) table) ≡ pending t table
length-keep t [] = refl
length-keep gpu (b ∷ table) = ground (arith, length-keep gpu table)
length-keep cpu (b ∷ table) = ground (arith, length-keep cpu table)
