-- ===== src/Block/Laws.antt =====
-- Logical blocks (vllm/block.py): their shape, and what a block holds after a write.
use mars_codebase.Prelude.{
  ℕ, ◌+◌, ◌≤◌, ◌≡◌, refl, sym, subst, take-length-append, List, ◌++◌, ok, length, take, drop,
  length-take, length-drop, length-append, length-replicate, arith, le→leb,
}
use mars_codebase.Prelude.Int.{ℤ}
use mars_codebase.Block.{
  LogicalTokenBlock, init, append_tokens, get_num_empty_slots, get_token_ids, write_slice,
  blank_token_id,
}
use mathlib.Core.List.{append_assoc}

-- The list has a cell for each slot, and no more slots are taken than there are.
pub record IsWellFormed (b : LogicalTokenBlock) : Type 0 where
  pub cells : length b.token_ids ≡ b.block_size
  pub fits : b.num_tokens ≤ b.block_size

pub init-IsWellFormed : (n k : ℕ) → IsWellFormed (init n k)
unfolding init
init-IsWellFormed n k = record { cells = length-replicate k blank_token_id; fits = omega arith }

-- Where a block is well formed and the tokens fit in its empty slots, append_tokens returns a
-- well-formed block of the same number and size, which holds the old tokens followed by the new
-- ones.
pub append_tokens-ok :
    (b : LogicalTokenBlock) (ts : List ℤ)
    → IsWellFormed b
    → length ts ≤ get_num_empty_slots b
    → (c : LogicalTokenBlock) × (append_tokens b ts ≡ ok c)
      × IsWellFormed c
      × (get_token_ids c ≡ get_token_ids b ++ ts)
      × (c.num_tokens ≡ b.num_tokens + length ts)
      × (c.block_size ≡ b.block_size)
      × (c.block_number ≡ b.block_number)
unfolding append_tokens get_token_ids get_num_empty_slots
append_tokens-ok b ts w h = (
  record b {
    token_ids = write_slice b.token_ids b.num_tokens ts;
    num_tokens = b.num_tokens + length ts;
  },
  rw (le→leb _ _ h),
  record { cells = cells'; fits = omega (arith, w.fits) },
  contents,
  refl,
  refl,
  refl,
)
  where
    front : length (take b.num_tokens b.token_ids) ≡ b.num_tokens
    front = omega (arith, length-take b.num_tokens b.token_ids, w.cells, w.fits)

    cells' : length (write_slice b.token_ids b.num_tokens ts) ≡ b.block_size
    cells' = omega (
      arith,
      front,
      w.cells,
      w.fits,
      length-append (take b.num_tokens b.token_ids)
          (ts ++ drop (b.num_tokens + length ts) b.token_ids),
      length-append ts (drop (b.num_tokens + length ts) b.token_ids),
      length-drop (b.num_tokens + length ts) b.token_ids,
    )

    contents :
        take (b.num_tokens + length ts) (write_slice b.token_ids b.num_tokens ts)
        ≡ take b.num_tokens b.token_ids ++ ts
    contents =
        let xs = take b.num_tokens b.token_ids in
        let zs = drop (b.num_tokens + length ts) b.token_ids in
        let size : b.num_tokens + length ts ≡ length (xs ++ ts) =
          omega (arith, length-append xs ts, front) in
        subst (λ n. take n (xs ++ (ts ++ zs)) ≡ xs ++ ts) (sym size)
          (subst (λ l. take (length (xs ++ ts)) l ≡ xs ++ ts) (append_assoc xs ts zs)
            (take-length-append (xs ++ ts) zs))
