-- ===== src/Sequence/Blocks.antt =====
-- The loop of Sequence._append_tokens_to_blocks (vllm/sequence.py): it ends, loses no token, and
-- keeps the blocks packed.
use mars_codebase.Block
use mars_codebase.Prelude.{
  List, [], length, ok, refl, sym, ℕ, ◌++◌, ◌<◌, ◌∷◌, ◌≡◌, ◌≤◌, ◌⊎◌, arith, drop, inr, last?-append,
  length-drop, length-take, set_last-append, take, take-append-drop, ◌∙◌, inl, suc, zero,
  Bool-cases, if◌then◌else◌,
}
use mars_codebase.Sequence.Member.{
  write_last, append_round, append_logical_block, append_rounds, append_tokens_to_blocks,
  ensure_block, ensure_room,
}
use mars_codebase.Block.Laws.{IsWellFormed, append_tokens-ok, init-IsWellFormed}
use mars_codebase.Block.{LogicalTokenBlock, get_num_empty_slots, is_full}
use mathlib.Core.List.{append_assoc, append-nil}
use mars_codebase.Prelude.Int.{ℤ}

-- The tokens of the blocks, in order.
abbrev pub contents : List LogicalTokenBlock → List ℤ
contents [] = []
contents (b ∷ blocks) = Block.get_token_ids b ++ contents blocks

-- A block of the sequence that holds a token.
pub record IsUsed (block_size : ℕ) (b : LogicalTokenBlock) : Type 0 where
  pub well_formed : IsWellFormed b
  pub size : b.block_size ≡ block_size
  pub used : 0 < b.num_tokens

abbrev pub AllFull : ℕ → List LogicalTokenBlock → Type 0
AllFull block_size [] = Unit
AllFull block_size (b ∷ blocks) =
    IsUsed block_size b × (b.num_tokens ≡ block_size) × AllFull block_size blocks

-- There is no block, or every block but the last is full and the last one is not empty.
abbrev pub IsPacked : ℕ → List LogicalTokenBlock → Type 0
IsPacked block_size blocks =
    (blocks ≡ [])
    ⊎ ((front : List LogicalTokenBlock) × (b : LogicalTokenBlock) × (blocks ≡ front ++ b ∷ [])
        × AllFull block_size front
        × IsUsed block_size b)

contents-append :
    (xs ys : List LogicalTokenBlock) → contents (xs ++ ys) ≡ contents xs ++ contents ys
contents-append [] ys = refl
contents-append (b ∷ xs) ys =
    rw (contents-append xs ys)
      (sym (append_assoc (Block.get_token_ids b) (contents xs) (contents ys)))

AllFull-append :
    (k : ℕ) (xs : List LogicalTokenBlock) (b : LogicalTokenBlock)
    → AllFull k xs
    → IsUsed k b
    → b.num_tokens ≡ k
    → AllFull k (xs ++ b ∷ [])
AllFull-append k [] b h u f = (u, f, tt)
AllFull-append k (x ∷ xs) b h u f = (h.0, h.1, AllFull-append k xs b h.2 u f)

-- A write of at least one token to a last block that has an empty slot.
module _ (k : ℕ) (xs : List LogicalTokenBlock) (l : LogicalTokenBlock) (t : ℤ) (ts : List ℤ) where
  contents-write :
      (c : LogicalTokenBlock) (n : ℕ)
      → Block.get_token_ids c ≡ Block.get_token_ids l ++ take n (t ∷ ts)
      → contents (xs ++ c ∷ []) ++ drop n (t ∷ ts) ≡ contents (xs ++ l ∷ []) ++ t ∷ ts
  contents-write c n e =
      simp (contents-append, e, append-nil, append_assoc) (rw (take-append-drop n (t ∷ ts)))

  write_last-ok :
      AllFull k xs
      → IsWellFormed l
      → l.block_size ≡ k
      → l.num_tokens < k
      → (blocks : List LogicalTokenBlock) × (rest : List ℤ) × (write_last (xs ++ l ∷ []) (t ∷ ts)
          ≡ ok (blocks, rest))
        × IsPacked k blocks
        × (contents blocks ++ rest ≡ contents (xs ++ l ∷ []) ++ t ∷ ts)
        × (length rest ≤ length ts)
  unfolding write_last get_num_empty_slots
  write_last-ok full w size room =
      let n = get_num_empty_slots l in
      let (c, done, w', held, count, size', _) =
        append_tokens-ok l (take n (t ∷ ts)) w (omega (arith, length-take n (t ∷ ts))) in
      (
        xs ++ c ∷ [],
        drop n (t ∷ ts),
        rw (last?-append xs l, done, set_last-append xs l c),
        inr (
          xs,
          c,
          refl,
          full,
          record {
            well_formed = w';
            size = size' ∙ size;
            used = omega (arith, count, length-take n (t ∷ ts));
          },
        ),
        contents-write c n held,
        omega (arith, length-drop n (t ∷ ts)),
      )

-- The last block, once the round has seen to it that there is one with an empty slot.
abbrev HasRoom : ℕ → List LogicalTokenBlock → List LogicalTokenBlock → Type 0
HasRoom k before after =
    (xs : List LogicalTokenBlock) × (l : LogicalTokenBlock) × (after ≡ xs ++ l ∷ [])
    × AllFull k xs
    × IsWellFormed l
    × (l.block_size ≡ k)
    × (l.num_tokens < k)
    × (contents (xs ++ l ∷ []) ≡ contents before)

new-HasRoom :
    (k : ℕ) (xs : List LogicalTokenBlock)
    → 0 < k
    → AllFull k xs
    → HasRoom k xs (append_logical_block k xs)
unfolding Block.init Block.get_token_ids
new-HasRoom k xs h full = (
  xs,
  Block.init (length xs) k,
  refl,
  full,
  init-IsWellFormed (length xs) k,
  refl,
  h,
  contents-append xs (Block.init (length xs) k ∷ []) ∙ append-nil (contents xs),
)

ensure_block-append :
    (k : ℕ) (xs : List LogicalTokenBlock) (l : LogicalTokenBlock)
    → ensure_block k (xs ++ l ∷ []) ≡ xs ++ l ∷ []
unfolding ensure_block
ensure_block-append k [] l = refl
ensure_block-append k (x ∷ xs) l = refl

ensure_room-append :
    (k : ℕ) (xs : List LogicalTokenBlock) (l : LogicalTokenBlock)
    → ensure_room k (xs ++ l ∷ [])
      ≡ (if is_full l then append_logical_block k (xs ++ l ∷ []) else xs ++ l ∷ [])
unfolding ensure_room
ensure_room-append k xs l = rw (last?-append xs l, ensure_room)

ensure_room-HasRoom :
    (k : ℕ) (xs : List LogicalTokenBlock) (l : LogicalTokenBlock)
    → 0 < k
    → AllFull k xs
    → IsWellFormed l
    → l.block_size ≡ k
    → (l.num_tokens ≡ k → IsUsed k l)
    → HasRoom k (xs ++ l ∷ []) (ensure_room k (xs ++ l ∷ []))
unfolding is_full
ensure_room-HasRoom k xs l h full w size used = elim (Bool-cases (is_full l)) [
  | inl e ↦
      let f : l.num_tokens ≡ k = ground arith in
      rw (ensure_room-append k xs l, e)
        (new-HasRoom k (xs ++ l ∷ []) h (AllFull-append k xs l full (used f) f))
  | inr e ↦
      rw (ensure_room-append k xs l, e) (xs, l, refl, full, w, size, ground (arith, w.fits), refl)
]

ensure-HasRoom :
    (k : ℕ) (blocks : List LogicalTokenBlock)
    → 0 < k
    → IsPacked k blocks
    → HasRoom k blocks (ensure_room k (ensure_block k blocks))
unfolding ensure_block Block.init Block.get_token_ids
ensure-HasRoom k blocks h (inl e) = rw e (
    ensure_room-HasRoom k [] (Block.init 0 k) h tt (init-IsWellFormed 0 k) refl
      (λ p. absurd (omega arith)))
ensure-HasRoom k blocks h (inr (xs, l, e, full, u)) =
    rw (e, ensure_block-append k xs l)
      (ensure_room-HasRoom k xs l h full u.well_formed u.size (λ _. u))

-- One round of the loop, whatever the blocks are.
round-ok :
    (k : ℕ) (t : ℤ) (ts : List ℤ) (blocks : List LogicalTokenBlock)
    → 0 < k
    → IsPacked k blocks
    → (blocks' : List LogicalTokenBlock) × (rest : List ℤ) × (append_round k blocks (t ∷ ts)
        ≡ ok (blocks', rest))
      × IsPacked k blocks'
      × (contents blocks' ++ rest ≡ contents blocks ++ t ∷ ts)
      × (length rest ≤ length ts)
round-ok k t ts blocks h packed =
    let (xs, l, e, full, w, size, room, same) = ensure-HasRoom k blocks h packed in
    rw (e, ← same) (write_last-ok k xs l t ts full w size room)

rounds-ok :
    (fuel k : ℕ) (blocks : List LogicalTokenBlock) (ts : List ℤ)
    → 0 < k
    → IsPacked k blocks
    → length ts ≤ fuel
    → (blocks' : List LogicalTokenBlock) × (append_rounds fuel k blocks ts ≡ ok blocks')
      × IsPacked k blocks'
      × (contents blocks' ≡ contents blocks ++ ts)
unfolding append_rounds
rounds-ok fuel k blocks [] h packed enough =
    (blocks, refl, packed, sym (append-nil (contents blocks)))
rounds-ok zero k blocks (t ∷ ts) h packed enough = absurd (omega arith)
rounds-ok (suc fuel) k blocks (t ∷ ts) h packed enough =
    let (blocks', rest, done, packed', same, less) = round-ok k t ts blocks h packed in
    let (final, ends, packed'', same') = rounds-ok fuel k blocks' rest h packed' (omega arith) in
    (final, rw done ends, packed'', same' ∙ same)

-- With a positive block size and packed blocks the loop ends without an exception, whatever tokens
-- it is given: it keeps the blocks packed, and the blocks then hold the old tokens followed by the
-- new ones.
pub append_tokens_to_blocks-ok :
    (k : ℕ) (blocks : List LogicalTokenBlock) (ts : List ℤ)
    → 0 < k
    → IsPacked k blocks
    → (blocks' : List LogicalTokenBlock) × (append_tokens_to_blocks k blocks ts ≡ ok blocks')
      × IsPacked k blocks'
      × (contents blocks' ≡ contents blocks ++ ts)
unfolding append_tokens_to_blocks
append_tokens_to_blocks-ok k blocks ts h packed =
    rounds-ok (length ts) k blocks ts h packed (omega arith)
