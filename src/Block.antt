-- ===== src/Block.antt =====
-- vllm/block.py: the logical blocks of a sequence and the names of the physical blocks.
pub mod Laws
use mars_codebase.Prelude.{
  ℕ, ◌+◌, ◌-◌, ◌==◌, Bool, ltb, leb, List, ◌++◌, Result, ok, ◌>>=◌, ◌>>◌, guard, or_raise, length,
  take, drop, replicate, get_elem?, assertion_error, index_error, ◌&&◌, true, false,
}
use mars_codebase.Prelude.Int.{ℤ, negsuc}

-- _BLANK_TOKEN_ID = -1
abbrev pub blank_token_id : ℤ
blank_token_id = negsuc 0

pub record LogicalTokenBlock : Type 0 where
  pub block_number : ℕ
  pub block_size : ℕ
  pub token_ids : List ℤ
  pub num_tokens : ℕ

-- LogicalTokenBlock.__init__
unfoldable pub init : ℕ → ℕ → LogicalTokenBlock
init block_number block_size = record {
  block_number = block_number;
  block_size = block_size;
  token_ids = replicate block_size blank_token_id;
  num_tokens = 0;
}

unfoldable pub is_empty : LogicalTokenBlock → Bool
is_empty b = b.num_tokens == 0

-- Truncated where a block held more tokens than its size, which `IsWellFormed` excludes.
unfoldable pub get_num_empty_slots : LogicalTokenBlock → ℕ
get_num_empty_slots b = b.block_size - b.num_tokens

unfoldable pub is_full : LogicalTokenBlock → Bool
is_full b = b.num_tokens == b.block_size

-- The slice assignment token_ids[curr_idx:curr_idx + len(token_ids)] = token_ids.
abbrev pub write_slice : List ℤ → ℕ → List ℤ → List ℤ
write_slice xs i ys = take i xs ++ (ys ++ drop (i + length ys) xs)

unfoldable pub append_tokens : LogicalTokenBlock → List ℤ → Result LogicalTokenBlock
unfolding get_num_empty_slots
append_tokens b token_ids = do
  guard (leb (length token_ids) (get_num_empty_slots b)) assertion_error
  ok (record b {
    token_ids = write_slice b.token_ids b.num_tokens token_ids;
    num_tokens = b.num_tokens + length token_ids;
  })

unfoldable pub get_token_ids : LogicalTokenBlock → List ℤ
get_token_ids b = take b.num_tokens b.token_ids

unfoldable pub get_last_token_id : LogicalTokenBlock → Result ℤ
get_last_token_id b = do
  guard (ltb 0 b.num_tokens) assertion_error
  or_raise (get_elem? b.token_ids (b.num_tokens - 1)) index_error

-- vllm/utils.py
pub data Device : Type 0 where
  gpu cpu : Device

-- A reference to a block object: each allocator makes one object for each of its numbers, and no
-- other, so device and number identify the object. Its `ref_count` is held by the store of
-- `BlockManager`; its `block_size` is read nowhere.
pub record PhysicalTokenBlock : Type 0 where
  pub device : Device
  pub block_number : ℕ

-- block.device == device
abbrev pub is_device : Device → Device → Bool
is_device gpu gpu = true
is_device cpu cpu = true
is_device gpu cpu = false
is_device cpu gpu = false

-- Objects without __eq__ are equal when they are the same object.
abbrev pub is_same : PhysicalTokenBlock → PhysicalTokenBlock → Bool
is_same a b = is_device a.device b.device && a.block_number == b.block_number
