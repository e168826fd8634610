-- ===== src/Sequence/Member.antt =====
-- vllm/sequence.py: Sequence. The texts, the log-probabilities and the detokenizer's offsets are
-- left out; the set of tokens that have a log-probability is an argument of `append_token_id`.
use mars_codebase.Block
use mars_codebase.Block.{LogicalTokenBlock, append_tokens, get_num_empty_slots, is_full}
use mars_codebase.Sequence.Data.{
  SequenceData, append_token, new_data, num_required_blocks, num_required_blocks_inflight,
  num_required_blocks_resume_discard, num_required_blocks_resume_swap,
}
use mars_codebase.Prelude.{
  Bool, List, Result, [], assertion_error, attribute_error, drop, err, false, if◌then◌else◌,
  index_error, last?, leb, length, ltb, none, or_raise, out_of_fuel, set_last, some, suc, take,
  true, zero, ℕ, ◌++◌, ◌+◌, ◌-◌, ◌==◌, ◌>>=◌, ◌>>◌, ◌||◌, ◌∷◌, guard, ok,
}
use mars_codebase.Prelude.Int.{eq_ℤ, ℤ}
use mars_codebase.Sequence.Status.{SequenceStatus, is_status}

pub record Sequence : Type 0 where
  pub seq_id : ℕ
  pub block_size : ℕ
  pub content : SequenceData
  pub logical_token_blocks : List LogicalTokenBlock
  pub status : SequenceStatus
  pub discard_idx : ℕ
  pub starvation_counter : ℕ
  pub starvation_quantum : ℕ
  pub starvation_threshold : ℕ
  pub quantum_value : ℕ

-- Sequence._append_logical_block
abbrev pub append_logical_block : ℕ → List LogicalTokenBlock → List LogicalTokenBlock
append_logical_block block_size blocks = blocks ++ Block.init (length blocks) block_size ∷ []

-- `if not self.logical_token_blocks: self._append_logical_block()`
unfoldable pub ensure_block : ℕ → List LogicalTokenBlock → List LogicalTokenBlock
ensure_block block_size [] = append_logical_block block_size []
ensure_block block_size (b ∷ blocks) = b ∷ blocks

-- `if last_block.is_full(): self._append_logical_block()`
unfoldable pub ensure_room : ℕ → List LogicalTokenBlock → List LogicalTokenBlock
ensure_room block_size blocks = elim (last? blocks) [
  | none ↦ blocks
  | some b ↦ if is_full b then append_logical_block block_size blocks else blocks
]

-- The rest of a round: what fits is written to the last block; the tokens that are left.
unfoldable pub write_last :
    List LogicalTokenBlock → List ℤ → Result (List LogicalTokenBlock × List ℤ)
write_last blocks token_ids = do
  last_block ← or_raise (last? blocks) index_error
  let slots = get_num_empty_slots last_block
  written ← append_tokens last_block (take slots token_ids)
  ok (set_last blocks written, drop slots token_ids)

-- One round of the loop of _append_tokens_to_blocks, on the tokens from the cursor on.
abbrev pub append_round :
    ℕ → List LogicalTokenBlock → List ℤ → Result (List LogicalTokenBlock × List ℤ)
append_round block_size blocks token_ids =
    write_last (ensure_room block_size (ensure_block block_size blocks)) token_ids

-- The loop `while cursor < len(token_ids)`. A round writes a token, so the number of tokens is fuel
-- enough where blocks have slots; with `block_size` 0 the code runs on.
unfoldable pub append_rounds :
    ℕ → ℕ → List LogicalTokenBlock → List ℤ → Result (List LogicalTokenBlock)
append_rounds fuel block_size blocks [] = ok blocks
append_rounds zero block_size blocks (t ∷ token_ids) = err out_of_fuel
append_rounds (suc fuel) block_size blocks (t ∷ token_ids) = do
  (blocks', rest) ← append_round block_size blocks (t ∷ token_ids)
  append_rounds fuel block_size blocks' rest

-- Sequence._append_tokens_to_blocks
unfoldable pub append_tokens_to_blocks :
    ℕ → List LogicalTokenBlock → List ℤ → Result (List LogicalTokenBlock)
append_tokens_to_blocks block_size blocks token_ids =
    append_rounds (length token_ids) block_size blocks token_ids

-- Sequence.__init__
unfoldable pub new_sequence : ℕ → List ℤ → ℕ → Result Sequence
new_sequence seq_id prompt_token_ids block_size = do
  blocks ← append_tokens_to_blocks block_size [] prompt_token_ids
  ok (record {
    seq_id = seq_id;
    block_size = block_size;
    content = new_data prompt_token_ids;
    logical_token_blocks = blocks;
    status = SequenceStatus.waiting;
    discard_idx = 0;
    starvation_counter = 0;
    starvation_quantum = 0;
    starvation_threshold = 2000;
    quantum_value = 1;
  })

-- `token_id in logprobs`, on the keys of the dictionary.
abbrev pub mem_ℤ : ℤ → List ℤ → Bool
mem_ℤ t [] = false
mem_ℤ t (u ∷ us) = eq_ℤ t u || mem_ℤ t us

-- Sequence.append_token_id
unfoldable pub append_token_id : Sequence → ℤ → List ℤ → Result Sequence
append_token_id s token_id logprobs = do
  guard (mem_ℤ token_id logprobs) assertion_error
  blocks ← append_tokens_to_blocks s.block_size s.logical_token_blocks (token_id ∷ [])
  ok (record s { logical_token_blocks = blocks; content = append_token s.content token_id })

-- Sequence.set_starvation_threshold_and_quantum
unfoldable pub set_starvation_threshold_and_quantum : Sequence → ℕ → ℕ → Sequence
set_starvation_threshold_and_quantum s threshold quantum = record s {
  starvation_threshold = threshold;
  quantum_value = quantum;
}

-- Sequence.reset_starvation_paused
unfoldable pub reset_starvation_paused : Sequence → Sequence
reset_starvation_paused s = record s { starvation_counter = 0; starvation_quantum = 0 }

-- Sequence.check_reset_starvation_scheduled
unfoldable pub check_reset_starvation_scheduled : Sequence → Result Sequence
check_reset_starvation_scheduled s = do
  guard (is_status s.status SequenceStatus.running) assertion_error
  ok (
      if ltb 0 s.starvation_quantum
      then record s { starvation_quantum = s.starvation_quantum - 1 }
      else record s { starvation_counter = 0 })

-- Sequence.check_starvation_high_priority
unfoldable pub check_starvation_high_priority : Sequence → Result (Sequence × Bool)
check_starvation_high_priority s = do
  guard (is_status s.status SequenceStatus.waiting) assertion_error
  ok (
      if ltb 0 s.starvation_quantum
      then (record s { starvation_quantum = s.starvation_quantum - 1 }, true)
      else if leb s.starvation_threshold s.starvation_counter
      then (record s { starvation_quantum = s.quantum_value; starvation_counter = 0 }, false)
      else (s, false))

-- Sequence.increment_starvation
unfoldable pub increment_starvation : Sequence → Result Sequence
increment_starvation s = do
  guard (is_status s.status SequenceStatus.waiting) assertion_error
  ok (
      if s.starvation_quantum == 0
      then record s { starvation_counter = s.starvation_counter + 1 }
      else s)

-- The properties num_new_blocks_for_resume_discard, _for_resume_swap and _for_inflight.
abbrev pub num_new_blocks_for_resume_discard : Sequence → ℕ
num_new_blocks_for_resume_discard s = num_required_blocks_resume_discard s.content s.block_size

abbrev pub num_new_blocks_for_resume_swap : Sequence → ℕ
num_new_blocks_for_resume_swap s = num_required_blocks_resume_swap s.content

abbrev pub num_new_blocks_for_inflight : Sequence → ℕ
num_new_blocks_for_inflight s = num_required_blocks_inflight s.content s.block_size

-- Sequence.get_num_required_blocks_inflight
abbrev pub get_num_required_blocks_inflight : Sequence → ℕ → Result ℕ
get_num_required_blocks_inflight s inflight_tokens =
    num_required_blocks s.content inflight_tokens s.block_size

-- Sequence.fully_resumsed reads `discard_length` of the sequence, which has no such attribute.
abbrev pub fully_resumsed : Sequence → Result Bool
fully_resumsed s = err attribute_error

-- Sequence.fork: the deep copy under another id.
abbrev pub fork : Sequence → ℕ → Sequence
fork s new_seq_id = record s { seq_id = new_seq_id }
