-- ===== src/Sequence/Data.antt =====
-- vllm/sequence.py: SequenceData. The tokens of a sequence are those whose cache is in blocks,
-- `get_len d - d.inflight_length`, and the in-flight ones. The workload fields hold what the
-- current iteration does. Lengths and indices are natural numbers: where the code subtracts, the
-- model stops at 0, and `Sequence.Accounting` has the invariant under which the difference is
-- never negative. `cumulative_logprob`, a float, and `generation_counter`, read nowhere, are left out.
use mars_codebase.Prelude.{
  Bool, List, Result, [], err, index_error, invalid_access, last?, length, none, or_raise, some, ℕ,
  ◌++◌, ◌+◌, ◌-◌, ◌/◌, ◌==◌, ◌>>=◌, ◌∷◌, ok,
}
use mars_codebase.Prelude.Int.{ℤ}

pub record SequenceData : Type 0 where
  pub prompt_token_ids : List ℤ
  pub output_token_ids : List ℤ
  pub seen_tokens : ℕ
  pub discard_start_idx : ℕ
  pub discard_length : ℕ
  pub swap_start_idx : ℕ
  pub swap_length : ℕ
  pub inflight_length : ℕ
  pub resume_discard_tokens : ℕ
  pub resume_swap_blocks : ℕ
  pub running_inflight_tokens : ℕ

-- SequenceData.__init__
unfoldable pub new_data : List ℤ → SequenceData
new_data prompt = record {
  prompt_token_ids = prompt;
  output_token_ids = [];
  seen_tokens = 0;
  discard_start_idx = 0;
  discard_length = 0;
  swap_start_idx = 0;
  swap_length = 0;
  inflight_length = length prompt;
  resume_discard_tokens = 0;
  resume_swap_blocks = 0;
  running_inflight_tokens = 0;
}

-- `@invalidate_access` makes every read of `logical_query_len` raise InvalidAccessError.
abbrev pub logical_query_len : SequenceData → Result ℕ
logical_query_len d = err invalid_access

unfoldable pub append_token : SequenceData → ℤ → SequenceData
append_token d token_id = record d {
  output_token_ids = d.output_token_ids ++ token_id ∷ [];
  inflight_length = d.inflight_length + 1;
}

abbrev pub get_len : SequenceData → ℕ
get_len d = length d.output_token_ids + length d.prompt_token_ids

abbrev pub get_prompt_len : SequenceData → ℕ
get_prompt_len d = length d.prompt_token_ids

abbrev pub get_output_len : SequenceData → ℕ
get_output_len d = length d.output_token_ids

abbrev pub get_token_ids : SequenceData → List ℤ
get_token_ids d = d.prompt_token_ids ++ d.output_token_ids

unfoldable pub get_last_token_id : SequenceData → Result ℤ
get_last_token_id d = elim (last? d.output_token_ids) [
  | none ↦ or_raise (last? d.prompt_token_ids) index_error
  | some t ↦ ok t
]

unfoldable pub is_generating : SequenceData → Bool
is_generating d = d.inflight_length == d.running_inflight_tokens

unfoldable pub update_seen_tokens : SequenceData → SequenceData
update_seen_tokens d = record d { seen_tokens = get_len d }

-- (toks + block_size - 1) // block_size
abbrev pub blocks_of : ℕ → ℕ → ℕ
blocks_of block_size toks = (toks + block_size - 1) / block_size

unfoldable pub num_required_blocks : SequenceData → ℕ → ℕ → Result ℕ
num_required_blocks d inflight_tokens block_size = do
  query ← logical_query_len d
  ok (blocks_of block_size (get_len d - query + inflight_tokens))

unfoldable pub num_required_blocks_resume_discard : SequenceData → ℕ → ℕ
num_required_blocks_resume_discard d block_size =
    let resumed = blocks_of block_size d.discard_start_idx in
    let after_resumed = blocks_of block_size (d.discard_start_idx + d.resume_discard_tokens) in
    after_resumed - resumed

unfoldable pub num_required_blocks_resume_swap : SequenceData → ℕ
num_required_blocks_resume_swap d = d.resume_swap_blocks

unfoldable pub num_required_blocks_inflight : SequenceData → ℕ → ℕ
num_required_blocks_inflight d block_size =
    let after_resume_blocks = blocks_of block_size (get_len d - d.inflight_length) in
    let total_blocks =
      blocks_of block_size (get_len d - d.inflight_length + d.running_inflight_tokens) in
    total_blocks - after_resume_blocks

unfoldable pub populate_workload : SequenceData → ℕ → ℕ → ℕ → SequenceData
populate_workload d resume_discard_tokens resume_swap_blocks running_inflight_tokens = record d {
  resume_discard_tokens = resume_discard_tokens;
  resume_swap_blocks = resume_swap_blocks;
  running_inflight_tokens = running_inflight_tokens;
}

unfoldable pub clear_workload : SequenceData → SequenceData
clear_workload d = record d {
  resume_discard_tokens = 0;
  resume_swap_blocks = 0;
  running_inflight_tokens = 0;
}

unfoldable pub post_forward : SequenceData → SequenceData
unfolding clear_workload
post_forward d = clear_workload (record d {
  discard_length = d.discard_length - d.resume_discard_tokens;
  swap_start_idx = d.swap_start_idx + d.resume_swap_blocks;
  swap_length = d.swap_length - d.resume_swap_blocks;
  inflight_length = d.inflight_length - d.running_inflight_tokens;
})
