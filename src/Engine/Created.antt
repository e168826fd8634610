-- ===== src/Engine/Created.antt =====
-- The sequences that LLMEngine.add_request creates (vllm/engine/llm_engine.py, vllm/sequence.py).
use mars_codebase.Prelude.{List, [], inl, length, ok, refl, sym, ℕ, ◌<◌, ◌∙◌, ◌≡◌}
use mars_codebase.Prelude.Int.{ℤ}
use mars_codebase.Engine.Returns.{HoldsTokens}
use mars_codebase.Sequence.Blocks.{append_tokens_to_blocks-ok}
use mars_codebase.Sequence.Data
use mars_codebase.Sequence.Data.{get_len, get_output_len, new_data}
use mars_codebase.Sequence.Member.{Sequence, new_sequence}
use mars_codebase.Sequence.Status.{SequenceStatus}
use mathlib.Core.List.{append-nil}

-- With a positive block size, a sequence is created whatever its prompt is: it waits, its tokens
-- are those of the prompt, none of them is output, they are all in flight, and its blocks hold them.
pub new_sequence-HoldsTokens :
    (seq_id : ℕ) (prompt_token_ids : List ℤ) (block_size : ℕ)
    → 0 < block_size
    → (s : Sequence) × (new_sequence seq_id prompt_token_ids block_size ≡ ok s)
      × HoldsTokens s
      × (Data.get_token_ids s.content ≡ prompt_token_ids)
      × (get_output_len s.content ≡ 0)
      × (s.content.inflight_length ≡ length prompt_token_ids)
      × (s.status ≡ SequenceStatus.waiting)
unfolding new_sequence new_data
new_sequence-HoldsTokens seq_id prompt block_size h =
    let (blocks, done, packed, same) =
      append_tokens_to_blocks-ok block_size [] prompt h (inl refl) in
    (
      record {
        seq_id = seq_id;
        block_size = block_size;
        content = new_data prompt;
        logical_token_blocks = blocks;
        status = SequenceStatus.waiting;
        discard_idx = 0;
        starvation_counter = 0;
        starvation_quantum = 0;
        starvation_threshold = 2000;
        quantum_value = 1;
      },
      rw done refl,
      record { positive = h; packed = packed; held = same ∙ sym (append-nil prompt) },
      append-nil prompt,
      refl,
      refl,
      refl,
    )
