-- ===== src/Tests/Sequences.antt =====
-- The theorems on sequences and logical blocks (vllm/sequence.py, vllm/block.py) at concrete inputs.
use mars_codebase.Sequence.Data
use mars_codebase.Block.{
  get_token_ids, LogicalTokenBlock, append_tokens, blank_token_id, get_num_empty_slots,
}
use mars_codebase.Sequence.Blocks.{IsPacked, append_tokens_to_blocks-ok, contents}
use mars_codebase.Prelude.{List, [], arith, inl, ok, refl, ◌++◌, ◌+◌, ◌∷◌, ◌≡◌}
use mars_codebase.Sequence.Member.{append_tokens_to_blocks}
use mars_codebase.Sequence.Accounting.{
  IsConsistent, append_token-IsConsistent, cached, num_required_blocks_inflight-cached,
  post_forward-IsConsistent,
}
use mars_codebase.Sequence.Data.{
  append_token, blocks_of, num_required_blocks_inflight, post_forward,
}
use mars_codebase.Tests.Fixtures.{content, prompt}
use mars_codebase.Block.Laws.{IsWellFormed, append_tokens-ok}
use mars_codebase.Prelude.Int.{pos}

abbrev one_token : LogicalTokenBlock
one_token = record {
  block_number = 0;
  block_size = 2;
  token_ids = pos 11 ∷ blank_token_id ∷ [];
  num_tokens = 1;
}

one_token-IsWellFormed : IsWellFormed one_token
one_token-IsWellFormed = record { cells = refl; fits = omega arith }

append_tokens-ok_example :
    (c : LogicalTokenBlock) × (append_tokens one_token (pos 12 ∷ []) ≡ ok c)
    × IsWellFormed c
    × (get_token_ids c ≡ get_token_ids one_token ++ pos 12 ∷ [])
    × (c.num_tokens ≡ 2)
    × (c.block_size ≡ 2)
    × (c.block_number ≡ 0)
unfolding get_num_empty_slots
append_tokens-ok_example =
    append_tokens-ok one_token (pos 12 ∷ []) one_token-IsWellFormed (omega arith)

append_tokens_to_blocks-ok_example :
    (blocks' : List LogicalTokenBlock) × (append_tokens_to_blocks 2 [] prompt ≡ ok blocks')
    × IsPacked 2 blocks'
    × (contents blocks' ≡ contents [] ++ prompt)
append_tokens_to_blocks-ok_example = append_tokens_to_blocks-ok 2 [] prompt (omega arith) (inl refl)

content-IsConsistent : IsConsistent content
content-IsConsistent = record {
  inflight = omega arith;
  discard_work = omega arith;
  swap_work = omega arith;
  inflight_work = omega arith;
}

append_token-IsConsistent_example :
    IsConsistent (append_token content (pos 14))
    × (cached (append_token content (pos 14)) ≡ cached content)
    × (Data.get_token_ids (append_token content (pos 14))
        ≡ Data.get_token_ids content ++ pos 14 ∷ [])
append_token-IsConsistent_example = append_token-IsConsistent content (pos 14) content-IsConsistent

post_forward-IsConsistent_example :
    IsConsistent (post_forward content)
    × (cached (post_forward content) ≡ cached content + 3)
    × ((post_forward content).discard_length + 0 ≡ 0)
    × ((post_forward content).swap_length + 0 ≡ 0)
    × ((post_forward content).swap_start_idx + (post_forward content).swap_length ≡ 0 + 0)
    × ((post_forward content).inflight_length + 3 ≡ 3)
post_forward-IsConsistent_example = post_forward-IsConsistent content content-IsConsistent

num_required_blocks_inflight-cached_example :
    blocks_of 2 (cached content) + num_required_blocks_inflight content 2
    ≡ blocks_of 2 (cached (post_forward content))
num_required_blocks_inflight-cached_example =
    num_required_blocks_inflight-cached content 2 content-IsConsistent
