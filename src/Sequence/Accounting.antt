-- ===== src/Sequence/Accounting.antt =====
-- The accounts of SequenceData (vllm/sequence.py): the subtractions are never below 0, and the blocks
-- that an iteration asks for are those that the cached tokens need more.
use mars_codebase.Sequence.Data.{
  SequenceData, append_token, blocks_of, get_len, new_data, num_required_blocks_inflight,
  post_forward,
}
use mars_codebase.Prelude.{List, [], arith, length-append, sym, ℕ, ◌++◌, ◌+◌, ◌-◌, ◌∷◌, ◌≡◌, ◌≤◌}
use mathlib.Core.List.{append_assoc}
use mars_codebase.Prelude.Int.{ℤ}
use mars_codebase.Sequence.Data

-- The workload is within what is left, and no more tokens are in flight than there are.
pub record IsConsistent (d : SequenceData) : Type 0 where
  pub inflight : d.inflight_length ≤ get_len d
  pub discard_work : d.resume_discard_tokens ≤ d.discard_length
  pub swap_work : d.resume_swap_blocks ≤ d.swap_length
  pub inflight_work : d.running_inflight_tokens ≤ d.inflight_length

-- The tokens whose cache is in blocks.
abbrev pub cached : SequenceData → ℕ
cached d = get_len d - d.inflight_length

pub new_data-IsConsistent :
    (prompt : List ℤ) → IsConsistent (new_data prompt) × (cached (new_data prompt) ≡ 0)
unfolding new_data
new_data-IsConsistent prompt = (
  record {
    inflight = omega arith;
    discard_work = omega arith;
    swap_work = omega arith;
    inflight_work = omega arith;
  },
  omega arith,
)

-- Consistent accounts stay consistent when a generated token is appended: it stands after the other
-- tokens and is in flight, so that as many tokens are cached as before.
pub append_token-IsConsistent :
    (d : SequenceData) (t : ℤ)
    → IsConsistent d
    → IsConsistent (append_token d t)
      × (cached (append_token d t) ≡ cached d)
      × (Data.get_token_ids (append_token d t) ≡ Data.get_token_ids d ++ t ∷ [])
unfolding append_token
append_token-IsConsistent d t c =
    let more = length-append d.output_token_ids (t ∷ []) in
    (
      record {
        inflight = omega (arith, more, c.inflight);
        discard_work = c.discard_work;
        swap_work = c.swap_work;
        inflight_work = omega (arith, c.inflight_work);
      },
      omega (arith, more, c.inflight),
      sym (append_assoc d.prompt_token_ids d.output_token_ids (t ∷ [])),
    )

-- Consistent accounts stay consistent at the end of a forward pass, and the workload is done: what
-- was in flight and run is cached, what was resumed is taken off the discarded tokens and the
-- swapped blocks, and the end of the swapped blocks stays where it is.
pub post_forward-IsConsistent :
    (d : SequenceData)
    → IsConsistent d
    → IsConsistent (post_forward d)
      × (cached (post_forward d) ≡ cached d + d.running_inflight_tokens)
      × ((post_forward d).discard_length + d.resume_discard_tokens ≡ d.discard_length)
      × ((post_forward d).swap_length + d.resume_swap_blocks ≡ d.swap_length)
      × ((post_forward d).swap_start_idx + (post_forward d).swap_length
          ≡ d.swap_start_idx + d.swap_length)
      × ((post_forward d).inflight_length + d.running_inflight_tokens ≡ d.inflight_length)
unfolding post_forward
post_forward-IsConsistent d c =
    let i = c.inflight in
    let w = c.inflight_work in
    (
      record {
        inflight = omega arith;
        discard_work = omega arith;
        swap_work = omega arith;
        inflight_work = omega arith;
      },
      omega arith,
      omega (arith, c.discard_work),
      omega (arith, c.swap_work),
      omega (arith, c.swap_work),
      omega arith,
    )

blocks_of_mono : (k a b : ℕ) → a ≤ b → blocks_of k a ≤ blocks_of k b
blocks_of_mono k a b h = grind arith

-- For consistent accounts, the blocks asked for in-flight tokens, with those that the cached tokens
-- have, are the blocks that the cached tokens need after the forward pass.
pub num_required_blocks_inflight-cached :
    (d : SequenceData) (k : ℕ)
    → IsConsistent d
    → blocks_of k (cached d) + num_required_blocks_inflight d k
      ≡ blocks_of k (cached (post_forward d))
unfolding num_required_blocks_inflight
num_required_blocks_inflight-cached d k c =
    let (_, more, _, _, _, _) = post_forward-IsConsistent d c in
    rw more (
      omega
        (arith, blocks_of_mono k (cached d) (cached d + d.running_inflight_tokens) (omega arith)))
