-- ===== src/Policy.antt =====
-- vllm/core/policy.py: the priorities and the order of the queues. A priority is an integer, of
-- milliseconds or, for V2, of 10⁻⁴ token-seconds. A group is given with the name of its object, and
-- comes back as V2 leaves it, which keeps its score in it.
pub mod Laws
pub mod Orders
use mars_codebase.Prelude.Int.{ℤ, pos, negate, difference, leb_ℤ, opposite, is_zero}
use mars_codebase.Prelude.{
  Bool, List, Result, [], if◌then◌else◌, max, ok, or_raise, type_error, ℕ, ◌*◌, ◌+◌, ◌-◌, ◌/◌, ◌==◌,
  ◌>>=◌, ◌>>◌, ◌∷◌,
}
use mars_codebase.Sequence.Group.{SequenceGroup, Strategy, first_seq}
use mars_codebase.Sequence.Data.{blocks_of, get_prompt_len, logical_query_len}
use mars_codebase.Sorting.{sort_by}

-- The classes of the registry.
pub data Policy : Type 0 where
  fcfs chunked_fcfs longest_remaining_api_first shortest_job_first v2 : Policy

-- The arguments of get_priority and of sort_by_priority beside the groups.
pub record Query : Type 0 where
  pub now : ℕ
  pub in_running : Bool
  pub batch : ℕ
  pub use_cached_score : Bool

-- V2.calculate_memory_time_blocks: 484 is f_s, (0.1 * 384 + 10) / 1000 seconds.
unfoldable pub calculate_memory_time_blocks : ℕ → ℕ → ℕ → ℕ
calculate_memory_time_blocks num_blocks batch block_size =
    let c_h = max (384 - batch) 1 in
    let n = max (blocks_of c_h (block_size * num_blocks)) 1 in 484 * ((1 + n) * n / 2) * c_h

-- SequenceGroup.predicted_api_remaining_time. Where the code has 1e-9, for a time that has passed,
-- this has 0; the order is the same.
unfoldable pub predicted_api_remaining_time : ℕ → SequenceGroup → Result ℕ
predicted_api_remaining_time now g = do
  called ← or_raise g.sampling_params.api_call_time type_error
  ok (g.sampling_params.predicted_api_exec_time + called - now)

-- The score of V2.get_priority, which is in blocks of 64 tokens.
unfoldable pub v2_score : ℕ → SequenceGroup → Result ℕ
v2_score batch g = do
  seq ← first_seq g
  let p = g.sampling_params
  let done : Bool = is_zero p.api_max_calls
  let before_seq_blocks =
      blocks_of 64 (get_prompt_len seq.content + p.predicted_api_invoke_interval)
  let before = calculate_memory_time_blocks before_seq_blocks batch 64
  let after_seq_blocks = blocks_of 64 (p.predicted_api_invoke_interval + p.api_return_length)
  let after = calculate_memory_time_blocks after_seq_blocks batch 64
  let both = calculate_memory_time_blocks (before_seq_blocks + after_seq_blocks) batch 64
  let swap = 2500 * before_seq_blocks * before_seq_blocks
  ok (elim p.strategy [
    | Strategy.preserve ↦ before + 10 * (before_seq_blocks * 64) * p.predicted_api_exec_time + after
    | Strategy.recompute ↦ if done then both else before + both
    | Strategy.swap ↦
        if done then swap + after else before + swap + p.predicted_api_exec_time + swap + after
  ])

-- get_priority of each class, and the group as it leaves it. Chunked_FCFS reads `logical_query_len`.
unfoldable pub get_priority : Policy → Query → SequenceGroup → Result (ℤ × SequenceGroup)
get_priority Policy.fcfs q g = ok (difference q.now g.arrival_time, g)
get_priority Policy.chunked_fcfs q g = do
  seq ← first_seq g
  query ← logical_query_len seq.content
  ok (negate query, g)
get_priority Policy.longest_remaining_api_first q g = do
  remaining ← predicted_api_remaining_time q.now g
  ok (pos remaining, g)
get_priority Policy.shortest_job_first q g = ok (negate g.sampling_params.remain_langth, g)
get_priority Policy.v2 q g =
    if q.in_running
    then ok (difference q.now g.arrival_time, g)
    else if q.use_cached_score
    then ok (opposite g.newest_sort_waste, g)
    else (do
      score ← v2_score q.batch g
      ok (negate score, record g { newest_sort_waste = pos score }))

-- A group with its name and its priority.
pub record Ranked : Type 0 where
  pub priority : ℤ
  pub name : ℕ
  pub group : SequenceGroup

-- The keys that `sorted` asks for, from the first group to the last.
unfoldable pub rank_all : Policy → Query → List (ℕ × SequenceGroup) → Result (List Ranked)
rank_all policy q [] = ok []
rank_all policy q ((i, g) ∷ groups) = do
  (priority, g') ← get_priority policy q g
  rest ← rank_all policy q groups
  ok (record { priority = priority; name = i; group = g' } ∷ rest)

-- `reverse=True`
abbrev pub not_below : Ranked → Ranked → Bool
not_below r s = leb_ℤ s.priority r.priority

-- Policy.sort_by_priority and V2.sort_by_priority
unfoldable pub sort_by_priority : Policy → Query → List (ℕ × SequenceGroup) → Result (List Ranked)
sort_by_priority policy q groups = do
  ranked ← rank_all policy q groups
  ok (sort_by not_below ranked)
