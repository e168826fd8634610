-- ===== src/Scheduler/Waste.antt =====
-- The wastes of the three strategies (vllm/core/scheduler_v2.py): discard_waste, swap_waste and
-- classify. The floats are exact multiples of 10⁻⁷ token-seconds: 0.0463 / 1000 is 463, and so on.
use mars_codebase.Prelude.Dict
use mars_codebase.BlockManager.Eviction.{get_seq_blocks_by_device}
use mars_codebase.Sequence.Member.{set_starvation_threshold_and_quantum}
use mars_codebase.Prelude.{
  List, Result, [], if◌then◌else◌, leb, length, max, ok, ℕ, ◌%◌, ◌&&◌, ◌*◌, ◌++◌, ◌+◌, ◌-◌, ◌/◌,
  ◌>>=◌, ◌∷◌,
}
use mars_codebase.Sequence.Group.{SequenceGroup, Strategy, first_seq}
use mars_codebase.Block.{gpu}
use mars_codebase.Scheduler.State.{SchedulerV2, group_of, map_seqs}
use mars_codebase.Sequence.Data.{blocks_of, get_prompt_len}
use mars_codebase.Prelude.Dict.{Dict}

-- sum(seq_group.get_seqs()[0].data.inflight_length for seq_group in self.running)
unfoldable pub running_batch : SchedulerV2 → List ℕ → Result ℕ
running_batch sch [] = ok 0
running_batch sch (request_id ∷ queue) = do
  g ← group_of sch request_id
  seq ← first_seq g
  rest ← running_batch sch queue
  ok (seq.content.inflight_length + rest)

-- sum(len(get_seq_blocks_by_device(group, Device.GPU)) for group in self.running)
unfoldable pub running_blocks : SchedulerV2 → List ℕ → Result ℕ
running_blocks sch [] = ok 0
running_blocks sch (request_id ∷ queue) = do
  g ← group_of sch request_id
  blocks ← get_seq_blocks_by_device sch.block_manager g gpu
  rest ← running_blocks sch queue
  ok (length blocks + rest)

-- c_h = max(384 - running_batch, 1)
abbrev pub free_units : ℕ → ℕ
free_units batch = max (384 - batch) 1

unfoldable pub discard_waste : SchedulerV2 → ℕ → Result ℕ
discard_waste sch num_blocks = do
  batch ← running_batch sch sch.running
  blocks ← running_blocks sch sch.running
  let block_size = sch.block_manager.block_size
  let c_h = free_units batch
  let n = blocks_of c_h (block_size * num_blocks) - 1
  let f_ch = 463 * c_h
  let w_d = 277792 * ((1 + n) * n / 2) * c_h + f_ch * n * blocks * block_size
  let last_resume_toks = block_size * num_blocks % c_h
  ok (w_d + 463 * last_resume_toks * (blocks * block_size + last_resume_toks))

unfoldable pub swap_waste : SchedulerV2 → ℕ → Result ℕ
swap_waste sch num_blocks = do
  batch ← running_batch sch sch.running
  blocks ← running_blocks sch sch.running
  let block_size = sch.block_manager.block_size
  let c_h = free_units batch
  let n = max (blocks_of c_h (block_size * num_blocks) - 1) 1
  ok (920040 * n * block_size * num_blocks + 1360 * c_h * n * blocks * block_size * 2)

-- The values w_p, w_d and w_s of classify.
pub record Wastes : Type 0 where
  pub w_p : ℕ
  pub w_d : ℕ
  pub w_s : ℕ

unfoldable pub predicted_wastes : SchedulerV2 → SequenceGroup → Result Wastes
predicted_wastes sch g = do
  seq ← first_seq g
  let block_size = sch.block_manager.block_size
  let tokens = get_prompt_len seq.content + g.sampling_params.predicted_api_invoke_interval
  let seq_blocks = blocks_of block_size tokens
  w_d ← discard_waste sch seq_blocks
  w_s ← swap_waste sch seq_blocks
  ok (record {
    w_p = 10000 * g.sampling_params.predicted_api_exec_time * (seq_blocks * block_size);
    w_d = w_d;
    w_s = w_s;
  })

-- The chain of tests of classify.
unfoldable pub choose_strategy : Wastes → Strategy × ℕ
choose_strategy w =
    if leb w.w_p w.w_d && leb w.w_p w.w_s
    then (Strategy.preserve, w.w_p)
    else if leb w.w_s w.w_p && leb w.w_s w.w_d
    then (Strategy.swap, w.w_s)
    else (Strategy.recompute, w.w_d)

-- SchedulerV2.classify, on the object of the group. The wastes at the real interval are kept for
-- statistics only.
unfoldable pub classify : SchedulerV2 → SequenceGroup → Result SequenceGroup
classify sch g = do
  w ← predicted_wastes sch g
  let choice = choose_strategy w
  ok (record g {
    sampling_params = record g.sampling_params { strategy = choice.0; waste = choice.1 };
  })

-- SchedulerV2.add_seq_group
unfoldable pub add_seq_group : SchedulerV2 → SequenceGroup → Result SchedulerV2
add_seq_group sch g = do
  let g' =
      map_seqs
        (λ s.
          set_starvation_threshold_and_quantum s sch.starvation_threshold sch.starvation_quantum)
        g
  g'' ← classify sch g'
  ok (record sch {
    groups = Dict.put sch.groups g.request_id g'';
    waiting = sch.waiting ++ g.request_id ∷ [];
  })
