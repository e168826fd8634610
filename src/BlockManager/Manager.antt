-- ===== src/BlockManager/Manager.antt =====
-- vllm/core/block_manager.py: BlockSpaceManager. A method takes the manager and returns the new one
-- beside its result, or raises. An argument `-1` that stands for "no number given" is `none`; a
-- number of blocks to swap, which the loops count down from -1 too, is an integer.
use mars_codebase.Prelude.Dict
use mars_codebase.Prelude.Dict.{Dict}
use mars_codebase.Prelude.{
  Bool, Option, Result, [], assertion_error, guard, if◌then◌else◌, key_error, leb, length, ltb, min,
  none, not_implemented, ok, or_raise, some, ℕ, ◌%◌, ◌+◌, ◌-◌, ◌/◌, ◌==◌, ◌>>=◌, ◌>>◌,
}
use mars_codebase.Sequence.Member.{
  get_num_required_blocks_inflight, num_new_blocks_for_inflight, num_new_blocks_for_resume_discard,
  num_new_blocks_for_resume_swap,
}
use mars_codebase.BlockManager.Tables.{BlockTable}
use mars_codebase.BlockManager.Memory.{Memory, num_free_blocks}
use mars_codebase.Sequence.Data.{SequenceData, blocks_of}
use mars_codebase.Sequence.Status.{SequenceStatus}
use mars_codebase.Sequence.Group.{SequenceGroup, first_seq, get_seqs_in, num_seqs}
use mars_codebase.Block.{cpu, gpu}
use mars_codebase.BlockManager.Allocator.{new_allocator}

-- `list_of_set` is the order in which the interpreter lists the set of the blocks of a list.
pub record BlockSpaceManager : Type 0 where
  pub block_size : ℕ
  pub num_total_gpu_blocks : ℕ
  pub num_total_cpu_blocks : ℕ
  pub block_sliding_window : Option ℕ
  pub watermark_blocks : ℕ
  pub memory : Memory
  pub open memory use *
  pub block_tables : Dict BlockTable
  pub list_of_set : BlockTable → BlockTable

-- The attributes that BlockSpaceManager.__init__ sets. `int(watermark * num_gpu_blocks)`, of a float
-- that is not negative, is an argument.
abbrev pub fresh_manager : ℕ → ℕ → ℕ → ℕ → Option ℕ → (BlockTable → BlockTable) → BlockSpaceManager
fresh_manager block_size num_gpu num_cpu watermark_blocks window list_of_set = record {
  block_size = block_size;
  num_total_gpu_blocks = num_gpu;
  num_total_cpu_blocks = num_cpu;
  block_sliding_window = window;
  watermark_blocks = watermark_blocks;
  memory = record {
    gpu_allocator = new_allocator gpu block_size num_gpu;
    cpu_allocator = new_allocator cpu block_size num_cpu;
    ref_count = λ b. 0;
  };
  block_tables = [];
  list_of_set = list_of_set;
}

-- BlockSpaceManager.__init__
unfoldable pub new_manager :
    ℕ → ℕ → ℕ → ℕ → Option ℕ → (BlockTable → BlockTable) → Result BlockSpaceManager
new_manager block_size num_gpu num_cpu watermark_blocks sliding_window list_of_set = do
  window ← elim sliding_window [
    | none ↦ ok none
    | some w ↦ guard (w % block_size == 0) assertion_error >> ok (some (w / block_size))
  ]
  ok (fresh_manager block_size num_gpu num_cpu watermark_blocks window list_of_set)

abbrev pub token_2_block : BlockSpaceManager → ℕ → ℕ
token_2_block m tok = blocks_of m.block_size tok

-- self.block_tables[seq_id]
abbrev pub table_of : BlockSpaceManager → ℕ → Result BlockTable
table_of m seq_id = or_raise (Dict.get m.block_tables seq_id) key_error

-- The test of `num_free_gpu_blocks - num_required_blocks >= self.watermark_blocks`, over integers.
abbrev pub leaves_watermark : BlockSpaceManager → ℕ → Bool
leaves_watermark m required = leb (m.watermark_blocks + required) (num_free_blocks gpu m.memory)

unfoldable pub can_allocate : BlockSpaceManager → SequenceGroup → Option ℕ → Result Bool
can_allocate m g inflight_tokens = do
  seq ← first_seq g
  let required : ℕ = elim inflight_tokens [
    | none ↦ length seq.logical_token_blocks
    | some n ↦ token_2_block m n
  ]
  let bounded : ℕ = elim m.block_sliding_window [ none ↦ required | some w ↦ min required w ]
  ok (leaves_watermark m bounded)

-- The assertions before in-flight tokens are served: nothing is left to be resumed.
abbrev pub assert_resumed : SequenceData → Result (Unit {0})
assert_resumed d =
    guard (d.discard_length == d.resume_discard_tokens) assertion_error
    >> guard (d.swap_length == d.resume_swap_blocks) assertion_error

unfoldable pub get_memory_requirement : BlockSpaceManager → SequenceGroup → Result ℕ
get_memory_requirement m g = do
  seq ← first_seq g
  let discard : ℕ =
      if ltb 0 seq.content.resume_discard_tokens then num_new_blocks_for_resume_discard seq else 0
  let swap : ℕ =
      if ltb 0 seq.content.resume_swap_blocks then num_new_blocks_for_resume_swap seq else 0
  if ltb 0 seq.content.running_inflight_tokens
      then assert_resumed seq.content >> ok (discard + swap + num_new_blocks_for_inflight seq)
      else ok (discard + swap)

-- `if self.block_sliding_window: raise NotImplementedError`
abbrev pub refuse_window : BlockSpaceManager → Result (Unit {0})
refuse_window m = elim m.block_sliding_window [
  | none ↦ ok tt
  | some w ↦ guard (w == 0) not_implemented
]

unfoldable pub can_append_slot : BlockSpaceManager → SequenceGroup → Bool
can_append_slot m g =
    leb (length (get_seqs_in SequenceStatus.running g)) (num_free_blocks gpu m.memory)

unfoldable pub required_new_blocks : BlockSpaceManager → SequenceGroup → Option ℕ → Result ℕ
required_new_blocks m g inflight_tokens = do
  guard (num_seqs g == 1) assertion_error
  seq ← first_seq g
  table ← table_of m seq.seq_id
  logical ← elim inflight_tokens [
    | none ↦ ok (length seq.logical_token_blocks)
    | some n ↦ get_num_required_blocks_inflight seq n
  ]
  ok (logical - length table)

unfoldable pub can_fulfill_blocks : BlockSpaceManager → ℕ → Bool
can_fulfill_blocks m r = leb r (num_free_blocks gpu m.memory)
