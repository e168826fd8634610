-- ===== src/Tests/Fixtures.antt =====
-- Test data: a listing of sets, a sequence and its group, and managers that hold its table.
use mars_codebase.Prelude.Dict
use mars_codebase.BlockManager.Allocation.{
  allocate, allocate_discarded, allocate_inflight, allocate_swapped,
}
use mars_codebase.Sequence.Data.{SequenceData, num_required_blocks_inflight}
use mars_codebase.Prelude.{
  Bool-cases, List, Result, [], ap, arith, err, false, if◌then◌else◌, inl, inr, none, ok, refl,
  subst, sym, ℕ, ◌==◌, ◌∷◌, ◌≡◌, some, true,
}
use mars_codebase.Prelude.Int.{pos, ℤ, negsuc}
use mars_codebase.BlockManager.Valid.{IsValid, ListsSet}
use mars_codebase.Block.{PhysicalTokenBlock, gpu, is_same}
use mars_codebase.BlockManager.Balance.{count, is_same_eq}
use mars_codebase.BlockManager.Tables.{BlockTable, append_blocks}
use mars_codebase.Sequence.Member.{Sequence}
use mars_codebase.BlockManager.Manager.{
  BlockSpaceManager, can_fulfill_blocks, fresh_manager, get_memory_requirement,
}
use mars_codebase.BlockManager.Fresh.{fresh_manager-IsInitial}
use mars_codebase.Sequence.Status.{SequenceStatus}
use mars_codebase.BlockManager.Allocating.{allocate-IsValid}
use mars_codebase.Sequence.Group.{SequenceGroup, Strategy}
use mars_codebase.Prelude.Dict.{Dict}
use mars_codebase.BlockManager.Allocator.{new_allocator}
use mars_codebase.BlockManager.Memory.{allocate_on}
use mars_codebase.Policy.{Policy}
use mars_codebase.Scheduler.State.{ApiPolicy, SchedulerV2}

-- The listing that leaves out a block which comes again.
abbrev pub list_once : BlockTable → BlockTable
list_once [] = []
list_once (b ∷ table) = if count b table == 0 then b ∷ list_once table else list_once table

pub list_once-ListsSet : ListsSet list_once
list_once-ListsSet [] x = refl
list_once-ListsSet (b ∷ table) x =
    let ih = list_once-ListsSet table x in
    elim (Bool-cases (is_same b x)) [
      | inl e ↦
          let same : count b table ≡ count x table = ap (λ y. count y table) (is_same_eq b x e) in
          ground (arith, ih, same, e)
      | inr e ↦ ground (arith, ih, e)
    ]

-- Four blocks of two tokens on each device, one of them kept free.
abbrev pub manager : BlockSpaceManager
manager = fresh_manager 2 4 4 1 none list_once

pub manager-IsValid : IsValid manager
manager-IsValid = (fresh_manager-IsInitial 2 4 4 1 none list_once list_once-ListsSet).0

abbrev pub prompt : List ℤ
prompt = pos 11 ∷ pos 12 ∷ pos 13 ∷ []

-- A running sequence whose prompt is served in this iteration.
abbrev pub content : SequenceData
content = record {
  prompt_token_ids = prompt;
  output_token_ids = [];
  seen_tokens = 0;
  discard_start_idx = 0;
  discard_length = 0;
  swap_start_idx = 0;
  swap_length = 0;
  inflight_length = 3;
  resume_discard_tokens = 0;
  resume_swap_blocks = 0;
  running_inflight_tokens = 3;
}

abbrev pub sequence : Sequence
sequence = record {
  seq_id = 7;
  block_size = 2;
  content = content;
  logical_token_blocks = [];
  status = SequenceStatus.running;
  discard_idx = 0;
  starvation_counter = 0;
  starvation_quantum = 0;
  starvation_threshold = 2;
  quantum_value = 2;
}

abbrev pub child : Sequence
child = record sequence { seq_id = 8 }

abbrev pub group : SequenceGroup
group = record {
  request_id = 1;
  seqs_dict = (7, sequence) ∷ [];
  sampling_params = record {
    best_of = 1;
    use_beam_search = false;
    api_call_time = none;
    api_return_length = 0;
    api_invoke_interval = 0;
    predicted_api_invoke_interval = 0;
    api_exec_time = 0;
    predicted_api_exec_time = 0;
    api_max_calls = pos 0;
    max_tokens = 16;
    stop_token_ids = [];
    ignore_eos = false;
    remain_langth = 0;
    strategy = Strategy.preserve;
    waste = 0;
  };
  arrival_time = 0;
  discarded = false;
  time_before_processing = negsuc 999;
  newest_sort_waste = negsuc 9999;
}

abbrev pub returned {ℓ} : {A : Type ℓ} → Result A → A → A
returned (ok a) b = a
returned (err e) b = b

abbrev pub block : ℕ → PhysicalTokenBlock
block n = record { device = gpu; block_number = n }

-- The table that allocate gives the sequence.
abbrev pub table : BlockTable
table = block 3 ∷ block 2 ∷ []

unfoldable pub served : BlockSpaceManager
unfolding allocate allocate_discarded allocate_swapped allocate_inflight
served = (returned (allocate manager group []) (manager, [])).0

pub served-IsValid : IsValid served
unfolding served can_fulfill_blocks get_memory_requirement num_required_blocks_inflight
    new_allocator
served-IsValid =
    let (m, swaps, e, v, _, _, _) =
      allocate-IsValid manager group sequence 2 [] manager-IsValid refl refl refl refl refl in
    subst IsValid (sym (ap (λ r. (returned {A = BlockSpaceManager × Dict ℕ} r (manager, [])).0) e))
      v

pub served-table : Dict.get served.block_tables 7 ≡ some table
unfolding served num_required_blocks_inflight new_allocator append_blocks allocate_on
served-table = refl

-- One request runs, in a scheduler that swaps at every pause.
abbrev pub scheduler : SchedulerV2
scheduler = record {
  api_policy = ApiPolicy.policy_s;
  heuristic_coef = 0;
  policy = Policy.fcfs;
  prompt_limit = 1024;
  max_num_seqs = 8;
  starvation_avoidance = true;
  starvation_threshold = 2;
  starvation_quantum = 2;
  skip_sorting_limit = 0;
  skip_sorting_counter = 0;
  batch_max_tokens = 384;
  max_swap_in_blocks = 1000;
  max_swap_out_blocks = 1000;
  block_manager = served;
  groups = (1, group) ∷ [];
  waiting = [];
  running = 1 ∷ [];
  swapped = [];
  paused = [];
}

pub served-no_window : served.block_sliding_window ≡ none
unfolding served append_blocks num_required_blocks_inflight allocate_on new_allocator
served-no_window = refl
