-- ===== src/Scheduler/State.antt =====
-- The state of SchedulerV2 (vllm/core/scheduler_v2.py). The groups are shared objects: the store
-- `groups` holds them by their request ids, and the queues hold the ids. The histories that are kept
-- for statistics (`strategy`, `predicted_waste` and the like) are left out.
use mars_codebase.Prelude.Dict
use mars_codebase.Prelude.Dict.{Dict}
use mars_codebase.BlockManager.Manager.{BlockSpaceManager}
use mars_codebase.Prelude.{List, Result, [], key_error, or_raise, ℕ, ◌∷◌, Bool}
use mars_codebase.Sequence.Group.{SequenceGroup}
use mars_codebase.Sequence.Member.{Sequence}
use mars_codebase.Policy.{Policy}

-- PreemptionMode, of vllm/core/scheduler.py
pub data PreemptionMode : Type 0 where
  swap recompute preserve partial : PreemptionMode

-- The strings that `api_policy` is compared with, and any other.
pub data ApiPolicy : Type 0 where
  policy_h policy_h_s policy_h_d policy_h_b policy_g policy_d policy_s policy_p policy_v : ApiPolicy
  policy_unknown : ApiPolicy

-- Times are in milliseconds, `heuristic_coef` too. `skip_sorting_limit` is the configuration's
-- `skip_sorting_for_this_number_of_iterations`.
pub record SchedulerV2 : Type 0 where
  pub api_policy : ApiPolicy
  pub heuristic_coef : ℕ
  pub policy : Policy
  pub prompt_limit : ℕ
  pub max_num_seqs : ℕ
  pub starvation_avoidance : Bool
  pub starvation_threshold : ℕ
  pub starvation_quantum : ℕ
  pub skip_sorting_limit : ℕ
  pub skip_sorting_counter : ℕ
  pub batch_max_tokens : ℕ
  pub max_swap_in_blocks : ℕ
  pub max_swap_out_blocks : ℕ
  pub block_manager : BlockSpaceManager
  pub groups : Dict SequenceGroup
  pub waiting : List ℕ
  pub running : List ℕ
  pub swapped : List ℕ
  pub paused : Dict PreemptionMode

-- The object that a queue's entry refers to.
abbrev pub group_of : SchedulerV2 → ℕ → Result SequenceGroup
group_of sch request_id = or_raise (Dict.get sch.groups request_id) key_error

abbrev pub with_group : SchedulerV2 → ℕ → SequenceGroup → SchedulerV2
with_group sch request_id g = record sch { groups = Dict.put sch.groups request_id g }

-- What a loop over the sequences of a group does to their objects.
abbrev pub map_values {ℓ} : {V : Type ℓ} → (V → V) → Dict V → Dict V
map_values f [] = []
map_values f ((k, v) ∷ d) = (k, f v) ∷ map_values f d

abbrev pub map_seqs : (Sequence → Sequence) → SequenceGroup → SequenceGroup
map_seqs f g = record g { seqs_dict = map_values f g.seqs_dict }
