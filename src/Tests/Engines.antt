-- ===== src/Tests/Engines.antt =====
-- The theorems on the engine (vllm/engine/llm_engine.py) at concrete inputs.
use mars_codebase.Block
use mars_codebase.Sequence.Data.{get_last_token_id}
use mars_codebase.Prelude.Int.{pos, ℤ}
use mars_codebase.Block.{LogicalTokenBlock, blank_token_id}
use mars_codebase.Tests.Fixtures.{
  content, group, scheduler, sequence, served-IsValid, served-table, table,
}
use mars_codebase.Engine.{
  EngineConfig, StopString, check_stop, resume_request_single, return_tokens,
}
use mars_codebase.Engine.Outputs.{Sample, process_samples}
use mars_codebase.Engine.Steps.{IsSampled, Settled, process_samples-single}
use mars_codebase.Scheduler.State.{PreemptionMode, SchedulerV2}
use mars_codebase.Scheduler.Pausing.{get_paused_seq_group, pause_mode, resume_seq_group}
use mars_codebase.Engine.Overruns.{resume_request_single-over}
use mars_codebase.Scheduler.Batching.{change_first}
use mars_codebase.Sequence.Group.{SequenceGroup}
use mars_codebase.Prelude.Dict.{Dict}
use mars_codebase.Prelude.{List, [], arith, true, ℕ, inr, ok, refl, ◌∷◌, ◌≡◌, ◌≤◌}
use mars_codebase.Engine.Returns.{Appended, HoldsTokens, return_tokens-ok}
use mars_codebase.Engine.Stops.{StopsOrRuns, check_stop-cases}
use mars_codebase.Sequence.Data.{get_len, get_output_len}
use mars_codebase.Sequence.Member.{Sequence, new_sequence}
use mars_codebase.Engine.Created.{new_sequence-HoldsTokens}
use mars_codebase.Sequence.Data
use mars_codebase.Sequence.Status.{SequenceStatus}

abbrev config : EngineConfig
config = record { block_size = 2; max_model_len = 5; eos_token_id = pos 0 }

abbrev one_cell : LogicalTokenBlock
one_cell = record {
  block_number = 0;
  block_size = 2;
  token_ids = pos 11 ∷ blank_token_id ∷ [];
  num_tokens = 1;
}

-- A paused sequence of one token.
abbrev paused_one : Sequence
paused_one = record sequence {
  content = record content { prompt_token_ids = pos 11 ∷ [] };
  logical_token_blocks = one_cell ∷ [];
  status = SequenceStatus.paused_api;
}

paused_one-HoldsTokens : HoldsTokens paused_one
unfolding Block.get_token_ids
paused_one-HoldsTokens = record {
  positive = omega arith;
  packed = inr (
    [],
    one_cell,
    refl,
    tt,
    record {
      well_formed = record { cells = refl; fits = omega arith };
      size = refl;
      used = omega arith;
    },
  );
  held = refl;
}

abbrev ret : List ℤ
ret = pos 1 ∷ pos 2 ∷ pos 3 ∷ pos 4 ∷ pos 5 ∷ []

return_tokens-ok_example :
    (s' : Sequence) × (return_tokens config (pos 3) paused_one ret ≡ ok s')
    × Appended paused_one (pos 1 ∷ pos 2 ∷ pos 3 ∷ []) s'
    × (s'.status ≡ SequenceStatus.resumed_api)
    × (get_len s'.content ≤ 5)
    × (get_output_len s'.content ≤ 3)
return_tokens-ok_example =
    return_tokens-ok config 3 paused_one ret refl paused_one-HoldsTokens (omega arith)

abbrev roomy : EngineConfig
roomy = record config { max_model_len = 50 }

-- A request that calls an API with as many output tokens as it may have.
abbrev spent_group : SequenceGroup
spent_group = record group {
  seqs_dict = (7, paused_one) ∷ [];
  sampling_params = record group.sampling_params { max_tokens = 0 };
}

abbrev spent : SchedulerV2
spent = record scheduler {
  groups = (1, spent_group) ∷ [];
  paused = (1, PreemptionMode.preserve) ∷ [];
}

resume_request_single-over_example :
    (s' : Sequence) × Appended paused_one (pos 1 ∷ pos 2 ∷ pos 3 ∷ pos 4 ∷ []) s'
    × (s'.status ≡ SequenceStatus.resumed_api)
    × (get_output_len s'.content ≡ 4)
    × (resume_request_single roomy spent 1 ret
        ≡ resume_seq_group (change_first (λ _. s') spent 1 spent_group) 1)
unfolding get_paused_seq_group
resume_request_single-over_example =
    resume_request_single-over roomy spent 1 ret spent_group paused_one PreemptionMode.preserve refl
      refl refl refl paused_one-HoldsTokens (omega arith) refl

check_stop-cases_example :
    (s' : Sequence) × (check_stop config group.sampling_params [] sequence ≡ ok s')
    × (s'.seq_id ≡ sequence.seq_id)
    × StopsOrRuns config group.sampling_params sequence s'
unfolding get_last_token_id
check_stop-cases_example = check_stop-cases config group.sampling_params sequence [] (pos 13) refl

abbrev running_one : Sequence
running_one = record paused_one { status = SequenceStatus.running }

abbrev running_group : SequenceGroup
running_group = record group { seqs_dict = (7, running_one) ∷ [] }

abbrev generating : SchedulerV2
generating = record scheduler { groups = (1, running_group) ∷ [] }

abbrev sample : Sample
sample = record { parent_seq_id = 7; output_token = pos 12; logprobs = pos 12 ∷ pos 13 ∷ [] }

-- The text ends with a stop string that calls an API.
abbrev call_string : Sequence → List StopString
call_string _ = record { ends_text = true; calls_api = true } ∷ []

sampled : IsSampled generating 1 running_group running_one sample
sampled = record {
  stored = refl;
  only = refl;
  runs = refl;
  holds = record {
    positive = paused_one-HoldsTokens.positive;
    packed = paused_one-HoldsTokens.packed;
    held = paused_one-HoldsTokens.held;
  };
  from = refl;
  logged = refl;
  no_beam = refl;
}

process_samples-single_example :
    (s s' : Sequence) × (sch' : SchedulerV2) × (swaps' : Dict ℕ) × Appended running_one
      (pos 12 ∷ [])
      s
    × (check_stop config running_group.sampling_params (call_string s) s ≡ ok s')
    × (process_samples config call_string generating 1 60 (sample ∷ []) [] 8 ≡ ok (sch', swaps', 8))
    × Settled generating 1 running_group running_one PreemptionMode.swap s' sch'
unfolding pause_mode
process_samples-single_example =
    process_samples-single config call_string generating 1 60 running_group running_one sample [] 8
      table PreemptionMode.swap sampled served-IsValid served-table refl

new_sequence-HoldsTokens_example :
    (s : Sequence) × (new_sequence 9 ret 2 ≡ ok s)
    × HoldsTokens s
    × (Data.get_token_ids s.content ≡ ret)
    × (get_output_len s.content ≡ 0)
    × (s.content.inflight_length ≡ 5)
    × (s.status ≡ SequenceStatus.waiting)
new_sequence-HoldsTokens_example = new_sequence-HoldsTokens 9 ret 2 (omega arith)
