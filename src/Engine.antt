-- ===== src/Engine.antt =====
-- vllm/engine/llm_engine.py: the methods of LLMEngine that add, stop and resume requests. The
-- tokenizer gives the token ids; texts are left out, but for what the stop strings ask of them.
pub mod Returns
pub mod Overruns
pub mod Created
pub mod Stops
pub mod Outputs
pub mod Steps
use mars_codebase.Prelude.{
  Bool, List, Option, Result, [], assertion_error, false, guard, if◌then◌else◌, leb, length, none,
  not, ok, some, ℕ, ◌&&◌, ◌+◌, ◌>>=◌, ◌>>◌, ◌∷◌,
}
use mars_codebase.Prelude.Dict
use mars_codebase.Prelude.Dict.{Dict}
use mars_codebase.Sequence.Group.{SamplingParams, SequenceGroup, find, first_seq}
use mars_codebase.Scheduler.State.{SchedulerV2, group_of, with_group}
use mars_codebase.Sequence.Status.{SequenceStatus, is_paused}
use mars_codebase.Sequence.Member.{
  Sequence, append_token_id, mem_ℤ, new_sequence, reset_starvation_paused,
}
use mars_codebase.Prelude.Int.{decrement, difference, eq_ℤ, min_ℤ, negsuc, pos, slice_to, ℤ}
use mars_codebase.Sequence.Data.{get_last_token_id, get_len, get_output_len}
use mars_codebase.Scheduler.Batching.{change_first}
use mars_codebase.Scheduler.Waste.{add_seq_group}
use mars_codebase.Scheduler.Pausing.{get_paused_seq_group, resume_seq_group}

-- What the engine reads of its configuration and of its tokenizer.
pub record EngineConfig : Type 0 where
  pub block_size : ℕ
  pub max_model_len : ℕ
  pub eos_token_id : ℤ

-- For each stop string in order: whether the text ends with it, and whether it calls an API.
pub record StopString : Type 0 where
  pub ends_text : Bool
  pub calls_api : Bool

abbrev pub with_status : SequenceStatus → Sequence → Sequence
with_status status s = record s { status = status }

-- The loop of _check_stop over the stop strings: the status that a string gives.
unfoldable pub stopped_by : List StopString → Option SequenceStatus
stopped_by [] = none
stopped_by (stop ∷ stops) =
    if stop.ends_text
    then some
        (if stop.calls_api then SequenceStatus.paused_api else SequenceStatus.finished_stopped)
    else stopped_by stops

-- `if status is PAUSED_API: seq.reset_starvation_paused()`
abbrev pub stop_with : SequenceStatus → Sequence → Sequence
stop_with SequenceStatus.paused_api s =
    reset_starvation_paused (with_status SequenceStatus.paused_api s)
stop_with status s = with_status status s

-- The tests of _check_stop after those of the stop strings.
unfoldable pub check_limits : EngineConfig → SamplingParams → Sequence → Result Sequence
check_limits config p s = do
  last ← get_last_token_id s.content
  ok (
      if mem_ℤ last p.stop_token_ids
      then with_status SequenceStatus.finished_stopped s
      else if leb config.max_model_len (get_len s.content)
      then with_status SequenceStatus.finished_length_capped s
      else if leb p.max_tokens (get_output_len s.content)
      then with_status SequenceStatus.finished_length_capped s
      else if not p.ignore_eos && eq_ℤ last config.eos_token_id
      then with_status SequenceStatus.finished_stopped s
      else s)

-- LLMEngine._check_stop
unfoldable pub check_stop :
    EngineConfig → SamplingParams → List StopString → Sequence → Result Sequence
check_stop config p stops s = elim (stopped_by stops) [
  | some status ↦ ok (stop_with status s)
  | none ↦ check_limits config p s
]

-- LLMEngine.add_request, with the token ids of the prompt and the next sequence id.
unfoldable pub add_request :
    EngineConfig → SchedulerV2 → ℕ → SamplingParams → List ℤ → ℕ → ℕ → Result SchedulerV2
add_request config sch request_id p prompt_token_ids arrival_time seq_id = do
  seq ← new_sequence seq_id prompt_token_ids config.block_size
  add_seq_group sch (record {
    request_id = request_id;
    seqs_dict = (seq_id, seq) ∷ [];
    sampling_params = p;
    arrival_time = arrival_time;
    discarded = false;
    time_before_processing = negsuc 999;
    newest_sort_waste = negsuc 9999;
  })

-- `for token in ret: seq.append_token_id(token, {token: 0.0})`
unfoldable pub append_return : Sequence → List ℤ → Result Sequence
append_return s [] = ok s
append_return s (t ∷ ret) = do s' ← append_token_id s t (t ∷ []); append_return s' ret

-- What a resumption does to a sequence: the returned tokens are cut to the room that is left, of
-- `max_model_len` for the sequence and of `most` for its output, and appended.
unfoldable pub return_tokens : EngineConfig → ℤ → Sequence → List ℤ → Result Sequence
return_tokens config room s ret = do
  guard (is_paused s.status) assertion_error
  let truncate_len =
      min_ℤ (min_ℤ (pos (length ret)) (difference config.max_model_len (get_len s.content))) room
  s' ← append_return s (slice_to truncate_len ret)
  ok (with_status SequenceStatus.resumed_api s')

-- The loop of resume_request.
unfoldable pub return_all : EngineConfig → SequenceGroup → List (ℕ × List ℤ) → Result SequenceGroup
return_all config g [] = ok g
return_all config g ((seq_id, ret) ∷ rest) = do
  seq ← find g seq_id
  s ←
      return_tokens config (difference g.sampling_params.max_tokens (get_output_len seq.content))
        seq ret
  return_all config (record g { seqs_dict = Dict.put g.seqs_dict seq_id s }) rest

-- The parameters that resume_request leaves, with new ones or without.
abbrev pub next_params : SamplingParams → Option SamplingParams → SamplingParams
next_params p none = record p { api_max_calls = decrement p.api_max_calls }
next_params p (some q) = q

-- LLMEngine.resume_request
unfoldable pub resume_request :
    EngineConfig → SchedulerV2 → ℕ → List (ℕ × List ℤ) → Option SamplingParams → Result SchedulerV2
resume_request config sch request_id returned sampling_params = do
  mode ← get_paused_seq_group sch request_id
  g ← group_of sch request_id
  let g' : SequenceGroup = record g {
    sampling_params = next_params g.sampling_params sampling_params;
  }
  g'' ← return_all config g' returned
  resume_seq_group (with_group sch request_id g'') request_id

-- LLMEngine.resume_request_single, which leaves room for one more token.
unfoldable pub resume_request_single : EngineConfig → SchedulerV2 → ℕ → List ℤ → Result SchedulerV2
resume_request_single config sch request_id ret = do
  mode ← get_paused_seq_group sch request_id
  g ← group_of sch request_id
  seq ← first_seq g
  s ←
      return_tokens config
        (difference g.sampling_params.max_tokens (1 + get_output_len seq.content)) seq ret
  resume_seq_group (change_first (λ _. s) sch request_id g) request_id
