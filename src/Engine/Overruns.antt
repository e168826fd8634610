-- ===== src/Engine/Overruns.antt =====
-- LLMEngine.resume_request_single on an output that is as long as it may be
-- (vllm/engine/llm_engine.py).
use mars_codebase.Prelude.Dict
use mars_codebase.Prelude.{
  List, arith, length, length-take, ok, refl, some, ap, true, take, leb, false, ℕ, ◌+◌, ◌-◌, ◌∙◌,
  ◌≡◌, ◌≤◌,
}
use mars_codebase.Prelude.Int.{difference, negsuc, ℤ}
use mars_codebase.Engine.{EngineConfig, resume_request_single}
use mars_codebase.Engine.Returns.{Appended, HoldsTokens, return_tokens-over}
use mars_codebase.Sequence.Data.{get_len, get_output_len}
use mars_codebase.Sequence.Group.{SequenceGroup, first_seq}
use mars_codebase.Sequence.Member.{Sequence}
use mars_codebase.Sequence.Status.{SequenceStatus, is_paused}
use mars_codebase.Scheduler.Batching.{change_first}
use mars_codebase.Scheduler.Pausing.{get_paused_seq_group, resume_seq_group}
use mars_codebase.Scheduler.State.{PreemptionMode, SchedulerV2}

difference-suc : (n : ℕ) → difference n (1 + n) ≡ negsuc 0
difference-suc n =
    let less : leb (1 + n) n ≡ false = ground arith in
    let one : 1 + n - n ≡ 1 = omega arith in rw (less, one) refl

-- For a paused request whose first sequence is paused with an output of exactly `max_tokens` tokens,
-- is not longer than `max_model_len` and has its tokens in its blocks: resume_request_single appends
-- all of the returned tokens but the last, however many they are, so that the output grows past
-- `max_tokens` by their number; then it resumes the request with that sequence.
pub resume_request_single-over :
    (config : EngineConfig) (sch : SchedulerV2) (request_id : ℕ) (ret : List ℤ) (g : SequenceGroup)
    (seq : Sequence) (mode : PreemptionMode)
    → get_paused_seq_group sch request_id ≡ ok mode
    → Dict.get sch.groups request_id ≡ some g
    → first_seq g ≡ ok seq
    → is_paused seq.status ≡ true
    → HoldsTokens seq
    → get_len seq.content ≤ config.max_model_len
    → get_output_len seq.content ≡ g.sampling_params.max_tokens
    → (s' : Sequence) × Appended seq (take (length ret - 1) ret) s'
      × (s'.status ≡ SequenceStatus.resumed_api)
      × (get_output_len s'.content ≡ g.sampling_params.max_tokens + (length ret - 1))
      × (resume_request_single config sch request_id ret
          ≡ resume_seq_group (change_first (λ _. s') sch request_id g) request_id)
unfolding resume_request_single
resume_request_single-over config sch request_id ret g seq mode p e f paused h le full =
    let (s', done, a, resumed) = return_tokens-over config seq ret paused h le in
    let room : difference g.sampling_params.max_tokens (1 + get_output_len seq.content) ≡ negsuc 0 =
      ap (λ n. difference g.sampling_params.max_tokens (1 + n)) full
      ∙ difference-suc g.sampling_params.max_tokens in
    (
      s',
      a,
      resumed,
      omega (arith, a.output_len, full, length-take (length ret - 1) ret),
      rw (p, e, f, room, done) refl,
    )
