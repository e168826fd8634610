-- ===== src/Engine/Stops.antt =====
-- When LLMEngine._check_stop lets a sequence run on (vllm/engine/llm_engine.py).
use mars_codebase.Sequence.Member.{Sequence, mem_ℤ, reset_starvation_paused}
use mars_codebase.Prelude.{
  Bool-cases, List, [], arith, inl, inr, leb, none, not, ok, refl, some, ◌&&◌, ◌<◌, ◌∷◌, ◌≡◌, ◌⊎◌,
  ◌≢◌,
}
use mars_codebase.Sequence.Data.{get_last_token_id, get_len, get_output_len}
use mars_codebase.Engine.{
  EngineConfig, StopString, check_limits, check_stop, stop_with, stopped_by, with_status,
}
use mars_codebase.Sequence.Status.{SequenceStatus}
use mars_codebase.Prelude.Int.{eq_ℤ, ℤ}
use mars_codebase.Sequence.Group.{SamplingParams}

stopped_by-cases :
    (stops : List StopString)
    → (stopped_by stops ≡ none)
      ⊎ (stopped_by stops ≡ some SequenceStatus.paused_api)
      ⊎ (stopped_by stops ≡ some SequenceStatus.finished_stopped)
unfolding stopped_by
stopped_by-cases [] = inl refl
stopped_by-cases (stop ∷ stops) = elim (Bool-cases stop.ends_text) [
  | inr e ↦ rw (e, stopped_by) (stopped_by-cases stops)
  | inl e ↦ elim (Bool-cases stop.calls_api) [
    | inl a ↦ inr (inl (rw (e, a, stopped_by) refl))
    | inr a ↦ inr (inr (rw (e, a, stopped_by) refl))
  ]
]

module _ (config : EngineConfig) (p : SamplingParams) (s : Sequence) where
  -- A sequence that does not run, or that runs on as it was, below both limits.
  abbrev pub StopsOrRuns : Sequence → Type 0
  StopsOrRuns s' =
      (s'.status ≢ SequenceStatus.running)
      ⊎ ((s' ≡ s)
          × (get_len s.content < config.max_model_len)
          × (get_output_len s.content < p.max_tokens))

  check_limits-cases :
      (last : ℤ)
      → get_last_token_id s.content ≡ ok last
      → (s' : Sequence) × (check_limits config p s ≡ ok s')
        × (s'.seq_id ≡ s.seq_id)
        × StopsOrRuns s'
  unfolding check_limits
  check_limits-cases last e = elim (Bool-cases (mem_ℤ last p.stop_token_ids)) [
    | inl h ↦ (with_status SequenceStatus.finished_stopped s, rw (e, h) refl, refl, inl (λ r. cc r))
    | inr h ↦ elim (Bool-cases (leb config.max_model_len (get_len s.content))) [
      | inl l ↦ (
        with_status SequenceStatus.finished_length_capped s,
        rw (e, h, l) refl,
        refl,
        inl (λ r. cc r),
      )
      | inr l ↦ elim (Bool-cases (leb p.max_tokens (get_output_len s.content))) [
        | inl m ↦ (
          with_status SequenceStatus.finished_length_capped s,
          rw (e, h, l, m) refl,
          refl,
          inl (λ r. cc r),
        )
        | inr m ↦ elim (Bool-cases (not p.ignore_eos && eq_ℤ last config.eos_token_id)) [
          | inl d ↦ (
            with_status SequenceStatus.finished_stopped s,
            rw (e, h, l, m, d) refl,
            refl,
            inl (λ r. cc r),
          )
          | inr d ↦
              (s, rw (e, h, l, m, d) refl, refl, inr (refl, ground (arith, l), ground (arith, m)))
        ]
      ]
    ]
  ]

  -- check_stop returns for a sequence with a last token. Under the same id, it then
  -- does not run, or it is as it was, shorter than `max_model_len` and with an output shorter than
  -- `max_tokens`.
  pub check_stop-cases :
      (stops : List StopString) (last : ℤ)
      → get_last_token_id s.content ≡ ok last
      → (s' : Sequence) × (check_stop config p stops s ≡ ok s')
        × (s'.seq_id ≡ s.seq_id)
        × StopsOrRuns s'
  unfolding check_stop reset_starvation_paused
  check_stop-cases stops last e = elim (stopped_by-cases stops) [
    | inl h ↦ rw (h, check_stop) (check_limits-cases last e)
    | inr (inl h) ↦
        (stop_with SequenceStatus.paused_api s, rw (h, check_stop) refl, refl, inl (λ r. cc r))
    | inr (inr h) ↦ (
      stop_with SequenceStatus.finished_stopped s,
      rw (h, check_stop) refl,
      refl,
      inl (λ r. cc r),
    )
  ]
