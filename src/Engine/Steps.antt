-- ===== src/Engine/Steps.antt =====
-- What LLMEngine._process_sequence_group_samples does to a request of one sequence
-- (vllm/engine/llm_engine.py).
use mars_codebase.Prelude.Dict
use mars_codebase.Prelude.Dict.{Dict}
use mars_codebase.Prelude.{
  Bool-cases, List, Result, err, [], ==_refl, ap, false, inl, inr, none, ok, refl, some, true, ℕ,
  ◌==◌, ◌>>=◌, ◌∙◌, ◌∷◌, ◌≡◌, ◌⊎◌, if◌then◌else◌,
}
use mars_codebase.Engine.{EngineConfig, StopString, check_stop}
use mars_codebase.Engine.Outputs.{
  Sample, add_child, add_children, check_children, continue_parent, free_parents, process_parent,
  process_parents, process_samples, put_parents,
}
use mars_codebase.Engine.Returns.{Appended, HoldsTokens, append_token_id-ok}
use mars_codebase.Engine.Stops.{check_stop-cases}
use mars_codebase.Sequence.Group.{SequenceGroup, get_seqs_in}
use mars_codebase.Sequence.Member.{Sequence, append_token_id, mem_ℤ}
use mars_codebase.Sequence.Status.{SequenceStatus, is_finished, is_paused}
use mars_codebase.Scheduler.State.{PreemptionMode, SchedulerV2, with_group}
use mars_codebase.Scheduler.Preempting.{free_seq}
use mars_codebase.Scheduler.Pausing.{pause_mode, pause_seq_group}
use mars_codebase.Scheduler.PauseModes.{PausedIn, pause_seq_group-ok}
use mars_codebase.BlockManager.Freeing.{free-IsValid}
use mars_codebase.BlockManager.Tables.{BlockTable}
use mars_codebase.BlockManager.Valid.{IsValid}

>>=-ok : {A : Type 0} (r : Result A) → (r >>= ok) ≡ r
>>=-ok (ok a) = refl
>>=-ok (err e) = refl

paused_lem :
    (status : SequenceStatus) → is_paused status ≡ true → status ≡ SequenceStatus.paused_api
paused_lem SequenceStatus.paused_api h = refl
paused_lem SequenceStatus.waiting h = absurd (cc h)
paused_lem SequenceStatus.running h = absurd (cc h)
paused_lem SequenceStatus.swapped h = absurd (cc h)
paused_lem SequenceStatus.finished_stopped h = absurd (cc h)
paused_lem SequenceStatus.resumed_api h = absurd (cc h)
paused_lem SequenceStatus.resuming h = absurd (cc h)
paused_lem SequenceStatus.finished_length_capped h = absurd (cc h)
paused_lem SequenceStatus.finished_aborted h = absurd (cc h)
paused_lem SequenceStatus.finished_ignored h = absurd (cc h)

-- The request with a new state of its sequence.
abbrev pub with_seq : SequenceGroup → Sequence → SequenceGroup
with_seq g s = record g { seqs_dict = Dict.put g.seqs_dict s.seq_id s }

module _ (sch : SchedulerV2) (request_id : ℕ) (g : SequenceGroup) (seq : Sequence) where
  -- What becomes of the request: a finished sequence gives its blocks back, a paused one pauses the
  -- request, and any other leaves the manager and the queues as they were.
  abbrev pub Settled : PreemptionMode → Sequence → SchedulerV2 → Type 0
  Settled mode s' sch' =
      ((is_finished s'.status ≡ true)
        × (is_paused s'.status ≡ false)
        × IsValid sch'.block_manager
        × (sch'.block_manager.block_tables ≡ Dict.delete sch.block_manager.block_tables seq.seq_id)
        × (sch'.groups ≡ Dict.put sch.groups request_id (with_seq g s')))
      ⊎ ((s'.status ≡ SequenceStatus.paused_api)
          × PausedIn (with_group sch request_id (with_seq g s')) request_id (with_seq g s') none
              mode sch')
      ⊎ ((is_finished s'.status ≡ false)
          × (is_paused s'.status ≡ false)
          × (sch' ≡ with_group sch request_id (with_seq g s')))

  -- The request has one sequence, which runs and whose blocks hold its tokens, and gets one sample
  -- with a log-probability; it is without beam search.
  pub record IsSampled (sample : Sample) : Type 0 where
    pub stored : Dict.get sch.groups request_id ≡ some g
    pub only : g.seqs_dict ≡ (seq.seq_id, seq) ∷ []
    pub runs : seq.status ≡ SequenceStatus.running
    pub holds : HoldsTokens seq
    pub from : sample.parent_seq_id ≡ seq.seq_id
    pub logged : mem_ℤ sample.output_token sample.logprobs ≡ true
    pub no_beam : g.sampling_params.use_beam_search ≡ false

module _ (config : EngineConfig) (texts : Sequence → List StopString) (sch : SchedulerV2)
    (request_id now : ℕ) (g : SequenceGroup) (seq : Sequence) (sample : Sample) (swaps : Dict ℕ)
    (counter : ℕ) where
  -- What is left of the method after the sequence is checked.
  abbrev settle : Sequence → Result (SchedulerV2 × Dict ℕ × ℕ)
  settle s = do
    sch' ← if is_finished s.status then free_seq sch s else ok sch
    let stored = with_group sch' request_id (with_seq g s)
    if is_paused s.status
        then (do
          (paused, swaps') ← pause_seq_group stored request_id now swaps none
          ok (paused, swaps', counter))
        else ok (stored, swaps, counter)

  parents_lem :
      (s : Sequence)
      → IsSampled sch request_id g seq sample
      → append_token_id seq sample.output_token sample.logprobs ≡ ok s
      → process_parents
          (seq ∷ [])
          (sample ∷ [])
          (record { sch = sch; seq_group = g; seq_counter = counter; child_seqs = [] })
        ≡ ok (record {
          sch = sch;
          seq_group = g;
          seq_counter = counter;
          child_seqs = record { seq = s; parent = seq } ∷ [];
        })
  unfolding process_parents process_parent continue_parent
  parents_lem s h e = rw (h.from, ==_refl seq.seq_id, e) refl

  settle_lem :
      (s s' : Sequence)
      → IsSampled sch request_id g seq sample
      → append_token_id seq sample.output_token sample.logprobs ≡ ok s
      → check_stop config g.sampling_params (texts s) s ≡ ok s'
      → s'.seq_id ≡ seq.seq_id
      → process_samples config texts sch request_id now (sample ∷ []) swaps counter ≡ settle s'
  unfolding process_samples check_children add_children add_child free_parents put_parents
  settle_lem s s' h e c same =
      let parents : get_seqs_in SequenceStatus.running g ≡ seq ∷ [] = rw (h.only, h.runs) refl in
      let own : (s'.seq_id == seq.seq_id) ≡ true = rw same (==_refl seq.seq_id) in
      let known : (sample.parent_seq_id == seq.seq_id) ≡ true = rw h.from (==_refl seq.seq_id) in
      elim (Bool-cases (is_paused s'.status)) [
        | inl p ↦ rw (h.stored, parents, known, parents_lem s h e, c, own, p, >>=-ok) refl
        | inr p ↦ rw (h.stored, parents, known, parents_lem s h e, c, own, p, >>=-ok) refl
      ]

  settle-ok :
      (table : BlockTable) (mode : PreemptionMode) (s' : Sequence)
      → IsSampled sch request_id g seq sample
      → IsValid sch.block_manager
      → Dict.get sch.block_manager.block_tables seq.seq_id ≡ some table
      → pause_mode sch.api_policy sch.heuristic_coef g.sampling_params.api_exec_time ≡ ok mode
      → s'.seq_id ≡ seq.seq_id
      → (sch' : SchedulerV2) × (swaps' : Dict ℕ) × (settle s' ≡ ok (sch', swaps', counter))
        × Settled sch request_id g seq mode s' sch'
  unfolding free_seq
  settle-ok table mode s' h v held chosen same = elim (Bool-cases (is_paused s'.status)) [
    | inl p ↦
        let status = paused_lem s'.status p in
        let runs_on : is_finished s'.status ≡ false = rw status refl in
        let g' = with_seq g s' in
        let (sch', swaps', done, left) =
          pause_seq_group-ok (with_group sch request_id g') request_id now g' s' table swaps none
            mode
            (record {
              valid = v;
              only = rw (h.only, same, ==_refl seq.seq_id) refl;
              status = status;
              held = rw same held;
            })
            (Dict.get-put sch.groups request_id request_id g' ∙ rw (==_refl request_id) refl)
            chosen in
        (sch', swaps', rw (runs_on, p, done) refl, inr (inl (status, left)))
    | inr p ↦ elim (Bool-cases (is_finished s'.status)) [
      | inl f ↦
          let (m, done, v', tables, _) = free-IsValid sch.block_manager s' v in
          (
            with_group (record sch { block_manager = m }) request_id (with_seq g s'),
            swaps,
            rw (f, p, done) refl,
            inl (f, p, v', tables ∙ ap (Dict.delete sch.block_manager.block_tables) same, refl),
          )
      | inr f ↦
          (with_group sch request_id (with_seq g s'), swaps, rw (f, p) refl, inr (inr (f, p, refl)))
    ]
  ]

  -- For a request without beam search, of one running sequence that has a table on a valid manager
  -- and whose blocks hold its tokens, and for one sample of it, where the policy gives a mode: the
  -- method returns. It appends the token and checks the sequence. Where that is finished, its table
  -- is deleted and the manager stays valid; where it is paused, the request is paused as by
  -- pause_seq_group, the manager stays valid and the queues are as they were; in any other case
  -- nothing but the sequence changes.
  pub process_samples-single :
      (table : BlockTable) (mode : PreemptionMode)
      → IsSampled sch request_id g seq sample
      → IsValid sch.block_manager
      → Dict.get sch.block_manager.block_tables seq.seq_id ≡ some table
      → pause_mode sch.api_policy sch.heuristic_coef g.sampling_params.api_exec_time ≡ ok mode
      → (s s' : Sequence) × (sch' : SchedulerV2) × (swaps' : Dict ℕ) × Appended seq
          (sample.output_token ∷ [])
          s
        × (check_stop config g.sampling_params (texts s) s ≡ ok s')
        × (process_samples config texts sch request_id now (sample ∷ []) swaps counter
            ≡ ok (sch', swaps', counter))
        × Settled sch request_id g seq mode s' sch'
  process_samples-single table mode h v held chosen =
      let (s, done, a, last) =
        append_token_id-ok seq sample.output_token sample.logprobs h.logged h.holds in
      let (s', checked, same, _) =
        check_stop-cases config g.sampling_params s (texts s) sample.output_token last in
      let same' = same ∙ a.same_id in
      let (sch', swaps', settled, left) = settle-ok table mode s' h v held chosen same' in
      (s, s', sch', swaps', a, checked, settle_lem s s' h done checked same' ∙ settled, left)
