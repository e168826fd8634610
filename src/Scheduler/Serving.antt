-- ===== src/Scheduler/Serving.antt =====
-- A round of SchedulerV2._schedule for a group with a workload (vllm/core/scheduler_v2.py).
use mars_codebase.Prelude.Dict
use mars_codebase.BlockManager.Allocation.{
  allocate, allocate_discarded, allocate_inflight, allocate_swapped, table_or_new,
}
use mars_codebase.Prelude.{
  subst, inl, inr, ap, sym, err, ==_refl, >>=-eq-ok, Ends, Ends-bind, Ends-ok, Ends-or_raise,
  Result, [], ap, arith, err, index_error, inr, key_error, length, none, ok, refl, some, total,
  total-append, true, ℕ, ◌+◌, ◌-◌, ◌∙◌, ◌∷◌, ◌≡◌, ◌≤◌, Bool-cases, ◌==◌, List,
}
use mars_codebase.BlockManager.Manager.{
  BlockSpaceManager, can_fulfill_blocks, get_memory_requirement,
}
use mars_codebase.Scheduler.Soundness.{IsIdle, IsIdleData, IsSound, first_seq-Ends, put-AllSingle}
use mars_codebase.Scheduler.Loads.{
  dict_cases, first_seq-load, load-map_first, map_first-length, planned, planned-put_self, same,
  total-put_absent,
}
use mars_codebase.Prelude.Dict.{Dict}
use mars_codebase.Scheduler.Batching.{Batch, admit, change_data, chunk_inflight, chunk_swap}
use mars_codebase.Sequence.Status.{SequenceStatus}
use mars_codebase.Sequence.Group.{SequenceGroup, first_seq}
use mars_codebase.Scheduler.Pausing.{map_first}
use mars_codebase.BlockManager.Allocating.{allocate-IsValid}
use mars_codebase.Sequence.Member.{Sequence}
use mars_codebase.Sequence.Data.{SequenceData, populate_workload}
use mars_codebase.Scheduler.Rooms.{Roomed, batch_total}
use mars_codebase.Scheduler.Queues.{paused_total}

-- What holds between the rounds: the scheduler is sound and the batch has room for the tokens that
-- are counted; and, where `Q` holds, each name stands once in the lists and the scheduled groups
-- serve no more tokens than are counted.
pub record Fits (Q : Type 0) (b : Batch) : Type 0 where
  pub sound : IsSound b.sch
  pub once : Q → (j : ℕ) → total (same j) b.scheduled + total (same j) b.targets ≤ 1
  pub within_limit : b.num_batched_tokens ≤ b.sch.batch_max_tokens
  pub loads : Q → total (planned b.sch.groups) b.scheduled ≤ b.num_batched_tokens

-- The names in all the lists of the batch and in the queues of the scheduler.
abbrev pub whole : (ℕ → ℕ) → Batch → ℕ
whole f b = batch_total f b + total f b.scheduled

-- What a round leaves, which adds no other names than those of a list.
pub record Rounded (Q : Type 0) (names : List ℕ) (b b' : Batch) : Type 0 where
  pub fits : Fits Q b'
  pub limit : b'.sch.batch_max_tokens ≡ b.sch.batch_max_tokens
  pub no_more : length b'.targets ≤ length b.targets
  pub conserved : (f : ℕ → ℕ) → whole f b' ≤ whole f b + total f names
  pub keys : (f : ℕ → ℕ) → paused_total f b'.sch ≤ paused_total f b.sch
  pub same_running : b'.sch.running ≡ b.sch.running

allocate-no_window :
    (m m' : BlockSpaceManager) (g : SequenceGroup) (swaps swaps' : Dict ℕ)
    → allocate m g swaps ≡ ok (m', swaps')
    → m'.block_sliding_window ≡ m.block_sliding_window
unfolding allocate
allocate-no_window m m' g swaps swaps' e =
    let (seq, _, e1) = >>=-eq-ok (first_seq g) _ e in
    let (p, _, e2) =
      >>=-eq-ok (allocate_discarded m seq (table_or_new m seq.seq_id) m.memory) _ e1 in
    let (q, _, e3) = >>=-eq-ok (allocate_swapped seq p.0 p.1) _ e2 in
    let (r, _, e4) = >>=-eq-ok (allocate_inflight m g seq q.0 q.1) _ e3 in
    sym (
      ap
        (λ (r : Result (BlockSpaceManager × Dict ℕ)). elim r [
          | ok t ↦ t.0.block_sliding_window
          | err x ↦ none
        ])
        e4)

idle_requirement :
    (m : BlockSpaceManager) (g : SequenceGroup) (seq : Sequence)
    → first_seq g ≡ ok seq
    → IsIdleData seq.content
    → get_memory_requirement m g ≡ ok 0
unfolding get_memory_requirement
idle_requirement m g seq e idle = rw (e, idle.no_discarded, idle.no_swapped, idle.no_inflight) refl

IsIdle-first :
    (g : SequenceGroup) (seq : Sequence)
    → IsIdle g.seqs_dict
    → first_seq g ≡ ok seq
    → IsIdleData seq.content
IsIdle-first g seq idle e = elim (dict_cases g.seqs_dict) [
  | inl h ↦ let e' : err index_error ≡ ok seq = rw h at e in absurd (cc e')
  | inr (k, s, d, h) ↦
      let e' : ok s ≡ ok seq = rw h at e in
      let idle' : IsIdleData s.content = subst IsIdle h idle in
      let e'' : s ≡ seq = cc e' in subst (λ (t : Sequence). IsIdleData t.content) e'' idle'
]

-- What is ready to be admitted: its blocks are free, and its tokens fit.
pub record Ready (room : ℕ) (m : BlockSpaceManager) (g : SequenceGroup) (seq : Sequence)
    : Type 0 where
  pub required : ℕ
  pub known : get_memory_requirement m g ≡ ok required
  pub free : can_fulfill_blocks m required ≡ true
  pub no_discarded : seq.content.resume_discard_tokens ≡ 0
  pub small : seq.content.running_inflight_tokens ≤ room

module _ (Q : Type 0) (i n_swap_blocks : ℕ) (b : Batch) (s : IsSound b.sch)
    (once : Q → (j : ℕ) → same j i + total (same j) b.scheduled + total (same j) b.targets ≤ 1)
    (within_limit : b.num_batched_tokens ≤ b.sch.batch_max_tokens)
    (loads : Q → total (planned b.sch.groups) b.scheduled ≤ b.num_batched_tokens) where
  absent : Q → total (same i) b.scheduled ≡ 0
  absent q = ground (arith, once q i, ==_refl i)

  pub admit-Ends :
      ((g : SequenceGroup) (seq : Sequence)
        → Dict.get b.sch.groups i ≡ some g
        → first_seq g ≡ ok seq
        → Ready (b.sch.batch_max_tokens - b.num_batched_tokens) b.sch.block_manager g seq)
      → Ends (Rounded Q (i ∷ []) b) (admit i n_swap_blocks b)
  unfolding admit
  admit-Ends ready = Ends-bind (Ends-or_raise (Dict.get b.sch.groups i) key_error tt) (λ g e.
      Ends-bind (first_seq-Ends g) (λ seq f.
        let r = ready g seq e f in
        let run : Sequence → Sequence = λ s. record s { status = SequenceStatus.running } in
        let g' : SequenceGroup = record g { seqs_dict = map_first run g.seqs_dict } in
        let (m', swaps', done, v, _, _, _) =
          allocate-IsValid b.sch.block_manager g seq r.required b.swaps_in s.valid f
            (s.single i g e) s.no_window r.known r.free in
        let same_load = load-map_first run g.seqs_dict (λ _. refl) ∙ first_seq-load g seq f in
        rw done (
          Ends-ok (record {
            fits = record {
              sound = record {
                valid = v;
                no_window =
                    allocate-no_window b.sch.block_manager m' g b.swaps_in swaps' done
                    ∙ s.no_window;
                single =
                    put-AllSingle b.sch.groups i g' s.single
                      (map_first-length run g.seqs_dict ∙ s.single i g e);
              };
              once = λ q j. omega (arith, once q j, total-append (same j) b.scheduled (i ∷ []));
              within_limit = omega (arith, within_limit, r.small);
              loads = λ q. omega (
                arith,
                loads q,
                r.no_discarded,
                same_load,
                planned-put_self b.sch.groups i g',
                total-put_absent b.sch.groups i g' b.scheduled (absent q),
                total-append (planned (Dict.put b.sch.groups i g')) b.scheduled (i ∷ []),
              );
            };
            limit = refl;
            no_more = omega arith;
            conserved = λ f. omega (arith, total-append f b.scheduled (i ∷ []));
            keys = λ f. omega arith;
            same_running = refl;
          }))))

pub chunk_inflight_le :
    (b : Batch) (d : SequenceData)
    → chunk_inflight b d ≤ b.sch.batch_max_tokens - b.num_batched_tokens
unfolding chunk_inflight
chunk_inflight_le b d = elim (Bool-cases (d.swap_length == chunk_swap b.sch d)) [
  | inl e ↦ rw e (omega arith)
  | inr e ↦ rw e (omega arith)
]

-- The group with its workload.
abbrev pub worked : ℕ → ℕ → Sequence → Sequence
worked n_swap n_inflight = change_data (λ d. populate_workload d 0 n_swap n_inflight)

abbrev pub populated : ℕ → ℕ → SequenceGroup → SequenceGroup
populated n_swap n_inflight g = record g {
  seqs_dict = map_first (worked n_swap n_inflight) g.seqs_dict;
}

first_seq-populated :
    (n_swap n_inflight : ℕ) (g : SequenceGroup) (seq : Sequence)
    → first_seq (populated n_swap n_inflight g) ≡ ok seq
    → (seq.content.resume_discard_tokens ≡ 0) × (seq.content.running_inflight_tokens ≡ n_inflight)
unfolding populate_workload
first_seq-populated n_swap n_inflight g seq e = elim (dict_cases g.seqs_dict) [
  | inl h ↦ let e' : err index_error ≡ ok seq = rw h at e in absurd (cc e')
  | inr (k, s, d, h) ↦
      let e' : ok (worked n_swap n_inflight s) ≡ ok seq = rw h at e in
      let e'' : worked n_swap n_inflight s ≡ seq = cc e' in
      (
        ap (λ (t : Sequence). t.content.resume_discard_tokens) (sym e''),
        ap (λ (t : Sequence). t.content.running_inflight_tokens) (sym e''),
      )
]

-- What stays as it was populated is ready, and what was discarded since, too.
pub kept-Ready :
    (room new_blocks n_swap n_inflight i : ℕ) (m : BlockSpaceManager) (g : SequenceGroup)
    (b b' : Batch)
    → n_inflight ≤ room
    → Dict.get b.sch.groups i ≡ some (populated n_swap n_inflight g)
    → get_memory_requirement m (populated n_swap n_inflight g) ≡ ok new_blocks
    → Roomed new_blocks i b (true, b')
    → (g' : SequenceGroup) (seq : Sequence) → Dict.get b'.sch.groups i ≡ some g'
    → first_seq g' ≡ ok seq
    → Ready room b'.sch.block_manager g' seq
unfolding get_memory_requirement can_fulfill_blocks
kept-Ready room new_blocks n_swap n_inflight i m g b b' le e need k g' seq e' f =
    elim (k.keeps.groups i) [
      | inl h ↦
          let same_group : populated n_swap n_inflight g ≡ g' = cc (e, h, e') in
          let (no_discarded, small) =
            first_seq-populated n_swap n_inflight g seq
              (subst (λ x. first_seq x ≡ ok seq) (sym same_group) f) in
          record {
            required = new_blocks;
            known = subst (λ x. get_memory_requirement m x ≡ ok new_blocks) same_group need;
            free = k.enough refl;
            no_discarded = no_discarded;
            small = omega (arith, small, le);
          }
      | inr (g'', h, idle) ↦
          let same_group : g'' ≡ g' = cc (h, e') in
          let idle' = IsIdle-first g' seq (subst (λ x. IsIdle x.seqs_dict) same_group idle) f in
          record {
            required = 0;
            known = idle_requirement b'.sch.block_manager g' seq f idle';
            free = ground arith;
            no_discarded = idle'.no_discarded;
            small = omega (arith, idle'.no_inflight);
          }
    ]
