-- ===== src/Scheduler/Filled.antt =====
-- The parts of SchedulerV2._schedule_chunk_and_fill (vllm/core/scheduler_v2.py): each ends, and the
-- scheduler stays sound.
use mars_codebase.Prelude.Dict
use mars_codebase.Prelude.Dict.{Dict}
use mars_codebase.Scheduler.Filling.{
  active_discard, asks_priority, avoid_starvation, candidates_of, count_rounds, count_starvation,
  discard_first, drop_candidate, drop_candidates, plain_query, split_priority, try_values,
  was_processed,
}
use mars_codebase.Sequence.Status.{SequenceStatus, is_status}
use mars_codebase.Prelude.{
  Bool, Bool-cases, Ends, Ends-bind, Ends-guard, Ends-ok, Ends-or_raise, Ends-weaken, List, Result,
  [], ap, assertion_error, false, if◌then◌else◌, index_error, inl, inr, key_error, length, ltb,
  none, ok, raises, refl, some, subst, suc, sym, true, ℕ, ◌&&◌, ◌==◌, ◌∙◌, ◌∷◌, ◌≡◌, Ends-if,
}
use mars_codebase.Scheduler.Soundness.{AllSingle, IsSound, first_seq-Ends, put-AllSingle}
use mars_codebase.Scheduler.Discards.{
  pause_by_recompute-Ends, paused_in-Ends, preempt_by_recompute-Ends,
}
use mars_codebase.Scheduler.SafePauses.{can_swap_out-Ends, pause_by_swap-Ends}
use mars_codebase.Scheduler.State.{PreemptionMode, SchedulerV2, with_group}
use mars_codebase.Scheduler.Loads.{map_first-length}
use mars_codebase.Sequence.Member.{
  Sequence, check_reset_starvation_scheduled, check_starvation_high_priority, increment_starvation,
}
use mars_codebase.Sequence.Group.{SequenceGroup, Strategy, values}
use mars_codebase.Scheduler.Batching.{change_first}
use mars_codebase.Scheduler.Discarding.{is_preserve}
use mars_codebase.Scheduler.Sorted.{sort_queue-Ends}
use mars_codebase.BlockManager.Valid.{IsValid}

-- What does not touch the manager and the groups.
pub same-IsSound :
    (sch sch' : SchedulerV2)
    → sch'.block_manager ≡ sch.block_manager
    → sch'.groups ≡ sch.groups
    → IsSound sch
    → IsSound sch'
same-IsSound sch sch' e e' s = record {
  valid = subst IsValid (sym e) s.valid;
  no_window = ap (λ m. m.block_sliding_window) e ∙ s.no_window;
  single = subst AllSingle (sym e') s.single;
}

discard_first-Ends :
    (queue : List ℕ) (sch : SchedulerV2) → IsSound sch → Ends IsSound (discard_first queue sch)
unfolding discard_first
discard_first-Ends [] sch s = raises index_error refl tt
discard_first-Ends (i ∷ queue) sch s =
    Ends-weaken
      (preempt_by_recompute-Ends (record sch { swapped = queue }) i
        (same-IsSound sch (record sch { swapped = queue }) refl refl s))
      (λ sch' (k, _). k.sound)

pub active_discard-Ends :
    (sch : SchedulerV2) (now : ℕ) → IsSound sch → Ends IsSound (active_discard sch now)
unfolding active_discard
active_discard-Ends sch now s =
    elim (Bool-cases (length sch.waiting == 0 && ltb 0 (length sch.swapped))) [
      | inl h ↦ rw h (
          Ends-bind (sort_queue-Ends sch (plain_query now false) sch.swapped s)
            (λ (queue, sch') s'. discard_first-Ends queue sch' s'))
      | inr h ↦ rw h (Ends-ok s)
    ]

pub candidates_of-Ends :
    (sch : SchedulerV2) (paused : Dict PreemptionMode)
    → Ends (λ _. Unit {0}) (candidates_of sch paused)
unfolding candidates_of
candidates_of-Ends sch paused =
    Ends-bind (paused_in-Ends is_preserve sch paused) (λ _ _. Ends-ok tt)

drop_candidate-Ends :
    (sch : SchedulerV2) (i : ℕ) (strategy : Strategy) (swaps : Dict ℕ)
    → IsSound sch
    → Ends (λ out. IsSound out.0) (drop_candidate sch i strategy swaps)
unfolding drop_candidate
drop_candidate-Ends sch i Strategy.recompute swaps s =
    Ends-bind (pause_by_recompute-Ends sch i s) (λ sch' (k, _). Ends-ok k.sound)
drop_candidate-Ends sch i Strategy.swap swaps s =
    Ends-bind (Ends-or_raise (Dict.get sch.groups i) key_error tt) (λ g _.
      Ends-bind (can_swap_out-Ends sch.block_manager g none) (λ can _. elim (Bool-cases can) [
        | inl h ↦ rw h (pause_by_swap-Ends sch i swaps none s)
        | inr h ↦ rw h (Ends-ok s)
      ]))
drop_candidate-Ends sch i Strategy.preserve swaps s = Ends-ok s

pub drop_candidates-Ends :
    (most : ℕ) (cands : List (ℕ × ℕ × Strategy)) (sch : SchedulerV2) (swaps : Dict ℕ)
    → IsSound sch
    → Ends (λ out. IsSound out.1) (drop_candidates most cands sch swaps)
unfolding drop_candidates
drop_candidates-Ends most [] sch swaps s = Ends-ok s
drop_candidates-Ends most ((i, waste, strategy) ∷ cands) sch swaps s =
    elim (Bool-cases (ltb waste most)) [
      | inl h ↦
          rw (h, drop_candidates)
            (Ends-bind (drop_candidate-Ends sch i strategy swaps s)
              (λ (sch', swaps') s'. drop_candidates-Ends most cands sch' swaps' s'))
      | inr h ↦
          rw (h, drop_candidates)
            (Ends-bind (drop_candidates-Ends most cands sch swaps s) (λ out s'. Ends-ok s'))
    ]

change_first-IsSound :
    (f : Sequence → Sequence) (sch : SchedulerV2) (i : ℕ) (g : SequenceGroup)
    → Dict.get sch.groups i ≡ some g
    → IsSound sch
    → IsSound (change_first f sch i g)
change_first-IsSound f sch i g e s = record {
  valid = s.valid;
  no_window = s.no_window;
  single = put-AllSingle sch.groups i _ s.single (map_first-length f g.seqs_dict ∙ s.single i g e);
}

check_starvation_high_priority-Ends :
    (seq : Sequence) → Ends (λ _. Unit {0}) (check_starvation_high_priority seq)
unfolding check_starvation_high_priority
check_starvation_high_priority-Ends seq =
    Ends-bind (Ends-guard (is_status seq.status SequenceStatus.waiting) assertion_error tt)
      (λ _ _. Ends-ok tt)

asks_priority-Ends :
    (sch : SchedulerV2) (i : ℕ) → IsSound sch → Ends (λ out. IsSound out.1) (asks_priority sch i)
unfolding asks_priority
asks_priority-Ends sch i s = Ends-bind (Ends-or_raise (Dict.get sch.groups i) key_error tt) (λ g e.
    Ends-bind (first_seq-Ends g) (λ seq _.
      elim (Bool-cases (is_status seq.status SequenceStatus.waiting)) [
        | inl h ↦ rw h (
            Ends-bind (check_starvation_high_priority-Ends seq)
              (λ (seq', high) _. Ends-ok (change_first-IsSound (λ _. seq') sch i g e s)))
        | inr h ↦ rw h (Ends-ok s)
      ]))

split_priority-Ends :
    (queue : List ℕ) (sch : SchedulerV2)
    → IsSound sch
    → Ends (λ out. IsSound out.2) (split_priority queue sch)
unfolding split_priority
split_priority-Ends [] sch s = Ends-ok s
split_priority-Ends (i ∷ queue) sch s = Ends-bind (asks_priority-Ends sch i s) (λ (high, sch') s'.
    Ends-bind (split_priority-Ends queue sch' s') (λ (front, back, sch'') s''.
      elim (Bool-cases high) [ inl h ↦ rw h (Ends-ok s'') | inr h ↦ rw h (Ends-ok s'') ]))

pub avoid_starvation-Ends :
    (queue : List ℕ) (sch : SchedulerV2)
    → IsSound sch
    → Ends (λ out. IsSound out.1) (avoid_starvation queue sch)
unfolding avoid_starvation
avoid_starvation-Ends queue sch s =
    Ends-if sch.starvation_avoidance
      (Ends-bind (split_priority-Ends queue sch s) (λ (front, back, sch') s'. Ends-ok s'))
      (Ends-ok s)

try_values-Ends :
    (f : Sequence → Result Sequence) (status : SequenceStatus) (d : Dict Sequence)
    → ((seq : Sequence) → Ends (λ _. Unit {0}) (f seq))
    → Ends (λ d'. length (values d') ≡ length (values d)) (try_values f status d)
unfolding try_values
try_values-Ends f status [] h = Ends-ok refl
try_values-Ends f status ((k, seq) ∷ d) h = elim (Bool-cases (is_status seq.status status)) [
  | inl e ↦
      rw (e, try_values)
        (Ends-bind (h seq)
          (λ _ _. Ends-bind (try_values-Ends f status d h) (λ d' e'. Ends-ok (ap suc e'))))
  | inr e ↦
      rw (e, try_values) (Ends-bind (try_values-Ends f status d h) (λ d' e'. Ends-ok (ap suc e')))
]

count_rounds-Ends :
    (test : SequenceGroup → Bool) (f : Sequence → Result Sequence) (status : SequenceStatus)
    (queue : List ℕ) (sch : SchedulerV2)
    → ((seq : Sequence) → Ends (λ _. Unit {0}) (f seq))
    → IsSound sch
    → Ends IsSound (count_rounds test f status queue sch)
unfolding count_rounds
count_rounds-Ends test f status [] sch h s = Ends-ok s
count_rounds-Ends test f status (i ∷ queue) sch h s =
    Ends-bind (Ends-or_raise (Dict.get sch.groups i) key_error tt) (λ g e.
      let seqs : Ends (λ d. length (values d) ≡ length (values g.seqs_dict))
          (if test g then try_values f status g.seqs_dict else ok g.seqs_dict) =
        elim (Bool-cases (test g)) [
          | inl t ↦ rw t (try_values-Ends f status g.seqs_dict h)
          | inr t ↦ rw t (Ends-ok refl)
        ] in
      Ends-bind seqs (λ d same_length.
        count_rounds-Ends test f status queue (with_group sch i (record g { seqs_dict = d })) h
          (record {
            valid = s.valid;
            no_window = s.no_window;
            single = put-AllSingle sch.groups i _ s.single (same_length ∙ s.single i g e);
          })))

increment_starvation-Ends : (seq : Sequence) → Ends (λ _. Unit {0}) (increment_starvation seq)
unfolding increment_starvation
increment_starvation-Ends seq =
    Ends-bind (Ends-guard (is_status seq.status SequenceStatus.waiting) assertion_error tt)
      (λ _ _. Ends-ok tt)

check_reset_starvation_scheduled-Ends :
    (seq : Sequence) → Ends (λ _. Unit {0}) (check_reset_starvation_scheduled seq)
unfolding check_reset_starvation_scheduled
check_reset_starvation_scheduled-Ends seq =
    Ends-bind (Ends-guard (is_status seq.status SequenceStatus.running) assertion_error tt)
      (λ _ _. Ends-ok tt)

pub count_starvation-Ends : (sch : SchedulerV2) → IsSound sch → Ends IsSound (count_starvation sch)
unfolding count_starvation
count_starvation-Ends sch s =
    Ends-if sch.starvation_avoidance
      (Ends-bind
        (count_rounds-Ends was_processed increment_starvation SequenceStatus.waiting sch.waiting sch
          increment_starvation-Ends s)
        (λ sch' s'.
          count_rounds-Ends (λ g. true) check_reset_starvation_scheduled SequenceStatus.running
            sch'.running sch' check_reset_starvation_scheduled-Ends s'))
      (Ends-ok s)
