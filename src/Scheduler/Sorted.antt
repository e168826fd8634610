-- ===== src/Scheduler/Sorted.antt =====
-- Sorting a queue of a sound scheduler (vllm/core/scheduler_v2.py and vllm/core/policy.py).
use mars_codebase.Prelude.Dict
use mars_codebase.Prelude.Dict.{Dict}
use mars_codebase.Prelude.{
  Bool, Bool-cases, Ends, Ends-bind, Ends-ok, Ends-or_raise, List, [], arith, inl, inr,
  invalid_access, key_error, raises, refl, true, type_error, ℕ, ◌==◌, ◌∙◌, ◌∷◌, ◌≡◌,
}
use mars_codebase.Sequence.Group.{SequenceGroup, all_of, num_seqs}
use mars_codebase.Scheduler.Filling.{keep_scores, named, sort_queue}
use mars_codebase.Policy.{
  Policy, Query, Ranked, get_priority, not_below, predicted_api_remaining_time, rank_all,
  sort_by_priority, v2_score,
}
use mars_codebase.Scheduler.State.{SchedulerV2, with_group}
use mars_codebase.Scheduler.Soundness.{IsSound, first_seq-Ends, put-AllSingle}
use mars_codebase.Sorting.Laws.{all_of-sort_by}

abbrev one_seq : SequenceGroup → Bool
one_seq g = num_seqs g == 1

abbrev one_ranked : Ranked → Bool
one_ranked r = one_seq r.group

abbrev one_named : ℕ × SequenceGroup → Bool
one_named p = one_seq p.1

one_seq_lem : (g : SequenceGroup) → num_seqs g ≡ 1 → one_seq g ≡ true
one_seq_lem g e = ground arith

one_seq_eq : (g : SequenceGroup) → one_seq g ≡ true → num_seqs g ≡ 1
one_seq_eq g e = ground arith

pub named-Ends :
    (sch : SchedulerV2) (queue : List ℕ)
    → IsSound sch
    → Ends (λ groups. all_of one_named groups ≡ true) (named sch queue)
unfolding named
named-Ends sch [] s = Ends-ok refl
named-Ends sch (i ∷ queue) s =
    Ends-bind (Ends-or_raise (Dict.get sch.groups i) key_error tt) (λ g e.
      Ends-bind (named-Ends sch queue s)
        (λ groups h. Ends-ok (rw (one_seq_lem g (s.single i g e)) h)))

v2_score-Ends : (batch : ℕ) (g : SequenceGroup) → Ends (λ _. Unit {0}) (v2_score batch g)
unfolding v2_score
v2_score-Ends batch g = Ends-bind (first_seq-Ends g) (λ seq _. Ends-ok tt)

get_priority-Ends :
    (policy : Policy) (q : Query) (g : SequenceGroup)
    → num_seqs g ≡ 1
    → Ends (λ out. num_seqs out.1 ≡ 1) (get_priority policy q g)
unfolding get_priority predicted_api_remaining_time
get_priority-Ends Policy.fcfs q g e = Ends-ok e
get_priority-Ends Policy.chunked_fcfs q g e =
    Ends-bind (first_seq-Ends g) (λ seq _. raises invalid_access refl tt)
get_priority-Ends Policy.longest_remaining_api_first q g e =
    let remaining : Ends (λ _. Unit {0}) (predicted_api_remaining_time q.now g) =
      Ends-bind (Ends-or_raise g.sampling_params.api_call_time type_error tt) (λ _ _. Ends-ok tt) in
    Ends-bind remaining (λ _ _. Ends-ok e)
get_priority-Ends Policy.shortest_job_first q g e = Ends-ok e
get_priority-Ends Policy.v2 q g e = elim (Bool-cases q.in_running) [
  | inl h ↦ rw h (Ends-ok e)
  | inr h ↦ elim (Bool-cases q.use_cached_score) [
    | inl h' ↦ rw (h, h') (Ends-ok e)
    | inr h' ↦ rw (h, h') (Ends-bind (v2_score-Ends q.batch g) (λ score _. Ends-ok e))
  ]
]

rank_all-Ends :
    (policy : Policy) (q : Query) (groups : List (ℕ × SequenceGroup))
    → all_of one_named groups ≡ true
    → Ends (λ ranked. all_of one_ranked ranked ≡ true) (rank_all policy q groups)
unfolding rank_all
rank_all-Ends policy q [] h = Ends-ok refl
rank_all-Ends policy q ((i, g) ∷ groups) h =
    Ends-bind (get_priority-Ends policy q g (one_seq_eq g (ground (arith, h)))) (λ (priority, g') e.
      Ends-bind (rank_all-Ends policy q groups (ground (arith, h)))
        (λ ranked h'. Ends-ok (rw (one_seq_lem g' e) h')))

keep_scores-IsSound :
    (ranked : List Ranked) (sch : SchedulerV2)
    → all_of one_ranked ranked ≡ true
    → IsSound sch
    → IsSound (keep_scores ranked sch)
keep_scores-IsSound [] sch h s = s
keep_scores-IsSound (r ∷ ranked) sch h s =
    keep_scores-IsSound ranked (with_group sch r.name r.group) (ground (arith, h)) (record {
      valid = s.valid;
      no_window = s.no_window;
      single =
          put-AllSingle sch.groups r.name r.group s.single (one_seq_eq r.group (ground (arith, h)));
    })

pub sort_queue-Ends :
    (sch : SchedulerV2) (q : Query) (queue : List ℕ)
    → IsSound sch
    → Ends (λ out. IsSound out.1) (sort_queue sch q queue)
unfolding sort_queue sort_by_priority
sort_queue-Ends sch q queue s = Ends-bind (named-Ends sch queue s) (λ groups h.
    let ranked : Ends (λ ranked. all_of one_ranked ranked ≡ true)
        (sort_by_priority sch.policy q groups) =
      Ends-bind (rank_all-Ends sch.policy q groups h)
        (λ ranked h'. Ends-ok (all_of-sort_by not_below one_ranked ranked ∙ h')) in
    Ends-bind ranked (λ ranked h'. Ends-ok (keep_scores-IsSound ranked sch h' s)))
