-- ===== src/Scheduler/Counted.antt =====
-- The tokens that schedule counts are those that the scheduled groups serve
-- (vllm/core/scheduler_v2.py).
use mars_codebase.Prelude.Dict
use mars_codebase.Prelude.{
  Ends, Ends-bind, Ends-ok, Ends-or_raise, Ends-value, List, [], arith, key_error, map, refl, total,
  ℕ, ◌+◌, ◌∷◌, ◌≡◌,
}
use mars_codebase.Scheduler.Filling.{named}
use mars_codebase.Scheduler.Loads.{first_seq-load, load, planned, planned-some}
use mars_codebase.Scheduler.Preempting.{get_num_batched_tokens}
use mars_codebase.Scheduler.Soundness.{first_seq-Ends}
use mars_codebase.Scheduler.State.{SchedulerV2}
use mars_codebase.Sequence.Group.{SequenceGroup}

-- The tokens of some groups.
abbrev pub load_all : List (ℕ × SequenceGroup) → ℕ
load_all [] = 0
load_all ((i, g) ∷ groups) = load g.seqs_dict + load_all groups

pub get_num_batched_tokens-counts :
    (groups : List (ℕ × SequenceGroup))
    → Ends
        (λ num. num ≡ load_all groups)
        (get_num_batched_tokens (map (λ (p : ℕ × SequenceGroup). p.1) groups))
unfolding get_num_batched_tokens
get_num_batched_tokens-counts [] = Ends-ok refl
get_num_batched_tokens-counts ((i, g) ∷ groups) =
    Ends-bind (Ends-value (first_seq-Ends g)) (λ seq (_, e).
      Ends-bind (get_num_batched_tokens-counts groups)
        (λ rest h. Ends-ok (omega (arith, first_seq-load g seq e, h))))

pub named-load :
    (sch : SchedulerV2) (queue : List ℕ)
    → Ends (λ groups. load_all groups ≡ total (planned sch.groups) queue) (named sch queue)
unfolding named
named-load sch [] = Ends-ok refl
named-load sch (i ∷ queue) = Ends-bind (Ends-or_raise (Dict.get sch.groups i) key_error tt) (λ g e.
    Ends-bind (named-load sch queue)
      (λ groups h. Ends-ok (omega (arith, planned-some sch.groups i g e, h))))

pub total-same : (f f' : ℕ → ℕ) (ids : List ℕ) → ((j : ℕ) → f j ≡ f' j) → total f ids ≡ total f' ids
total-same f f' [] h = refl
total-same f f' (i ∷ ids) h = omega (arith, h i, total-same f f' ids h)
