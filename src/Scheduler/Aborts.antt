-- ===== src/Scheduler/Aborts.antt =====
-- What abort_seq_group leaves (vllm/core/scheduler_v2.py).
use mars_codebase.Prelude.Dict
use mathlib.Core.List.{reverse, reverse-cons}
use mars_codebase.Sequence.Group.{
  SequenceGroup, all_of, get_unfinished_seqs, group_finished, values,
}
use mars_codebase.Prelude.{
  Bool-cases, [], inl, inr, ok, refl, some, true, ℕ, ◌∷◌, ◌≡◌, List, ◌++◌, ◌==◌,
}
use mars_codebase.Scheduler.Aborting.{abort_group, aborted}
use mars_codebase.Scheduler.State.{SchedulerV2, map_seqs, map_values}
use mars_codebase.Sequence.Member.{Sequence}
use mars_codebase.Scheduler.Pauses.{free_seqs-ok, without}
use mars_codebase.Sequence.Status.{is_finished}
use mars_codebase.Prelude.Dict.{Dict}
use mars_codebase.BlockManager.Valid.{IsValid}
use mars_codebase.BlockManager.Memory.{other}

aborted-is_finished : (s : Sequence) → is_finished (aborted s).status ≡ true
aborted-is_finished s = elim (Bool-cases (is_finished s.status)) [
  | inl e ↦ rw (e, aborted) e
  | inr e ↦ rw (e, aborted) refl
]

all_aborted :
    (d : Dict Sequence) → all_of (λ s. is_finished s.status) (values (map_values aborted d)) ≡ true
all_aborted [] = refl
all_aborted ((k, s) ∷ d) = rw (aborted-is_finished s, all_aborted d) refl

-- On a valid manager, aborting a group of the store returns: the manager is valid and has the tables
-- of before but those of the group's unfinished sequences, and all sequences of the group are
-- finished.
pub abort_group-ok :
    (sch : SchedulerV2) (request_id : ℕ) (g : SequenceGroup)
    → IsValid sch.block_manager
    → Dict.get sch.groups request_id ≡ some g
    → (sch' : SchedulerV2) × (g' : SequenceGroup) × (abort_group sch request_id ≡ ok sch')
      × IsValid sch'.block_manager
      × (sch'.block_manager.block_tables
          ≡ without (get_unfinished_seqs g) sch.block_manager.block_tables)
      × (sch'.groups ≡ Dict.put sch.groups request_id g')
      × (group_finished g' ≡ true)
unfolding abort_group
abort_group-ok sch request_id g v e =
    let (m, done, v', same) = free_seqs-ok (get_unfinished_seqs g) sch.block_manager v in
    (
      record sch {
        block_manager = m;
        groups = Dict.put sch.groups request_id (map_seqs aborted g);
      },
      map_seqs aborted g,
      rw (e, done) refl,
      v',
      same,
      refl,
      all_aborted g.seqs_dict,
    )

abbrev pub IsStored : Dict SequenceGroup → ℕ → Type 0
IsStored groups i = (g : SequenceGroup) × (Dict.get groups i ≡ some g)

-- The store has the group of every id in a queue.
abbrev pub AllStored : Dict SequenceGroup → List ℕ → Type 0
AllStored groups [] = Unit
AllStored groups (i ∷ queue) = IsStored groups i × AllStored groups queue

-- What is in one store is in another.
abbrev pub Grows : Dict SequenceGroup → Dict SequenceGroup → Type 0
Grows groups groups' = (i : ℕ) → IsStored groups i → IsStored groups' i

pub all_grown :
    (groups groups' : Dict SequenceGroup) (queue : List ℕ)
    → Grows groups groups'
    → AllStored groups queue
    → AllStored groups' queue
all_grown groups groups' [] grows stored = tt
all_grown groups groups' (i ∷ queue) grows (here, stored) =
    (grows i here, all_grown groups groups' queue grows stored)

pub put-Grows :
    (groups : Dict SequenceGroup) (i : ℕ) (g : SequenceGroup) → Grows groups (Dict.put groups i g)
put-Grows groups i g j (h, e) = elim (Bool-cases (i == j)) [
  | inl same ↦ (g, rw (Dict.get-put groups i j g, same) refl)
  | inr other ↦ (h, rw (Dict.get-put groups i j g, other) e)
]

AllStored-append :
    (groups : Dict SequenceGroup) (xs ys : List ℕ)
    → AllStored groups xs
    → AllStored groups ys
    → AllStored groups (xs ++ ys)
AllStored-append groups [] ys a b = b
AllStored-append groups (x ∷ xs) ys (here, a) b = (here, AllStored-append groups xs ys a b)

pub AllStored-reverse :
    (groups : Dict SequenceGroup) (queue : List ℕ)
    → AllStored groups queue
    → AllStored groups (reverse queue)
AllStored-reverse groups [] a = tt
AllStored-reverse groups (i ∷ queue) (here, a) =
    rw (reverse-cons i queue) (
      AllStored-append groups (reverse queue) (i ∷ []) (AllStored-reverse groups queue a)
        (here, tt))
