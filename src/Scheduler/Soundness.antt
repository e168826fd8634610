-- ===== src/Scheduler/Soundness.antt =====
-- What the steps of an iteration keep (vllm/core/scheduler_v2.py): a valid block manager, the groups
-- of one sequence, and the workloads of the groups that are not discarded.
use mars_codebase.Prelude.Dict
use mars_codebase.Prelude.Dict.{Dict}
use mars_codebase.Prelude.{
  Bool-cases, [], ap, inl, inr, length, none, refl, some, suc, sym, ℕ, ◌==◌, ◌∙◌, ◌∷◌, ◌≡◌, ◌⊎◌,
  List, get_elem?, index_error, key_error, ok, Ends, Ends-bind, Ends-ok, Ends-or_raise, Ends-weaken,
}
use mars_codebase.Scheduler.State.{SchedulerV2, map_values}
use mars_codebase.Sequence.Data.{SequenceData, clear_workload}
use mars_codebase.Sequence.Group.{
  SequenceGroup, num_seqs, values, first_seq, get_seqs, get_unfinished_seqs,
}
use mars_codebase.BlockManager.Valid.{IsValid}
use mars_codebase.Scheduler.Pausing.{all_inflight}
use mars_codebase.Sequence.Member.{Sequence}
use mars_codebase.BlockManager.Eviction.{get_physical_blocks, get_seq_blocks_by_device, tables_of}
use mars_codebase.Block.{Device}
use mars_codebase.BlockManager.Manager.{BlockSpaceManager}

-- There is no work for the first sequence of a group in this iteration.
pub record IsIdleData (d : SequenceData) : Type 0 where
  pub no_discarded : d.resume_discard_tokens ≡ 0
  pub no_swapped : d.resume_swap_blocks ≡ 0
  pub no_inflight : d.running_inflight_tokens ≡ 0

abbrev pub IsIdle : Dict Sequence → Type 0
IsIdle [] = Unit
IsIdle ((k, s) ∷ d) = IsIdleData s.content

abbrev pub AllSingle : Dict SequenceGroup → Type 0
AllSingle groups = (i : ℕ) (g : SequenceGroup) → Dict.get groups i ≡ some g → num_seqs g ≡ 1

-- A valid manager without a sliding window, and groups of one sequence.
pub record IsSound (sch : SchedulerV2) : Type 0 where
  pub valid : IsValid sch.block_manager
  pub no_window : sch.block_manager.block_sliding_window ≡ none
  pub single : AllSingle sch.groups

-- Each group is that of before, or there is no work for it.
abbrev pub KeepsGroups : Dict SequenceGroup → Dict SequenceGroup → Type 0
KeepsGroups groups groups' =
    (i : ℕ)
    → (Dict.get groups' i ≡ Dict.get groups i)
      ⊎ ((g : SequenceGroup) × (Dict.get groups' i ≡ some g) × IsIdle g.seqs_dict)

pub record Keeps (sch sch' : SchedulerV2) : Type 0 where
  pub sound : IsSound sch'
  pub groups : KeepsGroups sch.groups sch'.groups
  pub limit : sch'.batch_max_tokens ≡ sch.batch_max_tokens

pub Keeps-refl : (sch : SchedulerV2) → IsSound sch → Keeps sch sch
Keeps-refl sch s = record { sound = s; groups = λ i. inl refl; limit = refl }

pub Keeps-trans : (a b c : SchedulerV2) → Keeps a b → Keeps b c → Keeps a c
Keeps-trans a b c k l = record {
  sound = l.sound;
  groups = λ i. elim (l.groups i) [
    | inr idle ↦ inr idle
    | inl e ↦ elim (k.groups i) [
      | inl e' ↦ inl (e ∙ e')
      | inr (g, e', idle) ↦ inr (g, e ∙ e', idle)
    ]
  ];
  limit = l.limit ∙ k.limit;
}

pub put-AllSingle :
    (groups : Dict SequenceGroup) (i : ℕ) (g : SequenceGroup)
    → AllSingle groups
    → num_seqs g ≡ 1
    → AllSingle (Dict.put groups i g)
put-AllSingle groups i g all only j g' e =
    let p = sym (Dict.get-put groups i j g) ∙ e in
    elim (Bool-cases (i == j)) [
      | inl h ↦ let e' : some g ≡ some g' = rw h at p in cc (only, e')
      | inr h ↦ all j g' (rw h at p)
    ]

pub put-KeepsGroups :
    (groups : Dict SequenceGroup) (i : ℕ) (g : SequenceGroup)
    → IsIdle g.seqs_dict
    → KeepsGroups groups (Dict.put groups i g)
put-KeepsGroups groups i g idle j = elim (Bool-cases (i == j)) [
  | inl h ↦ inr (g, Dict.get-put groups i j g ∙ rw h refl, idle)
  | inr h ↦ inl (Dict.get-put groups i j g ∙ rw h refl)
]

pub map_values-length :
    (f : Sequence → Sequence) (d : Dict Sequence)
    → length (values (map_values f d)) ≡ length (values d)
map_values-length f [] = refl
map_values-length f ((k, s) ∷ d) = ap suc (map_values-length f d)

pub map_values-IsIdle :
    (f : Sequence → Sequence) (d : Dict Sequence)
    → ((s : Sequence) → IsIdleData (f s).content)
    → IsIdle (map_values f d)
map_values-IsIdle f [] h = tt
map_values-IsIdle f ((k, s) ∷ d) h = h s

pub all_inflight-IsIdleData : (d : SequenceData) → IsIdleData (all_inflight d)
unfolding clear_workload
all_inflight-IsIdleData d = record { no_discarded = refl; no_swapped = refl; no_inflight = refl }

-- Reads, which may raise.
pub first_seq-Ends : (g : SequenceGroup) → Ends (λ s. first_seq g ≡ ok s) (first_seq g)
first_seq-Ends g =
    Ends-weaken (Ends-or_raise (get_elem? (get_seqs g) 0) index_error tt) (λ s e. rw e refl)

tables_of-Ends :
    (m : BlockSpaceManager) (seqs : List Sequence) → Ends (λ _. Unit {0}) (tables_of m seqs)
unfolding tables_of
tables_of-Ends m [] = Ends-ok tt
tables_of-Ends m (seq ∷ seqs) =
    Ends-bind (Ends-or_raise (Dict.get m.block_tables seq.seq_id) key_error tt)
      (λ table _. Ends-bind (tables_of-Ends m seqs) (λ tables _. Ends-ok tt))

pub get_seq_blocks_by_device-Ends :
    (m : BlockSpaceManager) (g : SequenceGroup) (d : Device)
    → Ends (λ _. Unit {0}) (get_seq_blocks_by_device m g d)
unfolding get_seq_blocks_by_device get_physical_blocks
get_seq_blocks_by_device-Ends m g d =
    let blocks : Ends (λ _. Unit {0}) (get_physical_blocks m g) =
      Ends-bind (tables_of-Ends m (get_unfinished_seqs g)) (λ _ _. Ends-ok tt) in
    Ends-bind blocks (λ _ _. Ends-ok tt)
