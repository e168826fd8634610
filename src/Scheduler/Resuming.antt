-- ===== src/Scheduler/Resuming.antt =====
-- resume_seq_group on every branch (vllm/core/scheduler_v2.py).
use mars_codebase.Prelude.Dict
use mars_codebase.Sequence.Group.{SequenceGroup, group_paused}
use mars_codebase.Prelude.{
  Bool-cases, List, [], attribute_error, err, false, inl, inr, ok, refl, some, true, ℕ, ◌++◌, ◌∷◌,
  ◌≡◌, ◌≢◌, ◌⊎◌,
}
use mars_codebase.Scheduler.State.{PreemptionMode, SchedulerV2, with_group}
use mars_codebase.Prelude.Dict.{Dict}
use mars_codebase.Scheduler.Waste.{Wastes, classify, predicted_wastes, choose_strategy}
use mars_codebase.Scheduler.Pausing.{get_paused_seq_group, resume_seq_group, resume_seqs}
use mars_codebase.Sequence.Status.{SequenceStatus}

-- The queues waiting, running and swapped, once a group is resumed from a mode.
abbrev pub queues_after : PreemptionMode → SchedulerV2 → ℕ → List ℕ × List ℕ × List ℕ
queues_after PreemptionMode.preserve sch request_id =
    (sch.waiting, sch.running ++ request_id ∷ [], sch.swapped)
queues_after PreemptionMode.swap sch request_id =
    (sch.waiting, sch.running, sch.swapped ++ request_id ∷ [])
queues_after PreemptionMode.recompute sch request_id =
    (request_id ∷ sch.waiting, sch.running, sch.swapped)
queues_after PreemptionMode.partial sch request_id = (sch.waiting, sch.running, sch.swapped)

-- The group has left the paused ones for the queue of its mode, and the manager is as before.
abbrev pub Resumed : SchedulerV2 → ℕ → PreemptionMode → SchedulerV2 → Type 0
Resumed sch request_id mode sch' =
    (sch'.paused ≡ Dict.delete sch.paused request_id)
    × (queues_after mode sch request_id ≡ (sch'.waiting, sch'.running, sch'.swapped))
    × (sch'.block_manager ≡ sch.block_manager)

-- Nothing but the object of the group has changed.
abbrev pub StillPaused : SchedulerV2 → SchedulerV2 → Type 0
StillPaused sch sch' =
    (sch'.paused ≡ sch.paused)
    × (sch'.waiting ≡ sch.waiting)
    × (sch'.running ≡ sch.running)
    × (sch'.swapped ≡ sch.swapped)
    × (sch'.block_manager ≡ sch.block_manager)

-- The group with the strategy that classify gives it.
abbrev classified : SequenceGroup → Wastes → SequenceGroup
classified g w = record g {
  sampling_params = record g.sampling_params {
    strategy = (choose_strategy w).0;
    waste = (choose_strategy w).1;
  };
}

-- A group that is paused in a mode, and whose predicted wastes can be computed. While one of its
-- sequences is paused, resume_seq_group returns and leaves it paused. Else it moves the group from
-- the paused ones to the end of the running queue (PRESERVE), to the end of the swapped queue (SWAP)
-- or to the front of the waiting queue (RECOMPUTE), and for PARTIAL it raises an AttributeError.
pub resume_seq_group-cases :
    (sch : SchedulerV2) (request_id : ℕ) (g : SequenceGroup) (w : Wastes) (mode : PreemptionMode)
    → Dict.get sch.paused request_id ≡ some mode
    → Dict.get sch.groups request_id ≡ some g
    → predicted_wastes sch g ≡ ok w
    → ((group_paused g ≡ true)
        × (sch' : SchedulerV2) × (resume_seq_group sch request_id ≡ ok sch')
        × StillPaused sch sch')
      ⊎ ((group_paused g ≡ false)
          × (mode ≢ PreemptionMode.partial)
          × (sch' : SchedulerV2) × (resume_seq_group sch request_id ≡ ok sch')
          × Resumed sch request_id mode sch')
      ⊎ ((group_paused g ≡ false)
          × (mode ≡ PreemptionMode.partial)
          × (resume_seq_group sch request_id ≡ err attribute_error))
unfolding resume_seq_group get_paused_seq_group classify
resume_seq_group-cases sch request_id g w mode p e known = elim (Bool-cases (group_paused g)) [
  | inl still ↦ inl (
    still,
    with_group sch request_id (classified g w),
    rw (p, e, known, still) refl,
    (refl, refl, refl, refl, refl),
  )
  | inr resumed ↦ inr (by_mode mode p resumed)
]
  where
    by_mode :
        (mode : PreemptionMode)
        → Dict.get sch.paused request_id ≡ some mode
        → group_paused g ≡ false
        → ((group_paused g ≡ false)
            × (mode ≢ PreemptionMode.partial)
            × (sch' : SchedulerV2) × (resume_seq_group sch request_id ≡ ok sch')
            × Resumed sch request_id mode sch')
          ⊎ ((group_paused g ≡ false)
              × (mode ≡ PreemptionMode.partial)
              × (resume_seq_group sch request_id ≡ err attribute_error))
    by_mode PreemptionMode.preserve p q =
        let gone : SchedulerV2 = record sch {
          paused = Dict.delete sch.paused request_id;
          running = sch.running ++ request_id ∷ [];
        } in
        inl (
          q,
          (λ h. cc),
          with_group gone request_id (resume_seqs SequenceStatus.running (classified g w)),
          rw (p, e, known, q) refl,
          (refl, refl, refl),
        )
    by_mode PreemptionMode.swap p q =
        let gone : SchedulerV2 = record sch {
          paused = Dict.delete sch.paused request_id;
          swapped = sch.swapped ++ request_id ∷ [];
        } in
        inl (
          q,
          (λ h. cc),
          with_group gone request_id (resume_seqs SequenceStatus.swapped (classified g w)),
          rw (p, e, known, q) refl,
          (refl, refl, refl),
        )
    by_mode PreemptionMode.recompute p q =
        let gone : SchedulerV2 = record sch {
          paused = Dict.delete sch.paused request_id;
          waiting = request_id ∷ sch.waiting;
        } in
        inl (
          q,
          (λ h. cc),
          with_group gone request_id (resume_seqs SequenceStatus.waiting (classified g w)),
          rw (p, e, known, q) refl,
          (refl, refl, refl),
        )
    by_mode PreemptionMode.partial p q = inr (q, refl, rw (p, e, known, q) refl)
