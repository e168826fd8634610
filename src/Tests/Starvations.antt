-- ===== src/Tests/Starvations.antt =====
-- The theorems on starvation avoidance (vllm/core/scheduler_v2.py) at concrete inputs.
use mars_codebase.Prelude.Dict
use mars_codebase.Prelude.{
  [], arith, false, ok, refl, true, replicate, some, suc, true, ◌++◌, ◌+◌, ◌∷◌, ◌≡◌,
}
use mars_codebase.Prelude.Int.{pos}
use mars_codebase.Scheduler.Starving.{
  Waits, pass_rounds, pass_rounds-granted, pass_rounds-unprocessed,
}
use mars_codebase.Scheduler.State.{SchedulerV2}
use mars_codebase.Sequence.Group.{SequenceGroup}
use mars_codebase.Sequence.Member.{Sequence}
use mars_codebase.Sequence.Status.{SequenceStatus}
use mars_codebase.Tests.Fixtures.{group, scheduler, sequence}

abbrev waiting_sequence : Sequence
waiting_sequence = record sequence { status = SequenceStatus.waiting }

abbrev fresh_group : SequenceGroup
fresh_group = record group { seqs_dict = (7, waiting_sequence) ∷ [] }

abbrev processed_group : SequenceGroup
processed_group = record fresh_group { time_before_processing = pos 5 }

abbrev waiting : SequenceGroup → SchedulerV2
waiting g = record scheduler {
  starvation_avoidance = true;
  groups = (1, g) ∷ [];
  waiting = 1 ∷ [];
  running = [];
}

waiting-Waits : (g : SequenceGroup) → Waits (waiting g) 1
waiting-Waits g = record { avoids = refl; waiting = refl; running = refl }

pass_rounds-granted_example :
    (sch' : SchedulerV2) × (pass_rounds (suc (suc 1) + 2) (waiting processed_group) 1
      ≡ ok (sch', replicate (suc 2) false ++ replicate (suc 1) true))
    × (Dict.get sch'.groups 1
        ≡ some (record processed_group {
          seqs_dict =
              (7, record waiting_sequence { starvation_quantum = 0; starvation_counter = 1 }) ∷ [];
        }))
pass_rounds-granted_example =
    pass_rounds-granted 1 7 processed_group 2 1 (waiting processed_group) waiting_sequence
      (waiting-Waits processed_group) refl refl refl refl refl refl refl

pass_rounds-unprocessed_example :
    (sch' : SchedulerV2) × (pass_rounds 30 (waiting fresh_group) 1 ≡ ok (sch', replicate 30 false))
    × (Dict.get sch'.groups 1 ≡ some fresh_group)
pass_rounds-unprocessed_example =
    pass_rounds-unprocessed 1 7 fresh_group 30 (waiting fresh_group) waiting_sequence
      (waiting-Waits fresh_group) refl refl refl refl refl (omega arith)
