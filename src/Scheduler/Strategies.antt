-- ===== src/Scheduler/Strategies.antt =====
-- The strategy of a request (vllm/core/scheduler_v2.py).
use mars_codebase.Sequence.Group.{SequenceGroup, Strategy}
use mars_codebase.Scheduler.Waste.{Wastes, choose_strategy, classify, predicted_wastes}
use mars_codebase.Prelude.{arith, ok, refl, ℕ, ◌≡◌, ◌≤◌}
use mars_codebase.Scheduler.State.{SchedulerV2}

-- The waste of a strategy.
abbrev pub waste_of : Wastes → Strategy → ℕ
waste_of w Strategy.preserve = w.w_p
waste_of w Strategy.recompute = w.w_d
waste_of w Strategy.swap = w.w_s

choose_strategy-least :
    (w : Wastes) (strategy : Strategy)
    → ((choose_strategy w).1 ≡ waste_of w (choose_strategy w).0)
      × ((choose_strategy w).1 ≤ waste_of w strategy)
unfolding choose_strategy
choose_strategy-least w Strategy.preserve = ground arith
choose_strategy-least w Strategy.recompute = ground arith
choose_strategy-least w Strategy.swap = ground arith

-- Where the predicted wastes of a group can be computed, classify gives the group a strategy whose
-- predicted waste is the least of the three, keeps that waste, and leaves the sequences as they
-- are.
pub classify-least :
    (sch : SchedulerV2) (g : SequenceGroup) (w : Wastes)
    → predicted_wastes sch g ≡ ok w
    → (g' : SequenceGroup) × (classify sch g ≡ ok g')
      × (g'.seqs_dict ≡ g.seqs_dict)
      × (g'.sampling_params.waste ≡ waste_of w g'.sampling_params.strategy)
      × ((strategy : Strategy) → g'.sampling_params.waste ≤ waste_of w strategy)
unfolding classify
classify-least sch g w e = (
  record g {
    sampling_params = record g.sampling_params {
      strategy = (choose_strategy w).0;
      waste = (choose_strategy w).1;
    };
  },
  rw e refl,
  refl,
  (choose_strategy-least w Strategy.preserve).0,
  λ strategy. (choose_strategy-least w strategy).1,
)
