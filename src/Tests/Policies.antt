-- ===== src/Tests/Policies.antt =====
-- The theorem on the policies (vllm/core/policy.py) at a concrete input.
use mathlib.Core.List.{Permᴰ}
use mars_codebase.Prelude.{List, [], false, ok, refl, true, ℕ, ◌∷◌, ◌≡◌}
use mars_codebase.Policy.{Policy, Query, Ranked, get_priority, rank_all, sort_by_priority}
use mars_codebase.Prelude.Int.{eq_ℤ, pos, ℤ}
use mars_codebase.Policy.Orders.{OrdersBy, entries, not_above, sort_by_priority-orders}
use mars_codebase.Tests.Fixtures.{group}
use mars_codebase.Sorting.Laws.{IsOrdered}
use mars_codebase.Sequence.Group.{SequenceGroup, keep}

-- A request that came before the other two.
abbrev early : SequenceGroup
early = record group { arrival_time = 10 }

abbrev late : SequenceGroup
late = record group { arrival_time = 40 }

abbrev query : Query
query = record { now = 60; in_running = true; batch = 0; use_cached_score = false }

abbrev queue : List (ℕ × SequenceGroup)
queue = (3, late) ∷ (1, early) ∷ (2, late) ∷ []

abbrev order : List Ranked
order =
    record { priority = pos 50; name = 1; group = early }
    ∷ record { priority = pos 20; name = 3; group = late }
    ∷ record { priority = pos 20; name = 2; group = late }
    ∷ []

ordered : sort_by_priority Policy.fcfs query queue ≡ ok order
unfolding sort_by_priority rank_all get_priority
ordered = refl

sort_by_priority-orders_example :
    (out : List Ranked) × (sort_by_priority Policy.fcfs query queue ≡ ok out)
    × Permᴰ queue (entries out)
    × IsOrdered (not_above (λ g. pos g.arrival_time)) (entries out)
    × ((x : ℤ)
        → keep (λ e. eq_ℤ (pos e.1.arrival_time) x) (entries out)
          ≡ keep (λ e. eq_ℤ (pos e.1.arrival_time) x) queue)
sort_by_priority-orders_example =
    sort_by_priority-orders Policy.fcfs query (λ g. pos g.arrival_time) queue OrdersBy.by_arrival
