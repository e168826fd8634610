-- ===== src/Scheduler/Rooms.antt =====
-- The preemption loop of SchedulerV2._schedule (vllm/core/scheduler_v2.py): it ends, and what it
-- leaves.
use mars_codebase.Prelude.Dict
use mathlib.Core.List.{reverse}
use mars_codebase.Block.{gpu}
use mars_codebase.Scheduler.Batching.{
  Batch, ScheduleArgs, Source, candidates, choose_source, delay, discard_from, discard_itself,
  make_room, missing_blocks,
}
use mars_codebase.Prelude.{
  Bool, Bool-cases, List, [], ap, arith, false, inl, inr, key_error, length, length-reverse, ltb,
  not, refl, suc, true, zero, ℕ, ◌+◌, ◌<◌, ◌∙◌, ◌∷◌, ◌≡◌, ◌≤◌, ◌⊎◌, subst, sym, ◌>>=◌, total,
  total-reverse, Ends, Ends-bind, Ends-ok, Ends-or_raise, Ends-weaken, total-append,
}
use mars_codebase.Scheduler.Soundness.{
  IsSound, Keeps, Keeps-refl, Keeps-trans, get_seq_blocks_by_device-Ends,
}
use mars_codebase.Prelude.Dict.{Dict}
use mars_codebase.BlockManager.Manager.{can_fulfill_blocks}
use mars_codebase.Scheduler.Discards.{passive_discard_by_order-Ends}
use mars_codebase.Scheduler.Queues.{off, paused_total}

-- What a call of passive_discard on a list leaves of the list and of the batch.
pub record Freed (required : ℕ) (victims : List ℕ) (b : Batch) (out : List ℕ × Batch) : Type 0 where
  pub keeps : Keeps b.sch out.1.sch
  pub no_more : (f : ℕ → ℕ) → total f out.0 ≤ total f victims
  pub fewer : 0 < required → 0 < length victims → length out.0 < length victims
  pub rest : out.1 ≡ record b { sch = out.1.sch; preempted = out.1.preempted }
  pub conserved : (f : ℕ → ℕ) → total f out.0 + off f out.1.sch ≤ total f victims + off f b.sch
  pub keys : (f : ℕ → ℕ) → paused_total f out.1.sch ≤ paused_total f b.sch
  pub same_running : out.1.sch.running ≡ b.sch.running

discard_from-Ends :
    (args : ScheduleArgs) (required : ℕ) (victims : List ℕ) (b : Batch)
    → IsSound b.sch
    → Ends (Freed required victims b) (discard_from args required victims b)
unfolding discard_from
discard_from-Ends args required victims b s =
    Ends-bind
      (passive_discard_by_order-Ends b.sch required (reverse victims) b.preempted args.now s)
      (λ d k. Ends-ok (record {
        keeps = k.keeps;
        no_more =
            λ f. omega (arith, k.no_more f, total-reverse f d.victims, total-reverse f victims);
        fewer = λ h h'.
            let less = k.fewer h (omega (arith, h', length-reverse victims)) in
            omega (arith, less, length-reverse d.victims, length-reverse victims);
        rest = refl;
        conserved =
            λ f. omega (arith, k.conserved f, total-reverse f d.victims, total-reverse f victims);
        keys = k.keys;
        same_running = k.same_running;
      }))

-- The names in the lists of the batch and in the queues of the scheduler.
abbrev pub batch_total : (ℕ → ℕ) → Batch → ℕ
batch_total f b = total f b.targets + total f b.preemption_targets + total f b.delayed + off f b.sch

abbrev pub spare : Bool → ℕ → ℕ
spare true n = 0
spare false n = n

-- What the loop leaves: the blocks are there, where it says so.
-- The group `i` itself is in none of the lists until it is delayed or discarded.
pub record Roomed (new_blocks i : ℕ) (b : Batch) (out : Bool × Batch) : Type 0 where
  pub keeps : Keeps b.sch out.1.sch
  pub same_tokens : out.1.num_batched_tokens ≡ b.num_batched_tokens
  pub same_scheduled : out.1.scheduled ≡ b.scheduled
  pub no_more : (f : ℕ → ℕ) → total f out.1.targets ≤ total f b.targets
  pub conserved : (f : ℕ → ℕ) → batch_total f out.1 ≤ batch_total f b + spare out.0 (f i)
  pub keys : (f : ℕ → ℕ) → paused_total f out.1.sch ≤ paused_total f b.sch
  pub same_running : out.1.sch.running ≡ b.sch.running
  pub enough : out.0 ≡ true → can_fulfill_blocks out.1.sch.block_manager new_blocks ≡ true

stay-Roomed :
    (new_blocks i : ℕ) (b : Batch) → IsSound b.sch → Roomed new_blocks i b (false, delay i b)
stay-Roomed new_blocks i b s = record {
  keeps = Keeps-refl b.sch s;
  same_tokens = refl;
  same_scheduled = refl;
  no_more = λ f. omega arith;
  conserved = λ f. omega (arith, total-append f b.delayed (i ∷ []));
  keys = λ f. omega arith;
  same_running = refl;
  enough = λ h. absurd (cc h);
}

discard_itself-Ends :
    (args : ScheduleArgs) (new_blocks i : ℕ) (b : Batch)
    → IsSound b.sch
    → Ends (λ b'. Roomed new_blocks i b (false, b')) (discard_itself args i b)
unfolding discard_itself
discard_itself-Ends args new_blocks i b s =
    Ends-bind (Ends-or_raise (Dict.get b.sch.groups i) key_error tt) (λ g _.
      Ends-bind (get_seq_blocks_by_device-Ends b.sch.block_manager g gpu) (λ blocks _.
        Ends-bind (discard_from-Ends args (length blocks) (i ∷ []) b s) (λ (_, b') k.
          Ends-ok (record {
            keeps = k.keeps;
            same_tokens = ap (λ c. c.num_batched_tokens) k.rest;
            same_scheduled = ap (λ c. c.scheduled) k.rest;
            no_more = λ f. omega (arith, ap (λ c. total f c.targets) k.rest);
            conserved = λ f. omega (
              arith,
              k.conserved f,
              ap (λ c. total f c.targets) k.rest,
              ap (λ c. total f c.preemption_targets) k.rest,
              ap (λ c. total f c.delayed) k.rest,
            );
            keys = k.keys;
            same_running = k.same_running;
            enough = λ h. absurd (cc h);
          }))))

-- The batch with which the loop goes on, after a discard that left `b'`.
record GoesOn (fuel : ℕ) (b b' next : Batch) : Type 0 where
  same_sch : next.sch ≡ b'.sch
  same_tokens : next.num_batched_tokens ≡ b.num_batched_tokens
  same_scheduled : next.scheduled ≡ b.scheduled
  no_more : (f : ℕ → ℕ) → total f next.targets ≤ total f b.targets
  within_fuel : candidates next < fuel
  conserved : (f : ℕ → ℕ) → batch_total f next ≤ batch_total f b

-- A round that goes on: a discard of some of a list, and the rest of the loop.
discard_step :
    (args : ScheduleArgs) (fuel new_blocks i required : ℕ) (victims : List ℕ) (b : Batch)
    (next : List ℕ → Batch → Batch)
    → IsSound b.sch
    → ((left : List ℕ) (b' : Batch)
        → Freed required victims b (left, b')
        → GoesOn fuel b b' (next left b'))
    → ((b' : Batch)
        → IsSound b'.sch
        → candidates b' < fuel
        → Ends (Roomed new_blocks i b') (make_room args fuel new_blocks i b'))
    → Ends (Roomed new_blocks i b) (
        discard_from args required victims b >>= λ (left, b').
        make_room args fuel new_blocks i (next left b'))
discard_step args fuel new_blocks i required victims b next s goes again =
    Ends-bind (discard_from-Ends args required victims b s) (λ (left, b') k.
      let g = goes left b' k in
      let kept = subst (Keeps b.sch) (sym g.same_sch) k.keeps in
      Ends-weaken (again (next left b') kept.sound g.within_fuel) (λ out r. record {
        keeps = Keeps-trans b.sch (next left b').sch out.1.sch kept r.keeps;
        same_tokens = r.same_tokens ∙ g.same_tokens;
        same_scheduled = r.same_scheduled ∙ g.same_scheduled;
        no_more = λ f. omega (arith, r.no_more f, g.no_more f);
        conserved = λ f. omega (arith, r.conserved f, g.conserved f);
        keys = λ f. omega (arith, r.keys f, k.keys f, ap (paused_total f) g.same_sch);
        same_running = r.same_running ∙ ap (λ c. c.running) g.same_sch ∙ k.same_running;
        enough = r.enough;
      }))

-- The lists from which the loop takes victims, when it does.
source_lem :
    (args : ScheduleArgs) (b : Batch)
    → ((choose_source args b ≡ Source.paused_ones) × (0 < length b.preemption_targets))
      ⊎ (choose_source args b ≡ Source.nobody)
      ⊎ ((choose_source args b ≡ Source.delayed_ones) × (0 < length b.delayed))
      ⊎ ((choose_source args b ≡ Source.later_ones) × (0 < length b.targets))
      ⊎ (choose_source args b ≡ Source.itself)
unfolding choose_source
source_lem args b = elim (Bool-cases (ltb 0 (length b.preemption_targets))) [
  | inl e ↦ inl (rw e refl, ground (arith, e))
  | inr e ↦ elim (Bool-cases (not args.self_preempt)) [
    | inl e' ↦ inr (inl (rw (e, e') refl))
    | inr e' ↦ elim (Bool-cases (ltb 0 (length b.delayed))) [
      | inl d ↦ inr (inr (inl (rw (e, e', d) refl, ground (arith, d))))
      | inr d ↦ elim (Bool-cases (ltb 0 (length b.targets))) [
        | inl t ↦ inr (inr (inr (inl (rw (e, e', d, t) refl, ground (arith, t)))))
        | inr t ↦ inr (inr (inr (inr (rw (e, e', d, t) refl))))
      ]
    ]
  ]
]

missing_lem :
    (b : Batch) (new_blocks : ℕ)
    → can_fulfill_blocks b.sch.block_manager new_blocks ≡ false
    → 0 < missing_blocks b new_blocks
unfolding can_fulfill_blocks
missing_lem b new_blocks e = ground (arith, e)

-- A round that takes a victim, or gives up, once the number of missing blocks is known.
discard_round-Ends :
    (args : ScheduleArgs) (fuel new_blocks i : ℕ) (b : Batch)
    → IsSound b.sch
    → candidates b < suc fuel
    → can_fulfill_blocks b.sch.block_manager new_blocks ≡ false
    → ltb b.sch.max_swap_out_blocks (missing_blocks b new_blocks) ≡ false
    → ((b' : Batch)
        → IsSound b'.sch
        → candidates b' < fuel
        → Ends (Roomed new_blocks i b') (make_room args fuel new_blocks i b'))
    → Ends (Roomed new_blocks i b) (make_room args (suc fuel) new_blocks i b)
unfolding make_room
discard_round-Ends args fuel new_blocks i b s h e e' again =
    let n = missing_blocks b new_blocks in
    let missing = missing_lem b new_blocks e in
    elim (source_lem args b) [
      | inl (c, some_victim) ↦
          rw (e, e', c, make_room)
            (discard_step args fuel new_blocks i n b.preemption_targets b
              (λ left b'. record b' { preemption_targets = left }) s
              (λ left b' k. record {
                same_sch = refl;
                same_tokens = ap (λ c. c.num_batched_tokens) k.rest;
                same_scheduled = ap (λ c. c.scheduled) k.rest;
                no_more = λ f. omega (arith, ap (λ c. total f c.targets) k.rest);
                within_fuel = omega (
                  arith,
                  h,
                  k.fewer missing some_victim,
                  ap (λ c. length c.delayed + length c.targets) k.rest,
                );
                conserved = λ f. omega (
                  arith,
                  k.conserved f,
                  ap (λ c. total f c.delayed) k.rest,
                  ap (λ c. total f c.targets) k.rest,
                );
              })
              again)
      | inr (inl c) ↦ rw (e, e', c, make_room) (Ends-ok (stay-Roomed new_blocks i b s))
      | inr (inr (inl (c, some_victim))) ↦
          rw (e, e', c, make_room)
            (discard_step args fuel new_blocks i n b.delayed b
              (λ left b'. record b' { delayed = left }) s
              (λ left b' k. record {
                same_sch = refl;
                same_tokens = ap (λ c. c.num_batched_tokens) k.rest;
                same_scheduled = ap (λ c. c.scheduled) k.rest;
                no_more = λ f. omega (arith, ap (λ c. total f c.targets) k.rest);
                within_fuel = omega (
                  arith,
                  h,
                  k.fewer missing some_victim,
                  ap (λ c. length c.preemption_targets + length c.targets) k.rest,
                );
                conserved = λ f. omega (
                  arith,
                  k.conserved f,
                  ap (λ c. total f c.preemption_targets) k.rest,
                  ap (λ c. total f c.targets) k.rest,
                );
              })
              again)
      | inr (inr (inr (inl (c, some_victim)))) ↦
          rw (e, e', c, make_room)
            (discard_step args fuel new_blocks i n b.targets b
              (λ left b'. record b' { targets = left }) s
              (λ left b' k. record {
                same_sch = refl;
                same_tokens = ap (λ c. c.num_batched_tokens) k.rest;
                same_scheduled = ap (λ c. c.scheduled) k.rest;
                no_more = k.no_more;
                within_fuel = omega (
                  arith,
                  h,
                  k.fewer missing some_victim,
                  ap (λ c. length c.preemption_targets + length c.delayed) k.rest,
                );
                conserved = λ f. omega (
                  arith,
                  k.conserved f,
                  ap (λ c. total f c.preemption_targets) k.rest,
                  ap (λ c. total f c.delayed) k.rest,
                );
              })
              again)
      | inr (inr (inr (inr c))) ↦
          rw (e, e', c, make_room)
            (Ends-bind (discard_itself-Ends args new_blocks i b s) (λ b' r. Ends-ok r))
    ]

-- The loop ends on more fuel than there are groups in the lists: it raises an exception, or returns
-- a sound scheduler, with the blocks free where it says so.
pub make_room-Ends :
    (args : ScheduleArgs) (fuel new_blocks i : ℕ) (b : Batch)
    → IsSound b.sch
    → candidates b < fuel
    → Ends (Roomed new_blocks i b) (make_room args fuel new_blocks i b)
unfolding make_room
make_room-Ends args zero new_blocks i b s h = absurd (omega (arith, h))
make_room-Ends args (suc fuel) new_blocks i b s h =
    elim (Bool-cases (can_fulfill_blocks b.sch.block_manager new_blocks)) [
      | inl e ↦
          rw (e, make_room)
            (Ends-ok (record {
              keeps = Keeps-refl b.sch s;
              same_tokens = refl;
              same_scheduled = refl;
              no_more = λ f. omega arith;
              conserved = λ f. omega arith;
              keys = λ f. omega arith;
              same_running = refl;
              enough = λ _. e;
            }))
      | inr e ↦ elim (Bool-cases (ltb b.sch.max_swap_out_blocks (missing_blocks b new_blocks))) [
        | inl e' ↦ rw (e, e', make_room) (Ends-ok (stay-Roomed new_blocks i b s))
        | inr e' ↦
            discard_round-Ends args fuel new_blocks i b s h e e'
              (make_room-Ends args fuel new_blocks i)
      ]
    ]
