-- ===== src/Scheduler/Iterations.antt =====
-- An iteration of SchedulerV2 (vllm/core/scheduler_v2.py): it ends, and the scheduler stays sound.
use mars_codebase.Prelude.Dict
use mars_codebase.Prelude.Dict.{Dict}
use mars_codebase.Prelude.{
  ap, suc, total, replicate, length-replicate, Ends, Ends-bind, Ends-guard, Ends-ok, Ends-or_raise,
  List, [], arith, assertion_error, false, if◌then◌else◌, key_error, leb, leb→le, length, ltb, not,
  refl, true, ℕ, ◌++◌, ◌∙◌, ◌∷◌, ◌≡◌, ◌≤◌,
}
use mars_codebase.Scheduler.Rounds.{schedule_batch-IsSound}
use mars_codebase.Scheduler.Sorted.{sort_queue-Ends}
use mars_codebase.Scheduler.Filling.{
  SchedulerOutputs, combined_args, finish, max_waste, next_counter, plain_query, running_args,
  schedule_chunk_and_fill, schedule_combined, schedule_running, within,
}
use mars_codebase.Scheduler.Filled.{
  active_discard-Ends, avoid_starvation-Ends, candidates_of-Ends, count_starvation-Ends,
  drop_candidates-Ends, same-IsSound,
}
use mars_codebase.Scheduler.Waste.{running_batch, running_blocks}
use mars_codebase.Scheduler.Counted.{get_num_batched_tokens-counts, named-load, total-same}
use mars_codebase.Scheduler.Loads.{planned}
use mars_codebase.Scheduler.Soundness.{IsSound, first_seq-Ends, get_seq_blocks_by_device-Ends}
use mars_codebase.Scheduler.Iteration.{SequenceGroupMetadata, schedule}
use mars_codebase.Scheduler.Metadata.{
  metadata_list-Ends, set_max_ragged_batch-Ends, statistics-Ends,
}
use mars_codebase.Policy.{Query}
use mars_codebase.Scheduler.State.{SchedulerV2}
use mars_codebase.Block.{gpu}
use mars_codebase.Scheduler.Batching.{Batch}
use mars_codebase.BlockManager.Allocation.{update}

schedule_running-Ends :
    (sch : SchedulerV2) (now : ℕ) (swaps_out swaps_in : Dict ℕ)
    → IsSound sch
    → Ends (λ out. IsSound out.0.sch) (schedule_running sch now swaps_out swaps_in)
unfolding schedule_running
schedule_running-Ends sch now swaps_out swaps_in s =
    Ends-bind (candidates_of-Ends sch sch.paused) (λ cands _.
      Ends-bind (drop_candidates-Ends (max_waste cands) cands sch swaps_out s)
        (λ (targets, sch1, swaps_out') s1.
          Ends-bind (sort_queue-Ends sch1 (plain_query now true) sch1.running s1)
            (λ (queue, sch2) s2.
              Ends-bind
                (schedule_batch-IsSound (running_args sch2 now) sch2 queue targets swaps_in s2)
                (λ b s'. Ends-ok (
                  same-IsSound b.sch
                    (record b.sch { running = b.targets ++ b.scheduled ++ b.delayed }) refl refl
                    s')))))

schedule_combined-Ends :
    (sch : SchedulerV2) (now batch : ℕ) (first : Batch)
    → IsSound sch
    → Ends (λ b. IsSound b.sch) (schedule_combined sch now batch first)
unfolding schedule_combined
schedule_combined-Ends sch now batch first s =
    let cached = not (ltb sch.skip_sorting_limit (next_counter sch)) in
    let sch1 : SchedulerV2 = record sch {
      skip_sorting_counter = if cached then next_counter sch else 0;
    } in
    let q : Query = record {
      now = now;
      in_running = false;
      batch = batch;
      use_cached_score = cached;
    } in
    Ends-bind
      (sort_queue-Ends sch1 q (sch1.swapped ++ sch1.waiting) (same-IsSound sch sch1 refl refl s))
      (λ (queue, sch2) s2. Ends-bind (avoid_starvation-Ends queue sch2 s2) (λ (queue', sch3) s3.
        schedule_batch-IsSound (combined_args sch3 now (length first.scheduled)) sch3 queue'
          first.preemption_targets first.swaps_in s3))

-- The outputs count what their groups serve, and have a flag for each of them.
pub record Counts (outputs : SchedulerOutputs) (sch : SchedulerV2) : Type 0 where
  pub sound : IsSound sch
  pub served : outputs.num_batched_tokens ≡ total (planned sch.groups) outputs.scheduled_seq_groups
  pub flags : length outputs.is_prompt ≡ length outputs.scheduled_seq_groups

flags_lem :
    (xs ys zs : List ℕ)
    → length
        (replicate (length xs) true ++ replicate (length ys) false ++ replicate (length zs) false)
      ≡ length (xs ++ ys ++ zs)
flags_lem [] [] zs = length-replicate (length zs) false
flags_lem [] (y ∷ ys) zs = ap suc (flags_lem [] ys zs)
flags_lem (x ∷ xs) ys zs = ap suc (flags_lem xs ys zs)

finish-Ends :
    (first b : Batch) (swaps_out : Dict ℕ)
    → IsSound b.sch
    → Ends (λ out. Counts out.0 out.1) (finish first b swaps_out)
unfolding finish
finish-Ends first b swaps_out s =
    let left = b.delayed ++ b.targets in
    let requeued : SchedulerV2 = record b.sch {
      running = b.sch.running ++ b.scheduled;
      swapped = within b.sch.swapped left;
      waiting = within b.sch.waiting left;
    } in
    let from_wait = within b.sch.waiting b.scheduled in
    let from_swap = within b.sch.swapped b.scheduled in
    Ends-bind (count_starvation-Ends requeued (same-IsSound b.sch requeued refl refl s)) (λ sch s'.
      Ends-bind (named-load sch (from_wait ++ first.scheduled ++ from_swap)) (λ groups h.
        Ends-bind (get_num_batched_tokens-counts groups) (λ num h'. Ends-ok (record {
          sound = s';
          served = h' ∙ h;
          flags = flags_lem from_wait first.scheduled from_swap;
        }))))

running_batch-Ends :
    (sch : SchedulerV2) (queue : List ℕ) → Ends (λ _. Unit {0}) (running_batch sch queue)
unfolding running_batch
running_batch-Ends sch [] = Ends-ok tt
running_batch-Ends sch (i ∷ queue) =
    Ends-bind (Ends-or_raise (Dict.get sch.groups i) key_error tt) (λ g _.
      Ends-bind (first_seq-Ends g)
        (λ seq _. Ends-bind (running_batch-Ends sch queue) (λ rest _. Ends-ok tt)))

running_blocks-Ends :
    (sch : SchedulerV2) (queue : List ℕ) → Ends (λ _. Unit {0}) (running_blocks sch queue)
unfolding running_blocks
running_blocks-Ends sch [] = Ends-ok tt
running_blocks-Ends sch (i ∷ queue) =
    Ends-bind (Ends-or_raise (Dict.get sch.groups i) key_error tt) (λ g _.
      Ends-bind (get_seq_blocks_by_device-Ends sch.block_manager g gpu)
        (λ blocks _. Ends-bind (running_blocks-Ends sch queue) (λ rest _. Ends-ok tt)))

-- On a sound scheduler schedule_chunk_and_fill ends: it raises an exception or returns outputs, and
-- then the scheduler is sound, and the outputs count what their groups serve.
pub schedule_chunk_and_fill-Ends :
    (sch : SchedulerV2) (now : ℕ) (swaps_out swaps_in : Dict ℕ)
    → IsSound sch
    → Ends (λ out. Counts out.0 out.1) (schedule_chunk_and_fill sch now swaps_out swaps_in)
unfolding schedule_chunk_and_fill
schedule_chunk_and_fill-Ends sch now swaps_out swaps_in s =
    Ends-bind (active_discard-Ends sch now s) (λ sch1 s1.
      Ends-bind (running_batch-Ends sch1 sch1.running) (λ batch _.
        Ends-bind (running_blocks-Ends sch1 sch1.running) (λ _ _.
          Ends-bind (schedule_running-Ends sch1 now swaps_out swaps_in s1)
            (λ (first, swaps_out') s2.
              Ends-bind (schedule_combined-Ends first.sch now batch first s2)
                (λ b s3. finish-Ends first b swaps_out' s3)))))

-- What an iteration returns: a sound scheduler, an entry for each scheduled group, and a number of
-- tokens which is what the scheduled groups serve, and at most 384.
pub record Iterated (entries : List SequenceGroupMetadata) (outputs : SchedulerOutputs)
    (sch : SchedulerV2) : Type 0 where
  pub sound : IsSound sch
  pub described : length entries ≡ length outputs.scheduled_seq_groups
  pub counted : outputs.num_batched_tokens ≡ total (planned sch.groups) outputs.scheduled_seq_groups
  pub limited : total (planned sch.groups) outputs.scheduled_seq_groups ≤ 384

-- On a sound scheduler an iteration ends: `schedule` raises an exception, or it returns a sound
-- scheduler, an entry of metadata for each group that it schedules, and outputs whose number of
-- tokens is the sum of what the scheduled groups serve in the returned scheduler, at most 384.
pub schedule-Ends :
    (sch : SchedulerV2) (now : ℕ) (clock : ℕ → ℕ) (paused_swap_out : Dict ℕ)
    → IsSound sch
    → Ends (λ out. Iterated out.0 out.1 out.2) (schedule sch now clock paused_swap_out)
unfolding schedule
schedule-Ends sch now clock paused_swap_out s =
    Ends-bind (set_max_ragged_batch-Ends sch s) (λ limited (s1, limit).
      Ends-bind (schedule_chunk_and_fill-Ends limited now (update [] paused_swap_out) [] s1)
        (λ (outputs, sch') c.
          Ends-bind
            (Ends-guard (leb outputs.num_batched_tokens limited.batch_max_tokens) assertion_error
              tt)
            (λ _ h. Ends-bind (statistics-Ends sch' outputs.scheduled_seq_groups c.sound) (λ _ _.
              Ends-bind
                (metadata_list-Ends sch' clock outputs.scheduled_seq_groups outputs.is_prompt
                  c.sound c.flags)
                (λ (entries, sch'') (u, len).
                  let same =
                    total-same (planned sch''.groups) (planned sch'.groups)
                      outputs.scheduled_seq_groups u.loads in
                  Ends-ok (record {
                    sound = u.sound;
                    described = len;
                    counted = omega (arith, c.served, same);
                    limited = omega (
                      arith,
                      limit,
                      leb→le outputs.num_batched_tokens limited.batch_max_tokens h,
                      c.served,
                      same,
                    );
                  }))))))
