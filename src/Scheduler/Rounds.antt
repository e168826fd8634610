-- ===== src/Scheduler/Rounds.antt =====
-- SchedulerV2._schedule (vllm/core/scheduler_v2.py): it ends, keeps the scheduler sound, and serves
-- no more tokens than the batch has room for.
use mars_codebase.Prelude.Dict
use mars_codebase.Prelude.Dict.{Dict}
use mars_codebase.Scheduler.Soundness.{
  IsIdle, IsSound, Keeps, Keeps-refl, Keeps-trans, first_seq-Ends, put-AllSingle, put-KeepsGroups,
}
use mars_codebase.Prelude.{
  Bool-cases, Ends, Ends-bind, Ends-guard, Ends-ok, Ends-or_raise, Ends-weaken, List, [], ap, arith,
  assertion_error, inl, inr, key_error, length, list_cases, ltb, refl, suc, total, total_mono, zero,
  ℕ, ◌&&◌, ◌+◌, ◌-◌, ◌==◌, ◌||◌, ◌∙◌, ◌∷◌, ◌≡◌, ◌≤◌,
}
use mars_codebase.Sequence.Data.{clear_workload, get_len}
use mars_codebase.Scheduler.Batches.{delay-Rounded, ignore_group-Rounded, serve-Ends}
use mars_codebase.Scheduler.Serving.{Fits, Rounded, chunk_inflight_le, whole}
use mars_codebase.Scheduler.Loads.{KeepsGroups-planned, map_first-length, planned, same}
use mars_codebase.Scheduler.State.{SchedulerV2, with_group}
use mars_codebase.Scheduler.Batching.{
  Batch, ScheduleArgs, change_data, chunk_inflight, chunk_swap, clear_delayed, schedule_batch,
  schedule_round, schedule_rounds, initial_batch,
}
use mars_codebase.Sequence.Group.{SequenceGroup, get_max_num_running_seqs}
use mars_codebase.Sequence.Member.{Sequence}
use mars_codebase.Scheduler.Pausing.{map_first}
use mars_codebase.Scheduler.Queues.{Adds, Adds-refl, off, paused_total}

schedule_round-Ends :
    (Q : Type 0) (args : ScheduleArgs) (i : ℕ) (b : Batch)
    → Fits Q (record b { targets = i ∷ b.targets })
    → Ends (λ out. Rounded Q (i ∷ []) b out.1) (schedule_round args i b)
unfolding schedule_round
schedule_round-Ends Q args i b fits =
    Ends-bind (Ends-or_raise (Dict.get b.sch.groups i) key_error tt) (λ g e.
      Ends-bind (first_seq-Ends g) (λ seq _.
        let only = fits.sound.single i g e in
        let d = seq.content in
        elim (Bool-cases (ltb b.sch.prompt_limit (get_len d))) [
          | inl h ↦ rw h (Ends-ok (ignore_group-Rounded Q i b fits g only))
          | inr h ↦
              elim (Bool-cases
                (ltb args.max_num_seqs (args.used_sequences + get_max_num_running_seqs g))) [
                  | inl h' ↦ rw (h, h') (Ends-ok (delay-Rounded Q i b fits))
                  | inr h' ↦
                      elim (Bool-cases (chunk_inflight b d == 0 && chunk_swap b.sch d == 0)) [
                        | inl z ↦ rw (h, h', z) (Ends-ok (delay-Rounded Q i b fits))
                        | inr z ↦
                            rw (h, h', z)
                              (Ends-bind (Ends-guard (d.discard_length == 0) assertion_error tt)
                                (λ _ _.
                                  serve-Ends Q i b fits args g (chunk_swap b.sch d)
                                    (chunk_inflight b d) only (chunk_inflight_le b d)))
                      ]
                ]
        ]))

schedule_rounds-Ends :
    (Q : Type 0) (args : ScheduleArgs) (fuel : ℕ) (b : Batch)
    → Fits Q b
    → length b.targets ≤ fuel
    → Ends (Rounded Q [] b) (schedule_rounds args fuel b)
unfolding schedule_rounds
schedule_rounds-Ends Q args zero b fits le = elim (list_cases b.targets) [
  | inl e ↦
      rw (e, schedule_rounds)
        (Ends-ok (record {
          fits = fits;
          limit = refl;
          no_more = omega (arith, ap length e);
          conserved = λ f. omega (arith, ap (total f) e);
          keys = λ f. omega arith;
          same_running = refl;
        }))
  | inr (i, rest, e) ↦ absurd (omega (arith, le, ap length e))
]
schedule_rounds-Ends Q args (suc fuel) b fits le = elim (list_cases b.targets) [
  | inl e ↦
      rw (e, schedule_rounds)
        (Ends-ok (record {
          fits = fits;
          limit = refl;
          no_more = omega (arith, ap length e);
          conserved = λ f. omega (arith, ap (total f) e);
          keys = λ f. omega arith;
          same_running = refl;
        }))
  | inr (i, rest, e) ↦
      let popped : Batch = record b { targets = rest } in
      let fits' : Fits Q (record popped { targets = i ∷ rest }) = record {
        sound = fits.sound;
        once = λ q j. omega (arith, fits.once q j, ap (total (same j)) e);
        within_limit = fits.within_limit;
        loads = fits.loads;
      } in
      rw (e, schedule_rounds)
        (Ends-bind (schedule_round-Ends Q args i popped fits') (λ (again, b') r.
          elim (Bool-cases again) [
            | inl h ↦ rw h (
                Ends-weaken
                  (schedule_rounds-Ends Q args fuel b' r.fits
                    (omega (arith, r.no_more, le, ap length e)))
                  (λ b'' q. record {
                    fits = q.fits;
                    limit = q.limit ∙ r.limit;
                    no_more = omega (arith, q.no_more, r.no_more, ap length e);
                    conserved = λ f. omega (arith, q.conserved f, r.conserved f);
                    keys = λ f. omega (arith, q.keys f, r.keys f);
                    same_running = q.same_running ∙ r.same_running;
                  }))
            | inr h ↦ rw h (
                Ends-ok (record {
                  fits = r.fits;
                  limit = r.limit;
                  no_more = omega (arith, r.no_more, ap length e);
                  conserved = λ f. omega (arith, r.conserved f);
                  keys = r.keys;
                  same_running = r.same_running;
                }))
          ]))
]

cleared-IsIdle : (d : Dict Sequence) → IsIdle (map_first (change_data clear_workload) d)
unfolding clear_workload
cleared-IsIdle [] = tt
cleared-IsIdle ((k, s) ∷ d) = record { no_discarded = refl; no_swapped = refl; no_inflight = refl }

clear_delayed-Ends :
    (delayed : List ℕ) (sch : SchedulerV2)
    → IsSound sch
    → Ends (λ sch'. Keeps sch sch' × Adds [] sch sch') (clear_delayed delayed sch)
unfolding clear_delayed
clear_delayed-Ends [] sch s = Ends-ok (Keeps-refl sch s, Adds-refl sch)
clear_delayed-Ends (i ∷ delayed) sch s =
    Ends-bind (Ends-or_raise (Dict.get sch.groups i) key_error tt) (λ g e.
      Ends-bind (first_seq-Ends g) (λ seq _.
        let clear = change_data clear_workload in
        let g' : SequenceGroup = record g { seqs_dict = map_first clear g.seqs_dict } in
        let sch' = with_group sch i g' in
        let k : Keeps sch sch' = record {
          sound = record {
            valid = s.valid;
            no_window = s.no_window;
            single =
                put-AllSingle sch.groups i g' s.single
                  (map_first-length clear g.seqs_dict ∙ s.single i g e);
          };
          groups = put-KeepsGroups sch.groups i g' (cleared-IsIdle g.seqs_dict);
          limit = refl;
        } in
        Ends-weaken (clear_delayed-Ends delayed sch' k.sound) (λ sch'' (l, a). (
          Keeps-trans sch sch' sch'' k l,
          record { added = a.added; keys = a.keys; same_running = a.same_running },
        ))))

-- What _schedule leaves: a sound scheduler, and what is left of the batch's limit; and, where `Q`
-- holds, the scheduled groups stand once in their list and serve no more tokens than were counted.
record Left (Q : Type 0) (sch : SchedulerV2) (targets paused_ones : List ℕ) (b : Batch)
    : Type 0 where
  sound : IsSound b.sch
  counted : b.num_batched_tokens + b.sch.batch_max_tokens ≡ sch.batch_max_tokens
  once : Q → (j : ℕ) → total (same j) b.scheduled ≤ 1
  loads : Q → total (planned b.sch.groups) b.scheduled ≤ b.num_batched_tokens
  conserved : (f : ℕ → ℕ) → whole f b ≤ total f targets + total f paused_ones + off f sch
  keys : (f : ℕ → ℕ) → paused_total f b.sch ≤ paused_total f sch
  same_running : b.sch.running ≡ sch.running

schedule_batch-Left :
    (Q : Type 0) (args : ScheduleArgs) (sch : SchedulerV2) (targets preemption_targets : List ℕ)
    (swaps : Dict ℕ)
    → IsSound sch
    → (Q → (j : ℕ) → total (same j) targets ≤ 1)
    → Ends
        (Left Q sch targets preemption_targets)
        (schedule_batch args sch targets preemption_targets swaps)
unfolding schedule_batch
schedule_batch-Left Q args sch targets preemption_targets swaps s once =
    let start = initial_batch sch targets preemption_targets swaps in
    let fits : Fits Q start = record {
      sound = s;
      once = λ q j. omega (arith, once q j);
      within_limit = omega arith;
      loads = λ q. omega arith;
    } in
    Ends-bind
      (Ends-guard (length preemption_targets == 0 || args.preempt_if_need) assertion_error tt)
      (λ _ _.
        Ends-bind (schedule_rounds-Ends Q args (length targets) start fits (omega arith)) (λ b r.
          let spent : SchedulerV2 = record b.sch {
            batch_max_tokens = b.sch.batch_max_tokens - b.num_batched_tokens;
          } in
          let sound : IsSound spent = record {
            valid = r.fits.sound.valid;
            no_window = r.fits.sound.no_window;
            single = r.fits.sound.single;
          } in
          Ends-bind (clear_delayed-Ends b.delayed spent sound) (λ sch' (k, a). Ends-ok (record {
            sound = k.sound;
            counted = omega (arith, k.limit, r.limit, r.fits.within_limit);
            once = λ q j. omega (arith, r.fits.once q j);
            loads = λ q. omega (
              arith,
              r.fits.loads q,
              total_mono (planned sch'.groups) (planned b.sch.groups) b.scheduled
                  (λ j. KeepsGroups-planned b.sch.groups sch'.groups j k.groups),
            );
            conserved = λ f. omega (arith, r.conserved f, a.added f);
            keys = λ f. omega (arith, r.keys f, a.keys f);
            same_running = a.same_running ∙ r.same_running;
          }))))

-- A batch whose scheduled groups stand once in their list and serve no more tokens than were
-- counted, which is what the limit of the batch went down by; the scheduler is sound. No name stands
-- more often than before in the lists and in the waiting and the swapped queue together.
pub record Scheduled (sch : SchedulerV2) (targets paused_ones : List ℕ) (b : Batch) : Type 0 where
  pub sound : IsSound b.sch
  pub counted : b.num_batched_tokens + b.sch.batch_max_tokens ≡ sch.batch_max_tokens
  pub once : (j : ℕ) → total (same j) b.scheduled ≤ 1
  pub loads : total (planned b.sch.groups) b.scheduled ≤ b.num_batched_tokens
  pub conserved : (f : ℕ → ℕ) → whole f b ≤ total f targets + total f paused_ones + off f sch
  pub keys : (f : ℕ → ℕ) → paused_total f b.sch ≤ paused_total f sch
  pub same_running : b.sch.running ≡ sch.running

-- On a sound scheduler and a queue in which each name stands once, schedule_batch ends: it raises an
-- exception, or it returns a batch whose scheduled groups stand once in their list and serve no more
-- tokens than were counted, which is what `batch_max_tokens` went down by; the scheduler is sound;
-- and no name stands more often in the lists of the batch and the queues together than before.
pub schedule_batch-Ends :
    (args : ScheduleArgs) (sch : SchedulerV2) (targets preemption_targets : List ℕ) (swaps : Dict ℕ)
    → IsSound sch
    → ((j : ℕ) → total (same j) targets ≤ 1)
    → Ends
        (Scheduled sch targets preemption_targets)
        (schedule_batch args sch targets preemption_targets swaps)
schedule_batch-Ends args sch targets preemption_targets swaps s once =
    Ends-weaken
      (schedule_batch-Left (Unit {0}) args sch targets preemption_targets swaps s (λ _. once))
      (λ b l. record {
        sound = l.sound;
        counted = l.counted;
        once = l.once tt;
        loads = l.loads tt;
        conserved = l.conserved;
        keys = l.keys;
        same_running = l.same_running;
      })

-- The same for any queue: the scheduler is sound.
pub schedule_batch-IsSound :
    (args : ScheduleArgs) (sch : SchedulerV2) (targets preemption_targets : List ℕ) (swaps : Dict ℕ)
    → IsSound sch
    → Ends (λ b. IsSound b.sch) (schedule_batch args sch targets preemption_targets swaps)
schedule_batch-IsSound args sch targets preemption_targets swaps s =
    Ends-weaken (schedule_batch-Left ⊥ args sch targets preemption_targets swaps s (λ q. absurd q))
      (λ b l. l.sound)
