-- ===== src/Scheduler/Batches.antt =====
-- The branches of a round of SchedulerV2._schedule (vllm/core/scheduler_v2.py): each ends, and keeps
-- what holds between the rounds.
use mars_codebase.Prelude.Dict
use mars_codebase.Scheduler.Serving.{Fits, Rounded, admit-Ends, kept-Ready, populated, worked}
use mars_codebase.Prelude.{
  ==_refl, Bool-cases, Ends, Ends-bind, Ends-guard, Ends-ok, Ends-weaken, arith, assertion_error,
  inl, inr, ltb, ok, total, ℕ, ◌+◌, ◌==◌, ◌∷◌, ◌≡◌, ◌≤◌, Bool, ap, refl, total-one, total_mono, ◌∙◌,
  Ends-or_raise, key_error, some, suc, true, ◌-◌, subst, Ends-value, List, [], false, total-append,
}
use mars_codebase.Sequence.Member.{Sequence}
use mars_codebase.Scheduler.Batching.{
  Batch, delay, ignore_group, ScheduleArgs, admit, candidates, is_refused, serve,
}
use mars_codebase.BlockManager.Manager.{BlockSpaceManager, assert_resumed, get_memory_requirement}
use mars_codebase.Scheduler.State.{with_group, map_seqs}
use mars_codebase.Scheduler.Soundness.{first_seq-Ends, map_values-length, put-AllSingle}
use mars_codebase.Sequence.Group.{SequenceGroup, num_seqs}
use mars_codebase.Scheduler.Loads.{
  same, KeepsGroups-planned, planned, total-put_absent, map_first-length,
}
use mars_codebase.Scheduler.Rooms.{Roomed, make_room-Ends, spare}
use mars_codebase.Sequence.Status.{SequenceStatus}
use mars_codebase.Prelude.Dict.{Dict}

get_memory_requirement-Ends :
    (m : BlockSpaceManager) (g : SequenceGroup) → Ends (λ _. Unit {0}) (get_memory_requirement m g)
unfolding get_memory_requirement
get_memory_requirement-Ends m g = Ends-bind (first_seq-Ends g) (λ seq _.
    elim (Bool-cases (ltb 0 seq.content.running_inflight_tokens)) [
      | inl e ↦
          let d = seq.content in
          let resumed : Ends (λ _. Unit {0}) (assert_resumed d) =
            Ends-bind (Ends-guard (d.discard_length == d.resume_discard_tokens) assertion_error tt)
              (λ _ _.
                Ends-weaken (Ends-guard (d.swap_length == d.resume_swap_blocks) assertion_error tt)
                  (λ _ _. tt)) in
          rw e (Ends-bind resumed (λ _ _. Ends-ok tt))
      | inr e ↦ rw e (Ends-ok tt)
    ])

module _ (Q : Type 0) (i : ℕ) (b : Batch)
    (fits : Fits Q (record b { targets = i ∷ b.targets })) where
  apart : Q → (j : ℕ) → same j i + total (same j) b.scheduled + total (same j) b.targets ≤ 1
  apart q j = omega (arith, fits.once q j)

  put-Fits : (g : SequenceGroup) → num_seqs g ≡ 1 → Fits Q (record b { sch = with_group b.sch i g })
  put-Fits g only =
      let gone : Q → total (same i) b.scheduled ≡ 0 = λ q. ground (arith, apart q i, ==_refl i) in
      record {
        sound = record {
          valid = fits.sound.valid;
          no_window = fits.sound.no_window;
          single = put-AllSingle b.sch.groups i g fits.sound.single only;
        };
        once = λ q j. omega (arith, fits.once q j);
        within_limit = fits.within_limit;
        loads = λ q.
            omega (arith, fits.loads q, total-put_absent b.sch.groups i g b.scheduled (gone q));
      }

  pub ignore_group-Rounded :
      (g : SequenceGroup) → num_seqs g ≡ 1 → Rounded Q (i ∷ []) b (ignore_group i g b)
  ignore_group-Rounded g only =
      let finish : Sequence → Sequence =
        λ s. record s { status = SequenceStatus.finished_ignored } in
      let f = put-Fits (map_seqs finish g) (map_values-length finish g.seqs_dict ∙ only) in
      record {
        fits = record {
          sound = f.sound;
          once = f.once;
          within_limit = f.within_limit;
          loads = f.loads;
        };
        limit = refl;
        no_more = omega arith;
        conserved = λ f. omega arith;
        keys = λ f. omega arith;
        same_running = refl;
      }

  pub delay-Rounded : Rounded Q (i ∷ []) b (delay i b)
  delay-Rounded = record {
    fits = record {
      sound = fits.sound;
      once = λ q j. omega (arith, fits.once q j);
      within_limit = fits.within_limit;
      loads = fits.loads;
    };
    limit = refl;
    no_more = omega arith;
    conserved = λ f. omega (arith, total-append f b.delayed (i ∷ []));
    keys = λ f. omega arith;
    same_running = refl;
  }

  -- What the preemption loop leaves of a batch `b'` in which the group has its workload.
  Roomed-Rounded :
      (new_blocks : ℕ) (names : List ℕ) (b' : Batch) (out : Bool × Batch)
      → ((f : ℕ → ℕ) → spare out.0 (f i) ≤ total f names)
      → Rounded Q [] b b'
      → Roomed new_blocks i b' out
      → Rounded Q names b out.1
  Roomed-Rounded new_blocks names b' out few r k =
      let lighter = KeepsGroups-planned b'.sch.groups out.1.sch.groups in
      let lighter_sum =
        total_mono (planned out.1.sch.groups) (planned b'.sch.groups) b'.scheduled
          (λ j. lighter j k.keeps.groups) in
      record {
        fits = record {
          sound = k.keeps.sound;
          once = λ q j.
              omega
                (arith, r.fits.once q j, k.no_more (same j), ap (total (same j)) k.same_scheduled);
          within_limit = omega (arith, r.fits.within_limit, k.same_tokens, k.keeps.limit);
          loads = λ q. omega (
            arith,
            r.fits.loads q,
            k.same_tokens,
            lighter_sum,
            ap (total (planned out.1.sch.groups)) k.same_scheduled,
          );
        };
        limit = k.keeps.limit ∙ r.limit;
        no_more =
            omega
              (arith, r.no_more, k.no_more (λ _. 1), total-one out.1.targets, total-one b'.targets);
        conserved =
            λ f. omega (arith, r.conserved f, k.conserved f, few f, ap (total f) k.same_scheduled);
        keys = λ f. omega (arith, r.keys f, k.keys f);
        same_running = k.same_running ∙ r.same_running;
      }

  admit-Rounded :
      (new_blocks n_swap n_inflight : ℕ) (g : SequenceGroup) (b' b'' : Batch)
      → n_inflight ≤ b.sch.batch_max_tokens - b.num_batched_tokens
      → b' ≡ record b { sch = with_group b.sch i (populated n_swap n_inflight g) }
      → Rounded Q [] b b'
      → get_memory_requirement b'.sch.block_manager (populated n_swap n_inflight g) ≡ ok new_blocks
      → Roomed new_blocks i b' (true, b'')
      → Ends (Rounded Q (i ∷ []) b) (admit i n_swap b'')
  admit-Rounded new_blocks n_swap n_inflight g b' b'' small e r need k =
      let r'' = Roomed-Rounded new_blocks [] b' (true, b'') (λ f. omega arith) r k in
      let left = k.no_more in
      let g' = populated n_swap n_inflight g in
      let stored : Dict.get b'.sch.groups i ≡ some g' =
        ap (λ (c : Batch). Dict.get c.sch.groups i) e
        ∙ Dict.get-put b.sch.groups i i g'
        ∙ rw (==_refl i) refl in
      let room : n_inflight ≤ b''.sch.batch_max_tokens - b''.num_batched_tokens =
        omega (arith, small, k.same_tokens, r''.limit, ap (λ c. c.num_batched_tokens) e) in
      Ends-weaken
        (admit-Ends Q i n_swap b'' r''.fits.sound
          (λ q j. omega (
            arith,
            apart q j,
            left (same j),
            ap (λ c. total (same j) c.targets) e,
            ap (λ c. total (same j) c.scheduled) e,
            ap (total (same j)) k.same_scheduled,
          ))
          r''.fits.within_limit r''.fits.loads
          (kept-Ready (b''.sch.batch_max_tokens - b''.num_batched_tokens) new_blocks n_swap
            n_inflight i b'.sch.block_manager g b' b'' room stored need k))
        (λ b3 q. record {
          fits = q.fits;
          limit = q.limit ∙ r''.limit;
          no_more = omega (arith, q.no_more, r''.no_more);
          conserved = λ f. omega (arith, q.conserved f, r''.conserved f);
          keys = λ f. omega (arith, q.keys f, r''.keys f);
          same_running = q.same_running ∙ r''.same_running;
        })

  pub serve-Ends :
      (args : ScheduleArgs) (g : SequenceGroup) (n_swap n_inflight : ℕ)
      → num_seqs g ≡ 1
      → n_inflight ≤ b.sch.batch_max_tokens - b.num_batched_tokens
      → Ends (λ out. Rounded Q (i ∷ []) b out.1) (serve args i g n_swap n_inflight b)
  unfolding serve
  serve-Ends args g n_swap n_inflight only small =
      let g1 = populated n_swap n_inflight g in
      let b' : Batch = record b { sch = with_group b.sch i g1 } in
      let r : Rounded Q [] b b' = record {
        fits = put-Fits g1 (map_first-length (worked n_swap n_inflight) g.seqs_dict ∙ only);
        limit = refl;
        no_more = omega arith;
        conserved = λ f. omega arith;
        keys = λ f. omega arith;
        same_running = refl;
      } in
      let same_object : (g' : SequenceGroup) → Dict.get b'.sch.groups i ≡ some g' → g' ≡ g1 =
        λ g' e.
          let stored : Dict.get b'.sch.groups i ≡ some g1 =
            Dict.get-put b.sch.groups i i g1 ∙ rw (==_refl i) refl in
          cc (e, stored) in
      Ends-bind (Ends-or_raise (Dict.get b'.sch.groups i) key_error tt) (λ g' e.
        Ends-bind (Ends-value (get_memory_requirement-Ends b'.sch.block_manager g'))
          (λ new_blocks (_, need). elim (Bool-cases (is_refused args b' new_blocks)) [
            | inl refused ↦ rw refused (
                Ends-ok (record {
                  fits = record {
                    sound = r.fits.sound;
                    once = λ q j. omega (arith, r.fits.once q j);
                    within_limit = r.fits.within_limit;
                    loads = r.fits.loads;
                  };
                  limit = refl;
                  no_more = omega arith;
                  conserved = λ f. omega (arith, total-append f b.delayed (i ∷ []));
                  keys = λ f. omega arith;
                  same_running = refl;
                }))
            | inr refused ↦ rw refused (
                Ends-bind
                  (make_room-Ends args (suc (candidates b')) new_blocks i b' r.fits.sound
                    (omega arith))
                  (λ (room, b'') k. elim (Bool-cases room) [
                    | inl h ↦ rw h (
                        Ends-bind
                          (admit-Rounded new_blocks n_swap n_inflight g b' b'' small refl r
                            (subst
                              (λ x. get_memory_requirement b'.sch.block_manager x ≡ ok new_blocks)
                              (same_object g' e) need)
                            (subst (λ x. Roomed new_blocks i b' (x, b'')) h k))
                          (λ b3 q. Ends-ok q))
                    | inr h ↦ rw h (
                        Ends-ok (
                          Roomed-Rounded new_blocks (i ∷ []) b' (false, b'') (λ f. omega arith) r
                            (subst (λ x. Roomed new_blocks i b' (x, b'')) h k)))
                  ]))
          ]))
