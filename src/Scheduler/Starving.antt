-- ===== src/Scheduler/Starving.antt =====
-- What starvation avoidance does for a waiting request (vllm/core/scheduler_v2.py).
use mars_codebase.Prelude.Dict
use mars_codebase.Prelude.Dict.{Dict}
use mars_codebase.Prelude.{
  ==_refl, >>=-eq-ok, Bool, Error, List, Result, [], ap, arith, err, false, guard, leb, not, ok,
  refl, subst, replicate, some, suc, sym, true, zero, ℕ, ◌++◌, ◌+◌, ◌<◌, ◌>>=◌, ◌>>◌, ◌∙◌, ◌∷◌, ◌≡◌,
}
use mars_codebase.Prelude.Int.{leb_ℤ, pos}
use mars_codebase.Sequence.Group.{SequenceGroup}
use mars_codebase.Sequence.Member.{Sequence, check_starvation_high_priority, increment_starvation}
use mars_codebase.Sequence.Starvation.{ask_and_count, rounds, rounds-granted}
use mars_codebase.Sequence.Status.{SequenceStatus, is_status}
use mars_codebase.Scheduler.Filling.{
  asks_priority, count_rounds, count_starvation, split_priority, try_values, was_processed,
}
use mars_codebase.Scheduler.State.{SchedulerV2, with_group}
use mars_codebase.Scheduler.Aborting.{mem_id}

-- What an iteration does for the one waiting request where it does not schedule it: it splits off
-- the requests with high priority, and counts at its end.
abbrev pub pass_over : SchedulerV2 → ℕ → Result (SchedulerV2 × Bool)
pass_over sch i = do
  (front, back, sch') ← split_priority (i ∷ []) sch
  sch'' ← count_starvation sch'
  ok (sch'', mem_id i front)

-- Some iterations, with the priority of the request in each.
unfoldable pub pass_rounds : ℕ → SchedulerV2 → ℕ → Result (SchedulerV2 × List Bool)
pass_rounds zero sch i = ok (sch, [])
pass_rounds (suc n) sch i = do
  (sch', high) ← pass_over sch i
  (sch'', priorities) ← pass_rounds n sch' i
  ok (sch'', high ∷ priorities)

-- Starvation is avoided, and the request waits alone.
pub record Waits (sch : SchedulerV2) (i : ℕ) : Type 0 where
  pub avoids : sch.starvation_avoidance ≡ true
  pub waiting : sch.waiting ≡ i ∷ []
  pub running : sch.running ≡ []

-- And the store has its group with one sequence.
record Has (sch : SchedulerV2) (i : ℕ) (g : SequenceGroup) (k : ℕ) (s : Sequence) : Type 0 where
  waits : Waits sch i
  stored : Dict.get sch.groups i ≡ some (record g { seqs_dict = (k, s) ∷ [] })

guard_lem :
    {A : Type 0} (b : Bool) (e : Error) (rest : Result A) (a : A)
    → (guard b e >> rest) ≡ ok a
    → b ≡ true
guard_lem true e rest a h = refl
guard_lem false e rest a h = absurd (cc h)

put_lem :
    (sch : SchedulerV2) (i : ℕ) (g : SequenceGroup) (k : ℕ) (s : Sequence)
    → Waits sch i
    → Has (with_group sch i (record g { seqs_dict = (k, s) ∷ [] })) i g k s
put_lem sch i g k s w = record {
  waits = record { avoids = w.avoids; waiting = w.waiting; running = w.running };
  stored = Dict.get-put sch.groups i i (record g { seqs_dict = (k, s) ∷ [] }) ∙ rw (==_refl i) refl;
}

asked_waits :
    (s s' : Sequence) (high : Bool)
    → check_starvation_high_priority s ≡ ok (s', high)
    → is_status s.status SequenceStatus.waiting ≡ true
unfolding check_starvation_high_priority
asked_waits s s' high e = guard_lem (is_status s.status SequenceStatus.waiting) _ _ _ e

counted_waits :
    (s s' : Sequence)
    → increment_starvation s ≡ ok s'
    → is_status s.status SequenceStatus.waiting ≡ true
unfolding increment_starvation
counted_waits s s' e = guard_lem (is_status s.status SequenceStatus.waiting) _ _ _ e

ok_lem :
    {A : Type 0} {B : Type 0} (a c : A) (b d : B)
    → Path (Result (A × B)) (ok (a, b)) (ok (c, d))
    → (a ≡ c) × (b ≡ d)
ok_lem {A = A} {B = B} a c b d e = (
  ap (λ (r : Result (A × B)). elim r [ ok x ↦ x.0 | err x ↦ a ]) e,
  ap (λ (r : Result (A × B)). elim r [ ok x ↦ x.1 | err x ↦ b ]) e,
)

none_lem :
    (s : Sequence)
    → s.status ≡ SequenceStatus.waiting
    → s.starvation_quantum ≡ 0
    → s.starvation_counter < s.starvation_threshold
    → check_starvation_high_priority s ≡ ok (s, false)
unfolding check_starvation_high_priority
none_lem s w z below =
    let no : leb s.starvation_threshold s.starvation_counter ≡ false = ground arith in
    rw (w, z, no) refl

module _ (i k : ℕ) (g : SequenceGroup) where
  asks_lem :
      (sch : SchedulerV2) (s s' : Sequence) (high : Bool)
      → Has sch i g k s
      → check_starvation_high_priority s ≡ ok (s', high)
      → (front back : List ℕ) × (sch' : SchedulerV2) × (split_priority (i ∷ []) sch
          ≡ ok (front, back, sch'))
        × (mem_id i front ≡ high)
        × Has sch' i g k s'
  unfolding asks_priority split_priority
  asks_lem sch s s' true h e = (
    i ∷ [],
    [],
    with_group sch i (record g { seqs_dict = (k, s') ∷ [] }),
    rw (h.stored, asked_waits s s' true e, e) refl,
    ground arith,
    put_lem sch i g k s' h.waits,
  )
  asks_lem sch s s' false h e = (
    [],
    i ∷ [],
    with_group sch i (record g { seqs_dict = (k, s') ∷ [] }),
    rw (h.stored, asked_waits s s' false e, e) refl,
    refl,
    put_lem sch i g k s' h.waits,
  )

  -- A request that was processed is counted.
  counts_lem :
      (sch : SchedulerV2) (s s' : Sequence)
      → Has sch i g k s
      → was_processed g ≡ true
      → increment_starvation s ≡ ok s'
      → (sch' : SchedulerV2) × (count_starvation sch ≡ ok sch') × Has sch' i g k s'
  unfolding count_starvation count_rounds try_values
  counts_lem sch s s' h p e = (
    with_group sch i (record g { seqs_dict = (k, s') ∷ [] }),
    rw (h.waits.avoids, h.waits.waiting, h.stored, p, counted_waits s s' e, e, h.waits.running)
        refl,
    put_lem sch i g k s' h.waits,
  )

  -- One that was not is not.
  skips_lem :
      (sch : SchedulerV2) (s : Sequence)
      → Has sch i g k s
      → was_processed g ≡ false
      → (sch' : SchedulerV2) × (count_starvation sch ≡ ok sch') × Has sch' i g k s
  unfolding count_starvation count_rounds
  skips_lem sch s h p = (
    with_group sch i (record g { seqs_dict = (k, s) ∷ [] }),
    rw (h.waits.avoids, h.waits.waiting, h.stored, p, h.waits.running) refl,
    put_lem sch i g k s h.waits,
  )

  pass_over_lem :
      (sch : SchedulerV2) (s t : Sequence) (high : Bool)
      → Has sch i g k s
      → was_processed g ≡ true
      → ask_and_count s ≡ ok (t, high)
      → (sch' : SchedulerV2) × (pass_over sch i ≡ ok (sch', high)) × Has sch' i g k t
  pass_over_lem sch s t high h p e =
      let ((s1, high1), asked, e1) = >>=-eq-ok (check_starvation_high_priority s) _ e in
      let (t1, counted, e2) = >>=-eq-ok (increment_starvation s1) _ e1 in
      let (same_t, same_high) = ok_lem t1 t high1 high e2 in
      let (front, back, sch1, done, first, h1) = asks_lem sch s s1 high1 h asked in
      let (sch2, done', h2) = counts_lem sch1 s1 t1 h1 p counted in
      (
        sch2,
        rw (done, done') (ap (λ b. ok (sch2, b)) (first ∙ same_high)),
        subst (λ u. Has sch2 i g k u) same_t h2,
      )

  pass_rounds_lem :
      (n : ℕ) (sch : SchedulerV2) (s t : Sequence) (priorities : List Bool)
      → Has sch i g k s
      → was_processed g ≡ true
      → rounds n s ≡ ok (t, priorities)
      → (sch' : SchedulerV2) × (pass_rounds n sch i ≡ ok (sch', priorities)) × Has sch' i g k t
  unfolding rounds pass_rounds
  pass_rounds_lem zero sch s t priorities h p e =
      let (same_t, same_list) = ok_lem s t [] priorities e in
      (sch, ap (λ l. ok (sch, l)) same_list, subst (λ u. Has sch i g k u) same_t h)
  pass_rounds_lem (suc n) sch s t priorities h p e =
      let ((s1, high), asked, e1) = >>=-eq-ok (ask_and_count s) _ e in
      let ((s2, rest), more, e2) = >>=-eq-ok (rounds n s1) _ e1 in
      let (same_t, same_list) = ok_lem s2 t (high ∷ rest) priorities e2 in
      let (sch1, done, h1) = pass_over_lem sch s s1 high h p asked in
      let (sch2, done', h2) = pass_rounds_lem n sch1 s1 s2 rest h1 p more in
      (
        sch2,
        rw (done, done') (ap (λ l. ok (sch2, l)) same_list),
        subst (λ u. Has sch2 i g k u) same_t h2,
      )

  -- For a request that waits alone, with one waiting sequence, which was processed once, without a
  -- quantum and `n` iterations below its threshold, where starvation is avoided: while iterations pass
  -- it over, it has no priority in `n + 1` of them, and then has it in as many as its quantum value,
  -- which is not 0; then it has counted one iteration and has no quantum.
  pub pass_rounds-granted :
      (n q : ℕ) (sch : SchedulerV2) (s : Sequence)
      → Waits sch i
      → Dict.get sch.groups i ≡ some g
      → g.seqs_dict ≡ (k, s) ∷ []
      → leb_ℤ g.time_before_processing (pos 0) ≡ false
      → s.status ≡ SequenceStatus.waiting
      → s.starvation_quantum ≡ 0
      → s.starvation_counter + n ≡ s.starvation_threshold
      → s.quantum_value ≡ suc q
      → (sch' : SchedulerV2) × (pass_rounds (suc (suc q) + n) sch i
          ≡ ok (sch', replicate (suc n) false ++ replicate (suc q) true))
        × (Dict.get sch'.groups i
            ≡ some (record g {
              seqs_dict = (k, record s { starvation_quantum = 0; starvation_counter = 1 }) ∷ [];
            }))
  pass_rounds-granted n q sch s waits stored only processed w z below v =
      let h : Has sch i g k s = record {
        waits = waits;
        stored = stored ∙ ap (λ d. some (record g { seqs_dict = d })) only;
      } in
      let (sch', done, h') =
        pass_rounds_lem (suc (suc q) + n) sch s _ _ h (ap not processed)
          (rounds-granted n q s w z below v) in
      (sch', done, h'.stored)

  -- A request that waits alone, with one waiting sequence, which was never processed, without a
  -- quantum and below its threshold, where starvation is avoided: it is not counted however many
  -- iterations pass it over, and has no priority in any.
  pub pass_rounds-unprocessed :
      (n : ℕ) (sch : SchedulerV2) (s : Sequence)
      → Waits sch i
      → Dict.get sch.groups i ≡ some g
      → g.seqs_dict ≡ (k, s) ∷ []
      → leb_ℤ g.time_before_processing (pos 0) ≡ true
      → s.status ≡ SequenceStatus.waiting
      → s.starvation_quantum ≡ 0
      → s.starvation_counter < s.starvation_threshold
      → (sch' : SchedulerV2) × (pass_rounds n sch i ≡ ok (sch', replicate n false))
        × (Dict.get sch'.groups i ≡ some g)
  unfolding pass_rounds
  pass_rounds-unprocessed zero sch s waits stored only fresh w z below = (sch, refl, stored)
  pass_rounds-unprocessed (suc n) sch s waits stored only fresh w z below =
      let whole = ap (λ d. some (record g { seqs_dict = d })) only in
      let h : Has sch i g k s = record { waits = waits; stored = stored ∙ whole } in
      let (front, back, sch1, done, first, h1) = asks_lem sch s s false h (none_lem s w z below) in
      let (sch2, done', h2) = skips_lem sch1 s h1 (ap not fresh) in
      let (sch3, done'', h3) =
        pass_rounds-unprocessed n sch2 s h2.waits (h2.stored ∙ sym whole) only fresh w z below in
      (sch3, rw (done, done', done'', first) refl, h3)
