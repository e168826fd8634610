-- ===== src/Scheduler/AbortAll.antt =====
-- What abort_seq_group aborts (vllm/core/scheduler_v2.py).
use mars_codebase.Prelude.Dict
use mars_codebase.Prelude.Dict.{Dict}
use mathlib.Core.List.{reverse}
use mars_codebase.Prelude.{
  Bool, Bool-cases, List, [], ==_refl, ==_iff, ap, arith, false, inl, inr, not, ok, refl, some,
  subst, sym, total, true, ℕ, ◌&&◌, ◌||◌, ◌+◌, ◌==◌, ◌∙◌, ◌∷◌, ◌≡◌, ◌≤◌,
}
use mars_codebase.BlockManager.Valid.{IsValid}
use mars_codebase.Sequence.Group.{SequenceGroup, group_finished, keep}
use mars_codebase.Scheduler.Aborting.{
  abort_group, abort_queue, abort_seq_group, discard_id, mem_id, remove_id,
}
use mars_codebase.Scheduler.Aborts.{
  AllStored, AllStored-reverse, Grows, abort_group-ok, all_grown, put-Grows,
}
use mars_codebase.Scheduler.Loads.{same}
use mars_codebase.Scheduler.Removals.{
  IsOnce, keep-keep, keep-same, mem_id-discard_id, mem_id-reverse, mem_id-total, remove_id-keep,
  total-keep,
}
use mars_codebase.Scheduler.State.{SchedulerV2}

-- The sequences of the group are finished.
abbrev pub IsFinished : Dict SequenceGroup → ℕ → Type 0
IsFinished groups j = (g : SequenceGroup) × (Dict.get groups j ≡ some g) × (group_finished g ≡ true)

-- The loop over the names `rest` took the names that are in `ids` too out of the ids and out of the
-- queue, and finished their groups and no other.
record Visited (rest ids queue : List ℕ) (sch : SchedulerV2) (ids' queue' : List ℕ)
    (sch' : SchedulerV2) : Type 0 where
  done : abort_queue rest ids queue sch ≡ ok (ids', queue', sch')
  valid : IsValid sch'.block_manager
  grows : Grows sch.groups sch'.groups
  left : (j : ℕ) → mem_id j ids' ≡ (mem_id j ids && not (mem_id j rest))
  taken : queue' ≡ keep (λ j. not (mem_id j ids && mem_id j rest)) queue
  finished : (j : ℕ) → (mem_id j ids && mem_id j rest) ≡ true → IsFinished sch'.groups j
  others :
      (j : ℕ)
      → (mem_id j ids && mem_id j rest) ≡ false
      → Dict.get sch'.groups j ≡ Dict.get sch.groups j

untouched_lem : (queue : List ℕ) → queue ≡ keep (λ j. true) queue
untouched_lem [] = refl
untouched_lem (i ∷ queue) = ap (◌∷◌ i) (untouched_lem queue)

mem_same : (i j : ℕ) (ids : List ℕ) → (i == j) ≡ true → mem_id j ids ≡ mem_id i ids
mem_same i j ids e = ap (λ k. mem_id k ids) (sym ((==_iff i j).0 e))

-- A round on a name that is in the ids: its group is finished, and it is taken out of both lists.
module _ (i : ℕ) (rest ids queue : List ℕ) (sch sch1 : SchedulerV2) (g' : SequenceGroup)
    (hit : mem_id i ids ≡ true) (done : abort_group sch i ≡ ok sch1)
    (put : sch1.groups ≡ Dict.put sch.groups i g') (fin : group_finished g' ≡ true)
    (once : total (same i) queue ≤ 1) where
  hit-taken :
      keep (λ j. not (mem_id j (discard_id i ids) && mem_id j rest)) (remove_id i queue)
      ≡ keep (λ j. not (mem_id j ids && mem_id j (i ∷ rest))) queue
  hit-taken =
      let p : ℕ → Bool = λ j. not (mem_id j (discard_id i ids) && mem_id j rest) in
      ap (keep p) (remove_id-keep i queue once)
      ∙ keep-keep p (λ j. not (i == j)) queue
      ∙ keep-same (λ j. not (i == j) && p j) (λ j. not (mem_id j ids && mem_id j (i ∷ rest))) queue
          (λ j _. elim (Bool-cases (i == j)) [
            | inl e ↦ ground (arith, e, hit, mem_same i j ids e)
            | inr e ↦ ground (arith, e, mem_id-discard_id j i ids)
          ])

  hit-Visited :
      (ids' queue' : List ℕ) (sch' : SchedulerV2)
      → Visited rest (discard_id i ids) (remove_id i queue) sch1 ids' queue' sch'
      → Visited (i ∷ rest) ids queue sch ids' queue' sch'
  unfolding abort_queue
  hit-Visited ids' queue' sch' r =
      let grows : Grows sch.groups sch1.groups =
        subst (Grows sch.groups) (sym put) (put-Grows sch.groups i g') in
      let own : Dict.get sch1.groups i ≡ some g' =
        ap (λ d. Dict.get d i) put ∙ Dict.get-put sch.groups i i g' ∙ rw (==_refl i) refl in
      record {
        done = rw (hit, done, abort_queue) r.done;
        valid = r.valid;
        grows = λ j h. r.grows j (grows j h);
        left = λ j. ground (arith, r.left j, mem_id-discard_id j i ids);
        taken = r.taken ∙ hit-taken;
        finished = λ j h. elim (Bool-cases (i == j)) [
          | inl e ↦
              let gone : (mem_id i (discard_id i ids) && mem_id i rest) ≡ false =
                ground (arith, ==_refl i, mem_id-discard_id i i ids) in
              subst (IsFinished sch'.groups) ((==_iff i j).0 e) (g', r.others i gone ∙ own, fin)
          | inr e ↦ r.finished j (ground (arith, h, e, mem_id-discard_id j i ids))
        ];
        others = λ j h. elim (Bool-cases (i == j)) [
          | inl e ↦ absurd (ground (arith, h, e, hit, mem_same i j ids e))
          | inr e ↦
              r.others j (ground (arith, h, e, mem_id-discard_id j i ids))
              ∙ ap (λ d. Dict.get d j) put
              ∙ Dict.get-put sch.groups i j g'
              ∙ rw e refl
        ];
      }

miss-Visited :
    (i : ℕ) (rest ids queue : List ℕ) (sch : SchedulerV2)
    → mem_id i ids ≡ false
    → (ids' queue' : List ℕ) (sch' : SchedulerV2) → Visited rest ids queue sch ids' queue' sch'
    → Visited (i ∷ rest) ids queue sch ids' queue' sch'
unfolding abort_queue
miss-Visited i rest ids queue sch miss ids' queue' sch' r =
    let same_test : (j : ℕ)
        → (mem_id j ids && mem_id j (i ∷ rest)) ≡ (mem_id j ids && mem_id j rest) =
      λ j. elim (Bool-cases (i == j)) [
        | inl e ↦ ground (arith, e, miss, mem_same i j ids e)
        | inr e ↦ ground (arith, e)
      ] in
    record {
      done = rw (miss, abort_queue) r.done;
      valid = r.valid;
      grows = r.grows;
      left = λ j. elim (Bool-cases (i == j)) [
        | inl e ↦ ground (arith, r.left j, e, miss, mem_same i j ids e)
        | inr e ↦ ground (arith, r.left j, e)
      ];
      taken =
          r.taken
          ∙ keep-same (λ j. not (mem_id j ids && mem_id j rest))
              (λ j. not (mem_id j ids && mem_id j (i ∷ rest))) queue
              (λ j _. ap not (sym (same_test j)));
      finished = λ j h. r.finished j (sym (same_test j) ∙ h);
      others = λ j h. r.others j (sym (same_test j) ∙ h);
    }

abort_queue-Visited :
    (rest ids queue : List ℕ) (sch : SchedulerV2)
    → IsValid sch.block_manager
    → AllStored sch.groups rest
    → IsOnce queue
    → (ids' queue' : List ℕ) × (sch' : SchedulerV2) × Visited rest ids queue sch ids' queue' sch'
unfolding abort_queue
abort_queue-Visited [] ids queue sch v stored once =
    let none_taken =
      untouched_lem queue
      ∙ keep-same (λ j. true) (λ j. not (mem_id j ids && mem_id j [])) queue
          (λ j _. ground arith) in
    (
      ids,
      queue,
      sch,
      record {
        done = refl;
        valid = v;
        grows = λ i h. h;
        left = λ j. ground arith;
        taken = none_taken;
        finished = λ j h. absurd (ground (arith, h));
        others = λ j h. refl;
      },
    )
abort_queue-Visited (i ∷ rest) ids queue sch v ((g, e), stored) once =
    elim (Bool-cases (mem_id i ids)) [
      | inl hit ↦
          let (sch1, g', done, v1, _, put, fin) = abort_group-ok sch i g v e in
          let grows : Grows sch.groups sch1.groups =
            subst (Grows sch.groups) (sym put) (put-Grows sch.groups i g') in
          let removed = remove_id-keep i queue (once i) in
          let once1 : IsOnce (remove_id i queue) = λ j.
            rw removed (omega (arith, once j, total-keep (same j) (λ k. not (i == k)) queue)) in
          let (ids', queue', sch', r) =
            abort_queue-Visited rest (discard_id i ids) (remove_id i queue) sch1 v1
              (all_grown sch.groups sch1.groups rest grows stored) once1 in
          (
            ids',
            queue',
            sch',
            hit-Visited i rest ids queue sch sch1 g' hit done put fin (once i) ids' queue' sch' r,
          )
      | inr miss ↦
          let (ids', queue', sch', r) = abort_queue-Visited rest ids queue sch v stored once in
          (ids', queue', sch', miss-Visited i rest ids queue sch miss ids' queue' sch' r)
    ]

apart_lem :
    (j : ℕ) (xs ys : List ℕ)
    → total (same j) xs + total (same j) ys ≤ 1
    → mem_id j xs ≡ true
    → mem_id j ys ≡ false
apart_lem j xs ys h m = elim (Bool-cases (mem_id j ys)) [
  | inl e ↦ absurd (omega (arith, h, mem_id-total j xs m, mem_id-total j ys e))
  | inr e ↦ e
]

-- In a scheduler with a valid manager, a group in the store for every id of its three queues, and no
-- id twice in them, abort_seq_group of any ids returns, and the manager stays valid. Each queue has
-- lost the ids that were to be aborted and no other, and keeps its order; their groups are finished
-- where they stood in a queue, and a group with another id is as it was.
pub abort_seq_group-aborts :
    (sch : SchedulerV2) (request_ids : List ℕ)
    → IsValid sch.block_manager
    → AllStored sch.groups sch.waiting
    → AllStored sch.groups sch.running
    → AllStored sch.groups sch.swapped
    → ((j : ℕ)
        → total (same j) sch.waiting + total (same j) sch.running + total (same j) sch.swapped ≤ 1)
    → (sch' : SchedulerV2) × (abort_seq_group sch request_ids ≡ ok sch')
      × IsValid sch'.block_manager
      × (sch'.waiting ≡ keep (λ j. not (mem_id j request_ids)) sch.waiting)
      × (sch'.running ≡ keep (λ j. not (mem_id j request_ids)) sch.running)
      × (sch'.swapped ≡ keep (λ j. not (mem_id j request_ids)) sch.swapped)
      × ((j : ℕ)
          → mem_id j request_ids ≡ true
          → (mem_id j sch.waiting || mem_id j sch.running || mem_id j sch.swapped) ≡ true
          → IsFinished sch'.groups j)
      × ((j : ℕ) → mem_id j request_ids ≡ false → Dict.get sch'.groups j ≡ Dict.get sch.groups j)
unfolding abort_seq_group
abort_seq_group-aborts sch request_ids v w r s once =
    let (ids1, q1, s1, a) =
      abort_queue-Visited (reverse sch.waiting) request_ids sch.waiting sch v
        (AllStored-reverse sch.groups sch.waiting w) (λ j. omega (arith, once j)) in
    let (ids2, q2, s2, b) =
      abort_queue-Visited (reverse sch.running) ids1 sch.running s1 a.valid
        (AllStored-reverse s1.groups sch.running
          (all_grown sch.groups s1.groups sch.running a.grows r))
        (λ j. omega (arith, once j)) in
    let (ids3, q3, s3, c) =
      abort_queue-Visited (reverse sch.swapped) ids2 sch.swapped s2 b.valid
        (AllStored-reverse s2.groups sch.swapped
          (all_grown sch.groups s2.groups sch.swapped (λ i h. b.grows i (a.grows i h)) s))
        (λ j. omega (arith, once j)) in
    let left1 : (j : ℕ) → mem_id j ids1 ≡ (mem_id j request_ids && not (mem_id j sch.waiting)) =
      λ j. ground (arith, a.left j, mem_id-reverse j sch.waiting) in
    let left2 : (j : ℕ)
        → mem_id j ids2
          ≡ (mem_id j request_ids && not (mem_id j sch.waiting) && not (mem_id j sch.running)) =
      λ j. ground (arith, b.left j, left1 j, mem_id-reverse j sch.running) in
    (
      record s3 { waiting = q1; running = q2; swapped = q3 },
      rw (a.done, b.done, c.done) refl,
      c.valid,
      a.taken
          ∙ keep-same _ (λ j. not (mem_id j request_ids)) sch.waiting
              (λ j m. ground (arith, m, mem_id-reverse j sch.waiting)),
      b.taken
          ∙ keep-same _ (λ j. not (mem_id j request_ids)) sch.running
              (λ j m.
                let h = apart_lem j sch.running sch.waiting (omega (arith, once j)) m in
                ground (arith, m, h, left1 j, mem_id-reverse j sch.running)),
      c.taken
          ∙ keep-same _ (λ j. not (mem_id j request_ids)) sch.swapped
              (λ j m.
                let h = apart_lem j sch.swapped sch.waiting (omega (arith, once j)) m in
                let h' = apart_lem j sch.swapped sch.running (omega (arith, once j)) m in
                ground (arith, m, h, h', left2 j, mem_id-reverse j sch.swapped)),
      (λ j m some_queue. elim (Bool-cases (mem_id j sch.waiting)) [
        | inl e ↦
            let (g, stored, fin) =
              a.finished j (ground (arith, m, e, mem_id-reverse j sch.waiting)) in
            (
              g,
              c.others j (ground (arith, left2 j, e))
                  ∙ b.others j (ground (arith, left1 j, e))
                  ∙ stored,
              fin,
            )
        | inr e ↦ elim (Bool-cases (mem_id j sch.running)) [
          | inl f ↦
              let (g, stored, fin) =
                b.finished j (ground (arith, m, e, f, left1 j, mem_id-reverse j sch.running)) in
              (g, c.others j (ground (arith, left2 j, f)) ∙ stored, fin)
          | inr f ↦
              c.finished j
                (ground (arith, m, e, f, some_queue, left2 j, mem_id-reverse j sch.swapped))
        ]
      ]),
      (λ j m.
          c.others j (ground (arith, m, left2 j))
          ∙ b.others j (ground (arith, m, left1 j))
          ∙ a.others j (ground (arith, m))),
    )
