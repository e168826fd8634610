-- ===== src/Scheduler/Discards.antt =====
-- passive_discard_by_order (vllm/core/scheduler_v2.py): it ends, and what it leaves.
use mars_codebase.Prelude.Dict
use mathlib.Core.List.{reverse}
use mars_codebase.BlockManager.Eviction
use mars_codebase.Prelude.Dict.{Dict}
use mars_codebase.Prelude.{
  inl, inr, ok, err, List, Option-cases, [], assertion_error, inr, key_error, none, ok, refl, subst,
  sym, true, ℕ, ◌==◌, ◌∙◌, ◌∷◌, ◌≡◌, Result-cases, err, Bool-cases, arith, length, ltb, min,
  value_error, ◌≤◌, Bool, type_error, ◌<◌, total, total-one, Ends, Ends-bind, Ends-guard, Ends-ok,
  Ends-or_raise, Ends-weaken, returns, total-append, ◌+◌,
}
use mars_codebase.Scheduler.Pausing.{free_seqs, pause_by_recompute}
use mars_codebase.Scheduler.Soundness.{
  AllSingle, IsIdleData, IsSound, Keeps, KeepsGroups, all_inflight-IsIdleData, map_values-IsIdle,
  map_values-length, put-AllSingle, put-KeepsGroups, Keeps-refl, Keeps-trans, first_seq-Ends,
  get_seq_blocks_by_device-Ends,
}
use mars_codebase.BlockManager.Freeing.{free-IsValid}
use mars_codebase.Sequence.Member.{Sequence}
use mars_codebase.Scheduler.State.{SchedulerV2, map_seqs, PreemptionMode}
use mars_codebase.Sequence.Group.{SequenceGroup, get_seqs, num_seqs}
use mars_codebase.BlockManager.Eviction.{free_block_table}
use mars_codebase.BlockManager.Valid.{IsValid}
use mars_codebase.BlockManager.Manager.{BlockSpaceManager}
use mars_codebase.Scheduler.Preempting.{preempt_by_recompute}
use mars_codebase.BlockManager.Tables.{free_all}
use mars_codebase.Scheduler.Discarding.{
  Discards, discard_round, discard_rounds, discard_swapped, discard_victim, make_cpu_room, is_swap,
  passive_discard_by_order, paused_in, swapped_discard_list, with_remaining,
}
use mars_codebase.Block.{cpu, gpu}
use mars_codebase.BlockManager.Memory.{num_free_blocks}
use mars_codebase.Scheduler.Aborting.{mem_id, remove_id}
use mars_codebase.Policy.{predicted_api_remaining_time}
use mars_codebase.Scheduler.Queues.{
  Adds, Adds-more, Adds-refl, Adds-trans, Pauses, Pauses-Adds, off, paused_total, total-remove_id,
}

-- A discarded group, and the scheduler's other fields.
discarded-Keeps :
    (sch sch' : SchedulerV2) (i : ℕ) (g : SequenceGroup) (f : Sequence → Sequence)
    → IsSound sch
    → num_seqs g ≡ 1
    → ((s : Sequence) → IsIdleData (f s).content)
    → IsValid sch'.block_manager
    → sch'.block_manager.block_sliding_window ≡ none
    → sch'.groups ≡ Dict.put sch.groups i (record (map_seqs f g) { discarded = true })
    → sch'.batch_max_tokens ≡ sch.batch_max_tokens
    → Keeps sch sch'
discarded-Keeps sch sch' i g f s only idle v window e limit =
    let g' : SequenceGroup = record (map_seqs f g) { discarded = true } in
    record {
      sound = record {
        valid = v;
        no_window = window;
        single =
            subst AllSingle (sym e)
              (put-AllSingle sch.groups i g' s.single (map_values-length f g.seqs_dict ∙ only));
      };
      groups =
          subst (KeepsGroups sch.groups) (sym e)
            (put-KeepsGroups sch.groups i g' (map_values-IsIdle f g.seqs_dict idle));
      limit = limit;
    }

pub free-no_window :
    (m m' : BlockSpaceManager) (seq : Sequence)
    → Eviction.free m seq ≡ ok m'
    → m'.block_sliding_window ≡ m.block_sliding_window
unfolding Eviction.free free_block_table
free-no_window m m' seq e = elim (Option-cases (Dict.get m.block_tables seq.seq_id)) [
  | inl h ↦ let e' : ok m ≡ ok m' = rw (h, Eviction.free) at e in cc e'
  | inr (table, h) ↦ elim (Result-cases (free_all (m.list_of_set table) m.memory)) [
    | inl (mem, d) ↦
        let e' : ok
              (record m { memory = mem; block_tables = Dict.delete m.block_tables seq.seq_id })
            ≡ ok m' =
          rw (h, Eviction.free, d) at e in
        cc e'
    | inr (x, d) ↦ let e' : err x ≡ ok m' = rw (h, Eviction.free, d) at e in cc e'
  ]
]

pub free_seqs-Ends :
    (seqs : List Sequence) (m : BlockSpaceManager)
    → IsValid m
    → m.block_sliding_window ≡ none
    → Ends (λ m'. IsValid m' × (m'.block_sliding_window ≡ none)) (free_seqs seqs m)
unfolding free_seqs
free_seqs-Ends [] m v w = Ends-ok (v, w)
free_seqs-Ends (seq ∷ seqs) m v w =
    let (m', done, v', _, _) = free-IsValid m seq v in
    let freed : Ends (λ m'. IsValid m' × (m'.block_sliding_window ≡ none)) (Eviction.free m seq) =
      returns m' done (v', free-no_window m m' seq done ∙ w) in
    Ends-bind freed (λ m' (v', w'). free_seqs-Ends seqs m' v' w')

pub preempt_by_recompute-Ends :
    (sch : SchedulerV2) (i : ℕ)
    → IsSound sch
    → Ends (λ sch'. Keeps sch sch' × Adds (i ∷ []) sch sch') (preempt_by_recompute sch i)
unfolding preempt_by_recompute
preempt_by_recompute-Ends sch i s =
    Ends-bind (Ends-or_raise (Dict.get sch.groups i) key_error tt) (λ g e.
      Ends-bind (Ends-guard (num_seqs g == 1) assertion_error tt) (λ _ _.
        Ends-bind (free_seqs-Ends (get_seqs g) sch.block_manager s.valid s.no_window) (λ m (v, w).
          Ends-ok (
            discarded-Keeps sch _ i g _ s (s.single i g e) (λ t. all_inflight-IsIdleData t.content)
                v w refl refl,
            record {
              added = λ f. omega (arith, total-append f sch.waiting (i ∷ []));
              keys = λ f. omega arith;
              same_running = refl;
            },
          ))))

pub pause_by_recompute-Ends :
    (sch : SchedulerV2) (i : ℕ)
    → IsSound sch
    → Ends (λ sch'. Keeps sch sch' × Pauses i sch sch') (pause_by_recompute sch i)
unfolding pause_by_recompute
pause_by_recompute-Ends sch i s =
    Ends-bind (Ends-or_raise (Dict.get sch.groups i) key_error tt) (λ g e.
      Ends-bind (free_seqs-Ends (get_seqs g) sch.block_manager s.valid s.no_window) (λ m (v, w).
        Ends-ok (
          discarded-Keeps sch _ i g _ s (s.single i g e) (λ t. all_inflight-IsIdleData t.content) v
              w refl refl,
          record {
            mode = PreemptionMode.recompute;
            paused = refl;
            waiting = refl;
            swapped = refl;
            running = refl;
          },
        )))

discard_victim-Ends :
    (sch : SchedulerV2) (i : ℕ)
    → IsSound sch
    → Ends (λ sch'. Keeps sch sch' × Adds (i ∷ []) sch sch') (discard_victim sch i)
unfolding discard_victim
discard_victim-Ends sch i s = elim (Bool-cases (Dict.contains sch.paused i)) [
  | inl e ↦ rw e (
      Ends-weaken (pause_by_recompute-Ends sch i s)
        (λ sch' (k, p). (k, Adds-more [] (i ∷ []) sch sch' (Pauses-Adds i sch sch' e p))))
  | inr e ↦ rw e (preempt_by_recompute-Ends sch i s)
]

-- The queues do not matter.
queued-Keeps :
    (sch sch' : SchedulerV2) (queue : List ℕ)
    → Keeps (record sch { swapped = queue }) sch'
    → Keeps sch sch'
queued-Keeps sch sch' queue k = record { sound = k.sound; groups = k.groups; limit = k.limit }

-- A name that leaves the swapped queue for the waiting one.
moved-Adds :
    (sch sch' : SchedulerV2) (i : ℕ)
    → mem_id i sch.swapped ≡ true
    → Adds (i ∷ []) (record sch { swapped = remove_id i sch.swapped }) sch'
    → Adds [] sch sch'
moved-Adds sch sch' i h a = record {
  added = λ f. omega (arith, a.added f, total-remove_id f i sch.swapped h);
  keys = a.keys;
  same_running = a.same_running;
}

discard_swapped-Ends :
    (sch : SchedulerV2) (i : ℕ)
    → IsSound sch
    → Ends (λ sch'. Keeps sch sch' × Adds [] sch sch') (discard_swapped sch i)
unfolding discard_swapped
discard_swapped-Ends sch i s = elim (Bool-cases (Dict.contains sch.paused i)) [
  | inl e ↦ rw e (
      Ends-weaken (pause_by_recompute-Ends sch i s)
        (λ sch' (k, p). (k, Pauses-Adds i sch sch' e p)))
  | inr e ↦
      let left : SchedulerV2 = record sch { swapped = remove_id i sch.swapped } in
      let sound : IsSound left = record {
        valid = s.valid;
        no_window = s.no_window;
        single = s.single;
      } in
      rw e (
        Ends-bind (Ends-guard (mem_id i sch.swapped) value_error tt) (λ _ h.
          Ends-weaken (preempt_by_recompute-Ends left i sound) (λ sch' (k, a).
            (queued-Keeps sch sch' (remove_id i sch.swapped) k, moved-Adds sch sch' i h a))))
]

make_cpu_room-Ends :
    (n : ℕ) (queue : List ℕ) (sch : SchedulerV2)
    → IsSound sch
    → Ends (λ out. Keeps sch out.1 × Adds [] sch out.1) (make_cpu_room n queue sch)
unfolding make_cpu_room
make_cpu_room-Ends n [] sch s = Ends-ok (Keeps-refl sch s, Adds-refl sch)
make_cpu_room-Ends n (i ∷ queue) sch s =
    elim (Bool-cases (ltb (num_free_blocks cpu sch.block_manager.memory) n)) [
      | inl e ↦
          rw (e, make_cpu_room)
            (Ends-bind (discard_swapped-Ends sch i s) (λ sch' (k, a).
              Ends-weaken (make_cpu_room-Ends n queue sch' k.sound) (λ out (l, c).
                (Keeps-trans sch sch' out.1 k l, Adds-trans [] [] sch sch' out.1 a c))))
      | inr e ↦ rw (e, make_cpu_room) (Ends-ok (Keeps-refl sch s, Adds-refl sch))
    ]

discard_round-Ends :
    (required i : ℕ) (d : Discards)
    → IsSound d.scheduler
    → Ends
        (λ out. Keeps d.scheduler out.1.scheduler × Adds (i ∷ []) d.scheduler out.1.scheduler)
        (discard_round required i d)
unfolding discard_round
discard_round-Ends required i d s =
    Ends-bind (Ends-or_raise (Dict.get d.scheduler.groups i) key_error tt) (λ g _.
      Ends-bind (get_seq_blocks_by_device-Ends d.scheduler.block_manager g gpu) (λ blocks _.
        Ends-bind (Ends-guard (ltb 0 (length blocks)) value_error tt) (λ _ _.
          Ends-bind (first_seq-Ends g) (λ seq _.
            Ends-bind
              (make_cpu_room-Ends (min (length blocks) required) d.swapped_list d.scheduler s)
              (λ (queue, sch) (k, a). Ends-bind (discard_victim-Ends sch i k.sound) (λ sch' (l, c).
                Ends-ok (
                  Keeps-trans d.scheduler sch sch' k l,
                  Adds-trans [] (i ∷ []) d.scheduler sch sch' a c,
                )))))))

-- What passive_discard leaves of the victims: no other ones, and fewer, where blocks are required.
pub record Discarded (sch : SchedulerV2) (required : ℕ) (queue : List ℕ) (d : Discards)
    : Type 0 where
  pub keeps : Keeps sch d.scheduler
  pub no_more : (f : ℕ → ℕ) → total f d.victims ≤ total f queue
  pub fewer : 0 < required → 0 < length queue → length d.victims < length queue
  pub conserved : (f : ℕ → ℕ) → total f d.victims + off f d.scheduler ≤ total f queue + off f sch
  pub keys : (f : ℕ → ℕ) → paused_total f d.scheduler ≤ paused_total f sch
  pub same_running : d.scheduler.running ≡ sch.running

discard_rounds-Ends :
    (required : ℕ) (victims : List ℕ) (d : Discards)
    → IsSound d.scheduler
    → Ends (Discarded d.scheduler required victims) (discard_rounds required victims d)
unfolding discard_rounds
discard_rounds-Ends required [] d s = Ends-ok (record {
  keeps = Keeps-refl d.scheduler s;
  no_more = λ f. omega arith;
  fewer = λ _ h. h;
  conserved = λ f. omega arith;
  keys = λ f. omega arith;
  same_running = refl;
})
discard_rounds-Ends required (i ∷ rest) d s = elim (Bool-cases (ltb 0 required)) [
  | inl e ↦
      rw (e, discard_rounds)
        (Ends-bind (discard_round-Ends required i d s) (λ (required', d') (k, a).
          Ends-weaken (discard_rounds-Ends required' rest d' k.sound) (λ d'' l. record {
            keeps = Keeps-trans d.scheduler d'.scheduler d''.scheduler k l.keeps;
            no_more = λ f. omega (arith, l.no_more f);
            fewer = λ _ _. omega (arith, total-one d''.victims, total-one rest, l.no_more (λ _. 1));
            conserved = λ f. omega (arith, l.conserved f, a.added f);
            keys = λ f. omega (arith, l.keys f, a.keys f);
            same_running = l.same_running ∙ a.same_running;
          })))
  | inr e ↦
      rw (e, discard_rounds)
        (Ends-ok (record {
          keeps = Keeps-refl d.scheduler s;
          no_more = λ f. omega arith;
          fewer = λ h _. absurd (ground (arith, e));
          conserved = λ f. omega arith;
          keys = λ f. omega arith;
          same_running = refl;
        }))
]

pub paused_in-Ends :
    (test : PreemptionMode → Bool) (sch : SchedulerV2) (paused : Dict PreemptionMode)
    → Ends (λ _. Unit {0}) (paused_in test sch paused)
unfolding paused_in
paused_in-Ends test sch [] = Ends-ok tt
paused_in-Ends test sch ((i, mode) ∷ rest) =
    Ends-bind (Ends-or_raise (Dict.get sch.groups i) key_error tt)
      (λ g _. Ends-bind (paused_in-Ends test sch rest) (λ groups _. Ends-ok tt))

with_remaining-Ends :
    (now : ℕ) (groups : List (ℕ × SequenceGroup)) → Ends (λ _. Unit {0}) (with_remaining now groups)
unfolding with_remaining predicted_api_remaining_time
with_remaining-Ends now [] = Ends-ok tt
with_remaining-Ends now ((i, g) ∷ groups) =
    let remaining : Ends (λ _. Unit {0}) (predicted_api_remaining_time now g) =
      Ends-bind (Ends-or_raise g.sampling_params.api_call_time type_error tt) (λ _ _. Ends-ok tt) in
    Ends-bind remaining (λ _ _. Ends-bind (with_remaining-Ends now groups) (λ _ _. Ends-ok tt))

swapped_discard_list-Ends :
    (sch : SchedulerV2) (now : ℕ) → Ends (λ _. Unit {0}) (swapped_discard_list sch now)
unfolding swapped_discard_list
swapped_discard_list-Ends sch now =
    Ends-bind (paused_in-Ends is_swap sch sch.paused)
      (λ groups _. Ends-bind (with_remaining-Ends now groups) (λ _ _. Ends-ok tt))

-- On a sound scheduler passive_discard_by_order ends: it raises an exception, or it returns a sound
-- scheduler, in which each group is that of before or has no work, and fewer victims, where there
-- are some and a block is required.
pub passive_discard_by_order-Ends :
    (sch : SchedulerV2) (required : ℕ) (victims preempted : List ℕ) (now : ℕ)
    → IsSound sch
    → Ends
        (Discarded sch required victims)
        (passive_discard_by_order sch required victims preempted now)
unfolding passive_discard_by_order
passive_discard_by_order-Ends sch required victims preempted now s =
    Ends-bind (swapped_discard_list-Ends sch now) (λ queue _.
      discard_rounds-Ends required victims
        (record {
          victims = victims;
          swapped_list = reverse queue;
          preempted = preempted;
          scheduler = sch;
        })
        s)
