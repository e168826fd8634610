-- ===== src/Scheduler/Queues.antt =====
-- Where the names of the requests stand (vllm/core/scheduler_v2.py). A sum over the names of a list,
-- of any function, says how often each name stands in it.
use mars_codebase.Prelude.Dict
use mars_codebase.Prelude.Dict.{Dict}
use mars_codebase.Scheduler.Aborting.{mem_id, remove_id}
use mars_codebase.Prelude.{
  inl, inr, Bool-cases, List, [], ap, arith, inr, refl, total, total-append, true, ℕ, ◌++◌, ◌+◌,
  ◌==◌, ◌∙◌, ◌∷◌, ◌≡◌, ◌≤◌,
}
use mars_codebase.Scheduler.State.{PreemptionMode, SchedulerV2}

-- The names in the waiting and the swapped queue.
abbrev pub off : (ℕ → ℕ) → SchedulerV2 → ℕ
off f sch = total f sch.waiting + total f sch.swapped

abbrev pub key_total : (ℕ → ℕ) → Dict PreemptionMode → ℕ
key_total f [] = 0
key_total f ((k, mode) ∷ d) = f k + key_total f d

abbrev pub paused_total : (ℕ → ℕ) → SchedulerV2 → ℕ
paused_total f sch = key_total f sch.paused

-- What a step adds to the two queues, at most; it pauses no other request, and leaves the running
-- queue.
pub record Adds (names : List ℕ) (sch sch' : SchedulerV2) : Type 0 where
  pub added : (f : ℕ → ℕ) → off f sch' ≤ off f sch + total f names
  pub keys : (f : ℕ → ℕ) → paused_total f sch' ≤ paused_total f sch
  pub same_running : sch'.running ≡ sch.running

pub Adds-refl : (sch : SchedulerV2) → Adds [] sch sch
Adds-refl sch = record { added = λ f. omega arith; keys = λ f. omega arith; same_running = refl }

pub Adds-trans :
    (xs ys : List ℕ) (a b c : SchedulerV2) → Adds xs a b → Adds ys b c → Adds (xs ++ ys) a c
Adds-trans xs ys a b c k l = record {
  added = λ f. omega (arith, k.added f, l.added f, total-append f xs ys);
  keys = λ f. omega (arith, k.keys f, l.keys f);
  same_running = l.same_running ∙ k.same_running;
}

pub Adds-more : (xs ys : List ℕ) (a b : SchedulerV2) → Adds xs a b → Adds (xs ++ ys) a b
Adds-more xs ys a b k = record {
  added = λ f. omega (arith, k.added f, total-append f xs ys);
  keys = k.keys;
  same_running = k.same_running;
}

-- What a pause leaves.
pub record Pauses (i : ℕ) (sch sch' : SchedulerV2) : Type 0 where
  pub mode : PreemptionMode
  pub paused : sch'.paused ≡ Dict.put sch.paused i mode
  pub waiting : sch'.waiting ≡ sch.waiting
  pub swapped : sch'.swapped ≡ sch.swapped
  pub running : sch'.running ≡ sch.running

key_total-put :
    (f : ℕ → ℕ) (d : Dict PreemptionMode) (i : ℕ) (mode : PreemptionMode)
    → Dict.contains d i ≡ true
    → key_total f (Dict.put d i mode) ≡ key_total f d
key_total-put f [] i mode h = absurd (cc h)
key_total-put f ((k, m) ∷ d) i mode h = elim (Bool-cases (k == i)) [
  | inl e ↦ rw e refl
  | inr e ↦ rw e (omega (arith, key_total-put f d i mode (rw (e, Dict.contains, Dict.get) at h)))
]

-- A request that was paused before.
pub Pauses-Adds :
    (i : ℕ) (sch sch' : SchedulerV2)
    → Dict.contains sch.paused i ≡ true
    → Pauses i sch sch'
    → Adds [] sch sch'
Pauses-Adds i sch sch' h p = record {
  added = λ f. omega (arith, ap (total f) p.waiting, ap (total f) p.swapped);
  keys = λ f. omega (arith, ap (key_total f) p.paused, key_total-put f sch.paused i p.mode h);
  same_running = p.running;
}

pub total-remove_id :
    (f : ℕ → ℕ) (i : ℕ) (ids : List ℕ)
    → mem_id i ids ≡ true
    → total f (remove_id i ids) + f i ≡ total f ids
total-remove_id f i [] h = absurd (cc h)
total-remove_id f i (j ∷ ids) h = elim (Bool-cases (i == j)) [
  | inl e ↦ let same_name : i ≡ j = ground (arith, e) in rw e (omega (arith, ap f same_name))
  | inr e ↦ rw e (omega (arith, total-remove_id f i ids (rw e at h)))
]
