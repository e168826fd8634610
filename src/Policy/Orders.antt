-- ===== src/Policy/Orders.antt =====
-- The orders that the policies give a queue (vllm/core/policy.py).
use mathlib.Core.List.{Permᴰ}
use mars_codebase.Prelude.{
  Bool, Bool-cases, leb, zero, suc, ◌<◌, List, ap, arith, false, inl, inr, map, ok, refl, true, ℕ,
  [], ◌∷◌, ◌≡◌, ◌-◌,
}
use mars_codebase.Prelude.Int.{difference, eq_ℤ, leb_ℤ, negate, negsuc, opposite, pos, ℤ}
use mars_codebase.Policy.{
  Policy, Query, Ranked, get_priority, not_below, rank_all, sort_by_priority,
}
use mars_codebase.Policy.Laws.{eq_ℤ-leb_ℤ, leb_ℤ-connex, leb_ℤ-transitive}
use mars_codebase.Sequence.Group.{SequenceGroup, keep}
use mars_codebase.Sorting.Laws.{
  IsOrdered, IsPreorder, keep-sort_by, sort_by-IsOrdered, sort_by-Perm, sort_by-map,
}
use mars_codebase.Sorting.{sort_by}

-- What a policy orders a queue by, from the least on: FCFS, and V2 for the running queue, by the
-- arrival; ShortestJobFirst by the remaining length; V2 by the score that it has kept, where it may
-- use that.
pub data OrdersBy : Policy → Query → (SequenceGroup → ℤ) → Type 0 where
  by_arrival : {q : Query} → OrdersBy Policy.fcfs q (λ g. pos g.arrival_time)
  by_remaining :
      {q : Query} → OrdersBy Policy.shortest_job_first q (λ g. pos g.sampling_params.remain_langth)
  by_arrival_running :
      {q : Query} → q.in_running ≡ true → OrdersBy Policy.v2 q (λ g. pos g.arrival_time)
  by_kept_score :
      {q : Query}
      → q.in_running ≡ false
      → q.use_cached_score ≡ true
      → OrdersBy Policy.v2 q (λ g. g.newest_sort_waste)

negate-negsuc : (d : ℕ) → 0 < d → negate d ≡ negsuc (d - 1)
negate-negsuc zero h = absurd (omega (arith, h))
negate-negsuc (suc d) h = let e : suc d - 1 ≡ d = omega arith in rw e refl

leb-difference : (now m n : ℕ) → leb_ℤ (difference now m) (difference now n) ≡ leb_ℤ (pos n) (pos m)
leb-difference now m n = elim (Bool-cases (leb m now)) [
  | inl e ↦ elim (Bool-cases (leb n now)) [
    | inl f ↦ rw (e, f) (ground (arith, e, f))
    | inr f ↦
        let h : 0 < n - now = ground (arith, f) in
        rw (e, f, negate-negsuc (n - now) h) (ground (arith, e, f))
  ]
  | inr e ↦
      let h : 0 < m - now = ground (arith, e) in
      elim (Bool-cases (leb n now)) [
        | inl f ↦ rw (e, f, negate-negsuc (m - now) h) (ground (arith, e, f))
        | inr f ↦
            let h' : 0 < n - now = ground (arith, f) in
            rw (e, f, negate-negsuc (m - now) h, negate-negsuc (n - now) h') (ground (arith, e, f))
      ]
]

leb-negate : (m n : ℕ) → leb_ℤ (negate m) (negate n) ≡ leb_ℤ (pos n) (pos m)
leb-negate zero zero = refl
leb-negate zero (suc n) = ground arith
leb-negate (suc m) zero = ground arith
leb-negate (suc m) (suc n) = ground arith

leb-opposite : (x y : ℤ) → leb_ℤ (opposite x) (opposite y) ≡ leb_ℤ y x
leb-opposite (pos m) (pos n) = leb-negate m n
leb-opposite (pos zero) (negsuc n) = ground arith
leb-opposite (pos (suc m)) (negsuc n) = ground arith
leb-opposite (negsuc m) (pos zero) = ground arith
leb-opposite (negsuc m) (pos (suc n)) = ground arith
leb-opposite (negsuc m) (negsuc n) = ground arith

-- The priority of a group, which the policy leaves as it was, is the higher the less its key is.
record IsPriority (policy : Policy) (q : Query) (key priority : SequenceGroup → ℤ) : Type 0 where
  given : (g : SequenceGroup) → get_priority policy q g ≡ ok (priority g, g)
  reverses : (g h : SequenceGroup) → leb_ℤ (priority g) (priority h) ≡ leb_ℤ (key h) (key g)

priority_lem :
    (policy : Policy) (q : Query) (key : SequenceGroup → ℤ)
    → OrdersBy policy q key
    → (priority : SequenceGroup → ℤ) × IsPriority policy q key priority
unfolding get_priority
priority_lem policy q key by_arrival = (
  λ g. difference q.now g.arrival_time,
  record {
    given = λ g. refl;
    reverses = λ g h. leb-difference q.now g.arrival_time h.arrival_time;
  },
)
priority_lem policy q key by_remaining = (
  λ g. negate g.sampling_params.remain_langth,
  record {
    given = λ g. refl;
    reverses = λ g h. leb-negate g.sampling_params.remain_langth h.sampling_params.remain_langth;
  },
)
priority_lem policy q key (by_arrival_running e) = (
  λ g. difference q.now g.arrival_time,
  record {
    given = λ g. rw e refl;
    reverses = λ g h. leb-difference q.now g.arrival_time h.arrival_time;
  },
)
priority_lem policy q key (by_kept_score e f) = (
  λ g. opposite g.newest_sort_waste,
  record {
    given = λ g. rw (e, f) refl;
    reverses = λ g h. leb-opposite g.newest_sort_waste h.newest_sort_waste;
  },
)

abbrev with_priority : (SequenceGroup → ℤ) → ℕ × SequenceGroup → Ranked
with_priority priority e = record { priority = priority e.1; name = e.0; group = e.1 }

-- The groups of a sorted queue with their names.
abbrev pub entries : List Ranked → List (ℕ × SequenceGroup)
entries [] = []
entries (r ∷ ranked) = (r.name, r.group) ∷ entries ranked

entries-map :
    (priority : SequenceGroup → ℤ) (groups : List (ℕ × SequenceGroup))
    → entries (map (with_priority priority) groups) ≡ groups
entries-map priority [] = refl
entries-map priority (e ∷ groups) = ap (◌∷◌ e) (entries-map priority groups)

rank_all-map :
    (policy : Policy) (q : Query) (priority : SequenceGroup → ℤ) (groups : List (ℕ × SequenceGroup))
    → ((g : SequenceGroup) → get_priority policy q g ≡ ok (priority g, g))
    → rank_all policy q groups ≡ ok (map (with_priority priority) groups)
unfolding rank_all
rank_all-map policy q priority [] h = refl
rank_all-map policy q priority ((i, g) ∷ groups) h =
    rw (h g, rank_all-map policy q priority groups h) refl

abbrev pub not_above : (SequenceGroup → ℤ) → ℕ × SequenceGroup → ℕ × SequenceGroup → Bool
not_above key e f = leb_ℤ (key e.1) (key f.1)

not_above-IsPreorder : (key : SequenceGroup → ℤ) → IsPreorder (not_above key)
not_above-IsPreorder key = record {
  connex = λ e f h. leb_ℤ-connex (key e.1) (key f.1) h;
  transitive = λ e f g h h'. leb_ℤ-transitive (key e.1) (key f.1) (key g.1) h h';
}

-- For FCFS and ShortestJobFirst, and for V2 on the running queue or with the kept scores,
-- sort_by_priority returns: it gives the groups of the queue with their names, none lost, none twice
-- and none changed, the earliest arrival, the least remaining length or the least kept score first;
-- groups that do not differ in it are in the order of the queue.
pub sort_by_priority-orders :
    (policy : Policy) (q : Query) (key : SequenceGroup → ℤ) (groups : List (ℕ × SequenceGroup))
    → OrdersBy policy q key
    → (out : List Ranked) × (sort_by_priority policy q groups ≡ ok out)
      × Permᴰ groups (entries out)
      × IsOrdered (not_above key) (entries out)
      × ((x : ℤ) → keep (λ e. eq_ℤ (key e.1) x) (entries out) ≡ keep (λ e. eq_ℤ (key e.1) x) groups)
unfolding sort_by_priority
sort_by_priority-orders policy q key groups o =
    let (priority, p) = priority_lem policy q key o in
    let sorted = sort_by (not_above key) groups in
    let out = map (with_priority priority) sorted in
    let same : entries out ≡ sorted = entries-map priority sorted in
    (
      out,
      rw
          (
            rank_all-map policy q priority groups p.given,
            sort_by-map (not_above key) not_below (with_priority priority)
                (λ e f. p.reverses f.1 e.1) groups,
          )
          refl,
      rw same (sort_by-Perm (not_above key) groups),
      rw same (sort_by-IsOrdered (not_above key) (not_above-IsPreorder key) groups),
      λ x. rw same (
          keep-sort_by (not_above key) (λ e. eq_ℤ (key e.1) x) groups
            (λ e f h h'. eq_ℤ-leb_ℤ (key e.1) (key f.1) x h h')),
    )
