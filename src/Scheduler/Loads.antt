-- ===== src/Scheduler/Loads.antt =====
-- The tokens that the scheduled groups serve in an iteration (vllm/core/scheduler_v2.py).
use mars_codebase.Prelude.Dict
use mars_codebase.Prelude.Dict.{Dict}
use mars_codebase.Prelude.{
  inl, inr, ap, ok, err, ==_refl, Bool-cases, List, Result, [], arith, err, false, if◌then◌else◌,
  index_error, inr, length, none, ok, refl, some, total, ℕ, ◌+◌, ◌==◌, ◌∙◌, ◌∷◌, ◌≡◌, ◌≤◌, ◌⊎◌,
  Option,
}
use mars_codebase.Sequence.Data.{SequenceData}
use mars_codebase.Sequence.Group.{SequenceGroup, first_seq, values}
use mars_codebase.Scheduler.Soundness.{IsIdle, KeepsGroups}
use mars_codebase.Scheduler.Pausing.{map_first}
use mars_codebase.Sequence.Member.{Sequence}

-- The tokens of the group's first sequence, as get_num_batched_tokens counts them.
abbrev pub load : Dict Sequence → ℕ
load [] = 0
load ((k, s) ∷ d) = s.content.resume_discard_tokens + s.content.running_inflight_tokens

abbrev pub load_of : Option SequenceGroup → ℕ
load_of none = 0
load_of (some g) = load g.seqs_dict

abbrev pub planned : Dict SequenceGroup → ℕ → ℕ
planned groups i = load_of (Dict.get groups i)

-- 1 for the name itself.
abbrev pub same : ℕ → ℕ → ℕ
same i j = if i == j then 1 else 0

pub planned-some :
    (groups : Dict SequenceGroup) (i : ℕ) (g : SequenceGroup)
    → Dict.get groups i ≡ some g
    → planned groups i ≡ load g.seqs_dict
planned-some groups i g e = ap load_of e

IsIdle-load : (d : Dict Sequence) → IsIdle d → load d ≡ 0
IsIdle-load [] idle = refl
IsIdle-load ((k, s) ∷ d) idle = omega (arith, idle.no_discarded, idle.no_inflight)

pub KeepsGroups-planned :
    (groups groups' : Dict SequenceGroup) (i : ℕ)
    → KeepsGroups groups groups'
    → planned groups' i ≤ planned groups i
KeepsGroups-planned groups groups' i k = elim (k i) [
  | inl e ↦ omega (arith, ap load_of e)
  | inr (g, e, idle) ↦ omega (arith, planned-some groups' i g e, IsIdle-load g.seqs_dict idle)
]

pub planned-put_ne :
    (groups : Dict SequenceGroup) (i j : ℕ) (g : SequenceGroup)
    → (i == j) ≡ false
    → planned (Dict.put groups i g) j ≡ planned groups j
planned-put_ne groups i j g h = ap load_of (Dict.get-put groups i j g ∙ rw h refl)

pub planned-put_self :
    (groups : Dict SequenceGroup) (i : ℕ) (g : SequenceGroup)
    → planned (Dict.put groups i g) i ≡ load g.seqs_dict
planned-put_self groups i g =
    planned-some (Dict.put groups i g) i g (Dict.get-put groups i i g ∙ rw (==_refl i) refl)

-- A change of one group does not change the sum over other groups.
pub total-put_absent :
    (groups : Dict SequenceGroup) (i : ℕ) (g : SequenceGroup) (ids : List ℕ)
    → total (same i) ids ≡ 0
    → total (planned (Dict.put groups i g)) ids ≡ total (planned groups) ids
total-put_absent groups i g [] h = refl
total-put_absent groups i g (j ∷ ids) h = elim (Bool-cases (i == j)) [
  | inl e ↦ absurd (ground (arith, h, e))
  | inr e ↦
      let rest : total (same i) ids ≡ 0 = omega (arith, h) in
      omega (arith, planned-put_ne groups i j g e, total-put_absent groups i g ids rest)
]

pub load-map_first :
    (f : Sequence → Sequence) (d : Dict Sequence)
    → ((s : Sequence) → (f s).content ≡ s.content)
    → load (map_first f d) ≡ load d
load-map_first f [] h = refl
load-map_first f ((k, s) ∷ d) h =
    ap (λ (c : SequenceData). c.resume_discard_tokens + c.running_inflight_tokens) (h s)

pub map_first-length :
    (f : Sequence → Sequence) (d : Dict Sequence)
    → length (values (map_first f d)) ≡ length (values d)
map_first-length f [] = refl
map_first-length f ((k, s) ∷ d) = refl

pub dict_cases :
    (d : Dict Sequence)
    → (d ≡ []) ⊎ ((k : ℕ) × (s : Sequence) × (rest : Dict Sequence) × (d ≡ (k, s) ∷ rest))
dict_cases [] = inl refl
dict_cases ((k, s) ∷ d) = inr (k, s, d, refl)

-- What get_seqs()[0] reads.
pub first_seq-load :
    (g : SequenceGroup) (seq : Sequence)
    → first_seq g ≡ ok seq
    → load g.seqs_dict ≡ seq.content.resume_discard_tokens + seq.content.running_inflight_tokens
first_seq-load g seq e = elim (dict_cases g.seqs_dict) [
  | inl h ↦ let e' : err index_error ≡ ok seq = rw h at e in absurd (cc e')
  | inr (k, s, d, h) ↦
      let e' : ok s ≡ ok seq = rw h at e in
      rw h (
        ap
          (λ (r : Result Sequence). elim r [
            | ok t ↦ t.content.resume_discard_tokens + t.content.running_inflight_tokens
            | err x ↦ 0
          ])
          e')
]
