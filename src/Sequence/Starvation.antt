-- ===== src/Sequence/Starvation.antt =====
-- The counters of starvation avoidance (vllm/sequence.py).
use mars_codebase.Sequence.Member.{Sequence, check_starvation_high_priority, increment_starvation}
use mars_codebase.Prelude.{
  Bool, Result, ok, ◌>>=◌, List, [], false, replicate, suc, true, zero, ℕ, ◌++◌, ◌+◌, ◌∷◌, ◌≡◌, ◌≤◌,
  ◌<◌, ◌==◌, arith, leb, refl, ltb, ◌-◌,
}
use mars_codebase.Sequence.Status.{SequenceStatus}

-- A question for the priority, and a count.
abbrev pub ask_and_count : Sequence → Result (Sequence × Bool)
ask_and_count s = do
  (s', priority) ← check_starvation_high_priority s
  s'' ← increment_starvation s'
  ok (s'', priority)

-- Some of them one after the other, with the answers.
unfoldable pub rounds : ℕ → Sequence → Result (Sequence × List Bool)
unfolding check_starvation_high_priority increment_starvation
rounds zero s = ok (s, [])
rounds (suc n) s = do
  (s', priority) ← ask_and_count s
  (s'', priorities) ← rounds n s'
  ok (s'', priority ∷ priorities)

rounds-suc :
    (n : ℕ) (s t u : Sequence) (p : Bool) (l : List Bool)
    → ask_and_count s ≡ ok (t, p)
    → rounds n t ≡ ok (u, l)
    → rounds (suc n) s ≡ ok (u, p ∷ l)
unfolding rounds
rounds-suc n s t u p l e e' = rw (e, e') refl

-- Below the threshold the round is counted.
counted :
    (s : Sequence)
    → s.status ≡ SequenceStatus.waiting
    → s.starvation_quantum ≡ 0
    → s.starvation_counter < s.starvation_threshold
    → ask_and_count s ≡ ok (record s { starvation_counter = s.starvation_counter + 1 }, false)
unfolding check_starvation_high_priority increment_starvation
counted s w q h =
    let no : leb s.starvation_threshold s.starvation_counter ≡ false = ground arith in
    rw (w, q, no) refl

-- At the threshold the quantum is granted.
granted :
    (s : Sequence) (q : ℕ)
    → s.status ≡ SequenceStatus.waiting
    → s.starvation_quantum ≡ 0
    → s.starvation_threshold ≤ s.starvation_counter
    → s.quantum_value ≡ suc q
    → ask_and_count s ≡ ok (record s { starvation_quantum = suc q; starvation_counter = 0 }, false)
unfolding check_starvation_high_priority increment_starvation
granted s q w z h v =
    let yes : leb s.starvation_threshold s.starvation_counter ≡ true = ground arith in
    let more : (suc q == 0) ≡ false = ground arith in rw (w, z, yes, v, more) refl

-- A round with priority, before the last one and the last one, which is counted.
spent :
    (s : Sequence) (q : ℕ)
    → s.status ≡ SequenceStatus.waiting
    → s.starvation_quantum ≡ suc (suc q)
    → ask_and_count s ≡ ok (record s { starvation_quantum = suc q }, true)
unfolding check_starvation_high_priority increment_starvation
spent s q w h =
    let first : ltb 0 (suc (suc q)) ≡ true = ground arith in
    let less : suc (suc q) - 1 ≡ suc q = omega arith in
    let more : (suc q == 0) ≡ false = ground arith in rw (w, h, first, less, more) refl

spent_last :
    (s : Sequence)
    → s.status ≡ SequenceStatus.waiting
    → s.starvation_quantum ≡ 1
    → ask_and_count s
      ≡ ok
          (record s { starvation_quantum = 0; starvation_counter = s.starvation_counter + 1 }, true)
unfolding check_starvation_high_priority increment_starvation
spent_last s w h = rw (w, h) refl

-- All the rounds with a quantum.
spending :
    (q : ℕ) (s : Sequence)
    → s.status ≡ SequenceStatus.waiting
    → s.starvation_quantum ≡ suc q
    → rounds (suc q) s
      ≡ ok (
        record s { starvation_quantum = 0; starvation_counter = s.starvation_counter + 1 },
        replicate (suc q) true,
      )
unfolding rounds
spending zero s w h = rounds-suc 0 s _ _ true [] (spent_last s w h) refl
spending (suc q) s w h =
    rounds-suc (suc q) s _ _ true _ (spent s q w h)
      (spending q (record s { starvation_quantum = suc q }) w refl)

-- For a waiting sequence without a quantum, with a counter `n` below its threshold, the first `n + 1`
-- answers are false, and as many as the quantum value, which is not 0, are true.
pub rounds-granted :
    (n q : ℕ) (s : Sequence)
    → s.status ≡ SequenceStatus.waiting
    → s.starvation_quantum ≡ 0
    → s.starvation_counter + n ≡ s.starvation_threshold
    → s.quantum_value ≡ suc q
    → rounds (suc (suc q) + n) s
      ≡ ok (
        record s { starvation_quantum = 0; starvation_counter = 1 },
        replicate (suc n) false ++ replicate (suc q) true,
      )
rounds-granted zero q s w z h v =
    let total : suc (suc q) + 0 ≡ suc (suc q) = omega arith in
    rw total (
      rounds-suc (suc q) s _ _ false _ (granted s q w z (omega arith) v)
        (spending q (record s { starvation_quantum = suc q; starvation_counter = 0 }) w refl))
rounds-granted (suc n) q s w z h v =
    let s' : Sequence = record s { starvation_counter = s.starvation_counter + 1 } in
    let total : suc (suc q) + suc n ≡ suc (suc (suc q) + n) = omega arith in
    rw total (
      rounds-suc (suc (suc q) + n) s s' _ false _ (counted s w z (omega arith))
        (rounds-granted n q s' w z (omega arith) v))
