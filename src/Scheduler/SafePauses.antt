-- ===== src/Scheduler/SafePauses.antt =====
-- pause_by_swap on a sound scheduler (vllm/core/scheduler_v2.py): it ends, and the scheduler stays
-- sound.
use mars_codebase.Prelude.Dict
use mars_codebase.Prelude.Dict.{Dict}
use mars_codebase.Block.{cpu, gpu}
use mars_codebase.Scheduler.Soundness.{
  IsSound, first_seq-Ends, get_seq_blocks_by_device-Ends, put-AllSingle,
}
use mars_codebase.Prelude.{
  inl, inr, refl, sym, >>=-eq-ok, Bool, Bool-cases, Ends, Ends-bind, Ends-ok, Ends-or_raise,
  Ends-value, Ends-weaken, List, Option, Option-cases, Result, [], ap, arith, err, inr, key_error,
  length, list_cases, none, ok, refl, returns, some, subst, true, ℕ, ◌∙◌, ◌∷◌, ◌≡◌,
}
use mars_codebase.BlockManager.Manager.{BlockSpaceManager}
use mars_codebase.BlockManager.Eviction.{
  can_swap_out, get_block_table, get_physical_blocks, get_seq_blocks_by_device, limit_of, move_seqs,
  start_moves, swap_out, tables_of,
}
use mars_codebase.BlockManager.SwapMethods.{swap_out-IsValid}
use mars_codebase.BlockManager.Tables.{BlockTable}
use mars_codebase.Sequence.Group.{
  SequenceGroup, get_seqs, get_seqs_in, get_unfinished_seqs, num_seqs,
}
use mars_codebase.Scheduler.State.{SchedulerV2}
use mars_codebase.Scheduler.Loads.{map_first-length}
use mars_codebase.BlockManager.Valid.{IsValid}
use mars_codebase.Sequence.Status.{SequenceStatus, is_status}
use mars_codebase.Sequence.Member.{Sequence}
use mars_codebase.Prelude.Int.{ℤ}
use mars_codebase.Scheduler.Pausing.{pause_by_swap}

single_lem : (g : SequenceGroup) → num_seqs g ≡ 1 → (seq : Sequence) × (get_seqs g ≡ seq ∷ [])
single_lem g only = elim (list_cases (get_seqs g)) [
  | inl e ↦ absurd (omega (arith, only, ap length e))
  | inr (seq, rest, e) ↦ elim (list_cases rest) [
    | inl e' ↦ (seq, e ∙ ap (◌∷◌ seq) e')
    | inr (s, rest', e') ↦ absurd (omega (arith, only, ap length e, ap length e'))
  ]
]

is_status_eq :
    (s : SequenceStatus)
    → is_status s SequenceStatus.paused_api ≡ true
    → s ≡ SequenceStatus.paused_api
is_status_eq SequenceStatus.paused_api h = refl
is_status_eq SequenceStatus.waiting h = absurd (cc h)
is_status_eq SequenceStatus.running h = absurd (cc h)
is_status_eq SequenceStatus.swapped h = absurd (cc h)
is_status_eq SequenceStatus.finished_stopped h = absurd (cc h)
is_status_eq SequenceStatus.resumed_api h = absurd (cc h)
is_status_eq SequenceStatus.resuming h = absurd (cc h)
is_status_eq SequenceStatus.finished_length_capped h = absurd (cc h)
is_status_eq SequenceStatus.finished_aborted h = absurd (cc h)
is_status_eq SequenceStatus.finished_ignored h = absurd (cc h)

pub can_swap_out-Ends :
    (m : BlockSpaceManager) (g : SequenceGroup) (first : Option ℕ)
    → Ends (λ b. can_swap_out m g first ≡ ok b) (can_swap_out m g first)
unfolding can_swap_out
can_swap_out-Ends m g first =
    let read : Ends (λ _. Unit {0}) (can_swap_out m g first) =
      Ends-bind (get_seq_blocks_by_device-Ends m g gpu) (λ _ _. Ends-ok tt) in
    Ends-weaken (Ends-value read) (λ b (_, e). e)

swap_out-no_window :
    (m m' : BlockSpaceManager) (g : SequenceGroup) (limit : ℤ) (status : SequenceStatus)
    (pairs : List (ℕ × ℕ)) (all : Bool)
    → swap_out m g limit status ≡ ok (m', pairs, all)
    → m'.block_sliding_window ≡ m.block_sliding_window
unfolding swap_out
swap_out-no_window m m' g limit status pairs all e =
    let (p, _, e') =
      >>=-eq-ok (move_seqs cpu (get_seqs_in status g) m.block_tables (start_moves limit m.memory)) _
        e in
    sym (
      ap
        (λ (r : Result (BlockSpaceManager × List (ℕ × ℕ) × Bool)). elim r [
          | ok t ↦ t.0.block_sliding_window
          | err x ↦ none
        ])
        e')

-- The sequence has a table, where can_swap_out returns.
held_lem :
    (m : BlockSpaceManager) (g : SequenceGroup) (seq : Sequence) (first : Option ℕ) (b : Bool)
    → get_unfinished_seqs g ≡ seq ∷ []
    → can_swap_out m g first ≡ ok b
    → (table : BlockTable) × (Dict.get m.block_tables seq.seq_id ≡ some table)
unfolding can_swap_out get_seq_blocks_by_device get_physical_blocks tables_of
held_lem m g seq first b only can = elim (Option-cases (Dict.get m.block_tables seq.seq_id)) [
  | inl e ↦ let can' : err key_error ≡ ok b = rw (only, e) at can in absurd (cc can')
  | inr (table, e) ↦ (table, e)
]

swap_out-Ends :
    (m : BlockSpaceManager) (g : SequenceGroup) (seq : Sequence) (first : Option ℕ)
    → IsValid m
    → get_seqs g ≡ seq ∷ []
    → can_swap_out m g first ≡ ok true
    → Ends
        (λ out. IsValid out.0 × (out.0.block_sliding_window ≡ m.block_sliding_window))
        (swap_out m g (limit_of first) SequenceStatus.paused_api)
unfolding swap_out move_seqs
swap_out-Ends m g seq first v only can =
    elim (Bool-cases (is_status seq.status SequenceStatus.paused_api)) [
      | inl h ↦
          let status = is_status_eq seq.status h in
          let unfinished : get_unfinished_seqs g ≡ seq ∷ [] = rw (only, status) refl in
          let chosen : get_seqs_in SequenceStatus.paused_api g ≡ seq ∷ [] =
            rw (only, status) refl in
          let (table, held) = held_lem m g seq first true unfinished can in
          let (m', pairs, all, done, (v', _, _, _)) =
            swap_out-IsValid m g SequenceStatus.paused_api seq table first v unfinished chosen held
              can in
          returns (m', pairs, all) done
            (
              v',
              swap_out-no_window m m' g (limit_of first) SequenceStatus.paused_api pairs all done,
            )
      | inr h ↦
          let chosen : get_seqs_in SequenceStatus.paused_api g ≡ [] = rw (only, h) refl in
          rw chosen (Ends-ok (v, refl))
    ]

pub get_block_table-Ends :
    (m : BlockSpaceManager) (seq : Sequence) → Ends (λ _. Unit {0}) (get_block_table m seq)
unfolding get_block_table
get_block_table-Ends m seq =
    Ends-bind (Ends-or_raise (Dict.get m.block_tables seq.seq_id) key_error tt) (λ _ _. Ends-ok tt)

pub pause_by_swap-Ends :
    (sch : SchedulerV2) (i : ℕ) (swaps : Dict ℕ) (first : Option ℕ)
    → IsSound sch
    → Ends (λ out. IsSound out.0) (pause_by_swap sch i swaps first)
unfolding pause_by_swap
pause_by_swap-Ends sch i swaps first s =
    Ends-bind (Ends-or_raise (Dict.get sch.groups i) key_error tt) (λ g e.
      Ends-bind (can_swap_out-Ends sch.block_manager g first) (λ can known. elim (Bool-cases can) [
        | inr h ↦
            rw h (Ends-ok (record { valid = s.valid; no_window = s.no_window; single = s.single }))
        | inl h ↦
            let (seq, only) = single_lem g (s.single i g e) in
            rw h (
              Ends-bind
                (swap_out-Ends sch.block_manager g seq first s.valid only
                  (subst (λ b. can_swap_out sch.block_manager g first ≡ ok b) h known))
                (λ out (v, w). Ends-bind (first_seq-Ends g) (λ seq' _.
                  Ends-bind (get_block_table-Ends out.0 seq') (λ numbers _. Ends-ok (record {
                    valid = v;
                    no_window = w ∙ s.no_window;
                    single =
                        put-AllSingle sch.groups i _ s.single
                          (map_first-length _ g.seqs_dict ∙ s.single i g e);
                  })))))
      ]))
