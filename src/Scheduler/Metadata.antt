-- ===== src/Scheduler/Metadata.antt =====
-- What schedule reads and describes around _schedule_chunk_and_fill (vllm/core/scheduler_v2.py).
use mars_codebase.Prelude.Dict
use mars_codebase.Prelude.Dict.{Dict}
use mars_codebase.Prelude.{
  some, subst, sym, ◌==◌, ==_iff, Bool, Bool-cases, Ends, Ends-bind, Ends-ok, Ends-or_raise, List,
  [], arith, inl, inr, key_error, length, refl, ℕ, ◌∙◌, ◌∷◌, ◌≡◌,
}
use mars_codebase.Scheduler.Sorted.{named-Ends}
use mars_codebase.Scheduler.Discarding.{is_preserve}
use mars_codebase.Scheduler.Filled.{same-IsSound}
use mars_codebase.Scheduler.Loads.{load, planned, planned-put_ne, planned-put_self, planned-some}
use mars_codebase.Scheduler.Soundness.{
  IsSound, first_seq-Ends, get_seq_blocks_by_device-Ends, put-AllSingle,
}
use mars_codebase.Scheduler.Iteration.{
  metadata_list, metadata_of, note_start, read_blocks, seq_entries, set_max_ragged_batch,
  statistics,
}
use mars_codebase.Sequence.Member.{Sequence}
use mars_codebase.Scheduler.Discards.{paused_in-Ends}
use mars_codebase.Scheduler.SafePauses.{get_block_table-Ends}
use mars_codebase.Sequence.Status.{SequenceStatus}
use mars_codebase.Sequence.Group.{SequenceGroup, get_seqs_in, num_seqs}
use mars_codebase.BlockManager.Valid.{entry}
use mars_codebase.Prelude.Int.{eq_ℤ, negsuc}
use mars_codebase.Scheduler.State.{SchedulerV2, with_group}
use mars_codebase.Block.{gpu}
use mars_codebase.Sequence.Data.{SequenceData}

read_blocks-Ends :
    (sch : SchedulerV2) (groups : List (ℕ × SequenceGroup))
    → Ends (λ _. Unit {0}) (read_blocks sch groups)
unfolding read_blocks
read_blocks-Ends sch [] = Ends-ok tt
read_blocks-Ends sch ((i, g) ∷ groups) =
    Ends-bind (get_seq_blocks_by_device-Ends sch.block_manager g gpu)
      (λ _ _. read_blocks-Ends sch groups)

pub set_max_ragged_batch-Ends :
    (sch : SchedulerV2)
    → IsSound sch
    → Ends (λ sch'. IsSound sch' × (sch'.batch_max_tokens ≡ 384)) (set_max_ragged_batch sch)
unfolding set_max_ragged_batch
set_max_ragged_batch-Ends sch s = Ends-bind (paused_in-Ends is_preserve sch sch.paused) (λ groups _.
    Ends-bind (read_blocks-Ends sch groups) (λ _ _. Ends-ok (same-IsSound sch _ refl refl s, refl)))

pub statistics-Ends :
    (sch : SchedulerV2) (scheduled : List ℕ)
    → IsSound sch
    → Ends (λ _. Unit {0}) (statistics sch scheduled)
unfolding statistics
statistics-Ends sch scheduled s = Ends-bind (paused_in-Ends is_preserve sch sch.paused) (λ groups _.
    Ends-bind (read_blocks-Ends sch groups)
      (λ _ _. Ends-bind (named-Ends sch scheduled s) (λ served _. read_blocks-Ends sch served)))

seq_entries-Ends :
    (sch : SchedulerV2) (seqs : List Sequence) (entries : Dict (SequenceData × List ℕ))
    → Ends (λ _. Unit {0}) (seq_entries sch seqs entries)
unfolding seq_entries
seq_entries-Ends sch [] entries = Ends-ok tt
seq_entries-Ends sch (seq ∷ seqs) entries =
    Ends-bind (get_block_table-Ends sch.block_manager seq)
      (λ numbers _. seq_entries-Ends sch seqs _)

note_start-num_seqs : (clock : ℕ) (g : SequenceGroup) → num_seqs (note_start clock g) ≡ num_seqs g
note_start-num_seqs clock g = elim (Bool-cases (eq_ℤ g.time_before_processing (negsuc 999))) [
  | inl e ↦ rw (e, note_start) refl
  | inr e ↦ rw (e, note_start) refl
]

note_start-load :
    (clock : ℕ) (g : SequenceGroup) → load (note_start clock g).seqs_dict ≡ load g.seqs_dict
note_start-load clock g = elim (Bool-cases (eq_ℤ g.time_before_processing (negsuc 999))) [
  | inl e ↦ rw (e, note_start) refl
  | inr e ↦ rw (e, note_start) refl
]

-- The scheduler is sound, and no group serves other tokens than before.
pub record Unchanged (sch sch' : SchedulerV2) : Type 0 where
  pub sound : IsSound sch'
  pub loads : (j : ℕ) → planned sch'.groups j ≡ planned sch.groups j

noted_lem :
    (sch : SchedulerV2) (clock i : ℕ) (g : SequenceGroup)
    → IsSound sch
    → Dict.get sch.groups i ≡ some g
    → Unchanged sch (with_group sch i (note_start clock g))
noted_lem sch clock i g s e = record {
  sound = record {
    valid = s.valid;
    no_window = s.no_window;
    single =
        put-AllSingle sch.groups i (note_start clock g) s.single
          (note_start-num_seqs clock g ∙ s.single i g e);
  };
  loads = λ j. elim (Bool-cases (i == j)) [
    | inl same ↦
        let i_is_j = (==_iff i j).0 same in
        subst (λ k. planned (Dict.put sch.groups i (note_start clock g)) k ≡ planned sch.groups k)
          i_is_j
          (planned-put_self sch.groups i (note_start clock g)
            ∙ note_start-load clock g
            ∙ sym (planned-some sch.groups i g e))
    | inr other ↦ planned-put_ne sch.groups i j (note_start clock g) other
  ];
}

metadata_of-Ends :
    (sch : SchedulerV2) (clock i : ℕ) (prompt : Bool)
    → IsSound sch
    → Ends (λ out. Unchanged sch out.1) (metadata_of sch clock i prompt)
unfolding metadata_of
metadata_of-Ends sch clock i prompt s =
    Ends-bind (Ends-or_raise (Dict.get sch.groups i) key_error tt) (λ g e.
      Ends-bind (seq_entries-Ends sch (get_seqs_in SequenceStatus.running g) []) (λ entries _.
        Ends-bind (first_seq-Ends g) (λ seq _. Ends-ok (noted_lem sch clock i g s e))))

pub metadata_list-Ends :
    (sch : SchedulerV2) (clock : ℕ → ℕ) (queue : List ℕ) (prompts : List Bool)
    → IsSound sch
    → length prompts ≡ length queue
    → Ends
        (λ out. Unchanged sch out.1 × (length out.0 ≡ length queue))
        (metadata_list sch clock queue prompts)
unfolding metadata_list
metadata_list-Ends sch clock [] prompts s h =
    Ends-ok (record { sound = s; loads = λ j. refl }, refl)
metadata_list-Ends sch clock (i ∷ queue) [] s h = absurd (omega (arith, h))
metadata_list-Ends sch clock (i ∷ queue) (prompt ∷ prompts) s h =
    Ends-bind (metadata_of-Ends sch (clock i) i prompt s) (λ (entry, sch') u.
      Ends-bind (metadata_list-Ends sch' clock queue prompts u.sound (omega (arith, h)))
        (λ out (u', len).
          Ends-ok
            (record { sound = u'.sound; loads = λ j. u'.loads j ∙ u.loads j }, omega (arith, len))))
