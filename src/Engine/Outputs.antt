-- ===== src/Engine/Outputs.antt =====
-- LLMEngine._process_sequence_group_samples for groups without beam search
-- (vllm/engine/llm_engine.py). `texts` says of a sequence what its text, with its last token decoded,
-- gives for each stop string.
use mars_codebase.Prelude.{
  Bool, List, Result, [], guard, if◌then◌else◌, key_error, none, ok, ℕ, ◌++◌, ◌+◌, ◌==◌, ◌>>=◌,
  ◌>>◌, ◌∷◌,
}
use mars_codebase.Prelude.Dict
use mars_codebase.Prelude.Dict.{Dict}
use mars_codebase.Prelude.Int.{ℤ}
use mars_codebase.Engine.{EngineConfig, StopString, check_stop}
use mars_codebase.Sequence.Group.{
  SamplingParams, SequenceGroup, add, all_of, any_of, get_seqs_in, keep, remove,
}
use mars_codebase.Sequence.Member
use mars_codebase.Sequence.Member.{Sequence, append_token_id}
use mars_codebase.Sequence.Status.{SequenceStatus, is_finished, is_paused}
use mars_codebase.Scheduler.State.{SchedulerV2, group_of, with_group}
use mars_codebase.Scheduler.Preempting.{fork_seq, free_seq}
use mars_codebase.Scheduler.Pausing.{pause_seq_group}

-- SequenceOutputs; of the log-probabilities, the tokens that have one.
pub record Sample : Type 0 where
  pub parent_seq_id : ℕ
  pub output_token : ℤ
  pub logprobs : List ℤ

-- An entry of child_seqs. Of the parent only the id is read afterwards; the entry whose sequence is
-- the parent's own object has the same id twice.
pub record Child : Type 0 where
  pub seq : Sequence
  pub parent : Sequence

-- `seq is parent`
abbrev pub is_parent : Child → Bool
is_parent c = c.seq.seq_id == c.parent.seq_id

-- What the loop over the parents changes.
pub record Outputs : Type 0 where
  pub sch : SchedulerV2
  pub seq_group : SequenceGroup
  pub seq_counter : ℕ
  pub child_seqs : List Child

-- The forks for all samples but the last, which continues the parent itself.
unfoldable pub continue_parent : Sequence → List Sample → ℕ → Result (List Child × ℕ)
continue_parent parent [] counter = ok ([], counter)
continue_parent parent (sample ∷ []) counter = do
  s ← append_token_id parent sample.output_token sample.logprobs
  ok (record { seq = s; parent = parent } ∷ [], counter)
continue_parent parent (sample ∷ next ∷ samples) counter = do
  s ← append_token_id (Member.fork parent counter) sample.output_token sample.logprobs
  (children, counter') ← continue_parent parent (next ∷ samples) (counter + 1)
  ok (record { seq = s; parent = parent } ∷ children, counter')

-- The body of the loop over the parents, on the samples of one.
unfoldable pub process_parent : Sequence → List Sample → Outputs → Result Outputs
process_parent parent [] o = do
  g ← remove o.seq_group parent.seq_id
  sch ← free_seq o.sch parent
  ok (record o { sch = sch; seq_group = g })
process_parent parent (sample ∷ samples) o = do
  (children, counter) ← continue_parent parent (sample ∷ samples) o.seq_counter
  ok (record o { seq_counter = counter; child_seqs = o.child_seqs ++ children })

abbrev pub samples_of : Sequence → List Sample → List Sample
samples_of parent samples = keep (λ sample. sample.parent_seq_id == parent.seq_id) samples

unfoldable pub process_parents : List Sequence → List Sample → Outputs → Result Outputs
process_parents [] samples o = ok o
process_parents (parent ∷ parents) samples o = do
  o' ← process_parent parent (samples_of parent samples) o
  process_parents parents samples o'

-- The loop that decodes the sequences and stops them.
unfoldable pub check_children :
    EngineConfig → SamplingParams → (Sequence → List StopString) → List Child → Result (List Child)
check_children config p texts [] = ok []
check_children config p texts (c ∷ children) = do
  s ← check_stop config p (texts c.seq) c.seq
  children' ← check_children config p texts children
  ok (record c { seq = s } ∷ children')

-- The parents are objects of the group, which the loops change.
unfoldable pub put_parents : List Child → SequenceGroup → SequenceGroup
put_parents [] g = g
put_parents (c ∷ children) g =
    put_parents children
      (if is_parent c then record g { seqs_dict = Dict.put g.seqs_dict c.seq.seq_id c.seq } else g)

-- A new child is added to the group, and forked if it is not finished.
unfoldable pub add_child :
    Child → SchedulerV2 → SequenceGroup → Result (SchedulerV2 × SequenceGroup)
add_child c sch g = if is_parent c then ok (sch, g) else do
  g' ← add g c.seq
  sch' ← if is_finished c.seq.status then ok sch else fork_seq sch c.parent c.seq
  ok (sch', g')

unfoldable pub add_children :
    List Child → SchedulerV2 → SequenceGroup → Result (SchedulerV2 × SequenceGroup)
add_children [] sch g = ok (sch, g)
add_children (c ∷ children) sch g = do (sch', g') ← add_child c sch g; add_children children sch' g'

-- The finished parents are freed.
unfoldable pub free_parents : List Child → SchedulerV2 → Result SchedulerV2
free_parents [] sch = ok sch
free_parents (c ∷ children) sch = do
  sch' ←
      if is_parent c
      then (if is_finished c.seq.status then free_seq sch c.seq else ok sch)
      else ok sch
  free_parents children sch'

-- The whole method at the time `now`, with the blocks to swap out and the next sequence id.
unfoldable pub process_samples :
    EngineConfig
    → (Sequence → List StopString)
    → SchedulerV2
    → ℕ
    → ℕ
    → List Sample
    → Dict ℕ
    → ℕ
    → Result (SchedulerV2 × Dict ℕ × ℕ)
process_samples config texts sch request_id now samples blocks_to_swap_out seq_counter = do
  g ← group_of sch request_id
  let parent_seqs = get_seqs_in SequenceStatus.running g
  guard
      (all_of (λ sample. any_of (λ parent. sample.parent_seq_id == parent.seq_id) parent_seqs)
        samples)
      key_error
  o ←
      process_parents parent_seqs samples
        (record { sch = sch; seq_group = g; seq_counter = seq_counter; child_seqs = [] })
  children ← check_children config g.sampling_params texts o.child_seqs
  (sch', g') ← add_children children o.sch (put_parents children o.seq_group)
  sch'' ← free_parents children sch'
  let stored = with_group sch'' request_id g'
  if any_of (λ c. is_paused c.seq.status) children
      then (do
        (paused, swaps) ← pause_seq_group stored request_id now blocks_to_swap_out none
        ok (paused, swaps, o.seq_counter))
      else ok (stored, blocks_to_swap_out, o.seq_counter)
