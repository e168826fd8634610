-- ===== src/Scheduler/Preemptions.antt =====
-- What a preemption leaves (vllm/core/scheduler_v2.py).
use mars_codebase.Prelude.Dict
use mars_codebase.Sequence.Group.{SequenceGroup, get_seqs, values}
use mars_codebase.Prelude.{
  ==_refl, length, ◌+◌, arith, [], ok, refl, some, true, ℕ, ◌++◌, ◌∷◌, ◌≡◌, ap, map,
}
use mars_codebase.Sequence.Data.{clear_workload}
use mars_codebase.Scheduler.Preempting.{preempt_by_recompute}
use mars_codebase.Sequence.Status.{SequenceStatus}
use mars_codebase.BlockManager.Valid.{IsValid}
use mars_codebase.Scheduler.Pausing.{all_inflight}
use mars_codebase.Prelude.Dict.{Dict}
use mars_codebase.Scheduler.State.{SchedulerV2, map_seqs, map_values}
use mars_codebase.Scheduler.Pauses.{free_seqs-ok}
use mars_codebase.Sequence.Member.{Sequence}

pub values-map_values :
    (f : Sequence → Sequence) (d : Dict Sequence) → values (map_values f d) ≡ map f (values d)
values-map_values f [] = refl
values-map_values f ((k, s) ∷ d) = ap (◌∷◌ (f s)) (values-map_values f d)

-- A preempted sequence waits with the tokens of before, none of them discarded or swapped, all of
-- them in flight, and nothing planned for the iteration.
pub record Restarted (seq seq' : Sequence) : Type 0 where
  pub same_id : seq'.seq_id ≡ seq.seq_id
  pub waits : seq'.status ≡ SequenceStatus.waiting
  pub prompt : seq'.content.prompt_token_ids ≡ seq.content.prompt_token_ids
  pub output : seq'.content.output_token_ids ≡ seq.content.output_token_ids
  pub all_inflight :
      seq'.content.inflight_length
      ≡ length seq.content.prompt_token_ids + length seq.content.output_token_ids
  pub none_discarded : seq'.content.discard_length ≡ 0
  pub none_swapped : seq'.content.swap_length ≡ 0
  pub no_recomputation : seq'.content.resume_discard_tokens ≡ 0
  pub no_swap : seq'.content.resume_swap_blocks ≡ 0
  pub no_work : seq'.content.running_inflight_tokens ≡ 0

-- A group with one sequence, in a scheduler whose manager is valid: preempt_by_recompute returns, the
-- manager is valid and has the tables of before but that of the sequence, and the group is at the
-- end of the waiting queue, marked as discarded. Its sequence waits with the tokens of before, none
-- of them discarded or swapped, all of them in flight, and nothing planned.
pub preempt_by_recompute-ok :
    (sch : SchedulerV2) (request_id : ℕ) (g : SequenceGroup) (seq : Sequence)
    → IsValid sch.block_manager
    → Dict.get sch.groups request_id ≡ some g
    → get_seqs g ≡ seq ∷ []
    → (sch' : SchedulerV2) × (g' : SequenceGroup) × (seq' : Sequence) × (preempt_by_recompute sch
          request_id
        ≡ ok sch')
      × IsValid sch'.block_manager
      × (sch'.block_manager.block_tables ≡ Dict.delete sch.block_manager.block_tables seq.seq_id)
      × (sch'.waiting ≡ sch.waiting ++ request_id ∷ [])
      × (Dict.get sch'.groups request_id ≡ some g')
      × (g'.discarded ≡ true)
      × (get_seqs g' ≡ seq' ∷ [])
      × Restarted seq seq'
unfolding preempt_by_recompute clear_workload
preempt_by_recompute-ok sch request_id g seq v e only =
    let (m, done, v', same) = free_seqs-ok (seq ∷ []) sch.block_manager v in
    let change : Sequence → Sequence =
      λ s. record s { status = SequenceStatus.waiting; content = all_inflight s.content } in
    let g' : SequenceGroup = record (map_seqs change g) { discarded = true } in
    (
      record sch {
        block_manager = m;
        groups = Dict.put sch.groups request_id g';
        waiting = sch.waiting ++ request_id ∷ [];
      },
      g',
      change seq,
      rw (e, only, done) refl,
      v',
      same,
      refl,
      rw (Dict.get-put sch.groups request_id request_id g', ==_refl request_id) refl,
      refl,
      rw (values-map_values change g.seqs_dict, only) refl,
      record {
        same_id = refl;
        waits = refl;
        prompt = refl;
        output = refl;
        all_inflight = omega arith;
        none_discarded = refl;
        none_swapped = refl;
        no_recomputation = refl;
        no_swap = refl;
        no_work = refl;
      },
    )
