-- ===== src/Sequence/Group.antt =====
-- vllm/sequence.py: SequenceGroup, with the parts of SamplingParams (vllm/sampling_params.py) that
-- the scheduler reads. Times are in milliseconds, wastes in units of 10⁻⁷ token-seconds; request
-- ids are decimal strings in the code, which the scheduler turns into numbers by int(). The score
-- `newest_sort_waste` is in units of 10⁻⁴ token-seconds. An `api_exec_time` of -1, which marks a time
-- that is not known, is left out.
use mars_codebase.Prelude.Dict.{Dict}
use mars_codebase.Prelude.Dict
use mars_codebase.Prelude.{
  Bool, List, Result, [], false, get_elem?, if◌then◌else◌, index_error, length, ltb, not, or_raise,
  true, value_error, ℕ, ◌&&◌, ◌>>◌, ◌||◌, ◌∷◌, guard, ok, Option,
}
use mars_codebase.Sequence.Status.{SequenceStatus, is_finished, is_paused, is_status}
use mars_codebase.Sequence.Member.{Sequence}
use mars_codebase.Prelude.Int.{ℤ}

pub data Strategy : Type 0 where
  preserve recompute swap : Strategy

pub record SamplingParams : Type 0 where
  pub best_of : ℕ
  pub use_beam_search : Bool
  pub api_call_time : Option ℕ
  pub api_return_length : ℕ
  pub api_invoke_interval : ℕ
  pub predicted_api_invoke_interval : ℕ
  pub api_exec_time : ℕ
  pub predicted_api_exec_time : ℕ
  pub api_max_calls : ℤ
  pub max_tokens : ℕ
  pub stop_token_ids : List ℤ
  pub ignore_eos : Bool
  pub remain_langth : ℕ
  pub strategy : Strategy
  pub waste : ℕ

pub record SequenceGroup : Type 0 where
  pub request_id : ℕ
  pub seqs_dict : Dict Sequence
  pub sampling_params : SamplingParams
  pub arrival_time : ℕ
  pub discarded : Bool
  pub time_before_processing : ℤ
  pub newest_sort_waste : ℤ

-- list(self.seqs_dict.values())
abbrev pub values {ℓ} : {V : Type ℓ} → Dict V → List V
values [] = []
values ((k, v) ∷ d) = v ∷ values d

-- [seq for seq in ... if test(seq)]
abbrev pub keep {ℓ} : {A : Type ℓ} → (A → Bool) → List A → List A
keep p [] = []
keep p (x ∷ xs) = if p x then x ∷ keep p xs else keep p xs

abbrev pub get_seqs : SequenceGroup → List Sequence
get_seqs g = values g.seqs_dict

-- get_seqs(status=...)
abbrev pub get_seqs_in : SequenceStatus → SequenceGroup → List Sequence
get_seqs_in status g = keep (λ s. is_status s.status status) (get_seqs g)

abbrev pub get_unfinished_seqs : SequenceGroup → List Sequence
get_unfinished_seqs g = keep (λ s. not (is_finished s.status)) (get_seqs g)

abbrev pub get_finished_seqs : SequenceGroup → List Sequence
get_finished_seqs g = keep (λ s. is_finished s.status) (get_seqs g)

abbrev pub num_seqs : SequenceGroup → ℕ
num_seqs g = length (get_seqs g)

abbrev pub num_unfinished_seqs : SequenceGroup → ℕ
num_unfinished_seqs g = length (get_unfinished_seqs g)

abbrev pub num_finished_seqs : SequenceGroup → ℕ
num_finished_seqs g = length (get_finished_seqs g)

unfoldable pub get_max_num_running_seqs : SequenceGroup → ℕ
get_max_num_running_seqs g =
    if g.sampling_params.use_beam_search
    then g.sampling_params.best_of
    else if ltb (num_seqs g) g.sampling_params.best_of
    then g.sampling_params.best_of
    else num_unfinished_seqs g

-- SequenceGroup.find
unfoldable pub find : SequenceGroup → ℕ → Result Sequence
find g seq_id = or_raise (Dict.get g.seqs_dict seq_id) value_error

-- SequenceGroup.add
unfoldable pub add : SequenceGroup → Sequence → Result SequenceGroup
add g s = do
  guard (not (Dict.contains g.seqs_dict s.seq_id)) value_error
  ok (record g { seqs_dict = Dict.put g.seqs_dict s.seq_id s })

-- SequenceGroup.remove
unfoldable pub remove : SequenceGroup → ℕ → Result SequenceGroup
remove g seq_id = do
  guard (Dict.contains g.seqs_dict seq_id) value_error
  ok (record g { seqs_dict = Dict.delete g.seqs_dict seq_id })

-- all(...) and any(...)
abbrev pub all_of {ℓ} : {A : Type ℓ} → (A → Bool) → List A → Bool
all_of p [] = true
all_of p (x ∷ xs) = p x && all_of p xs

abbrev pub any_of {ℓ} : {A : Type ℓ} → (A → Bool) → List A → Bool
any_of p [] = false
any_of p (x ∷ xs) = p x || any_of p xs

-- SequenceGroup.is_finished
abbrev pub group_finished : SequenceGroup → Bool
group_finished g = all_of (λ s. is_finished s.status) (get_seqs g)

-- SequenceGroup.is_paused
abbrev pub group_paused : SequenceGroup → Bool
group_paused g = any_of (λ s. is_paused s.status) (get_seqs g)

-- get_seqs()[0]
abbrev pub first_seq : SequenceGroup → Result Sequence
first_seq g = or_raise (get_elem? (get_seqs g) 0) index_error
