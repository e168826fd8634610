-- ===== src/Sequence/Status.antt =====
-- vllm/sequence.py: SequenceStatus.
use Prim.Native.String.{String}
use mars_codebase.Prelude.{Bool, Option, false, none, some, true}

pub data SequenceStatus : Type 0 where
  waiting running swapped finished_stopped paused_api resumed_api resuming : SequenceStatus
  finished_length_capped finished_aborted finished_ignored : SequenceStatus

-- SequenceStatus.is_finished
abbrev pub is_finished : SequenceStatus → Bool
is_finished finished_stopped = true
is_finished finished_length_capped = true
is_finished finished_aborted = true
is_finished finished_ignored = true
is_finished _ = false

-- SequenceStatus.is_paused
abbrev pub is_paused : SequenceStatus → Bool
is_paused paused_api = true
is_paused _ = false

-- SequenceStatus.get_finished_reason
abbrev pub get_finished_reason : SequenceStatus → Option String
get_finished_reason finished_stopped = some "stop"
get_finished_reason finished_length_capped = some "length"
get_finished_reason finished_aborted = some "abort"
get_finished_reason finished_ignored = some "length"
get_finished_reason _ = none

-- status == other
abbrev pub is_status : SequenceStatus → SequenceStatus → Bool
is_status waiting waiting = true
is_status running running = true
is_status swapped swapped = true
is_status finished_stopped finished_stopped = true
is_status paused_api paused_api = true
is_status resumed_api resumed_api = true
is_status resuming resuming = true
is_status finished_length_capped finished_length_capped = true
is_status finished_aborted finished_aborted = true
is_status finished_ignored finished_ignored = true
is_status _ _ = false
