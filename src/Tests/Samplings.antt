-- ===== src/Tests/Samplings.antt =====
-- The theorem on the sampling parameters (vllm/sampling_params.py) at a concrete input.
use mars_codebase.Sampling.{
  EarlyStopping, SamplingArgs, new_params, unit_float, verify_all, verify_non_beam_search,
  verify_sampling,
}
use mars_codebase.Prelude.{false, none, ok, refl, ◌≡◌}
use mars_codebase.Prelude.Int.{negsuc, pos}

-- The default parameters.
abbrev default : SamplingArgs
default = record {
  n = pos 1;
  best_of = pos 1;
  presence_penalty = pos 0;
  frequency_penalty = pos 0;
  temperature = unit_float;
  top_p = unit_float;
  top_k = negsuc 0;
  use_beam_search = false;
  length_penalty = unit_float;
  early_stopping = EarlyStopping.stop_late;
  max_tokens = pos 16;
  logprobs = none;
}

test_default : new_params default none ≡ ok default
unfolding new_params verify_all verify_sampling verify_non_beam_search
test_default = refl
