-- ===== src/Tests/Configs.antt =====
-- The theorems on the configuration (vllm/config.py) at concrete inputs.
use mars_codebase.Scheduler.State.{ApiPolicy}
use mars_codebase.Config.{SchedulerConfig, new_config}
use mars_codebase.Prelude.{err, none, ok, true, value_error, ℕ, ◌≡◌, ◌⊎◌}
use mars_codebase.Config.Laws.{IsAccepted, IsChosen, new_config-cases}

abbrev config : SchedulerConfig
config = record {
  max_num_batched_tokens = 0;
  max_num_seqs = 256;
  max_model_len = 1024;
  chunk_fill = true;
  chunk_size = 128;
  api_policy = ApiPolicy.policy_g;
  heuristic_coef = 0;
  starvation_avoidance = true;
  starvation_threshold = 100;
  starvation_quantum = 10;
}

new_config-cases_example :
    (n : ℕ) × IsChosen none 1024 n
    × ((IsAccepted (record config { max_num_batched_tokens = n })
          × (new_config none config ≡ ok (record config { max_num_batched_tokens = n })))
        ⊎ ((¬ IsAccepted (record config { max_num_batched_tokens = n }))
            × (new_config none config ≡ err value_error)))
new_config-cases_example = new_config-cases none config
