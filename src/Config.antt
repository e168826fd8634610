-- ===== src/Config.antt =====
-- vllm/config.py: SchedulerConfig, without the fields that the modelled code does not read.
pub mod Laws
use mars_codebase.Scheduler.State.{ApiPolicy, policy_h}
use mars_codebase.Prelude.{
  Bool, Option, Result, false, guard, ltb, max, none, not, ok, some, true, value_error, ℕ, ◌&&◌,
  ◌==◌, ◌>>=◌, ◌>>◌,
}

-- The times are in milliseconds, as in the scheduler.
pub record SchedulerConfig : Type 0 where
  pub max_num_batched_tokens : ℕ
  pub max_num_seqs : ℕ
  pub max_model_len : ℕ
  pub chunk_fill : Bool
  pub chunk_size : ℕ
  pub api_policy : ApiPolicy
  pub heuristic_coef : ℕ
  pub starvation_avoidance : Bool
  pub starvation_threshold : ℕ
  pub starvation_quantum : ℕ

-- api_policy == 'H'
abbrev pub is_policy_h : ApiPolicy → Bool
is_policy_h policy_h = true
is_policy_h _ = false

-- SchedulerConfig._verify_args
unfoldable pub verify_args : SchedulerConfig → Result (Unit {0})
verify_args c = do
  guard (not (ltb c.max_num_batched_tokens c.max_model_len)) value_error
  guard (not (ltb c.max_num_batched_tokens c.max_num_seqs)) value_error
  guard (not (not (c.heuristic_coef == 0) && not (is_policy_h c.api_policy))) value_error
  guard (not (is_policy_h c.api_policy && c.heuristic_coef == 0)) value_error

-- The choice of `max_num_batched_tokens` in the constructor.
abbrev pub with_tokens : Option ℕ → SchedulerConfig → SchedulerConfig
with_tokens none config = record config { max_num_batched_tokens = max config.max_model_len 2048 }
with_tokens (some n) config = record config { max_num_batched_tokens = n }

-- SchedulerConfig.__init__; `config` holds the arguments but the first.
unfoldable pub new_config : Option ℕ → SchedulerConfig → Result SchedulerConfig
new_config max_num_batched_tokens config = do
  verify_args (with_tokens max_num_batched_tokens config)
  ok (with_tokens max_num_batched_tokens config)
