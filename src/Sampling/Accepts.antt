-- ===== src/Sampling/Accepts.antt =====
-- SamplingParams accepts exactly the parameters in range (vllm/sampling_params.py).
use mars_codebase.Sampling.Laws.{is_random, is_random}
