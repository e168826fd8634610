-- ===== src/Sampling.antt =====
-- vllm/sampling_params.py: the parameters that SamplingParams verifies. A float is a multiple of
-- 10⁻⁹. What the scheduler reads of the parameters is in `Sequence.Group`.
pub mod Laws
pub mod Accepts
use mars_codebase.Prelude.{
  Bool, Option, Result, false, guard, if◌then◌else◌, none, not, ok, some, true, value_error, ◌&&◌,
  ◌>>=◌, ◌>>◌, ◌||◌,
}
use mars_codebase.Prelude.Int.{eq_ℤ, leb_ℤ, negate, negsuc, pos, ℤ}

-- `early_stopping`: True, False, "never" and any other value.
pub data EarlyStopping : Type 0 where
  stop_early stop_late stop_never stop_other : EarlyStopping

pub data SamplingType : Type 0 where
  greedy random beam : SamplingType

pub record SamplingArgs : Type 0 where
  pub n : ℤ
  pub best_of : ℤ
  pub presence_penalty : ℤ
  pub frequency_penalty : ℤ
  pub temperature : ℤ
  pub top_p : ℤ
  pub top_k : ℤ
  pub use_beam_search : Bool
  pub length_penalty : ℤ
  pub early_stopping : EarlyStopping
  pub max_tokens : ℤ
  pub logprobs : Option ℤ

-- 1.0, and _SAMPLING_EPS
abbrev pub unit_float : ℤ
unit_float = pos 1000000000

abbrev pub sampling_eps : ℤ
sampling_eps = pos 10000

-- 1.0 - _SAMPLING_EPS and 1.0 + _SAMPLING_EPS
abbrev pub almost_one : ℤ
almost_one = pos 999990000

abbrev pub over_one : ℤ
over_one = pos 1000010000

-- x < y
abbrev pub ltb_ℤ : ℤ → ℤ → Bool
ltb_ℤ x y = not (leb_ℤ y x)

-- -2.0 <= x <= 2.0
abbrev pub is_penalty : ℤ → Bool
is_penalty x = leb_ℤ (negate 2000000000) x && leb_ℤ x (pos 2000000000)

-- `logprobs is not None and logprobs < 0`
abbrev pub is_negative : Option ℤ → Bool
is_negative none = false
is_negative (some k) = ltb_ℤ k (pos 0)

-- `if ...: raise ValueError`
abbrev pub refuse : Bool → Result (Unit {0})
refuse b = guard (not b) value_error

-- SamplingParams._verify_args
unfoldable pub verify_sampling : SamplingArgs → Result (Unit {0})
verify_sampling p = do
  refuse (ltb_ℤ p.n (pos 1))
  refuse (ltb_ℤ p.best_of p.n)
  refuse (not (is_penalty p.presence_penalty))
  refuse (not (is_penalty p.frequency_penalty))
  refuse (ltb_ℤ p.temperature (pos 0))
  refuse (not (ltb_ℤ (pos 0) p.top_p && leb_ℤ p.top_p unit_float))
  refuse (ltb_ℤ p.top_k (negsuc 0) || eq_ℤ p.top_k (pos 0))
  refuse (ltb_ℤ p.max_tokens (pos 1))
  refuse (is_negative p.logprobs)

-- `early_stopping not in [True, False, "never"]`, and `early_stopping is not False`
abbrev pub is_unknown : EarlyStopping → Bool
is_unknown stop_other = true
is_unknown _ = false

abbrev pub is_set : EarlyStopping → Bool
is_set stop_late = false
is_set _ = true

-- SamplingParams._verify_beam_search
unfoldable pub verify_beam_search : SamplingArgs → Result (Unit {0})
verify_beam_search p = do
  refuse (eq_ℤ p.best_of (pos 1))
  refuse (ltb_ℤ sampling_eps p.temperature)
  refuse (ltb_ℤ p.top_p almost_one)
  refuse (not (eq_ℤ p.top_k (negsuc 0)))
  refuse (is_unknown p.early_stopping)

-- SamplingParams._verify_non_beam_search
unfoldable pub verify_non_beam_search : SamplingArgs → Result (Unit {0})
verify_non_beam_search p = do
  refuse (is_set p.early_stopping)
  refuse (ltb_ℤ p.length_penalty almost_one || ltb_ℤ over_one p.length_penalty)

-- SamplingParams._verify_greedy_sampling
unfoldable pub verify_greedy_sampling : SamplingArgs → Result (Unit {0})
verify_greedy_sampling p = do
  refuse (ltb_ℤ (pos 1) p.best_of)
  refuse (ltb_ℤ p.top_p almost_one)
  refuse (not (eq_ℤ p.top_k (negsuc 0)))

-- The calls at the end of SamplingParams.__init__.
unfoldable pub verify_all : SamplingArgs → Result (Unit {0})
verify_all p = do
  verify_sampling p
  if p.use_beam_search then verify_beam_search p else (do
    verify_non_beam_search p
    if ltb_ℤ p.temperature sampling_eps then verify_greedy_sampling p else ok tt)

-- `self.best_of = best_of if best_of is not None else n`
abbrev pub with_best_of : SamplingArgs → Option ℤ → SamplingArgs
with_best_of p none = record p { best_of = p.n }
with_best_of p (some k) = record p { best_of = k }

-- SamplingParams.__init__; the field `best_of` that is given is not read.
unfoldable pub new_params : SamplingArgs → Option ℤ → Result SamplingArgs
new_params p best_of = do verify_all (with_best_of p best_of); ok (with_best_of p best_of)

-- SamplingParams.sampling_type
unfoldable pub sampling_type : SamplingArgs → SamplingType
sampling_type p =
    if p.use_beam_search
    then SamplingType.beam
    else if ltb_ℤ p.temperature sampling_eps
    then SamplingType.greedy
    else SamplingType.random
