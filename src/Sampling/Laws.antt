-- ===== src/Sampling/Laws.antt =====
-- Which parameters SamplingParams accepts (vllm/sampling_params.py).
use mars_codebase.Sampling.{
  SamplingArgs, SamplingType, almost_one, is_negative, is_penalty, ltb_ℤ, over_one, refuse,
  sampling_eps, sampling_type, stop_late, stop_other, unit_float, verify_sampling, EarlyStopping,
  is_set, is_unknown, stop_early, stop_never, verify_all, verify_beam_search,
  verify_greedy_sampling, verify_non_beam_search,
}
use mars_codebase.Prelude.{
  inl, inr, Bool, Ends, Ends-bind, Ends-weaken, arith, false, inl, inr, not, raises, refl, returns,
  suc, true, value_error, zero, ◌||◌, ◌≡◌, ◌≢◌, ◌⊎◌, ap, Ends-ok, Ends-test,
}
use mars_codebase.Prelude.Int.{eq_ℤ, leb_ℤ, negsuc, pos, ℤ}
use mars_codebase.Scheduler.Loads.{same}

-- What holds of all accepted parameters.
pub record IsInRange (p : SamplingArgs) : Type 0 where
  pub n : leb_ℤ (pos 1) p.n ≡ true
  pub best_of : leb_ℤ p.n p.best_of ≡ true
  pub presence_penalty : is_penalty p.presence_penalty ≡ true
  pub frequency_penalty : is_penalty p.frequency_penalty ≡ true
  pub temperature : leb_ℤ (pos 0) p.temperature ≡ true
  pub positive : leb_ℤ p.top_p (pos 0) ≡ false
  pub top_p : leb_ℤ p.top_p unit_float ≡ true
  pub top_k : (p.top_k ≡ negsuc 0) ⊎ (leb_ℤ (pos 1) p.top_k ≡ true)
  pub max_tokens : leb_ℤ (pos 1) p.max_tokens ≡ true
  pub logprobs : is_negative p.logprobs ≡ false

-- Every token is a candidate.
pub record TakesAll (p : SamplingArgs) : Type 0 where
  pub top_p : leb_ℤ almost_one p.top_p ≡ true
  pub top_k : p.top_k ≡ negsuc 0

-- The parameters of a beam search are not set.
pub record IsPlain (p : SamplingArgs) : Type 0 where
  pub early_stopping : p.early_stopping ≡ stop_late
  pub least : leb_ℤ almost_one p.length_penalty ≡ true
  pub most : leb_ℤ p.length_penalty over_one ≡ true

-- The accepted parameters, by the type of sampling: greedy sampling of one sequence, random sampling,
-- and a beam search of at least two sequences.
pub data IsAccepted (p : SamplingArgs) : Type 0 where
  is_greedy :
      sampling_type p ≡ SamplingType.greedy
      → p.n ≡ pos 1
      → p.best_of ≡ pos 1
      → TakesAll p
      → IsPlain p
      → IsAccepted p
  is_random : sampling_type p ≡ SamplingType.random → IsPlain p → IsAccepted p
  is_beam :
      sampling_type p ≡ SamplingType.beam
      → leb_ℤ (pos 2) p.best_of ≡ true
      → leb_ℤ p.temperature sampling_eps ≡ true
      → TakesAll p
      → p.early_stopping ≢ stop_other
      → IsAccepted p

refuse-Ends : (b : Bool) → Ends (λ _. b ≡ false) (refuse b)
refuse-Ends true = raises value_error refl tt
refuse-Ends false = returns tt refl refl

not-true : (b : Bool) → not b ≡ false → b ≡ true
not-true b h = ground (arith, h)

top_k_lem :
    (k : ℤ)
    → (ltb_ℤ k (negsuc 0) || eq_ℤ k (pos 0)) ≡ false
    → (k ≡ negsuc 0) ⊎ (leb_ℤ (pos 1) k ≡ true)
top_k_lem (pos k) h = inr (ground (arith, h))
top_k_lem (negsuc zero) h = inl refl
top_k_lem (negsuc (suc k)) h = absurd (ground (arith, h))

verify_sampling-Ends : (p : SamplingArgs) → Ends (λ _. IsInRange p) (verify_sampling p)
unfolding verify_sampling
verify_sampling-Ends p = Ends-bind (refuse-Ends _) (λ _ h1. Ends-bind (refuse-Ends _) (λ _ h2.
    Ends-bind (refuse-Ends _) (λ _ h3. Ends-bind (refuse-Ends _) (λ _ h4.
      Ends-bind (refuse-Ends _) (λ _ h5. Ends-bind (refuse-Ends _) (λ _ h6.
        Ends-bind (refuse-Ends _) (λ _ h7. Ends-bind (refuse-Ends _) (λ _ h8.
          Ends-weaken (refuse-Ends _) (λ _ h9. record {
            n = not-true _ h1;
            best_of = not-true _ h2;
            presence_penalty = not-true _ h3;
            frequency_penalty = not-true _ h4;
            temperature = not-true _ h5;
            positive = ground (arith, h6);
            top_p = ground (arith, h6);
            top_k = top_k_lem p.top_k h7;
            max_tokens = not-true _ h8;
            logprobs = h9;
          })))))))))

eq_ℤ_eq : (x y : ℤ) → eq_ℤ x y ≡ true → x ≡ y
eq_ℤ_eq (pos m) (pos n) h = let e : m ≡ n = ground (arith, h) in ap pos e
eq_ℤ_eq (negsuc m) (negsuc n) h = let e : m ≡ n = ground (arith, h) in ap negsuc e
eq_ℤ_eq (pos m) (negsuc n) h = absurd (cc h)
eq_ℤ_eq (negsuc m) (pos n) h = absurd (cc h)

-- Between 1 and `best_of`, which is 1.
one_sequence :
    (n best_of : ℤ)
    → leb_ℤ (pos 1) n ≡ true
    → leb_ℤ n best_of ≡ true
    → leb_ℤ best_of (pos 1) ≡ true
    → (n ≡ pos 1) × (best_of ≡ pos 1)
one_sequence (pos n) (pos b) h h' h'' =
    let e : n ≡ 1 = ground (arith, h, h', h'') in
    let e' : b ≡ 1 = ground (arith, h, h', h'') in (ap pos e, ap pos e')
one_sequence (pos n) (negsuc b) h h' h'' = absurd (cc h')
one_sequence (negsuc n) b h h' h'' = absurd (cc h)

-- At least 1, and not 1.
two_sequences :
    (n best_of : ℤ)
    → leb_ℤ (pos 1) n ≡ true
    → leb_ℤ n best_of ≡ true
    → eq_ℤ best_of (pos 1) ≡ false
    → leb_ℤ (pos 2) best_of ≡ true
two_sequences (pos n) (pos b) h h' h'' = ground (arith, h, h', h'')
two_sequences (pos n) (negsuc b) h h' h'' = absurd (cc h')
two_sequences (negsuc n) b h h' h'' = absurd (cc h)

known_stop : (e : EarlyStopping) → is_unknown e ≡ false → e ≢ stop_other
known_stop e h same = cc (h, ap is_unknown same)

late_stop : (e : EarlyStopping) → is_set e ≡ false → e ≡ stop_late
late_stop stop_late h = refl
late_stop stop_early h = absurd (cc h)
late_stop stop_never h = absurd (cc h)
late_stop stop_other h = absurd (cc h)

verify_beam_search-Ends :
    (p : SamplingArgs)
    → IsInRange p
    → p.use_beam_search ≡ true
    → Ends (λ _. IsAccepted p) (verify_beam_search p)
unfolding verify_beam_search sampling_type
verify_beam_search-Ends p r e = Ends-bind (refuse-Ends _) (λ _ h1.
    Ends-bind (refuse-Ends _) (λ _ h2. Ends-bind (refuse-Ends _) (λ _ h3.
      Ends-bind (refuse-Ends _) (λ _ h4. Ends-weaken (refuse-Ends _) (λ _ h5.
        is_beam (rw e refl) (two_sequences p.n p.best_of r.n r.best_of h1) (not-true _ h2)
          (record { top_p = not-true _ h3; top_k = eq_ℤ_eq p.top_k (negsuc 0) (not-true _ h4) })
          (known_stop p.early_stopping h5))))))

verify_non_beam_search-Ends : (p : SamplingArgs) → Ends (λ _. IsPlain p) (verify_non_beam_search p)
unfolding verify_non_beam_search
verify_non_beam_search-Ends p = Ends-bind (refuse-Ends _) (λ _ h1.
    Ends-weaken (refuse-Ends _) (λ _ h2. record {
      early_stopping = late_stop p.early_stopping h1;
      least = ground (arith, h2);
      most = ground (arith, h2);
    }))

verify_greedy_sampling-Ends :
    (p : SamplingArgs)
    → IsInRange p
    → IsPlain p
    → p.use_beam_search ≡ false
    → ltb_ℤ p.temperature sampling_eps ≡ true
    → Ends (λ _. IsAccepted p) (verify_greedy_sampling p)
unfolding verify_greedy_sampling sampling_type
verify_greedy_sampling-Ends p r plain e t = Ends-bind (refuse-Ends _) (λ _ h1.
    Ends-bind (refuse-Ends _) (λ _ h2. Ends-weaken (refuse-Ends _) (λ _ h3.
      let (n, best_of) = one_sequence p.n p.best_of r.n r.best_of (not-true _ h1) in
      is_greedy (rw (e, t) refl) n best_of
        (record { top_p = not-true _ h2; top_k = eq_ℤ_eq p.top_k (negsuc 0) (not-true _ h3) })
        plain)))

pub verify_all-Ends : (p : SamplingArgs) → Ends (λ _. IsInRange p × IsAccepted p) (verify_all p)
unfolding verify_all sampling_type
verify_all-Ends p = Ends-bind (verify_sampling-Ends p) (λ _ r.
    Ends-test p.use_beam_search (λ e. Ends-weaken (verify_beam_search-Ends p r e) (λ _ a. (r, a)))
      (λ e. Ends-bind (verify_non_beam_search-Ends p) (λ _ plain.
        Ends-test (ltb_ℤ p.temperature sampling_eps)
          (λ t. Ends-weaken (verify_greedy_sampling-Ends p r plain e t) (λ _ a. (r, a)))
          (λ t. Ends-ok (r, is_random (rw (e, t) refl) plain)))))
