-- ===== src/Config/Laws.antt =====
-- The configurations of the scheduler that are accepted (vllm/config.py).
use mars_codebase.Prelude.{
  none, some, ap, ◌∙◌, ◌>>◌, false, ok, ◌↔◌, ◌≡◌, ◌≤◌, Bool-cases, arith, err, inl, inr, ltb,
  ltb→lt, refl, value_error, ◌==◌, ◌⊎◌, ==_iff, Option, ℕ,
}
use mars_codebase.Config.{SchedulerConfig, is_policy_h, verify_args, new_config, with_tokens}

-- A batch holds a whole request and a token of each sequence, and the coefficient is set for the
-- policy 'H' and for no other.
pub record IsAccepted (c : SchedulerConfig) : Type 0 where
  pub whole : c.max_model_len ≤ c.max_num_batched_tokens
  pub each : c.max_num_seqs ≤ c.max_num_batched_tokens
  pub coef : (c.heuristic_coef ≡ 0) ↔ (is_policy_h c.api_policy ≡ false)

not_few : (a b : ℕ) → ltb a b ≡ false → b ≤ a
not_few a b h = ground (arith, h)

verify_args-cases :
    (c : SchedulerConfig)
    → (IsAccepted c × (verify_args c ≡ ok tt))
      ⊎ ((¬ IsAccepted c) × (verify_args c ≡ err value_error))
unfolding verify_args
verify_args-cases c = elim (Bool-cases (ltb c.max_num_batched_tokens c.max_model_len)) [
  | inl few ↦ inr ((λ a. absurd (omega (arith, ltb→lt _ _ few, a.whole))), rw few refl)
  | inr room ↦ elim (Bool-cases (ltb c.max_num_batched_tokens c.max_num_seqs)) [
    | inl few ↦ inr ((λ a. absurd (omega (arith, ltb→lt _ _ few, a.each))), rw (room, few) refl)
    | inr room' ↦ elim (Bool-cases (c.heuristic_coef == 0)) [
      | inl z ↦ elim (Bool-cases (is_policy_h c.api_policy)) [
        | inl p ↦ inr (
          (λ a. (let f = a.coef.0 ((==_iff c.heuristic_coef 0).0 z) in cc)),
          rw (room, room', z, p) refl,
        )
        | inr p ↦ inl (
          record {
            whole = not_few _ _ room;
            each = not_few _ _ room';
            coef = ((λ _. p), (λ _. (==_iff c.heuristic_coef 0).0 z));
          },
          rw (room, room', z, p) refl,
        )
      ]
      | inr z ↦ elim (Bool-cases (is_policy_h c.api_policy)) [
        | inl p ↦ inl (
          record {
            whole = not_few _ _ room;
            each = not_few _ _ room';
            coef =
                ((λ e. absurd (let f = (==_iff c.heuristic_coef 0).1 e in cc)), (λ e. absurd cc));
          },
          rw (room, room', z, p) refl,
        )
        | inr p ↦ inr (
          (λ a. (let f = (==_iff c.heuristic_coef 0).1 (a.coef.1 p) in cc)),
          rw (room, room', z, p) refl,
        )
      ]
    ]
  ]
]

-- The number of tokens in a batch: the one given, or else the least number that is not below 2048
-- or the length of a request.
pub record IsChosen (tokens : Option ℕ) (max_model_len n : ℕ) : Type 0 where
  pub given : (k : ℕ) → tokens ≡ some k → n ≡ k
  pub whole : tokens ≡ none → max_model_len ≤ n
  pub many : tokens ≡ none → 2048 ≤ n
  pub least : tokens ≡ none → (k : ℕ) → max_model_len ≤ k → 2048 ≤ k → n ≤ k

chosen_lem :
    (tokens : Option ℕ) (config : SchedulerConfig)
    → IsChosen tokens config.max_model_len (with_tokens tokens config).max_num_batched_tokens
chosen_lem none config = record {
  given = λ k e. absurd (cc e);
  whole = λ _. ground arith;
  many = λ _. ground arith;
  least = λ _ k h h'. ground (arith, h, h');
}
chosen_lem (some n) config = record {
  given = λ k e. cc e;
  whole = λ e. absurd (cc e);
  many = λ e. absurd (cc e);
  least = λ e. absurd (cc e);
}

tokens_lem :
    (tokens : Option ℕ) (config : SchedulerConfig)
    → with_tokens tokens config ≡ record config {
      max_num_batched_tokens = (with_tokens tokens config).max_num_batched_tokens;
    }
tokens_lem none config = refl
tokens_lem (some n) config = refl

-- The constructor of a configuration takes the number of tokens in a batch that is given, or else the
-- greater of 2048 and the length of a request. It returns the arguments with that number exactly
-- where a batch holds a whole request and a token of each sequence, and the coefficient is set for
-- the policy 'H' and for no other; else it raises a ValueError.
pub new_config-cases :
    (tokens : Option ℕ) (config : SchedulerConfig)
    → (n : ℕ) × IsChosen tokens config.max_model_len n
      × ((IsAccepted (record config { max_num_batched_tokens = n })
            × (new_config tokens config ≡ ok (record config { max_num_batched_tokens = n })))
          ⊎ ((¬ IsAccepted (record config { max_num_batched_tokens = n }))
              × (new_config tokens config ≡ err value_error)))
unfolding new_config
new_config-cases tokens config =
    let n = (with_tokens tokens config).max_num_batched_tokens in
    let same = tokens_lem tokens config in
    (
      n,
      chosen_lem tokens config,
      elim (verify_args-cases (record config { max_num_batched_tokens = n })) [
        | inl (a, e) ↦ inl (a, ap (λ c. verify_args c >> ok c) same ∙ rw e refl)
        | inr (a, e) ↦ inr (a, ap (λ c. verify_args c >> ok c) same ∙ rw e refl)
      ],
    )
