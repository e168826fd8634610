-- ===== src/Engine/Returns.antt =====
-- What an API's return does to a sequence (vllm/engine/llm_engine.py).
use mars_codebase.Sequence.Data
use mars_codebase.Prelude.{
  subst, inl, inr, ==_refl, List, [], ap, arith, length, length-append, last?-append, length-take,
  min, ok, refl, sym, take, true, ℕ, ◌++◌, ◌+◌, ◌-◌, ◌<◌, ◌∙◌, ◌∷◌, ◌≡◌, ◌≤◌, Bool-cases, leb,
}
use mars_codebase.Sequence.Data.{append_token, get_last_token_id, get_len, get_output_len}
use mars_codebase.Prelude.Int.{difference, eq_ℤ, min_ℤ, negsuc, pos, slice_to, ℤ}
use mars_codebase.Sequence.Blocks.{IsPacked, append_tokens_to_blocks-ok, contents}
use mars_codebase.Engine.{EngineConfig, append_return, return_tokens, with_status}
use mars_codebase.Sequence.Status.{SequenceStatus, is_paused}
use mars_codebase.Sequence.Member.{Sequence, append_token_id, mem_ℤ}
use mathlib.Core.List.{append-nil, append_assoc}
use mars_codebase.Scheduler.Loads.{same}

-- A sequence whose logical blocks hold its tokens.
pub record HoldsTokens (s : Sequence) : Type 0 where
  pub positive : 0 < s.block_size
  pub packed : IsPacked s.block_size s.logical_token_blocks
  pub held : contents s.logical_token_blocks ≡ Data.get_token_ids s.content

-- A sequence after some tokens were appended to it.
pub record Appended (s : Sequence) (tokens : List ℤ) (s' : Sequence) : Type 0 where
  pub holds : HoldsTokens s'
  pub token_ids : Data.get_token_ids s'.content ≡ Data.get_token_ids s.content ++ tokens
  pub len : get_len s'.content ≡ get_len s.content + length tokens
  pub output_len : get_output_len s'.content ≡ get_output_len s.content + length tokens
  pub same_id : s'.seq_id ≡ s.seq_id
  pub inflight : s'.content.inflight_length ≡ s.content.inflight_length + length tokens

eq_ℤ_refl : (x : ℤ) → eq_ℤ x x ≡ true
eq_ℤ_refl (pos n) = ==_refl n
eq_ℤ_refl (negsuc n) = ==_refl n

pub append_token_id-ok :
    (s : Sequence) (t : ℤ) (logprobs : List ℤ)
    → mem_ℤ t logprobs ≡ true
    → HoldsTokens s
    → (s' : Sequence) × (append_token_id s t logprobs ≡ ok s')
      × Appended s (t ∷ []) s'
      × (get_last_token_id s'.content ≡ ok t)
unfolding append_token_id append_token get_last_token_id
append_token_id-ok s t logprobs logged h =
    let (blocks, done, packed, same) =
      append_tokens_to_blocks-ok s.block_size s.logical_token_blocks (t ∷ []) h.positive h.packed in
    let d = s.content in
    let tokens = sym (append_assoc d.prompt_token_ids d.output_token_ids (t ∷ [])) in
    (
      record s { logical_token_blocks = blocks; content = append_token d t },
      rw (logged, done) refl,
      record {
        holds = record {
          positive = h.positive;
          packed = packed;
          held = same ∙ ap (λ l. l ++ t ∷ []) h.held ∙ sym tokens;
        };
        token_ids = tokens;
        len = omega (arith, length-append d.output_token_ids (t ∷ []));
        output_len = omega (arith, length-append d.output_token_ids (t ∷ []));
        same_id = refl;
        inflight = refl;
      },
      rw (get_last_token_id, last?-append d.output_token_ids t) refl,
    )

append_return-ok :
    (ret : List ℤ) (s : Sequence)
    → HoldsTokens s
    → (s' : Sequence) × (append_return s ret ≡ ok s') × Appended s ret s'
unfolding append_return
append_return-ok [] s h = (
  s,
  refl,
  record {
    holds = h;
    token_ids = sym (append-nil (Data.get_token_ids s.content));
    len = omega arith;
    output_len = omega arith;
    same_id = refl;
    inflight = omega arith;
  },
)
append_return-ok (t ∷ ret) s h =
    let (s1, done, a, _) = append_token_id-ok s t (t ∷ []) (rw (eq_ℤ_refl t) refl) h in
    let (s2, done', c) = append_return-ok ret s1 a.holds in
    (
      s2,
      rw (done, done') refl,
      record {
        holds = c.holds;
        token_ids =
            c.token_ids
            ∙ ap (λ l. l ++ ret) a.token_ids
            ∙ append_assoc (Data.get_token_ids s.content) (t ∷ []) ret;
        len = omega (arith, a.len, c.len);
        output_len = omega (arith, a.output_len, c.output_len);
        same_id = c.same_id ∙ a.same_id;
        inflight = omega (arith, a.inflight, c.inflight);
      },
    )

-- For a paused sequence whose blocks hold its tokens, whatever the room is: the returned tokens, cut
-- to the least of the three lengths, are appended, and the sequence is resumed.
return_tokens-appends :
    (config : EngineConfig) (room : ℤ) (s : Sequence) (ret : List ℤ)
    → is_paused s.status ≡ true
    → HoldsTokens s
    → (s' : Sequence) × (return_tokens config room s ret ≡ ok s')
      × Appended s
          (slice_to
            (min_ℤ
              (min_ℤ (pos (length ret)) (difference config.max_model_len (get_len s.content)))
              room)
            ret)
          s'
      × (s'.status ≡ SequenceStatus.resumed_api)
unfolding return_tokens
return_tokens-appends config room s ret paused h =
    let least =
      min_ℤ (min_ℤ (pos (length ret)) (difference config.max_model_len (get_len s.content))) room in
    let (s', done, a) = append_return-ok (slice_to least ret) s h in
    (
      with_status SequenceStatus.resumed_api s',
      rw (paused, done) refl,
      record {
        holds = record {
          positive = a.holds.positive;
          packed = a.holds.packed;
          held = a.holds.held;
        };
        token_ids = a.token_ids;
        len = a.len;
        output_len = a.output_len;
        same_id = a.same_id;
        inflight = a.inflight;
      },
      refl,
    )

difference-pos : (m n : ℕ) → n ≤ m → difference m n ≡ pos (m - n)
difference-pos m n h = let e : leb n m ≡ true = ground (arith, h) in rw e refl

min_ℤ-pos : (m n : ℕ) → min_ℤ (pos m) (pos n) ≡ pos (min m n)
min_ℤ-pos m n = elim (Bool-cases (leb n m)) [
  | inl e ↦ let least : n ≡ min m n = ground (arith, e) in rw e (ap pos least)
  | inr e ↦ let least : m ≡ min m n = ground (arith, e) in rw e (ap pos least)
]

least_lem :
    (k most used : ℕ) (room : ℤ)
    → used ≤ most
    → min_ℤ (min_ℤ (pos k) (difference most used)) room ≡ min_ℤ (pos (min k (most - used))) room
least_lem k most used room h =
    ap (λ x. min_ℤ x room)
      (ap (min_ℤ (pos k)) (difference-pos most used h) ∙ min_ℤ-pos k (most - used))

-- For a paused sequence whose blocks hold its tokens, not longer than `max_model_len`, and room for
-- some tokens: as many of the returned tokens as both allow are appended in order, to the tokens
-- and to the blocks, and are in flight; the sequence is resumed, not longer than `max_model_len`,
-- and its output has grown by no more than the room.
pub return_tokens-ok :
    (config : EngineConfig) (room : ℕ) (s : Sequence) (ret : List ℤ)
    → is_paused s.status ≡ true
    → HoldsTokens s
    → get_len s.content ≤ config.max_model_len
    → (s' : Sequence) × (return_tokens config (pos room) s ret ≡ ok s')
      × Appended s
          (take (min (min (length ret) (config.max_model_len - get_len s.content)) room) ret)
          s'
      × (s'.status ≡ SequenceStatus.resumed_api)
      × (get_len s'.content ≤ config.max_model_len)
      × (get_output_len s'.content ≤ get_output_len s.content + room)
return_tokens-ok config room s ret paused h le =
    let (s', done, a, resumed) = return_tokens-appends config (pos room) s ret paused h in
    let n = min (min (length ret) (config.max_model_len - get_len s.content)) room in
    let e =
      least_lem (length ret) config.max_model_len (get_len s.content) (pos room) le
      ∙ min_ℤ-pos (min (length ret) (config.max_model_len - get_len s.content)) room in
    let a' : Appended s (take n ret) s' = subst (λ (k : ℤ). Appended s (slice_to k ret) s') e a in
    (
      s',
      done,
      a',
      resumed,
      omega (arith, a'.len, length-take n ret, le),
      omega (arith, a'.output_len, length-take n ret),
    )

-- With a room of -1, all of the returned tokens but the last are appended.
pub return_tokens-over :
    (config : EngineConfig) (s : Sequence) (ret : List ℤ)
    → is_paused s.status ≡ true
    → HoldsTokens s
    → get_len s.content ≤ config.max_model_len
    → (s' : Sequence) × (return_tokens config (negsuc 0) s ret ≡ ok s')
      × Appended s (take (length ret - 1) ret) s'
      × (s'.status ≡ SequenceStatus.resumed_api)
return_tokens-over config s ret paused h le =
    let (s', done, a, resumed) = return_tokens-appends config (negsuc 0) s ret paused h in
    let e = least_lem (length ret) config.max_model_len (get_len s.content) (negsuc 0) le in
    (s', done, subst (λ (k : ℤ). Appended s (slice_to k ret) s') e a, resumed)
