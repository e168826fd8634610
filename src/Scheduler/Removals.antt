-- ===== src/Scheduler/Removals.antt =====
-- The names that abort_seq_group takes out of a queue (vllm/core/scheduler_v2.py).
use mathlib.Core.List.{reverse, reverse-cons}
use mars_codebase.Prelude.{
  Bool, Bool-cases, List, [], ap, arith, inl, inr, not, refl, sym, total, true, ℕ, ◌&&◌, ◌||◌, ◌++◌,
  ◌==◌, ◌∷◌, ◌≡◌, ◌≤◌,
}
use mars_codebase.Sequence.Group.{keep}
use mars_codebase.Scheduler.Aborting.{discard_id, mem_id, remove_id}
use mars_codebase.Scheduler.Loads.{same}

-- Each name stands at most once.
abbrev pub IsOnce : List ℕ → Type 0
IsOnce queue = (j : ℕ) → total (same j) queue ≤ 1

pub total-keep : (f : ℕ → ℕ) (p : ℕ → Bool) (xs : List ℕ) → total f (keep p xs) ≤ total f xs
total-keep f p [] = omega arith
total-keep f p (x ∷ xs) = elim (Bool-cases (p x)) [
  | inl e ↦ rw e (omega (arith, total-keep f p xs))
  | inr e ↦ rw e (omega (arith, total-keep f p xs))
]

-- Two tests that agree on the names of a list keep the same.
pub keep-same :
    (p q : ℕ → Bool) (xs : List ℕ)
    → ((j : ℕ) → mem_id j xs ≡ true → p j ≡ q j)
    → keep p xs ≡ keep q xs
keep-same p q [] h = refl
keep-same p q (x ∷ xs) h =
    let here : mem_id x (x ∷ xs) ≡ true = ground arith in
    let ih = keep-same p q xs (λ j m. h j (ground (arith, m))) in
    let e = h x here in
    elim (Bool-cases (q x)) [ inl f ↦ rw (e, f, ih) refl | inr f ↦ rw (e, f, ih) refl ]

pub keep-keep : (p q : ℕ → Bool) (xs : List ℕ) → keep p (keep q xs) ≡ keep (λ j. q j && p j) xs
keep-keep p q [] = refl
keep-keep p q (x ∷ xs) = elim (Bool-cases (q x)) [
  | inr e ↦ rw e (keep-keep p q xs)
  | inl e ↦ elim (Bool-cases (p x)) [
    | inl f ↦ rw (e, f) (ap (◌∷◌ x) (keep-keep p q xs))
    | inr f ↦ rw (e, f) (keep-keep p q xs)
  ]
]

keep_all : (i : ℕ) (xs : List ℕ) → total (same i) xs ≡ 0 → keep (λ j. not (i == j)) xs ≡ xs
keep_all i [] h = refl
keep_all i (x ∷ xs) h = elim (Bool-cases (i == x)) [
  | inl e ↦ absurd (ground (arith, h, e))
  | inr e ↦ rw e (ap (◌∷◌ x) (keep_all i xs (ground (arith, h, e))))
]

pub remove_id-keep :
    (i : ℕ) (xs : List ℕ) → total (same i) xs ≤ 1 → remove_id i xs ≡ keep (λ j. not (i == j)) xs
remove_id-keep i [] h = refl
remove_id-keep i (x ∷ xs) h = elim (Bool-cases (i == x)) [
  | inl e ↦ rw e (sym (keep_all i xs (ground (arith, h, e))))
  | inr e ↦ rw e (ap (◌∷◌ x) (remove_id-keep i xs (ground (arith, h, e))))
]

pub mem_id-discard_id :
    (j i : ℕ) (ids : List ℕ) → mem_id j (discard_id i ids) ≡ (mem_id j ids && not (i == j))
mem_id-discard_id j i [] = refl
mem_id-discard_id j i (k ∷ ids) = elim (Bool-cases (i == k)) [
  | inl e ↦ rw e (ground (arith, e, mem_id-discard_id j i ids))
  | inr e ↦ rw e (ground (arith, e, mem_id-discard_id j i ids))
]

mem_id-append : (j : ℕ) (xs ys : List ℕ) → mem_id j (xs ++ ys) ≡ (mem_id j xs || mem_id j ys)
mem_id-append j [] ys = refl
mem_id-append j (x ∷ xs) ys = ground (arith, mem_id-append j xs ys)

pub mem_id-reverse : (j : ℕ) (xs : List ℕ) → mem_id j (reverse xs) ≡ mem_id j xs
mem_id-reverse j [] = refl
mem_id-reverse j (x ∷ xs) =
    rw (reverse-cons x xs, mem_id-append j (reverse xs) (x ∷ []), mem_id-reverse j xs)
      (ground arith)

pub mem_id-total : (j : ℕ) (xs : List ℕ) → mem_id j xs ≡ true → 1 ≤ total (same j) xs
mem_id-total j [] h = absurd (cc h)
mem_id-total j (x ∷ xs) h = elim (Bool-cases (j == x)) [
  | inl e ↦ ground (arith, e)
  | inr e ↦ ground (arith, e, mem_id-total j xs (ground (arith, h, e)))
]
