-- ===== src/Policy/Laws.antt =====
-- The order of the priorities (vllm/core/policy.py).
use mathlib.Core.List.{}
use mars_codebase.Prelude.{arith, false, refl, true, ◌≡◌}
use mars_codebase.Prelude.Int.{eq_ℤ, leb_ℤ, negsuc, pos, ℤ}

pub leb_ℤ-connex : (x y : ℤ) → leb_ℤ x y ≡ false → leb_ℤ y x ≡ true
leb_ℤ-connex (pos m) (pos n) h = ground arith
leb_ℤ-connex (pos m) (negsuc n) h = refl
leb_ℤ-connex (negsuc m) (pos n) h = cc h
leb_ℤ-connex (negsuc m) (negsuc n) h = ground arith

pub leb_ℤ-transitive : (x y z : ℤ) → leb_ℤ x y ≡ true → leb_ℤ y z ≡ true → leb_ℤ x z ≡ true
leb_ℤ-transitive (pos m) (pos n) (pos k) h h' = ground arith
leb_ℤ-transitive (pos m) (pos n) (negsuc k) h h' = cc h'
leb_ℤ-transitive (pos m) (negsuc n) z h h' = absurd (cc h)
leb_ℤ-transitive (negsuc m) (pos n) (pos k) h h' = refl
leb_ℤ-transitive (negsuc m) (pos n) (negsuc k) h h' = absurd (cc h')
leb_ℤ-transitive (negsuc m) (negsuc n) (pos k) h h' = refl
leb_ℤ-transitive (negsuc m) (negsuc n) (negsuc k) h h' = ground arith

pub eq_ℤ-leb_ℤ : (x y z : ℤ) → eq_ℤ x z ≡ true → eq_ℤ y z ≡ true → leb_ℤ x y ≡ true
eq_ℤ-leb_ℤ (pos m) (pos n) (pos k) h h' = ground arith
eq_ℤ-leb_ℤ (pos m) (negsuc n) (pos k) h h' = cc h'
eq_ℤ-leb_ℤ (negsuc m) y (pos k) h h' = absurd (cc h)
eq_ℤ-leb_ℤ (pos m) y (negsuc k) h h' = absurd (cc h)
eq_ℤ-leb_ℤ (negsuc m) (pos n) (negsuc k) h h' = refl
eq_ℤ-leb_ℤ (negsuc m) (negsuc n) (negsuc k) h h' = ground arith
