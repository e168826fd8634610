-- ===== src/Prelude/Dict.antt =====
-- Python's `dict` with integer keys, as an association list in insertion order.
use Prim.Native.Nat.{ℕ}
use mathlib.Core.Path.{◌≡◌, refl}
use mathlib.Core.Bool.{Bool, true, false}
use mathlib.Core.List.{List, [], ◌∷◌}
use mathlib.Core.Option.{Option, none, some}
use native.Mathlib.Omega.{arith}
use mars_codebase.Prelude.Tests.{◌==◌, if◌then◌else◌}

abbrev pub Dict {ℓ} : Type ℓ → Type ℓ
Dict V = List (ℕ × V)

module _ {ℓ} {V : Type ℓ} where
  -- d.get(k)
  abbrev pub get : Dict V → ℕ → Option V
  get [] k = none
  get ((j, v) ∷ d) k = if j == k then some v else get d k

  -- d[k] = v
  abbrev pub put : Dict V → ℕ → V → Dict V
  put [] k v = (k, v) ∷ []
  put ((j, w) ∷ d) k v = if j == k then (j, v) ∷ d else (j, w) ∷ put d k v

  -- del d[k], of a key that is there
  abbrev pub delete : Dict V → ℕ → Dict V
  delete [] k = []
  delete ((j, w) ∷ d) k = if j == k then d else (j, w) ∷ delete d k

  -- k in d
  abbrev pub contains : Dict V → ℕ → Bool
  contains d k = elim (get d k) [ none ↦ false | some _ ↦ true ]

  pub get-put :
      (d : Dict V) (k j : ℕ) (v : V) → get (put d k v) j ≡ (if k == j then some v else get d j)
  get-put [] k j v = refl
  get-put ((i, w) ∷ d) k j v = ground (arith, get-put d k j v)

  pub get-delete_ne : (d : Dict V) (k j : ℕ) → (k == j) ≡ false → get (delete d k) j ≡ get d j
  get-delete_ne [] k j h = refl
  get-delete_ne ((i, w) ∷ d) k j h = ground (arith, get-delete_ne d k j h)

  pub delete_absent : (d : Dict V) (k : ℕ) → get d k ≡ none → delete d k ≡ d
  delete_absent [] k h = refl
  delete_absent ((i, w) ∷ d) k h = ground (arith, delete_absent d k)
