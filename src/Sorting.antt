-- ===== src/Sorting.antt =====
-- Python's `sorted`: a stable sort. `before x y` is what lets `x` stand before `y`: the key of `x` is
-- not the greater one or, with `reverse`, not the smaller one.
pub mod Laws
use mars_codebase.Prelude.{Bool, List, [], ◌∷◌, true, false}

module _ {A : Type 0} (before : A → A → Bool) where
  -- `x` comes from a place before those of the list, and so stands before those with the same key.
  abbrev pub insert_by : A → List A → List A
  insert_by x [] = x ∷ []
  insert_by x (y ∷ ys) = elim (before x y) [ true ↦ x ∷ y ∷ ys | false ↦ y ∷ insert_by x ys ]

  abbrev pub sort_by : List A → List A
  sort_by [] = []
  sort_by (x ∷ xs) = insert_by x (sort_by xs)
