-- ===== src/Sorting/Laws.antt =====
-- What a stable sort keeps and gives.
use mathlib.Core.List.Permᴰ
use mathlib.Core.List.{Permᴰ}
use mars_codebase.Prelude.{
  ap, map, ◌∙◌, inr, arith, Bool, Bool-cases, List, [], false, inl, refl, true, ◌&&◌, ◌∷◌, ◌≡◌,
}
use mars_codebase.Sorting.{insert_by, sort_by}
use mars_codebase.Sequence.Group.{all_of, keep}

module _ {A : Type 0} (before : A → A → Bool) where
  -- Each element may stand before all that follow it.
  abbrev pub IsOrdered : List A → Type 0
  IsOrdered [] = Unit
  IsOrdered (x ∷ xs) = (all_of (before x) xs ≡ true) × IsOrdered xs

  insert_by_first :
      (x y : A) (ys : List A) → before x y ≡ true → insert_by before x (y ∷ ys) ≡ x ∷ y ∷ ys
  insert_by_first x y ys e = rw (e, insert_by) refl

  insert_by_later :
      (x y : A) (ys : List A)
      → before x y ≡ false
      → insert_by before x (y ∷ ys) ≡ y ∷ insert_by before x ys
  insert_by_later x y ys e = rw (e, insert_by) refl

  insert_by-Perm : (x : A) (ys : List A) → Permᴰ (x ∷ ys) (insert_by before x ys)
  insert_by-Perm x [] = Permᴰ.cons refl Permᴰ.nil
  insert_by-Perm x (y ∷ ys) = elim (Bool-cases (before x y)) [
    | inl e ↦ rw (insert_by_first x y ys e) (Permᴰ.refl (x ∷ y ∷ ys))
    | inr e ↦
        rw (insert_by_later x y ys e)
          (Permᴰ.trans (Permᴰ.swap refl refl) (Permᴰ.cons refl (insert_by-Perm x ys)))
  ]

  pub sort_by-Perm : (xs : List A) → Permᴰ xs (sort_by before xs)
  sort_by-Perm [] = Permᴰ.nil
  sort_by-Perm (x ∷ xs) =
      Permᴰ.trans (Permᴰ.cons refl (sort_by-Perm xs)) (insert_by-Perm x (sort_by before xs))

  all_of-insert_by :
      (p : A → Bool) (x : A) (ys : List A) → all_of p (insert_by before x ys) ≡ (p x && all_of p ys)
  all_of-insert_by p x [] = refl
  all_of-insert_by p x (y ∷ ys) = elim (Bool-cases (before x y)) [
    | inl e ↦ rw (insert_by_first x y ys e) refl
    | inr e ↦ rw (insert_by_later x y ys e) (ground (arith, all_of-insert_by p x ys))
  ]

  -- An order that compares any two elements.
  pub record IsPreorder : Type 0 where
    pub connex : (x y : A) → before x y ≡ false → before y x ≡ true
    pub transitive : (x y z : A) → before x y ≡ true → before y z ≡ true → before x z ≡ true

  all_of-weaken :
      (p q : A → Bool) (xs : List A)
      → ((x : A) → p x ≡ true → q x ≡ true)
      → all_of p xs ≡ true
      → all_of q xs ≡ true
  all_of-weaken p q [] h e = refl
  all_of-weaken p q (x ∷ xs) h e = elim (Bool-cases (p x)) [
    | inl e' ↦ rw (h x e') (all_of-weaken p q xs h (rw e' at e))
    | inr e' ↦ let e'' : false ≡ true = rw e' at e in absurd (cc e'')
  ]

  insert_by-IsOrdered :
      IsPreorder → (x : A) (ys : List A) → IsOrdered ys → IsOrdered (insert_by before x ys)
  insert_by-IsOrdered o x [] s = (refl, tt)
  insert_by-IsOrdered o x (y ∷ ys) s = elim (Bool-cases (before x y)) [
    | inl e ↦
        let after = all_of-weaken (before y) (before x) ys (λ z h. o.transitive x y z e h) s.0 in
        rw (e, insert_by) (rw e after, s)
    | inr e ↦
        let ahead = o.connex x y e in
        rw (e, insert_by)
          (rw (all_of-insert_by (before y) x ys, ahead) s.0, insert_by-IsOrdered o x ys s.1)
  ]

  pub sort_by-IsOrdered : IsPreorder → (xs : List A) → IsOrdered (sort_by before xs)
  sort_by-IsOrdered o [] = tt
  sort_by-IsOrdered o (x ∷ xs) =
      insert_by-IsOrdered o x (sort_by before xs) (sort_by-IsOrdered o xs)

  -- A class of elements that may stand before each other keeps its order.
  keep-insert_by :
      (p : A → Bool) (x : A) (ys : List A)
      → ((y : A) → p x ≡ true → p y ≡ true → before x y ≡ true)
      → keep p (insert_by before x ys) ≡ keep p (x ∷ ys)
  keep-insert_by p x [] h = refl
  keep-insert_by p x (y ∷ ys) h = elim (Bool-cases (before x y)) [
    | inl e ↦ rw (insert_by_first x y ys e) refl
    | inr e ↦ rw (insert_by_later x y ys e) (elim (Bool-cases (p x)) [
      | inl e1 ↦ elim (Bool-cases (p y)) [
        | inl e2 ↦ absurd (cc (e, h y e1 e2))
        | inr e2 ↦ ground (arith, e1, e2, keep-insert_by p x ys h)
      ]
      | inr e1 ↦ ground (arith, e1, keep-insert_by p x ys h)
    ])
  ]

  pub keep-sort_by :
      (p : A → Bool) (xs : List A)
      → ((x y : A) → p x ≡ true → p y ≡ true → before x y ≡ true)
      → keep p (sort_by before xs) ≡ keep p xs
  keep-sort_by p [] h = refl
  keep-sort_by p (x ∷ xs) h =
      let ih = keep-sort_by p xs h in
      let step = keep-insert_by p x (sort_by before xs) (h x) in ground (arith, ih, step)

  pub all_of-sort_by : (p : A → Bool) (xs : List A) → all_of p (sort_by before xs) ≡ all_of p xs
  all_of-sort_by p [] = refl
  all_of-sort_by p (x ∷ xs) =
      ground (arith, all_of-sort_by p xs, all_of-insert_by p x (sort_by before xs))

-- A map that keeps the order commutes with the sort.
module _ {A B : Type 0} (before : A → A → Bool) (before' : B → B → Bool) (f : A → B)
    (keeps : (x y : A) → before' (f x) (f y) ≡ before x y) where
  insert_by-map :
      (x : A) (ys : List A) → insert_by before' (f x) (map f ys) ≡ map f (insert_by before x ys)
  insert_by-map x [] = refl
  insert_by-map x (y ∷ ys) = elim (Bool-cases (before x y)) [
    | inl e ↦
        let e' = keeps x y ∙ e in
        insert_by_first before' (f x) (f y) (map f ys) e'
        ∙ rw (insert_by_first before x y ys e) refl
    | inr e ↦
        let e' = keeps x y ∙ e in
        insert_by_later before' (f x) (f y) (map f ys) e'
        ∙ ap (◌∷◌ (f y)) (insert_by-map x ys)
        ∙ rw (insert_by_later before x y ys e) refl
  ]

  pub sort_by-map : (xs : List A) → sort_by before' (map f xs) ≡ map f (sort_by before xs)
  sort_by-map [] = refl
  sort_by-map (x ∷ xs) =
      ap (insert_by before' (f x)) (sort_by-map xs) ∙ insert_by-map x (sort_by before xs)
