-- ===== src/Prelude/Outcomes.antt =====
-- What a call ends in: it returns a value with a property, or raises an exception of the code; it
-- does not run out of fuel.
use mathlib.Core.Path.{◌≡◌, refl, subst}
use mathlib.Core.Bool.{Bool, true, false}
use mathlib.Core.Option.{Option, none, some}
use mars_codebase.Prelude.Tests.{if◌then◌else◌}
use mars_codebase.Prelude.Errors.{Error, Result, ok, err, ◌>>=◌, guard, or_raise, out_of_fuel}

abbrev pub IsException : Error → Type 0
IsException out_of_fuel = ⊥
IsException _ = Unit

pub data Ends {A : Type 0} (P : A → Type 0) (r : Result A) : Type 0 where
  returns : (a : A) → r ≡ ok a → P a → Ends P r
  raises : (e : Error) → r ≡ err e → IsException e → Ends P r

-- A call, and then the rest.
pub Ends-bind :
    {A : Type 0} {B : Type 0} {P : A → Type 0} {Q : B → Type 0} {call : Result A}
    {rest : A → Result B}
    → Ends P call
    → ((a : A) → P a → Ends Q (rest a))
    → Ends Q (call >>= rest)
Ends-bind (returns a e p) next = rw e (next a p)
Ends-bind (raises e h x) next = raises e (rw h refl) x

-- A weaker property.
pub Ends-weaken :
    {A : Type 0} {P Q : A → Type 0} {r : Result A} → Ends P r → ((a : A) → P a → Q a) → Ends Q r
Ends-weaken (returns a e p) f = returns a e (f a p)
Ends-weaken (raises e h x) f = raises e h x

-- A call whose value is known to have one property has two.
pub Ends-both :
    {A : Type 0} {P Q : A → Type 0} {r : Result A}
    → Ends P r
    → ((a : A) → r ≡ ok a → Q a)
    → Ends (λ a. P a × Q a) r
Ends-both (returns a e p) f = returns a e (p, f a e)
Ends-both (raises e h x) f = raises e h x

pub Ends-guard : (b : Bool) (e : Error) → IsException e → Ends (λ _. b ≡ true) (guard b e)
Ends-guard true e x = returns tt refl refl
Ends-guard false e x = raises e refl x

pub Ends-or_raise :
    {A : Type 0} (o : Option A) (e : Error) → IsException e → Ends (λ a. o ≡ some a) (or_raise o e)
Ends-or_raise none e x = raises e refl x
Ends-or_raise (some a) e x = returns a refl refl

pub Ends-ok : {A : Type 0} {P : A → Type 0} {a : A} → P a → Ends P (ok a)
Ends-ok p = returns _ refl p

-- A call and the value that it returned.
pub Ends-value :
    {A : Type 0} {P : A → Type 0} {r : Result A} → Ends P r → Ends (λ a. P a × (r ≡ ok a)) r
Ends-value h = Ends-both h (λ a e. e)

pub Ends-if :
    {A : Type 0} {P : A → Type 0} (b : Bool) {r r' : Result A}
    → Ends P r
    → Ends P r'
    → Ends P (if b then r else r')
Ends-if true h h' = h
Ends-if false h h' = h'

-- The branches may use the test.
pub Ends-test :
    {A : Type 0} {P : A → Type 0} (b : Bool) {r r' : Result A}
    → (b ≡ true → Ends P r)
    → (b ≡ false → Ends P r')
    → Ends P (if b then r else r')
Ends-test true h h' = h refl
Ends-test false h h' = h' refl

-- What is known of a value that is returned.
pub Ends-returned : {A : Type 0} {P : A → Type 0} {r : Result A} (a : A) → Ends P r → r ≡ ok a → P a
Ends-returned {P = P} a (returns b e p) h = let same : b ≡ a = cc (e, h) in subst P same p
Ends-returned a (raises x e h') h = absurd (cc (e, h))
