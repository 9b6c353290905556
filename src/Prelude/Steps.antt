-- ===== src/Prelude/Steps.antt =====
-- Code that ends early with false: a step answers whether the next one is run. `none` is the use of
-- a null pointer.
use mi_ster_cast.Prelude.Tests.{if◌then◌else◌}
use mathlib.Core.Path.{◌≡◌, refl, ap, ◌∙◌}
use mathlib.Core.Bool.{Bool, true, false}
use native.Mathlib.Omega.{arith}
use mathlib.Core.Option.{Option, none, some}

infixr 6 ◌then_run◌
abbrev pub ◌then_run◌ :
    {S : Type 0} → (S → Option (Bool × S)) → (S → Option (Bool × S)) → S → Option (Bool × S)
◌then_run◌ m k s = elim (m s) [
  | none ↦ none
  | some (ok, s') ↦ if ok then k s' else some (false, s')
]

-- The use of a pointer.
abbrev pub use_of : {S : Type 0} → (S → Bool) → S → Option (Bool × S)
use_of pointer s = if pointer s then some (true, s) else none

-- A call that fills a global when it succeeds, and the test of its result.
abbrev pub attempt : {S : Type 0} → Bool → (S → S) → S → Option (Bool × S)
attempt ok filled s = if ok then some (true, filled s) else some (false, s)

-- A computation that uses no null pointer, and what its answer and its state satisfy.
abbrev pub Ends : {S : Type 0} → (Bool → S → Type 0) → Option (Bool × S) → Type 0
Ends P none = ⊥
Ends P (some (ok, s)) = P ok s

-- One step after the other.
pub then_run-Ends :
    {S : Type 0} (P Q : Bool → S → Type 0) (m k : S → Option (Bool × S)) (s : S)
    → Ends P (m s)
    → ((s' : S) → P true s' → Ends Q (k s'))
    → ((s' : S) → P false s' → Q false s')
    → Ends Q ((m then_run k) s)
then_run-Ends {S} P Q m k s ends next stop = split (m s) ends
  where
    split :
        (r : Option (Bool × S))
        → Ends P r
        → Ends Q (elim r [ none ↦ none | some (ok, s') ↦ if ok then k s' else some (false, s') ])
    split none p = p
    split (some (true, s')) p = next s' p
    split (some (false, s')) p = stop s' p

-- Two facts about one computation.
pub Ends-both :
    {S : Type 0} (P Q : Bool → S → Type 0) (r : Option (Bool × S))
    → Ends P r
    → Ends Q r
    → Ends (λ ok s. P ok s × Q ok s) r
Ends-both P Q none p q = p
Ends-both P Q (some (ok, s)) p q = (p, q)

-- The result of a computation that ends.
pub Ends-result :
    {S : Type 0} (P : Bool → S → Type 0) (r : Option (Bool × S))
    → Ends P r
    → (ok : Bool) × (s : S) × (r ≡ some (ok, s)) × P ok s
Ends-result P none p = absurd p
Ends-result P (some (ok, s)) p = (ok, s, refl, p)

-- A branch that is taken.
pub taken :
    {A : Type 0} (P : A → Type 0) (x y : A) (b : Bool) → b ≡ true → P x → P (if b then x else y)
taken P x y true e p = p
taken P x y false e p = ground arith

-- Two computations that branch in the same way are related as their branches are.
pub branches_lem :
    {A : Type 0} (R : A → A → Type 0) (b : Bool) (x x' y y' : A)
    → R x x'
    → R y y'
    → R (if b then x else y) (if b then x' else y')
branches_lem R true x x' y y' p q = p
branches_lem R false x x' y y' p q = q

-- A function of two values that are equal.
pub both :
    {A B C : Type 0} (f : A → B → C) {a a' : A} {b b' : B} → a ≡ a' → b ≡ b' → f a b ≡ f a' b'
both f {a} {a'} {b} {b'} p q = ap (λ x. f x b) p ∙ ap (f a') q
