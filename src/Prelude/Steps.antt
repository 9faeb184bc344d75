-- ===== src/Prelude/Steps.antt =====
-- What the result of a chain of actions says of each action.
use mathlib.Core.Path.{◌≡◌, refl, ap, subst}
use mathlib.Core.Bool.{Bool, true, false}
use automated_workflow.Prelude.Tests.{if◌then◌else◌}
use native.Mathlib.Omega.{arith}
use automated_workflow.Prelude.Outcome.{
  Action, Outcome, returned, raised, Error, resume, require, pure, ◌>>=◌, ◌>>◌,
}

module _ {S : Type 0} {A : Type 0} {B : Type 0} where
  after :
      (r : Outcome A) (s s2 : S) (f : A → Action S B) (b : B)
      → resume r s f ≡ (returned b, s2)
      → (a : A) × (r ≡ returned a) × (f a s ≡ (returned b, s2))
  after (returned a) s s2 f b e = (a, refl, e)
  after (raised x) s s2 f b e = absurd (ground (arith, e))

  -- A chain that returned did so at each of its two steps.
  pub returned_both :
      (m : Action S A) (f : A → Action S B) (s s2 : S) (b : B)
      → (m >>= f) s ≡ (returned b, s2)
      → (a : A) × (s1 : S) × (m s ≡ (returned a, s1)) × (f a s1 ≡ (returned b, s2))
  returned_both m f s s2 b e =
      let (a, r, k) = after (m s).0 (m s).1 s2 f b e in (a, (m s).1, ap (λ o. (o, (m s).1)) r, k)

-- A requirement that was met.
pub require-returned :
    {S : Type 0} (test : Bool) (x : Error) (s s1 : S)
    → require test x s ≡ (returned tt, s1)
    → (test ≡ true) × (s ≡ s1)
require-returned true x s s1 e = (refl, ground (arith, e))
require-returned false x s s1 e = absurd (ground (arith, e))

-- The same of a chain that drops its first result.
pub returned_then :
    {S : Type 0} {A : Type 0} {B : Type 0} (m : Action S A) (k : Action S B) (s s2 : S) (b : B)
    → (m >> k) s ≡ (returned b, s2)
    → (a : A) × (s1 : S) × (m s ≡ (returned a, s1)) × (k s1 ≡ (returned b, s2))
returned_then m k s s2 b e = returned_both m (λ a. k) s s2 b e

-- A chain that starts with a requirement.
pub required_then :
    {S : Type 0} {B : Type 0} (test : Bool) (x : Error) (k : Action S B) (s s2 : S) (b : B)
    → (require test x >> k) s ≡ (returned b, s2)
    → (test ≡ true) × (k s ≡ (returned b, s2))
required_then true x k s s2 b e = (refl, e)
required_then false x k s s2 b e = absurd (ground (arith, e))

pub returned_inj : {A : Type 0} {a b : A} → returned a ≡ returned b → a ≡ b
returned_inj e = ground (arith, e)

-- Whatever an action returns has a property.
abbrev pub Ensures : {S : Type 0} {A : Type 0} → (A → Type 0) → Action S A → Type 0
Ensures {S = S} {A = A} Q m = (s s1 : S) (a : A) → m s ≡ (returned a, s1) → Q a

module _ {S : Type 0} {A : Type 0} {B : Type 0} (Q : B → Type 0) where
  pub Ensures-bind :
      (m : Action S A) (f : A → Action S B) → ((a : A) → Ensures Q (f a)) → Ensures Q (m >>= f)
  Ensures-bind m f h s s1 b e = let (a, s2, e1, e2) = returned_both m f s s1 b e in h a s2 s1 b e2

module _ {S : Type 0} {B : Type 0} (Q : B → Type 0) where
  pub Ensures-pure : (b : B) → Q b → Ensures Q (pure {S = S} b)
  Ensures-pure b q s s1 b' e = subst Q (returned_inj (ap (λ o. o.0) e)) q

  pub Ensures-choice :
      (test : Bool) (m k : Action S B)
      → (test ≡ true → Ensures Q m)
      → Ensures Q k
      → Ensures Q (if test then m else k)
  Ensures-choice true m k h g = h refl
  Ensures-choice false m k h g = g

-- What held before an action holds after it, whether it returned or raised.
abbrev pub Preserves : {S : Type 0} {A : Type 0} → (S → Type 0) → Action S A → Type 0
Preserves {S = S} {A = A} P m = (s : S) → P s → P (m s).1

module _ {S : Type 0} {A : Type 0} {B : Type 0} (P : S → Type 0) where
  resumed :
      (r : Outcome A) (s : S) (f : A → Action S B)
      → ((a : A) → Preserves P (f a))
      → P s
      → P (resume r s f).1
  resumed (returned a) s f k h = k a s h
  resumed (raised e) s f k h = h

  pub Preserves-bind :
      (m : Action S A) (f : A → Action S B)
      → Preserves P m
      → ((a : A) → Preserves P (f a))
      → Preserves P (m >>= f)
  Preserves-bind m f h k s p = resumed (m s).0 (m s).1 f k (h s p)

  -- What an action establishes and the rest of the chain keeps.
  pub Preserves-after :
      (m : Action S A) (f : A → Action S B) (s : S)
      → ((a : A) → Preserves P (f a))
      → P (m s).1
      → P ((m >>= f) s).1
  Preserves-after m f s k h = resumed (m s).0 (m s).1 f k h

module _ {S : Type 0} {A : Type 0} (P : S → Type 0) where
  pub Preserves-choice :
      (test : Bool) (m k : Action S A)
      → Preserves P m
      → Preserves P k
      → Preserves P (if test then m else k)
  Preserves-choice true m k h g = h
  Preserves-choice false m k h g = g
