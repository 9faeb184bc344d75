-- ===== src/Prelude/Outcome.antt =====
-- Methods that change a state and may raise. A transaction that raises is rolled back, so an
-- operation that raises returns the state it was given; a chain of operations keeps what the
-- earlier ones committed.
use Prim.Native.Nat.{ℕ}
use Prim.Native.String.{String}
use mathlib.Core.Bool.{Bool, true, false}

pub data Error : Type 0 where
  key_error value_error runtime_error repository_error : String → Error
  integrity_error task_cancelled attribute_error : Error
  -- The connection was closed, with this code.
  websocket_disconnect : ℕ → Error
  http_error : ℕ → String → Error

pub data Outcome {ℓ} (A : Type ℓ) : Type ℓ where
  returned : A → Outcome A
  raised : Error → Outcome A

abbrev pub Action {ℓ κ} : Type ℓ → Type κ → Type (ℓ ⊔ κ)
Action S A = S → Outcome A × S

module _ {ℓ κ} {S : Type ℓ} {A : Type κ} where
  abbrev pub pure : A → Action S A
  pure a s = (returned a, s)

  abbrev pub raise : Error → Action S A
  raise e s = (raised e, s)

  -- Reads the state.
  abbrev pub asks : (S → A) → Action S A
  asks f s = (returned (f s), s)

  -- A value that was computed without changing the state, or the exception it raised.
  abbrev pub lift : Outcome A → Action S A
  lift r s = (r, s)

  -- An operation that always succeeds.
  abbrev pub transact : (S → A × S) → Action S A
  transact f s = (returned (f s).0, (f s).1)

-- An operation that always succeeds and returns nothing.
abbrev pub modify {ℓ} : {S : Type ℓ} → (S → S) → Action S (Unit {0})
modify f s = (returned tt, f s)

module _ {ℓ κ ι} {S : Type ℓ} {A : Type κ} {B : Type ι} where
  abbrev pub resume : Outcome A → S → (A → Action S B) → Outcome B × S
  resume (returned a) s f = f a s
  resume (raised e) s f = (raised e, s)

  infixl 5 ◌>>=◌
  abbrev pub ◌>>=◌ : Action S A → (A → Action S B) → Action S B
  ◌>>=◌ m f s = resume (m s).0 (m s).1 f

module _ {ℓ κ ι} {S : Type ℓ} {A : Type κ} {B : Type ι} where
  infixl 5 ◌>>◌
  abbrev pub ◌>>◌ : Action S A → Action S B → Action S B
  m >> k = m >>= λ _. k

-- `if not test: raise e`
abbrev pub require {ℓ} : {S : Type ℓ} → Bool → Error → Action S (Unit {0})
require true e s = (returned tt, s)
require false e s = (raised e, s)
