-- ===== src/Prelude/Rows/Finds.antt =====
-- The row that a search or an order puts first.
use automated_workflow.Prelude.Tests.{Option-cases, leb, if◌then◌else◌}
use Prim.Native.Nat.{ℕ, ◌≤◌}
use mathlib.Core.Path.{◌≡◌, refl}
use mathlib.Core.Logic.{inl, inr}
use mathlib.Core.Bool.{Bool}
use mathlib.Core.Option.{Option, none, some}
use mathlib.Core.List.{List, [], ◌∷◌}
use native.Mathlib.Omega.{arith}
use automated_workflow.Prelude.Table.{All, update_where, find_where, insert_by, order_by, first}

abbrev pub map_option {ℓ κ} : {A : Type ℓ} {B : Type κ} → (A → B) → Option A → Option B
map_option f none = none
map_option f (some a) = some (f a)

module _ {A : Type 0} where
  -- An UPDATE that keeps its own condition leaves the updated row to be found.
  pub find_where-update_where :
      (p : A → Bool) (f : A → A) (xs : List A)
      → ((x : A) → p (f x) ≡ p x)
      → find_where p (update_where p f xs) ≡ map_option f (find_where p xs)
  unfolding find_where update_where
  find_where-update_where p f [] k = refl
  find_where-update_where p f (x ∷ xs) k = ground (arith, k x, find_where-update_where p f xs k)

  first-insert_by :
      (key : A → ℕ) (a : A) (xs : List A)
      → first (insert_by key a xs) ≡ elim (first xs) [
        | none ↦ some a
        | some x ↦ if leb (key a) (key x) then some a else some x
      ]
  unfolding insert_by
  first-insert_by key a [] = refl
  first-insert_by key a (x ∷ xs) = ground arith

  -- An ordered selection is empty only where the selection is.
  pub order_by-none : (key : A → ℕ) (xs : List A) → first (order_by key xs) ≡ none → xs ≡ []
  unfolding order_by
  order_by-none key [] e = refl
  order_by-none key (x ∷ xs) e = ground (arith, first-insert_by key x (order_by key xs))

  All-le :
      (key : A → ℕ) (m n : ℕ) (xs : List A)
      → m ≤ n
      → All (λ x. n ≤ key x) xs
      → All (λ x. m ≤ key x) xs
  All-le key m n [] h a = tt
  All-le key m n (x ∷ xs) h a = (omega arith, All-le key m n xs h a.1)

  -- The row with the smallest key comes first.
  pub order_by_least :
      (key : A → ℕ) (xs : List A) (a : A)
      → first (order_by key xs) ≡ some a
      → All (λ x. key a ≤ key x) xs
  unfolding order_by
  order_by_least key [] a e = tt
  order_by_least key (x ∷ xs) a e = elim (Option-cases (first (order_by key xs))) [
    | inl n ↦
        let empty = order_by-none key xs n in
        (ground (arith, first-insert_by key x (order_by key xs)), rw empty tt)
    | inr (b, s) ↦
        let rest = order_by_least key xs b s in
        let here = first-insert_by key x (order_by key xs) in
        (ground (arith, here), All-le key (key a) (key b) xs (ground (arith, here)) rest)
  ]
