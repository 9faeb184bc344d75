-- ===== src/Prelude/Rows/Order.antt =====
-- Columns whose numbers go up from row to row.
use automated_workflow.Prelude.Tests.{◌==◌, Bool-cases}
use Prim.Native.Nat.{ℕ, ◌<◌}
use mathlib.Core.Path.{◌≡◌, refl}
use mathlib.Core.Logic.{inl, inr}
use mathlib.Core.Bool.{Bool, false}
use mathlib.Core.List.{List, [], ◌∷◌}
use native.Mathlib.Omega.{arith}
use automated_workflow.Prelude.Table.{
  All, any_where, delete_where, select_where, insert_row, insert_by, order_by,
}
use automated_workflow.Prelude.Rows.Occurrence.{Occurs, All-insert_row}

module _ {A : Type 0} where
  pub All-delete_where {κ} :
      (P : A → Type κ) (p : A → Bool) (xs : List A) → All P xs → All P (delete_where p xs)
  unfolding delete_where
  All-delete_where P p [] a = tt
  All-delete_where P p (x ∷ xs) a = elim (Bool-cases (p x)) [
    | inl e ↦ rw e (All-delete_where P p xs a.1)
    | inr e ↦ rw e (a.0, All-delete_where P p xs a.1)
  ]

  pub All-select_where {κ} :
      (P : A → Type κ) (p : A → Bool) (xs : List A) → All P xs → All P (select_where p xs)
  unfolding select_where
  All-select_where P p [] a = tt
  All-select_where P p (x ∷ xs) a = elim (Bool-cases (p x)) [
    | inl e ↦ rw e (a.0, All-select_where P p xs a.1)
    | inr e ↦ rw e (All-select_where P p xs a.1)
  ]

  pub delete_where-Occurs :
      (p : A → Bool) (xs : List A) (a : A)
      → Occurs a xs
      → p a ≡ false
      → Occurs a (delete_where p xs)
  unfolding delete_where
  delete_where-Occurs p [] a o h = absurd o
  delete_where-Occurs p (x ∷ xs) a (inl e) h = ground arith
  delete_where-Occurs p (x ∷ xs) a (inr o) h = ground (arith, delete_where-Occurs p xs a o h)

  pub insert_row-Occurs : (a b : A) (xs : List A) → Occurs b xs → Occurs b (insert_row a xs)
  unfolding insert_row
  insert_row-Occurs a b [] o = absurd o
  insert_row-Occurs a b (x ∷ xs) (inl e) = inl e
  insert_row-Occurs a b (x ∷ xs) (inr o) = inr (insert_row-Occurs a b xs o)

module _ {A : Type 0} (key : A → ℕ) where
  abbrev pub Ascending : List A → Type 0
  Ascending [] = Unit
  Ascending (x ∷ xs) = All (λ y. key x < key y) xs × Ascending xs

  insert_by_least :
      (x : A) (xs : List A) → All (λ y. key x < key y) xs → insert_by key x xs ≡ x ∷ xs
  unfolding insert_by
  insert_by_least x [] a = refl
  insert_by_least x (y ∷ ys) a = ground (arith, a.0)

  -- Rows in order stay as they are sorted.
  pub order_by-Ascending : (xs : List A) → Ascending xs → order_by key xs ≡ xs
  unfolding order_by
  order_by-Ascending [] a = refl
  order_by-Ascending (x ∷ xs) a = rw (order_by-Ascending xs a.1) (insert_by_least x xs a.0)

  pub insert_row-Ascending :
      (a : A) (xs : List A)
      → Ascending xs
      → All (λ y. key y < key a) xs
      → Ascending (insert_row a xs)
  unfolding insert_row
  insert_row-Ascending a [] s h = (tt, tt)
  insert_row-Ascending a (x ∷ xs) s h =
      (All-insert_row (λ y. key x < key y) a xs h.0 s.0, insert_row-Ascending a xs s.1 h.1)

  pub delete_where-Ascending :
      (p : A → Bool) (xs : List A) → Ascending xs → Ascending (delete_where p xs)
  unfolding delete_where
  delete_where-Ascending p [] s = tt
  delete_where-Ascending p (x ∷ xs) s = elim (Bool-cases (p x)) [
    | inl e ↦ rw e (delete_where-Ascending p xs s.1)
    | inr e ↦ rw e (All-delete_where _ p xs s.0, delete_where-Ascending p xs s.1)
  ]

  pub select_where-Ascending :
      (p : A → Bool) (xs : List A) → Ascending xs → Ascending (select_where p xs)
  unfolding select_where
  select_where-Ascending p [] s = tt
  select_where-Ascending p (x ∷ xs) s = elim (Bool-cases (p x)) [
    | inl e ↦ rw e (All-select_where _ p xs s.0, select_where-Ascending p xs s.1)
    | inr e ↦ rw e (select_where-Ascending p xs s.1)
  ]

  -- A number above all is the number of none.
  pub any_where-above :
      (n : ℕ) (xs : List A) → All (λ y. key y < n) xs → any_where (λ y. key y == n) xs ≡ false
  unfolding any_where
  any_where-above n [] a = refl
  any_where-above n (x ∷ xs) a = ground (arith, a.0, any_where-above n xs a.1)
