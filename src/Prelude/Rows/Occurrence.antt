-- ===== src/Prelude/Rows/Occurrence.antt =====
-- The rows of a table, and what the statements over it keep of them.
use automated_workflow.Prelude.Tests.{Bool-cases, if◌then◌else◌}
use Prim.Native.Nat.{ℕ}
use mathlib.Core.Path.{◌≡◌, refl, sym, ap, subst}
use mathlib.Core.Logic.{◌⊎◌, inl, inr}
use mathlib.Core.Bool.{Bool, true}
use mathlib.Core.Option.{some}
use mathlib.Core.List.{List, [], ◌∷◌, map}
use native.Mathlib.Omega.{arith}
use automated_workflow.Prelude.Table.{
  All, update_where, select_where, find_where, insert_row, insert_by, order_by, first,
}

-- Rows are of a type of level 0, where `⊥` stands.
module _ {A : Type 0} where
  -- A row of a table.
  abbrev pub Occurs : A → List A → Type 0
  Occurs a [] = ⊥
  Occurs a (x ∷ xs) = (a ≡ x) ⊎ Occurs a xs

module _ {A : Type 0} where
  pub All-Occurs {κ} : (P : A → Type κ) (xs : List A) (a : A) → All P xs → Occurs a xs → P a
  All-Occurs P [] a h o = absurd o
  All-Occurs P (x ∷ xs) a h (inl e) = subst P (sym e) h.0
  All-Occurs P (x ∷ xs) a h (inr o) = All-Occurs P xs a h.1 o

  pub All-of_Occurs {κ} : (P : A → Type κ) (xs : List A) → ((a : A) → Occurs a xs → P a) → All P xs
  All-of_Occurs P [] h = tt
  All-of_Occurs P (x ∷ xs) h = (h x (inl refl), All-of_Occurs P xs (λ a o. h a (inr o)))

  pub All-map {κ ι} :
      {P : A → Type κ} {Q : A → Type ι}
      → ((x : A) → P x → Q x)
      → (xs : List A) → All P xs
      → All Q xs
  All-map h [] a = tt
  All-map h (x ∷ xs) a = (h x a.0, All-map h xs a.1)

  pub All-update_where {κ ι} :
      (P : A → Type κ) (Q : A → Type ι) (p : A → Bool) (f : A → A) (xs : List A)
      → ((x : A) → Occurs x xs → P x → Q (if p x then f x else x))
      → All P xs
      → All Q (update_where p f xs)
  unfolding update_where
  All-update_where P Q p f [] h a = tt
  All-update_where P Q p f (x ∷ xs) h a =
      (h x (inl refl) a.0, All-update_where P Q p f xs (λ y o. h y (inr o)) a.1)

  pub All-insert_row {κ} :
      (P : A → Type κ) (a : A) (xs : List A) → P a → All P xs → All P (insert_row a xs)
  unfolding insert_row
  All-insert_row P a [] h t = (h, tt)
  All-insert_row P a (x ∷ xs) h t = (t.0, All-insert_row P a xs h t.1)

  pub Occurs-find_where :
      (p : A → Bool) (xs : List A) (a : A) → find_where p xs ≡ some a → Occurs a xs × (p a ≡ true)
  unfolding find_where
  Occurs-find_where p [] a e = cc
  Occurs-find_where p (x ∷ xs) a e = elim (Bool-cases (p x)) [
    | inl t ↦ ground arith
    | inr f ↦ let r = Occurs-find_where p xs a (rw f at e) in (inr r.0, r.1)
  ]

  pub Occurs-select_where :
      (p : A → Bool) (xs : List A) (a : A)
      → Occurs a (select_where p xs)
      → Occurs a xs × (p a ≡ true)
  unfolding select_where
  Occurs-select_where p [] a o = absurd o
  Occurs-select_where p (x ∷ xs) a o = elim (Bool-cases (p x)) [
    | inl t ↦ ground (arith, Occurs-select_where p xs a)
    | inr f ↦ ground (arith, Occurs-select_where p xs a)
  ]

  pub Occurs-insert_by :
      (key : A → ℕ) (a : A) (xs : List A) (b : A)
      → Occurs b (insert_by key a xs)
      → (b ≡ a) ⊎ Occurs b xs
  unfolding insert_by
  Occurs-insert_by key a [] b o = o
  Occurs-insert_by key a (x ∷ xs) b o = ground (arith, Occurs-insert_by key a xs b)

  pub Occurs-order_by :
      (key : A → ℕ) (xs : List A) (a : A) → Occurs a (order_by key xs) → Occurs a xs
  unfolding order_by
  Occurs-order_by key [] a o = o
  Occurs-order_by key (x ∷ xs) a o =
      ground (arith, Occurs-insert_by key x (order_by key xs) a, Occurs-order_by key xs a)

  pub Occurs-first : (xs : List A) (a : A) → first xs ≡ some a → Occurs a xs
  Occurs-first [] a e = cc
  Occurs-first (x ∷ xs) a e = inl (cc)

module _ {A : Type 0} where
  pub Occurs-update_where :
      (p : A → Bool) (f : A → A) (xs : List A) (a : A)
      → Occurs a (update_where p f xs)
      → (x : A) × Occurs x xs × (a ≡ (if p x then f x else x))
  unfolding update_where
  Occurs-update_where p f [] a o = absurd o
  Occurs-update_where p f (x ∷ xs) a (inl e) = (x, inl refl, e)
  Occurs-update_where p f (x ∷ xs) a (inr o) =
      let (y, m, e) = Occurs-update_where p f xs a o in (y, inr m, e)

  -- What a selection keeps.
  pub select_where-Occurs :
      (p : A → Bool) (xs : List A) (a : A) → Occurs a xs → p a ≡ true → Occurs a (select_where p xs)
  unfolding select_where
  select_where-Occurs p [] a o h = absurd o
  select_where-Occurs p (x ∷ xs) a (inl e) h = ground arith
  select_where-Occurs p (x ∷ xs) a (inr o) h = ground (arith, select_where-Occurs p xs a o h)

module _ {A : Type 0} where
  pub update_where-Occurs :
      (p : A → Bool) (f : A → A) (xs : List A) (a : A)
      → Occurs a xs
      → Occurs (if p a then f a else a) (update_where p f xs)
  unfolding update_where
  update_where-Occurs p f [] a o = absurd o
  update_where-Occurs p f (x ∷ xs) a (inl e) = inl (ap (λ y. if p y then f y else y) e)
  update_where-Occurs p f (x ∷ xs) a (inr o) = inr (update_where-Occurs p f xs a o)

module _ {A : Type 0} where
  pub insert_row-Occurs_self : (a : A) (xs : List A) → Occurs a (insert_row a xs)
  unfolding insert_row
  insert_row-Occurs_self a [] = inl refl
  insert_row-Occurs_self a (x ∷ xs) = inr (insert_row-Occurs_self a xs)

  insert_by-Occurs_self : (key : A → ℕ) (a : A) (xs : List A) → Occurs a (insert_by key a xs)
  unfolding insert_by
  insert_by-Occurs_self key a [] = inl refl
  insert_by-Occurs_self key a (x ∷ xs) = ground (arith, insert_by-Occurs_self key a xs)

  insert_by-Occurs :
      (key : A → ℕ) (a b : A) (xs : List A) → Occurs b xs → Occurs b (insert_by key a xs)
  unfolding insert_by
  insert_by-Occurs key a b [] o = absurd o
  insert_by-Occurs key a b (x ∷ xs) (inl e) = ground arith
  insert_by-Occurs key a b (x ∷ xs) (inr o) = ground (arith, insert_by-Occurs key a b xs o)

  pub order_by-Occurs :
      (key : A → ℕ) (a : A) (xs : List A) → Occurs a xs → Occurs a (order_by key xs)
  unfolding order_by
  order_by-Occurs key a [] o = absurd o
  order_by-Occurs key a (x ∷ xs) (inl e) =
      subst (λ y. Occurs y (insert_by key x (order_by key xs))) (sym e)
        (insert_by-Occurs_self key x (order_by key xs))
  order_by-Occurs key a (x ∷ xs) (inr o) = insert_by-Occurs key x a _ (order_by-Occurs key a xs o)

  pub map-Occurs :
      {B : Type 0} (f : A → B) (a : A) (xs : List A) → Occurs a xs → Occurs (f a) (map f xs)
  map-Occurs f a [] o = absurd o
  map-Occurs f a (x ∷ xs) (inl e) = inl (ap f e)
  map-Occurs f a (x ∷ xs) (inr o) = inr (map-Occurs f a xs o)
