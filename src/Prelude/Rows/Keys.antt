-- ===== src/Prelude/Rows/Keys.antt =====
-- Columns whose texts are distinct.
use automated_workflow.Prelude.Tests.{str_eq→eq, ne→str_eq, Bool-cases}
use Prim.Native.String.{String}
use mathlib.Core.Path.{◌≡◌, refl, sym, ap, ◌∙◌}
use mathlib.Core.Logic.{◌≢◌, inl, inr}
use mathlib.Core.Bool.{Bool, true, false}
use mathlib.Core.Option.{some}
use mathlib.Core.List.{List, [], ◌∷◌, map}
use native.Mathlib.Omega.{arith}
use text.Mathlib.Text.{◌==◌ as str_eq}
use text.Mathlib.TextEquality.{eq_iff}
use automated_workflow.Prelude.Table.{All, update_where, find_where, any_where, insert_row, member}
use automated_workflow.Prelude.Rows.Occurrence.{
  Occurs, All-Occurs, All-update_where, All-insert_row,
}

-- The texts of a column are distinct.
module _ {A : Type 0} (key : A → String) where
  abbrev pub Unique : List A → Type 0
  Unique [] = Unit
  Unique (x ∷ xs) = All (λ y. key x ≢ key y) xs × Unique xs

  pub Unique-eq :
      (xs : List A) (a b : A) → Unique xs → Occurs a xs → Occurs b xs → key a ≡ key b → a ≡ b
  Unique-eq [] a b u oa ob e = absurd oa
  Unique-eq (x ∷ xs) a b u (inl p) (inl q) e = cc
  Unique-eq (x ∷ xs) a b u (inl p) (inr q) e =
      absurd (All-Occurs (λ y. key x ≢ key y) xs b u.0 q (ap key (sym p) ∙ e))
  Unique-eq (x ∷ xs) a b u (inr p) (inl q) e =
      absurd (All-Occurs (λ y. key x ≢ key y) xs a u.0 p (ap key (sym q) ∙ sym e))
  Unique-eq (x ∷ xs) a b u (inr p) (inr q) e = Unique-eq xs a b u.1 p q e

  pub Unique-update_where :
      (p : A → Bool) (f : A → A) (xs : List A)
      → ((x : A) → key (f x) ≡ key x)
      → Unique xs
      → Unique (update_where p f xs)
  unfolding update_where
  Unique-update_where p f [] k u = tt
  Unique-update_where p f (x ∷ xs) k u = (
    All-update_where (λ y. key x ≢ key y) _ p f xs (λ y _ ne. ground (arith, k x, k y)) u.0,
    Unique-update_where p f xs k u.1,
  )

  pub Unique-insert_row :
      (a : A) (xs : List A)
      → Unique xs
      → any_where (λ x. str_eq (key x) (key a)) xs ≡ false
      → Unique (insert_row a xs)
  unfolding insert_row any_where
  Unique-insert_row a [] u h = (tt, tt)
  Unique-insert_row a (x ∷ xs) u h = (
    All-insert_row (λ y. key x ≢ key y) a xs (λ e. ground (arith, eq_iff (key x) (key a))) u.0,
    Unique-insert_row a xs u.1 (ground arith),
  )

module _ {A : Type 0} (key : A → String) where
  pub member-map :
      (t : String) (xs : List A)
      → member t (map key xs) ≡ true
      → (x : A) × Occurs x xs × (key x ≡ t)
  unfolding member
  member-map t [] e = cc
  member-map t (x ∷ xs) e = elim (Bool-cases (str_eq (key x) t)) [
    | inl h ↦ (x, inl refl, str_eq→eq (key x) t h)
    | inr n ↦ let (y, o, k) = member-map t xs (rw n at e) in (y, inr o, k)
  ]

  pub not-member-map :
      (t : String) (xs : List A)
      → ((x : A) → Occurs x xs → key x ≢ t)
      → member t (map key xs) ≡ false
  unfolding member
  not-member-map t [] h = refl
  not-member-map t (x ∷ xs) h =
      rw (ne→str_eq (key x) t (h x (inl refl)), not-member-map t xs (λ y o. h y (inr o)))

module _ {A : Type 0} where
  pub find_where-Unique :
      (key : A → String) (xs : List A) (a : A)
      → Unique key xs
      → Occurs a xs
      → find_where (λ x. str_eq (key x) (key a)) xs ≡ some a
  unfolding find_where
  find_where-Unique key [] a u o = absurd o
  find_where-Unique key (x ∷ xs) a u (inl e) = ground (arith, eq_iff (key x) (key a))
  find_where-Unique key (x ∷ xs) a u (inr o) = ground (
    arith,
    eq_iff (key x) (key a),
    find_where-Unique key xs a u.1 o,
    All-Occurs (λ y. key x ≢ key y) xs a u.0 o,
  )
