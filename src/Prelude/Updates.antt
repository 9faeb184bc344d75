-- ===== src/Prelude/Updates.antt =====
-- What an UPDATE leaves for a condition that its rows no longer meet.
use automated_workflow.Prelude.Tests.{Bool-cases, if◌then◌else◌}
use Prim.Native.Nat.{◌≤◌, ◌<◌}
use mathlib.Core.Path.{◌≡◌, refl}
use mathlib.Core.Bool.{Bool, true, false}
use mathlib.Core.Option.{none, some}
use mathlib.Core.List.{List, [], ◌∷◌, map}
use mathlib.Core.Logic.{inl, inr}
use automated_workflow.Prelude.Rows.{Occurs}
use native.Mathlib.Omega.{arith}
use automated_workflow.Prelude.Table.{
  All, update_where, find_where, count_where, any_where, insert_row,
}

module _ {A : Type 0} where
  -- No row meets the condition that its own update ends.
  pub count_where-update_where_self :
      (p : A → Bool) (f : A → A) (xs : List A)
      → ((x : A) → p (f x) ≡ false)
      → count_where p (update_where p f xs) ≡ 0
  unfolding count_where update_where
  count_where-update_where_self p f [] k = refl
  count_where-update_where_self p f (x ∷ xs) k =
      ground (arith, k x, count_where-update_where_self p f xs k)

  -- The same, where the condition that no updated row meets is one that only updated rows could.
  pub find_where-update_where_gone :
      (p q : A → Bool) (f : A → A) (xs : List A)
      → ((x : A) → p x ≡ true → q x ≡ true)
      → ((x : A) → p (f x) ≡ false)
      → find_where p (update_where q f xs) ≡ none
  unfolding find_where update_where
  find_where-update_where_gone p q f [] k g = refl
  find_where-update_where_gone p q f (x ∷ xs) k g =
      ground (arith, k x, g x, find_where-update_where_gone p q f xs k g)

  -- A condition that is stronger than one with no row has no row.
  pub count_where_mono :
      (p q : A → Bool) (xs : List A)
      → ((x : A) → p x ≡ true → q x ≡ true)
      → count_where p xs ≤ count_where q xs
  unfolding count_where
  count_where_mono p q [] k = omega arith
  count_where_mono p q (x ∷ xs) k = ground (arith, k x, count_where_mono p q xs k)

  pub update_where_none :
      (p : A → Bool) (f : A → A) (xs : List A) → count_where p xs ≡ 0 → update_where p f xs ≡ xs
  unfolding count_where update_where
  update_where_none p f [] e = refl
  update_where_none p f (x ∷ xs) e = ground (arith, update_where_none p f xs)

  -- The first row of a condition, after an update of the rows of a stronger one that keeps both.
  pub find_where-update_where_within :
      (p q : A → Bool) (f : A → A) (xs : List A)
      → ((x : A) → p (f x) ≡ p x)
      → (a : A) → find_where p xs ≡ some a
      → find_where p (update_where q f xs) ≡ some (if q a then f a else a)
  unfolding find_where update_where
  find_where-update_where_within p q f [] k a e = cc e
  find_where-update_where_within p q f (x ∷ xs) k a e =
      ground (arith, k x, find_where-update_where_within p q f xs k a)

  pub count_where-All :
      (p : A → Bool) (xs : List A) → All (λ x. p x ≡ false) xs → count_where p xs ≡ 0
  unfolding count_where
  count_where-All p [] a = refl
  count_where-All p (x ∷ xs) a = ground (arith, count_where-All p xs a.1)

  pub count_where-Occurs :
      (p : A → Bool) (xs : List A) (a : A) → Occurs a xs → p a ≡ true → 0 < count_where p xs
  unfolding count_where
  count_where-Occurs p [] a o h = absurd o
  count_where-Occurs p (x ∷ xs) a (inl e) h = ground arith
  count_where-Occurs p (x ∷ xs) a (inr o) h = ground (arith, count_where-Occurs p xs a o h)

  pub any_where-All :
      (p : A → Bool) (xs : List A) → any_where p xs ≡ false → All (λ x. p x ≡ false) xs
  unfolding any_where
  any_where-All p [] e = tt
  any_where-All p (x ∷ xs) e = (ground arith, any_where-All p xs (ground arith))

  -- Where at most one row is in question, an update of it that ends the condition leaves none.
  pub count_where-update_where_only :
      (p q r : A → Bool) (f : A → A) (xs : List A)
      → ((x : A) → p x ≡ true → q x ≡ true)
      → ((x : A) → r x ≡ true → q x ≡ true)
      → ((x : A) → r (f x) ≡ false)
      → count_where q xs ≤ 1
      → count_where p xs ≡ 1
      → count_where r (update_where p f xs) ≡ 0
  unfolding count_where update_where
  count_where-update_where_only p q r f [] pq rq rf one hit = refl
  count_where-update_where_only p q r f (x ∷ xs) pq rq rf one hit = ground (
    arith,
    pq x,
    rq x,
    rf x,
    count_where_mono p q xs pq,
    count_where_mono r q xs rq,
    update_where_none p f xs,
    count_where-update_where_only p q r f xs pq rq rf,
  )

  pub Occurs-map :
      {B : Type 0} (f : A → B) (b : B) (xs : List A)
      → Occurs b (map f xs)
      → (a : A) × Occurs a xs × (b ≡ f a)
  Occurs-map f b [] o = absurd o
  Occurs-map f b (x ∷ xs) (inl e) = (x, inl refl, e)
  Occurs-map f b (x ∷ xs) (inr o) = let (a, m, e) = Occurs-map f b xs o in (a, inr m, e)

  pub find_where-insert_row :
      (p : A → Bool) (a : A) (xs : List A)
      → find_where p xs ≡ none
      → p a ≡ true
      → find_where p (insert_row a xs) ≡ some a
  unfolding find_where insert_row
  find_where-insert_row p a [] e h = rw h refl
  find_where-insert_row p a (x ∷ xs) e h = ground (arith, e, find_where-insert_row p a xs)

  pub any_where-found :
      (p : A → Bool) (xs : List A) (a : A) → find_where p xs ≡ some a → any_where p xs ≡ true
  unfolding find_where any_where
  any_where-found p [] a e = absurd (ground (arith, e))
  any_where-found p (x ∷ xs) a e = ground (arith, any_where-found p xs a)

  pub any_where-none :
      (p : A → Bool) (xs : List A) → find_where p xs ≡ none → any_where p xs ≡ false
  unfolding find_where any_where
  any_where-none p [] e = refl
  any_where-none p (x ∷ xs) e = ground (arith, any_where-none p xs)

module _ {A : Type 0} (p q : A → Bool) (f : A → A) where
  -- Where an update makes rows that are searched for, and there are no others, one is found.
  pub find_where-updated :
      (xs : List A)
      → ((x : A) → p x ≡ true → q (f x) ≡ true)
      → ((x : A) → p x ≡ false → q x ≡ false)
      → any_where p xs ≡ true
      → (x : A) × (find_where q (update_where p f xs) ≡ some (f x))
  unfolding find_where update_where any_where
  find_where-updated [] g k h = absurd (ground (arith, h))
  find_where-updated (x ∷ xs) g k h = elim (Bool-cases (p x)) [
    | inl e ↦ (x, rw e (rw (g x e) refl))
    | inr e ↦ let (y, r) = find_where-updated xs g k (rw e at h) in (y, rw e (rw (k x e) r))
  ]

module _ {A : Type 0} (p q : A → Bool) where
  pub find_where-never :
      (xs : List A)
      → ((x : A) → p x ≡ false → q x ≡ false)
      → any_where p xs ≡ false
      → find_where q xs ≡ none
  unfolding find_where any_where
  find_where-never [] k h = refl
  find_where-never (x ∷ xs) k h = ground (arith, h, k x, find_where-never xs k)
