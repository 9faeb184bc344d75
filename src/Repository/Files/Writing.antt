-- ===== src/Repository/Files/Writing.antt =====
-- What the changes of a model may write.
use automated_workflow.Prelude.{
  String, Bool, true, false, List, [], ◌∷◌, ◌≡◌, refl, inl, inr, arith,
}
use automated_workflow.Prelude.Tests.{Bool-cases}
use automated_workflow.Prelude.Outcome.{Outcome, returned, raised, pure, ◌>>=◌}
use automated_workflow.Prelude.Steps.{Preserves-bind}
use automated_workflow.Prelude.Table.{All}
use automated_workflow.Prelude.Rows.{All-insert_row}
use automated_workflow.Repository.{is_ignored, is_relative_to, relative_to}
use automated_workflow.Repository.Files.{Written, same_path, safe_path, write_change, write_changes}

module _ (root : List String) (is_absolute : String → Bool) (resolve : String → List String) where
  -- The file lies below the root, and no part of its path below the root is ignored.
  abbrev pub IsInside : Written → Type 0
  IsInside w =
      (is_relative_to w.0 root ≡ true)
      × (same_path w.0 root ≡ false)
      × (is_ignored (relative_to w.0 root) ≡ false)

  safe_path-inside :
      (relative : String) (target : List String)
      → safe_path root is_absolute resolve relative ≡ returned target
      → is_relative_to target root ≡ true
  unfolding safe_path
  safe_path-inside relative target e = ground (arith, e)

  after_path :
      (relative content : String) (o : Outcome (List String)) (ws : List Written)
      → safe_path root is_absolute resolve relative ≡ o
      → All IsInside ws
      → All IsInside (write_change root is_absolute resolve relative content ws).1
  unfolding write_change
  after_path relative content (raised x) ws e a = rw e a
  after_path relative content (returned target) ws e a = elim (Bool-cases (same_path target root)) [
    | inl s ↦ rw (e, s) a
    | inr s ↦ elim (Bool-cases (is_ignored (relative_to target root))) [
      | inl i ↦ rw (e, s, i) a
      | inr i ↦
          rw (e, s, i)
            (All-insert_row IsInside (target, content) ws (safe_path-inside relative target e, s, i)
              a)
    ]
  ]

  -- Whatever the changes are and whether or not one of them is refused, every file that is written
  -- resolves to a path below the root of the repository, other than the root, with no ignored part
  -- below it such as `.git`.
  pub write_changes-IsInside :
      (changes : List (String × String)) (ws : List Written)
      → All IsInside ws
      → All IsInside (write_changes root is_absolute resolve changes ws).1
  unfolding write_changes
  write_changes-IsInside [] ws a = a
  write_changes-IsInside ((relative, content) ∷ changes) ws a =
      Preserves-bind (All IsInside) (write_change root is_absolute resolve relative content)
        (λ written. do rest ← write_changes root is_absolute resolve changes; pure (written ∷ rest))
        (λ vs b.
          after_path relative content (safe_path root is_absolute resolve relative) vs refl b)
        (λ written.
          Preserves-bind (All IsInside) (write_changes root is_absolute resolve changes)
            (λ rest. pure (written ∷ rest)) (write_changes-IsInside changes) (λ rest vs b. b))
        ws a
