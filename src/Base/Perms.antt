-- ===== src/Base/Perms.antt =====
-- Permutations in which one element moves to the front.
use mathlib.Core.List.{List, ◌∷◌, ◌++◌, Perm, perm_middle}
use mathlib.Core.List.Perm

module _ {ℓ} {A : Type ℓ} (a x : A) where
  -- The new element `x` stands in the first part.
  pub perm_new_left :
      {left' left : List A} (right : List A)
      → Perm left' (x ∷ left)
      → Perm (a ∷ (left' ++ right)) (x ∷ a ∷ (left ++ right))
  perm_new_left right p = Perm.trans (Perm.cons a (Perm.append_right right p)) (Perm.swap x a _)

  -- The new element `x` stands in the second part.
  pub perm_new_right :
      (left : List A) {right' right : List A}
      → Perm right' (x ∷ right)
      → Perm (a ∷ (left ++ right')) (x ∷ a ∷ (left ++ right))
  perm_new_right left p =
      Perm.trans (Perm.cons a (Perm.trans (Perm.append_left left p) (perm_middle left _)))
        (Perm.swap x a _)
