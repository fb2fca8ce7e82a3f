-- ===== src/Base/Select.antt =====
-- Selecting and joining lists as SQL does, and predicates on all or some elements through these
-- operations and through a permutation.
use mathlib.Core.Path.{◌≡◌, refl, subst, ap, ◌∙◌}
use mathlib.Core.Bool.{Bool, true, ◌&&◌}
use mathlib.Core.List.{List, [], ◌∷◌, ◌++◌, map, map-append, Permᴰ}
use mathlib.Core.Logic.{inl, inr}
use pg_ducklake_next.Base.Tests.{if◌then◌else◌, Bool-cases}
use pg_ducklake_next.Base.Lists.{All, Any, All-append, All-split}

module _ {A : Type 0} where
  -- The elements on which the test is true.
  abbrev pub select : (A → Bool) → List A → List A
  select p [] = []
  select p (x ∷ xs) = let rest = select p xs in if p x then x ∷ rest else rest

  abbrev pub concat_map : {B : Type 0} → (A → List B) → List A → List B
  concat_map f [] = []
  concat_map f (x ∷ xs) = f x ++ concat_map f xs

  pub All-select : (p : A → Bool) (xs : List A) → All (λ x. p x ≡ true) (select p xs)
  All-select p [] = tt
  All-select p (x ∷ xs) = elim (Bool-cases (p x)) [
    | inl yes_x ↦ rw yes_x (yes_x, All-select p xs)
    | inr no_x ↦ rw no_x (All-select p xs)
  ]

  -- A test of two parts selects twice.
  pub select-select :
      (p q : A → Bool) (xs : List A) → select q (select p xs) ≡ select (λ x. p x && q x) xs
  select-select p q [] = refl
  select-select p q (x ∷ xs) = elim (Bool-cases (p x)) [
    | inl yes_x ↦ elim (Bool-cases (q x)) [
      | inl both ↦ rw (yes_x, both) (ap (λ l. x ∷ l) (select-select p q xs))
      | inr not_q ↦ rw (yes_x, not_q) (select-select p q xs)
    ]
    | inr no_x ↦ rw no_x (select-select p q xs)
  ]

module _ {A : Type 0} {P Q : A → Type 0} where
  pub Any-imp : ((x : A) → P x → Q x) → (xs : List A) → Any P xs → Any Q xs
  Any-imp f [] h = absurd h
  Any-imp f (x ∷ xs) (inl p) = inl (f x p)
  Any-imp f (x ∷ xs) (inr later) = inr (Any-imp f xs later)

module _ {A B : Type 0} where
  pub Any-map :
      (P : B → Type 0) (f : A → B) (xs : List A) → Any (λ x. P (f x)) xs → Any P (map f xs)
  Any-map P f [] h = h
  Any-map P f (x ∷ xs) (inl p) = inl p
  Any-map P f (x ∷ xs) (inr later) = inr (Any-map P f xs later)

  pub All-of-map :
      (P : B → Type 0) (f : A → B) (xs : List A) → All (λ x. P (f x)) xs → All P (map f xs)
  All-of-map P f [] h = tt
  All-of-map P f (x ∷ xs) h = (h.0, All-of-map P f xs h.1)

  pub All-from_map :
      (P : B → Type 0) (f : A → B) (xs : List A) → All P (map f xs) → All (λ x. P (f x)) xs
  All-from_map P f [] h = tt
  All-from_map P f (x ∷ xs) h = (h.0, All-from_map P f xs h.1)

  pub All-from_concat_map :
      (P : B → Type 0) (f : A → List B) (xs : List A)
      → All P (concat_map f xs)
      → All (λ x. All P (f x)) xs
  All-from_concat_map P f [] h = tt
  All-from_concat_map P f (x ∷ xs) h =
      let (here, later) = All-split P (f x) (concat_map f xs) h in
      (here, All-from_concat_map P f xs later)

  pub All-concat_map :
      (P : B → Type 0) (f : A → List B) (xs : List A)
      → All (λ x. All P (f x)) xs
      → All P (concat_map f xs)
  All-concat_map P f [] h = tt
  All-concat_map P f (x ∷ xs) h =
      All-append P (f x) (concat_map f xs) h.0 (All-concat_map P f xs h.1)

  -- Functions that agree on the elements.
  pub concat_map_cong :
      (f g : A → List B) (xs : List A) → All (λ x. f x ≡ g x) xs → concat_map f xs ≡ concat_map g xs
  concat_map_cong f g [] h = refl
  concat_map_cong f g (x ∷ xs) h = rw (h.0, concat_map_cong f g xs h.1) refl

  pub map-concat_map :
      {C : Type 0}
      → (g : B → C) (f : A → List B) (xs : List A)
      → map g (concat_map f xs) ≡ concat_map (λ x. map g (f x)) xs
  map-concat_map g f [] = refl
  map-concat_map g f (x ∷ xs) =
      map-append g (f x) (concat_map f xs) ∙ ap (λ l. map g (f x) ++ l) (map-concat_map g f xs)

module _ {A : Type 0} (P : A → Type 0) where
  pub All-every : ((x : A) → P x) → (xs : List A) → All P xs
  All-every h [] = tt
  All-every h (x ∷ xs) = (h x, All-every h xs)

  pub Any-append_left : (xs ys : List A) → Any P xs → Any P (xs ++ ys)
  Any-append_left [] ys h = absurd h
  Any-append_left (x ∷ xs) ys (inl p) = inl p
  Any-append_left (x ∷ xs) ys (inr later) = inr (Any-append_left xs ys later)

  pub Any-append_right : (xs ys : List A) → Any P ys → Any P (xs ++ ys)
  Any-append_right [] ys h = h
  Any-append_right (x ∷ xs) ys h = inr (Any-append_right xs ys h)

  pub All-perm : {xs ys : List A} → Permᴰ xs ys → All P xs → All P ys
  All-perm Permᴰ.nil h = h
  All-perm (Permᴰ.cons e p) h = (subst P e h.0, All-perm p h.1)
  All-perm (Permᴰ.swap e f) h = (subst P f h.1.0, (subst P e h.0, h.1.1))
  All-perm (Permᴰ.trans p q) h = All-perm q (All-perm p h)

  pub Any-perm : {xs ys : List A} → Permᴰ xs ys → Any P xs → Any P ys
  Any-perm Permᴰ.nil h = h
  Any-perm (Permᴰ.cons e p) (inl x) = inl (subst P e x)
  Any-perm (Permᴰ.cons e p) (inr later) = inr (Any-perm p later)
  Any-perm (Permᴰ.swap e f) (inl x) = inr (inl (subst P e x))
  Any-perm (Permᴰ.swap e f) (inr (inl x)) = inl (subst P f x)
  Any-perm (Permᴰ.swap e f) (inr (inr later)) = inr (inr later)
  Any-perm (Permᴰ.trans p q) h = Any-perm q (Any-perm p h)
