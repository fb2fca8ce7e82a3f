-- ===== src/Base/Result.antt =====
-- A value or an error. A chain of steps that may throw is a `do` block over it.
use mathlib.Core.Path.{◌≡◌, refl, subst}
use mathlib.Core.List.{List, [], ◌∷◌, ◌++◌, append-nil, append_assoc}

pub data Result {ℓ} (E A : Type ℓ) : Type ℓ where
  ok : A → Result E A
  err : E → Result E A

module _ {ℓ} {E A B : Type ℓ} where
  -- The next step runs on the value of the step before; an error skips it.
  infixl 5 ◌>>=◌
  abbrev pub ◌>>=◌ : Result E A → (A → Result E B) → Result E B
  err thrown >>= next = err thrown
  ok value >>= next = next value

  -- A chain that ends well has steps that ended well.
  pub >>=-eq-ok :
      (first : Result E A) (next : A → Result E B) {y : B}
      → first >>= next ≡ ok y
      → (x : A) × (first ≡ ok x) × (next x ≡ ok y)
  >>=-eq-ok (err thrown) next ends = cc
  >>=-eq-ok (ok value) next ends = (value, refl, ends)

-- `for (x : xs) s = step(s, x)` with a body that may throw.
unfoldable pub fold_result {ℓ} : {E S A : Type ℓ} → (S → A → Result E S) → S → List A → Result E S
fold_result step s [] = ok s
fold_result step s (x ∷ xs) = step s x >>= λ s'. fold_result step s' xs

pub ok-injective {ℓ} : {E A : Type ℓ} {a b : A} → ◌≡◌ {A = Result E A} (ok a) (ok b) → a ≡ b
ok-injective h = cc

module _ {ℓ κ} {E S A : Type ℓ} (step : S → A → Result E S) (P : List A → S → Type κ) where
  -- The loop rule: what each round keeps, about the elements that it has passed, holds after a
  -- loop that did not throw.
  pub fold_result_inv :
      ((done : List A) (x : A) (s s' : S) → P done s → step s x ≡ ok s' → P (done ++ x ∷ []) s')
      → (done xs : List A) (s s' : S) → P done s
      → fold_result step s xs ≡ ok s'
      → P (done ++ xs) s'
  unfolding fold_result
  fold_result_inv keep done [] s s' h e = rw (append-nil done) (subst (P done) (ok-injective e) h)
  fold_result_inv keep done (x ∷ xs) s s' h e =
      let (t, first, rest) = >>=-eq-ok (step s x) (λ t. fold_result step t xs) e in
      subst (λ l. P l s') (append_assoc done (x ∷ []) xs)
        (fold_result_inv keep (done ++ x ∷ []) xs t s' (keep done x s t h first) rest)

module _ {ℓ κ} {E S A : Type ℓ} (step : S → A → Result E S) (P : List A → List A → S → Type κ) where
  -- The rule for success: a body that does not throw while elements remain ends the loop normally.
  pub fold_result_total :
      ((done : List A) (x : A) (rest : List A) (s : S)
        → P done (x ∷ rest) s
        → (s' : S) × (step s x ≡ ok s') × P (done ++ x ∷ []) rest s')
      → (done xs : List A) (s : S) → P done xs s
      → (s' : S) × (fold_result step s xs ≡ ok s') × P (done ++ xs) [] s'
  unfolding fold_result
  fold_result_total keep done [] s h = (s, refl, rw (append-nil done) h)
  fold_result_total keep done (x ∷ xs) s h =
      let (t, first, p) = keep done x xs s h in
      let (s', rest, q) = fold_result_total keep (done ++ x ∷ []) xs t p in
      (s', rw first rest, subst (λ l. P l [] s') (append_assoc done (x ∷ []) xs) q)
