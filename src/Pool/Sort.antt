-- ===== src/Pool/Sort.antt =====
-- Python's `sorted(xs, key=...)`, which is stable: of equal elements the first stays first. It serves
-- src/nectarapi/pool.py, which takes the first element of the result.
use hive_nectar.Prelude.{
  Bool, true, false, inl, inr, Bool-cases, ◌≡◌, refl, List, [], ◌∷◌, if◌then◌else◌, All,
}

module _ {ℓ} {A : Type ℓ} (le : A → A → Bool) where
  unfoldable pub insert : A → List A → List A
  insert x [] = x ∷ []
  insert x (y ∷ ys) = let rest = insert x ys in if le x y then x ∷ y ∷ ys else y ∷ rest

  unfoldable pub sort : List A → List A
  unfolding insert
  sort [] = []
  sort (x ∷ xs) = insert x (sort xs)

  -- The first element has `P`, which all have, and comes before all.
  abbrev pub Best : (A → Type ℓ) → List A → List A → Type ℓ
  Best P xs [] = xs ≡ []
  Best P xs (h ∷ t) = P h × All (λ x. le h x ≡ true) xs

module _ {ℓ} {A : Type ℓ} (le : A → A → Bool) (le_refl : (x : A) → le x x ≡ true)
    (le_total : (x y : A) → le x y ≡ false → le y x ≡ true)
    (le_trans : (x y z : A) → le x y ≡ true → le y z ≡ true → le x z ≡ true) (P : A → Type ℓ) where
  All-trans :
      (x h : A) (xs : List A)
      → le x h ≡ true
      → All (λ y. le h y ≡ true) xs
      → All (λ y. le x y ≡ true) xs
  All-trans x h [] e a = tt
  All-trans x h (y ∷ xs) e (b, a) = (le_trans x h y e b, All-trans x h xs e a)

  insert-Best : (x : A) (xs l : List A) → P x → Best le P xs l → Best le P (x ∷ xs) (insert le x l)
  unfolding insert
  insert-Best x [] [] p b = (p, (le_refl x, tt))
  insert-Best x (y ∷ ys) [] p b = cc
  insert-Best x xs (h ∷ t) p (q, a) = elim (Bool-cases (le x h)) [
    | inl e ↦ rw (e, insert) (p, (le_refl x, All-trans x h xs e a))
    | inr e ↦ rw (e, insert) (q, (le_total x h e, a))
  ]

  pub sort-Best : (xs : List A) → All P xs → Best le P xs (sort le xs)
  unfolding sort
  sort-Best [] a = refl
  sort-Best (x ∷ xs) (p, a) = insert-Best x xs (sort le xs) p (sort-Best xs a)
