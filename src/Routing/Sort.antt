-- ===== src/Routing/Sort.antt =====
-- policies.py: what `sorted` returns, and the comparisons it is called with.
use mathlib.Core.List.{Perm}
use mathlib.Core.List.Perm
use switchyard_llm.Prelude.{
  ℕ, suc, ◌≡◌, Bool, true, false, List, [], ◌∷◌, map, Bool-cases, inl, inr, refl,
}
use switchyard_llm.Routing.{insert_by, sorted, enumerate}

module _ {ℓ} {A : Type ℓ} (le : A → A → Bool) where
  -- Each element is in order with the next one.
  abbrev pub IsSorted : List A → Type 0
  IsSorted [] = Unit {0}
  IsSorted (x ∷ []) = Unit {0}
  IsSorted (x ∷ y ∷ ys) = (le x y ≡ true) × IsSorted (y ∷ ys)

  pub insert_by-Perm : (x : A) (l : List A) → Perm (insert_by le x l) (x ∷ l)
  unfolding insert_by
  insert_by-Perm x [] = Perm.refl (x ∷ [])
  insert_by-Perm x (y ∷ ys) = elim (Bool-cases (le x y)) [
    | inl before ↦ rw before (Perm.refl (x ∷ y ∷ ys))
    | inr after ↦ rw after (Perm.trans (Perm.cons y (insert_by-Perm x ys)) (Perm.swap x y ys))
  ]

  pub sorted-Perm : (l : List A) → Perm (sorted le l) l
  unfolding sorted
  sorted-Perm [] = Perm.refl []
  sorted-Perm (x ∷ xs) = Perm.trans (insert_by-Perm x (sorted le xs)) (Perm.cons x (sorted-Perm xs))

  module _ (total : (x y : A) → le x y ≡ false → le y x ≡ true) where
    insert_after :
        (x y : A) (l : List A)
        → le y x ≡ true
        → IsSorted (y ∷ l)
        → IsSorted (insert_by le x l)
        → IsSorted (y ∷ insert_by le x l)
    unfolding insert_by
    insert_after x y [] p s t = (p, tt)
    insert_after x y (z ∷ zs) p s t = elim (Bool-cases (le x z)) [
      | inl before ↦ rw before (p, rw before at t)
      | inr after ↦ rw after (s.0, rw after at t)
    ]

    pub insert_by-IsSorted : (x : A) (l : List A) → IsSorted l → IsSorted (insert_by le x l)
    unfolding insert_by
    insert_by-IsSorted x [] s = tt
    insert_by-IsSorted x (y ∷ []) s = elim (Bool-cases (le x y)) [
      | inl before ↦ rw before (before, tt)
      | inr after ↦ rw after (total x y after, tt)
    ]
    insert_by-IsSorted x (y ∷ z ∷ zs) s = elim (Bool-cases (le x y)) [
      | inl before ↦ rw before (before, s)
      | inr after ↦
          rw after
            (insert_after x y (z ∷ zs) (total x y after) s (insert_by-IsSorted x (z ∷ zs) s.1))
    ]

    pub sorted-IsSorted : (l : List A) → IsSorted (sorted le l)
    unfolding sorted
    sorted-IsSorted [] = tt
    sorted-IsSorted (x ∷ xs) = insert_by-IsSorted x (sorted le xs) (sorted-IsSorted xs)

pub enumerate_values {ℓ} :
    {A : Type ℓ} (i : ℕ) (l : List A) → map (λ (p : ℕ × A). p.1) (enumerate i l) ≡ l
enumerate_values i [] = refl
enumerate_values i (x ∷ xs) = rw (enumerate_values (suc i) xs) refl
