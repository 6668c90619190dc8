-- ===== src/Prelude/Sorting.antt =====
-- A stable sort by a Boolean order (Rust's `sort_by` and SQL's `ORDER BY`), with its laws.
use mathlib.Core.List.{Perm}
use mathlib.Core.List.Perm
use patchwright.Prelude.{
  ◌≡◌, inl, inr, Bool, true, false, List, [], ◌∷◌, if◌then◌else◌, All, Bool-cases, count, refl,
  arith, length, suc,
}

module _ {ℓ} {A : Type ℓ} (le : A → A → Bool) where
  abbrev pub insert_by : A → List A → List A
  insert_by x [] = x ∷ []
  insert_by x (y ∷ ys) = let rest = insert_by x ys in if le x y then x ∷ y ∷ ys else y ∷ rest

  abbrev pub sort_by : List A → List A
  sort_by [] = []
  sort_by (x ∷ xs) = insert_by x (sort_by xs)

  -- Every element stands before all that follow it.
  abbrev pub IsSorted : List A → Type ℓ
  IsSorted [] = Unit
  IsSorted (x ∷ xs) = All (λ y. le x y ≡ true) xs × IsSorted xs

  insert_by-perm : (x : A) (ys : List A) → Perm (insert_by x ys) (x ∷ ys)
  insert_by-perm x [] = Perm.refl (x ∷ [])
  insert_by-perm x (y ∷ ys) = elim (Bool-cases (le x y)) [
    | inl first ↦ rw first (Perm.refl (x ∷ y ∷ ys))
    | inr later ↦ rw later (Perm.trans (Perm.cons y (insert_by-perm x ys)) (Perm.swap x y ys))
  ]

  pub sort_by-perm : (xs : List A) → Perm (sort_by xs) xs
  sort_by-perm [] = Perm.refl []
  sort_by-perm (x ∷ xs) = Perm.trans (insert_by-perm x (sort_by xs)) (Perm.cons x (sort_by-perm xs))

  -- What holds of every element, and how many pass a test, does not depend on the order.
  All-insert {κ} : (P : A → Type κ) (x : A) (ys : List A) → P x → All P ys → All P (insert_by x ys)
  All-insert P x [] h all = (h, tt)
  All-insert P x (y ∷ ys) h all = elim (Bool-cases (le x y)) [
    | inl first ↦ rw first (h, all)
    | inr later ↦ rw later (all.0, All-insert P x ys h all.1)
  ]

  pub All-sort_by {κ} : (P : A → Type κ) (xs : List A) → All P xs → All P (sort_by xs)
  All-sort_by P [] h = tt
  All-sort_by P (x ∷ xs) h = All-insert P x (sort_by xs) h.0 (All-sort_by P xs h.1)

  count-insert_by :
      (p : A → Bool) (x : A) (ys : List A) → count p (insert_by x ys) ≡ count p (x ∷ ys)
  count-insert_by p x [] = refl
  count-insert_by p x (y ∷ ys) = ground (arith, count-insert_by p x ys)

  pub count-sort_by : (p : A → Bool) (xs : List A) → count p (sort_by xs) ≡ count p xs
  count-sort_by p [] = refl
  count-sort_by p (x ∷ xs) = ground (arith, count-insert_by p x (sort_by xs), count-sort_by p xs)

  length-insert_by : (x : A) (ys : List A) → length (insert_by x ys) ≡ suc (length ys)
  length-insert_by x [] = refl
  length-insert_by x (y ∷ ys) = ground (arith, length-insert_by x ys)

  pub length-sort_by : (xs : List A) → length (sort_by xs) ≡ length xs
  length-sort_by [] = refl
  length-sort_by (x ∷ xs) = omega (arith, length-insert_by x (sort_by xs), length-sort_by xs)

  module _ (total : (x y : A) → le x y ≡ false → le y x ≡ true)
      (trans : (x y z : A) → le x y ≡ true → le y z ≡ true → le x z ≡ true) where
    All-trans :
        (x y : A) (zs : List A)
        → le x y ≡ true
        → All (λ z. le y z ≡ true) zs
        → All (λ z. le x z ≡ true) zs
    All-trans x y [] h a = tt
    All-trans x y (z ∷ zs) h a = (trans x y z h a.0, All-trans x y zs h a.1)

    All-insert_by :
        (a x : A) (ys : List A)
        → le a x ≡ true
        → All (λ y. le a y ≡ true) ys
        → All (λ y. le a y ≡ true) (insert_by x ys)
    All-insert_by a x [] h all = (h, tt)
    All-insert_by a x (y ∷ ys) h all = elim (Bool-cases (le x y)) [
      | inl first ↦ rw first (h, all)
      | inr later ↦ rw later (all.0, All-insert_by a x ys h all.1)
    ]

    insert_by-IsSorted : (x : A) (ys : List A) → IsSorted ys → IsSorted (insert_by x ys)
    insert_by-IsSorted x [] s = (tt, tt)
    insert_by-IsSorted x (y ∷ ys) s = elim (Bool-cases (le x y)) [
      | inl first ↦ rw first ((first, All-trans x y ys first s.0), s)
      | inr later ↦
          rw later (All-insert_by y x ys (total x y later) s.0, insert_by-IsSorted x ys s.1)
    ]

    pub sort_by-IsSorted : (xs : List A) → IsSorted (sort_by xs)
    sort_by-IsSorted [] = tt
    sort_by-IsSorted (x ∷ xs) = insert_by-IsSorted x (sort_by xs) (sort_by-IsSorted xs)

-- A list sorted by an order is sorted by every weaker one.
pub IsSorted-weaken {ℓ} :
    {A : Type ℓ} (le le' : A → A → Bool)
    → ((a b : A) → le a b ≡ true → le' a b ≡ true)
    → (xs : List A) → IsSorted le xs
    → IsSorted le' xs
IsSorted-weaken le le' f [] s = tt
IsSorted-weaken {A = A} le le' f (x ∷ xs) s = (below xs s.0, IsSorted-weaken le le' f xs s.1)
  where
    below : (ys : List A) → All (λ y. le x y ≡ true) ys → All (λ y. le' x y ≡ true) ys
    below [] h = tt
    below (y ∷ ys) h = (f x y h.0, below ys h.1)
