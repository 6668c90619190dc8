-- ===== src/Prelude/Tables/Keys.antt =====
-- A table with a primary key.
use patchwright.Prelude.{
  ℕ, ◌≤◌, ◌≡◌, refl, subst, ◌∙◌, count-append, nat_beq_iff, Bool, true, false, inl, inr, List, [],
  ◌∷◌, ◌++◌, All, count, retain, length, Bool-cases, arith, ◌==◌, nat_eq,
}
use patchwright.Prelude.Tables.{update_where, All-zip, length-retain, count-of_All-false}

module _ {ℓ} {A : Type ℓ} where
  -- A primary key: no key stands in two rows.
  module _ (key : A → ℕ) where
    abbrev pub HasUniqueKeys : List A → Type 0
    HasUniqueKeys [] = Unit
    HasUniqueKeys (x ∷ xs) = (count (λ y. key y == key x) xs ≡ 0) × HasUniqueKeys xs

    pub keys_differ : (x y : A) → (key x == key y) ≡ false → (key y == key x) ≡ false
    keys_differ x y h = ground arith

    pub count-le_one : (k : ℕ) (xs : List A) → HasUniqueKeys xs → count (λ y. key y == k) xs ≤ 1
    count-le_one k [] h = omega arith
    count-le_one k (x ∷ xs) h = elim (Bool-cases (key x == k)) [
      | inl same ↦
          let none_left =
            subst (λ j. count (λ y. key y == j) xs ≡ 0) ((nat_beq_iff (key x) k).0 same) h.0 in
          rw same (omega (arith, none_left))
      | inr other ↦ rw other (count-le_one k xs h.1)
    ]

    pub count-update_where :
        (k : ℕ) (test : A → Bool) (change : A → A)
        → ((x : A) → test x ≡ true → key (change x) ≡ key x)
        → (xs : List A)
        → count (λ y. key y == k) (update_where test change xs) ≡ count (λ y. key y == k) xs
    count-update_where k test change keep [] = refl
    count-update_where k test change keep (x ∷ xs) = elim (Bool-cases (test x)) [
      | inl passed ↦ rw (passed, keep x passed, count-update_where k test change keep xs)
      | inr failed ↦ rw (failed, count-update_where k test change keep xs)
    ]

    pub HasUniqueKeys-update_where :
        (test : A → Bool) (change : A → A)
        → ((x : A) → test x ≡ true → key (change x) ≡ key x)
        → (xs : List A) → HasUniqueKeys xs
        → HasUniqueKeys (update_where test change xs)
    HasUniqueKeys-update_where test change keep [] h = tt
    HasUniqueKeys-update_where test change keep (x ∷ xs) h =
        let rest = HasUniqueKeys-update_where test change keep xs h.1 in
        let clear = count-update_where (key x) test change keep xs ∙ h.0 in
        elim (Bool-cases (test x)) [
          | inl passed ↦ rw (passed, keep x passed) (clear, rest)
          | inr failed ↦ rw failed (clear, rest)
        ]

    pub HasUniqueKeys-append :
        (xs : List A) (x : A)
        → HasUniqueKeys xs
        → count (λ y. key y == key x) xs ≡ 0
        → HasUniqueKeys (xs ++ x ∷ [])
    HasUniqueKeys-append [] x h c = (refl, tt)
    HasUniqueKeys-append (z ∷ xs) x h c = elim (Bool-cases (key z == key x)) [
      | inl same ↦ absurd (omega (arith, rw same at c))
      | inr other ↦ (
        count-append _ xs (x ∷ []) ∙ rw (h.0, keys_differ z x other),
        HasUniqueKeys-append xs x h.1 (rw other at c),
      )
    ]

    -- The rows of one key: none or one.
    pub retain_one :
        (k : ℕ) (xs : List A)
        → HasUniqueKeys xs
        → 1 ≤ count (λ y. key y == k) xs
        → (x : A) × (retain (λ y. key y == k) xs ≡ x ∷ [])
    retain_one k xs h c =
        one (retain (λ y. key y == k) xs) (length-retain (λ y. key y == k) xs) (count-le_one k xs h)
          c
      where
        one : {n : ℕ} (ys : List A) → length ys ≡ n → n ≤ 1 → 1 ≤ n → (x : A) × (ys ≡ x ∷ [])
        one [] e u l = absurd (omega arith)
        one (y ∷ []) e u l = (y, refl)
        one (y ∷ z ∷ ys) e u l = absurd (omega arith)

    All-of_count-zero :
        (k : ℕ) (xs : List A) → count (λ y. key y == k) xs ≡ 0 → All (λ y. (key y == k) ≡ false) xs
    All-of_count-zero k [] h = tt
    All-of_count-zero k (x ∷ xs) h = elim (Bool-cases (key x == k)) [
      | inl same ↦ absurd (omega (arith, rw same at h))
      | inr other ↦ (other, All-of_count-zero k xs (rw other at h))
    ]

    retain-absent :
        (p : A → Bool) (k : ℕ) (xs : List A)
        → count (λ y. key y == k) xs ≡ 0
        → All (λ y. (key y == k) ≡ false) (retain p xs)
    retain-absent p k [] h = tt
    retain-absent p k (x ∷ xs) h = elim (Bool-cases (key x == k)) [
      | inl same ↦ absurd (omega (arith, rw same at h))
      | inr other ↦
          let rest = retain-absent p k xs (rw other at h) in
          elim (Bool-cases (p x)) [
            | inl passed ↦ rw passed (other, rest)
            | inr failed ↦ rw failed rest
          ]
    ]

    -- The key of a row that fails a test stands in none of those that pass it.
    pub retain-excludes :
        (p : A → Bool) (xs : List A)
        → HasUniqueKeys xs
        → All (λ x. p x ≡ false → All (λ y. (key y == key x) ≡ false) (retain p xs)) xs
    retain-excludes p [] h = tt
    retain-excludes p (x ∷ xs) h = (
      λ failed. rw failed (retain-absent p (key x) xs h.0),
      All-zip
          (λ y absent excludes failed. elim (Bool-cases (p x)) [
            | inl passed ↦ rw passed (keys_differ y x absent, excludes failed)
            | inr out ↦ rw out (excludes failed)
          ])
          xs (All-of_count-zero (key x) xs h.0) (retain-excludes p xs h.1),
    )

    pub HasUniqueKeys-retain :
        (p : A → Bool) (xs : List A) → HasUniqueKeys xs → HasUniqueKeys (retain p xs)
    HasUniqueKeys-retain p [] h = tt
    HasUniqueKeys-retain p (x ∷ xs) h = elim (Bool-cases (p x)) [
      | inl passed ↦
          rw passed
            (count-of_All-false _ _ (retain-absent p (key x) xs h.0), HasUniqueKeys-retain p xs h.1)
      | inr failed ↦ rw failed (HasUniqueKeys-retain p xs h.1)
    ]
