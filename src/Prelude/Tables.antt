-- ===== src/Prelude/Tables.antt =====
-- A table as the list of its rows: SQL's `UPDATE … WHERE`, and laws of the row counts.
pub mod Keys
use mathlib.Core.Option.{some-injective}
use mathlib.Core.Bool.{or-true}
use patchwright.Prelude.{
  ℕ, ◌≤◌, ◌≡◌, refl, sym, ap, subst, ◌∙◌, count-append, nat_beq_iff, Bool, true, false, inl, inr,
  some, List, [], ◌∷◌, ◌++◌, map, if◌then◌else◌, All, count, retain, find, length, Bool-cases,
  arith, ◌==◌, nat_eq, any, leb, ◌&&◌, not, ◌+◌, zero, suc, take,
}

module _ {ℓ} {A : Type ℓ} where
  -- The rows that pass the test are changed.
  abbrev pub update_where : (A → Bool) → (A → A) → List A → List A
  update_where test change [] = []
  update_where test change (x ∷ xs) = (if test x then change x else x) ∷ update_where test change xs

  pub All-map {κ μ} :
      {P : A → Type κ} {Q : A → Type μ}
      → ((x : A) → P x → Q x)
      → (xs : List A) → All P xs
      → All Q xs
  All-map f [] h = tt
  All-map f (x ∷ xs) h = (f x h.0, All-map f xs h.1)

  pub All-zip {κ μ ν} :
      {P : A → Type κ} {Q : A → Type μ} {R : A → Type ν}
      → ((x : A) → P x → Q x → R x)
      → (xs : List A) → All P xs
      → All Q xs
      → All R xs
  All-zip f [] h k = tt
  All-zip f (x ∷ xs) h k = (f x h.0 k.0, All-zip f xs h.1 k.1)

  pub All-append {κ} : (P : A → Type κ) (xs ys : List A) → All P xs → All P ys → All P (xs ++ ys)
  All-append P [] ys h k = k
  All-append P (x ∷ xs) ys h k = (h.0, All-append P xs ys h.1 k)

  pub All-always {κ} : {P : A → Type κ} → ((x : A) → P x) → (xs : List A) → All P xs
  All-always f [] = tt
  All-always f (x ∷ xs) = (f x, All-always f xs)

  pub All-update_where {κ} :
      (P : A → Type κ) (test : A → Bool) (change : A → A) (xs : List A)
      → All (λ x. (test x ≡ true → P (change x)) × (test x ≡ false → P x)) xs
      → All P (update_where test change xs)
  All-update_where P test change [] h = tt
  All-update_where P test change (x ∷ xs) h = elim (Bool-cases (test x)) [
    | inl passed ↦ rw passed (h.0.0 passed, All-update_where P test change xs h.1)
    | inr failed ↦ rw failed (h.0.1 failed, All-update_where P test change xs h.1)
  ]

  -- A column that the change keeps is the same after the update.
  pub map-update_where {κ} :
      {B : Type κ} (f : A → B) (test : A → Bool) (change : A → A)
      → ((x : A) → test x ≡ true → f (change x) ≡ f x)
      → (xs : List A) → map f (update_where test change xs) ≡ map f xs
  map-update_where f test change keep [] = refl
  map-update_where f test change keep (x ∷ xs) = elim (Bool-cases (test x)) [
    | inl passed ↦ rw (passed, keep x passed, map-update_where f test change keep xs)
    | inr failed ↦ rw (failed, map-update_where f test change keep xs)
  ]

  pub update_where-count_zero :
      (test : A → Bool) (change : A → A) (xs : List A)
      → count test xs ≡ 0
      → update_where test change xs ≡ xs
  update_where-count_zero test change [] h = refl
  update_where-count_zero test change (x ∷ xs) h = elim (Bool-cases (test x)) [
    | inl passed ↦ absurd (omega (arith, rw passed at h))
    | inr failed ↦ rw (failed, update_where-count_zero test change xs (rw failed at h))
  ]

  pub count-le_of_implies :
      (p q : A → Bool) (xs : List A)
      → All (λ x. p x ≡ true → q x ≡ true) xs
      → count p xs ≤ count q xs
  count-le_of_implies p q [] h = omega arith
  count-le_of_implies p q (x ∷ xs) h = ground (arith, h.0, count-le_of_implies p q xs h.1)

  -- A weaker test that passes no more rows passes the same rows.
  pub implies_of_count :
      (p q : A → Bool) (xs : List A)
      → All (λ x. p x ≡ true → q x ≡ true) xs
      → count q xs ≤ count p xs
      → All (λ x. q x ≡ true → p x ≡ true) xs
  implies_of_count p q [] h c = tt
  implies_of_count p q (x ∷ xs) h c =
      let below = count-le_of_implies p q xs h.1 in
      (λ e. ground (arith, below), implies_of_count p q xs h.1 (ground (arith, below)))

  pub retain-append :
      (p : A → Bool) (xs ys : List A) → retain p (xs ++ ys) ≡ retain p xs ++ retain p ys
  retain-append p [] ys = refl
  retain-append p (x ∷ xs) ys = ground (arith, retain-append p xs ys)

  pub length-retain : (p : A → Bool) (xs : List A) → length (retain p xs) ≡ count p xs
  length-retain p [] = refl
  length-retain p (x ∷ xs) = ground (arith, length-retain p xs)

  pub All-retain : (p : A → Bool) (xs : List A) → All (λ x. p x ≡ true) (retain p xs)
  All-retain p [] = tt
  All-retain p (x ∷ xs) = elim (Bool-cases (p x)) [
    | inl passed ↦ rw passed (passed, All-retain p xs)
    | inr failed ↦ rw failed (All-retain p xs)
  ]

  pub All-of_any-false : (p : A → Bool) (xs : List A) → any xs p ≡ false → All (λ x. p x ≡ false) xs
  All-of_any-false p [] h = tt
  All-of_any-false p (x ∷ xs) h = elim (Bool-cases (p x)) [
    | inl passed ↦ cc (rw passed at h)
    | inr failed ↦ (failed, All-of_any-false p xs (rw failed at h))
  ]

  pub count-of_All-false : (p : A → Bool) (xs : List A) → All (λ x. p x ≡ false) xs → count p xs ≡ 0
  count-of_All-false p [] h = refl
  count-of_All-false p (x ∷ xs) h = rw h.0 (count-of_All-false p xs h.1)

  pub retain-of_All-false :
      (p : A → Bool) (xs : List A) → All (λ x. p x ≡ false) xs → retain p xs ≡ []
  retain-of_All-false p [] h = refl
  retain-of_All-false p (x ∷ xs) h = rw h.0 (retain-of_All-false p xs h.1)

  pub find_sound : (p : A → Bool) (xs : List A) {x : A} → find p xs ≡ some x → p x ≡ true
  find_sound p [] h = cc
  find_sound p (y ∷ xs) {x} h = elim (Bool-cases (p y)) [
    | inl passed ↦ subst (λ z. p z ≡ true) (some-injective y x (rw passed at h)) passed
    | inr failed ↦ find_sound p xs (rw failed at h)
  ]

  pub All-find {κ} :
      (P : A → Type κ) (p : A → Bool) (xs : List A) {x : A} → All P xs → find p xs ≡ some x → P x
  All-find P p [] a h = cc
  All-find P p (y ∷ xs) {x} a h = elim (Bool-cases (p y)) [
    | inl passed ↦ subst P (some-injective y x (rw passed at h)) a.0
    | inr failed ↦ All-find P p xs a.1 (rw failed at h)
  ]

  pub find-append :
      (p : A → Bool) (xs ys : List A) {x : A} → find p xs ≡ some x → find p (xs ++ ys) ≡ some x
  find-append p [] ys h = cc
  find-append p (y ∷ xs) ys h = elim (Bool-cases (p y)) [
    | inl passed ↦ rw passed (rw passed at h)
    | inr failed ↦ rw failed (find-append p xs ys (rw failed at h))
  ]

  -- A search is not disturbed by an update that passes its result over.
  pub find-update_where :
      (p test : A → Bool) (change : A → A)
      → ((x : A) → test x ≡ true → p (change x) ≡ p x)
      → (xs : List A) {x : A} → test x ≡ false
      → find p xs ≡ some x
      → find p (update_where test change xs) ≡ some x
  find-update_where p test change keep [] f h = cc
  find-update_where p test change keep (y ∷ xs) {x} f h = elim (Bool-cases (p y)) [
    | inl passed ↦
        let same = some-injective y x (rw passed at h) in
        rw (subst (λ z. test z ≡ false) (sym same) f, passed) (ap some same)
    | inr failed ↦
        let rest = find-update_where p test change keep xs f (rw failed at h) in
        elim (Bool-cases (test y)) [
          | inl changed ↦ rw (changed, keep y changed, failed) rest
          | inr kept ↦ rw (kept, failed) rest
        ]
  ]

  pub count-retain :
      (p q : A → Bool) (xs : List A) → count p (retain q xs) ≡ count (λ x. p x && q x) xs
  count-retain p q [] = refl
  count-retain p q (x ∷ xs) = ground (arith, count-retain p q xs)

  pub count-split :
      (p q : A → Bool) (xs : List A)
      → count p xs ≡ count (λ x. p x && q x) xs + count (λ x. p x && not (q x)) xs
  count-split p q [] = refl
  count-split p q (x ∷ xs) = ground (arith, count-split p q xs)

  pub All-take {κ} : (P : A → Type κ) (n : ℕ) (xs : List A) → All P xs → All P (take n xs)
  All-take P zero xs h = tt
  All-take P (suc n) [] h = tt
  All-take P (suc n) (x ∷ xs) h = (h.0, All-take P n xs h.1)

  pub length-take : (n : ℕ) (xs : List A) → n ≤ length xs → length (take n xs) ≡ n
  length-take zero xs h = refl
  length-take (suc n) [] h = absurd (omega arith)
  length-take (suc n) (x ∷ xs) h = omega (arith, length-take n xs (omega arith))

  pub count-take-le : (p : A → Bool) (n : ℕ) (xs : List A) → count p (take n xs) ≤ count p xs
  count-take-le p zero xs = omega arith
  count-take-le p (suc n) [] = omega arith
  count-take-le p (suc n) (x ∷ xs) = ground (arith, count-take-le p n xs)

  pub count-of_All :
      (p : A → Bool) (xs : List A) → All (λ x. p x ≡ true) xs → count p xs ≡ length xs
  count-of_All p [] h = refl
  count-of_All p (x ∷ xs) h = rw (h.0, count-of_All p xs h.1)

  pub any-of_All-false : (p : A → Bool) (xs : List A) → All (λ x. p x ≡ false) xs → any xs p ≡ false
  any-of_All-false p [] h = refl
  any-of_All-false p (x ∷ xs) h = rw h.0 (any-of_All-false p xs h.1)

  pub retain-retain :
      (p q : A → Bool) (xs : List A)
      → All (λ x. p x ≡ true → q x ≡ true) xs
      → retain p (retain q xs) ≡ retain p xs
  retain-retain p q [] h = refl
  retain-retain p q (x ∷ xs) h = ground (arith, h.0, retain-retain p q xs h.1)

  -- Every element of a list passes the test of being among them.
  pub All-any :
      (same : A → A → Bool)
      → ((x : A) → same x x ≡ true)
      → (xs : List A) → All (λ x. any xs (λ y. same y x) ≡ true) xs
  All-any same r [] = tt
  All-any same r (x ∷ xs) =
      (rw (r x), All-map (λ y h. rw h (or-true (same x y))) xs (All-any same r xs))

  -- Each row that an update takes out of a count is missing from it.
  pub count-update_out :
      (p test : A → Bool) (change : A → A)
      → ((x : A) → test x ≡ true → p x ≡ true)
      → ((x : A) → test x ≡ true → p (change x) ≡ false)
      → (xs : List A) → count p (update_where test change xs) + count test xs ≡ count p xs
  count-update_out p test change was is [] = omega arith
  count-update_out p test change was is (x ∷ xs) =
      let rest = count-update_out p test change was is xs in
      elim (Bool-cases (test x)) [
        | inl passed ↦ rw (passed, was x passed, is x passed) (omega (arith, rest))
        | inr failed ↦ rw failed (ground (arith, rest))
      ]

  pub count-update_kept :
      (p test : A → Bool) (change : A → A)
      → ((x : A) → p (change x) ≡ p x)
      → (xs : List A) → count p (update_where test change xs) ≡ count p xs
  count-update_kept p test change same [] = refl
  count-update_kept p test change same (x ∷ xs) = elim (Bool-cases (test x)) [
    | inl passed ↦ rw (passed, same x, count-update_kept p test change same xs)
    | inr failed ↦ rw (failed, count-update_kept p test change same xs)
  ]

  -- Rows that an update brings into a count.
  pub count-update_in :
      (p test : A → Bool) (change : A → A)
      → ((x : A) → test x ≡ true → p x ≡ false)
      → ((x : A) → test x ≡ true → p (change x) ≡ true)
      → (xs : List A) → count p (update_where test change xs) ≡ count p xs + count test xs
  count-update_in p test change was is [] = omega arith
  count-update_in p test change was is (x ∷ xs) =
      let rest = count-update_in p test change was is xs in
      elim (Bool-cases (test x)) [
        | inl passed ↦ rw (passed, was x passed, is x passed) (omega (arith, rest))
        | inr failed ↦ rw failed (ground (arith, rest))
      ]

  -- Rows that an update changes stay in a count or out of it.
  pub count-update_same :
      (p test : A → Bool) (change : A → A)
      → ((x : A) → test x ≡ true → p (change x) ≡ p x)
      → (xs : List A) → count p (update_where test change xs) ≡ count p xs
  count-update_same p test change same [] = refl
  count-update_same p test change same (x ∷ xs) = elim (Bool-cases (test x)) [
    | inl passed ↦ rw (passed, same x passed, count-update_same p test change same xs)
    | inr failed ↦ rw (failed, count-update_same p test change same xs)
  ]

  pub any-count : (p : A → Bool) (xs : List A) → any xs p ≡ leb 1 (count p xs)
  any-count p [] = refl
  any-count p (x ∷ xs) = ground (arith, any-count p xs)

  -- A count splits by a second test.
  pub count-by :
      (p q : A → Bool) (xs : List A)
      → count p xs ≡ count (λ x. p x && q x) xs + count (λ x. p x && not (q x)) xs
  count-by p q [] = omega arith
  count-by p q (x ∷ xs) = ground (arith, count-by p q xs)

  pub count-update_grows :
      (p test : A → Bool) (change : A → A)
      → ((x : A) → test x ≡ true → p x ≡ true → p (change x) ≡ true)
      → (xs : List A) → count p xs ≤ count p (update_where test change xs)
  count-update_grows p test change keep [] = omega arith
  count-update_grows p test change keep (x ∷ xs) =
      let rest = count-update_grows p test change keep xs in
      elim (Bool-cases (test x)) [
        | inl passed ↦ rw passed (ground (arith, rest, keep x passed))
        | inr failed ↦ rw failed (ground (arith, rest))
      ]

  pub count-update_shrinks :
      (p test : A → Bool) (change : A → A)
      → ((x : A) → test x ≡ true → p (change x) ≡ true → p x ≡ true)
      → (xs : List A) → count p (update_where test change xs) ≤ count p xs
  count-update_shrinks p test change keep [] = omega arith
  count-update_shrinks p test change keep (x ∷ xs) =
      let rest = count-update_shrinks p test change keep xs in
      elim (Bool-cases (test x)) [
        | inl passed ↦ rw passed (ground (arith, rest, keep x passed))
        | inr failed ↦ rw failed (ground (arith, rest))
      ]
