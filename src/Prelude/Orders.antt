-- ===== src/Prelude/Orders.antt =====
-- Rust's `Ord::cmp` and `Ordering`, and comparisons that sort consistently.
use Prim.Native.Nat.{compare, Ordering}
use patchwright.Prelude.{ap, ℕ, ◌≡◌, refl, Bool, true, false, List, [], ◌∷◌, arith}
use patchwright.Prelude.Text.{Text}
use patchwright.Prelude.Sorting.{sort_by, IsSorted, sort_by-IsSorted}

-- A signed number.
pub data ℤ : Type 0 where
  pos negsuc : ℕ → ℤ

unfoldable pub reverse : Ordering → Ordering
reverse Ordering.lt = Ordering.gt
reverse Ordering.eq = Ordering.eq
reverse Ordering.gt = Ordering.lt

unfoldable pub then_with : Ordering → Ordering → Ordering
then_with Ordering.lt next = Ordering.lt
then_with Ordering.eq next = next
then_with Ordering.gt next = Ordering.gt

unfoldable pub is_le : Ordering → Bool
is_le Ordering.lt = true
is_le Ordering.eq = true
is_le Ordering.gt = false

unfoldable pub compare_integers : ℤ → ℤ → Ordering
compare_integers (pos a) (pos b) = compare a b
compare_integers (pos a) (negsuc b) = Ordering.gt
compare_integers (negsuc a) (pos b) = Ordering.lt
compare_integers (negsuc a) (negsuc b) = compare b a

unfoldable pub compare_texts : Text → Text → Ordering
compare_texts [] [] = Ordering.eq
compare_texts [] (d ∷ t) = Ordering.lt
compare_texts (c ∷ s) [] = Ordering.gt
compare_texts (c ∷ s) (d ∷ t) = then_with (compare c d) (compare_texts s t)

-- A comparison that turns round with its arguments and is transitive.
pub record IsComparison {ℓ} {A : Type ℓ} (cmp : A → A → Ordering) : Type ℓ where
  pub swapped : (a b : A) → cmp b a ≡ reverse (cmp a b)
  pub trans : (a b c : A) → is_le (cmp a b) ≡ true → is_le (cmp b c) ≡ true → is_le (cmp a c) ≡ true

pub is_le-total : (o : Ordering) → is_le o ≡ false → is_le (reverse o) ≡ true
unfolding is_le reverse
is_le-total Ordering.lt h = cc
is_le-total Ordering.eq h = cc
is_le-total Ordering.gt h = refl

reverse-then_with : (a b : Ordering) → then_with (reverse a) (reverse b) ≡ reverse (then_with a b)
unfolding reverse then_with
reverse-then_with Ordering.lt b = refl
reverse-then_with Ordering.eq b = refl
reverse-then_with Ordering.gt b = refl

-- The first of two comparisons decides, unless it finds both alike.
then_with_trans :
    (ab bc ac ca ab' bc' ac' : Ordering)
    → ca ≡ reverse ac
    → (is_le ab ≡ true → is_le bc ≡ true → is_le ac ≡ true)
    → (is_le bc ≡ true → is_le ca ≡ true → is_le (reverse ab) ≡ true)
    → (is_le ca ≡ true → is_le ab ≡ true → is_le (reverse bc) ≡ true)
    → (is_le ab' ≡ true → is_le bc' ≡ true → is_le ac' ≡ true)
    → is_le (then_with ab ab') ≡ true
    → is_le (then_with bc bc') ≡ true
    → is_le (then_with ac ac') ≡ true
unfolding is_le then_with reverse
then_with_trans ab bc ac ca ab' bc' ac' e t₁ t₂ t₃ t' h k = ground arith

pub compare-IsComparison : IsComparison compare
unfolding is_le reverse
compare-IsComparison = record { swapped = λ a b. ground arith; trans = λ a b c h k. ground arith }

pub compare_integers-IsComparison : IsComparison compare_integers
unfolding is_le reverse compare_integers
compare_integers-IsComparison = record { swapped = swaps; trans = transits }
  where
    swaps : (a b : ℤ) → compare_integers b a ≡ reverse (compare_integers a b)
    swaps (pos a) (pos b) = ground arith
    swaps (pos a) (negsuc b) = refl
    swaps (negsuc a) (pos b) = refl
    swaps (negsuc a) (negsuc b) = ground arith

    transits :
        (a b c : ℤ)
        → is_le (compare_integers a b) ≡ true
        → is_le (compare_integers b c) ≡ true
        → is_le (compare_integers a c) ≡ true
    transits (pos a) (pos b) (pos c) h k = ground arith
    transits (pos a) (pos b) (negsuc c) h k = k
    transits (pos a) (negsuc b) c h k = cc
    transits (negsuc a) (pos b) (pos c) h k = refl
    transits (negsuc a) (pos b) (negsuc c) h k = cc
    transits (negsuc a) (negsuc b) (pos c) h k = refl
    transits (negsuc a) (negsuc b) (negsuc c) h k = ground arith

compare_texts-swapped : (s t : Text) → compare_texts t s ≡ reverse (compare_texts s t)
unfolding reverse compare_texts then_with
compare_texts-swapped [] [] = refl
compare_texts-swapped [] (d ∷ t) = refl
compare_texts-swapped (c ∷ s) [] = refl
compare_texts-swapped (c ∷ s) (d ∷ t) = ground (arith, compare_texts-swapped s t)

compare_texts_trans :
    (s t u : Text)
    → is_le (compare_texts s t) ≡ true
    → is_le (compare_texts t u) ≡ true
    → is_le (compare_texts s u) ≡ true
unfolding is_le compare_texts then_with
compare_texts_trans [] t [] h k = refl
compare_texts_trans [] t (e ∷ u) h k = refl
compare_texts_trans (c ∷ s) [] u h k = cc
compare_texts_trans (c ∷ s) (d ∷ t) [] h k = cc
compare_texts_trans (c ∷ s) (d ∷ t) (e ∷ u) h k = ground (arith, compare_texts_trans s t u)

pub compare_texts-IsComparison : IsComparison compare_texts
compare_texts-IsComparison = record { swapped = compare_texts-swapped; trans = compare_texts_trans }

module _ {ℓ} {A : Type ℓ} where
  pub reverse-IsComparison :
      {cmp : A → A → Ordering} → IsComparison cmp → IsComparison (λ a b. reverse (cmp a b))
  reverse-IsComparison {cmp} h = record {
    swapped = λ a b. ap reverse (h.swapped a b);
    trans = λ a b c first second.
        rw (← h.swapped a c) (h.trans c b a (rw (h.swapped b c) second) (rw (h.swapped a b) first));
  }

  pub flip-IsComparison :
      {cmp : A → A → Ordering} → IsComparison cmp → IsComparison (λ a b. cmp b a)
  flip-IsComparison h = record {
    swapped = λ a b. h.swapped b a;
    trans = λ a b c first second. h.trans c b a second first;
  }

  pub on-IsComparison {κ} :
      {B : Type κ} {cmp : A → A → Ordering} (f : B → A)
      → IsComparison cmp
      → IsComparison (λ a b. cmp (f a) (f b))
  on-IsComparison f h = record {
    swapped = λ a b. h.swapped (f a) (f b);
    trans = λ a b c. h.trans (f a) (f b) (f c);
  }

  pub then_with-IsComparison :
      {first second : A → A → Ordering}
      → IsComparison first
      → IsComparison second
      → IsComparison (λ a b. then_with (first a b) (second a b))
  then_with-IsComparison {first} {second} h k = record {
    swapped = λ a b. rw (h.swapped a b, k.swapped a b) (reverse-then_with (first a b) (second a b));
    trans = λ a b c.
        then_with_trans (first a b) (first b c) (first a c) (first c a) (second a b) (second b c)
          (second a c) (h.swapped a c) (h.trans a b c)
          (λ bc ca. rw (← h.swapped a b) (h.trans b c a bc ca))
          (λ ca ab. rw (← h.swapped b c) (h.trans c a b ca ab)) (k.trans a b c);
  }

  -- Sorting by a comparison, as `sort_by` does.
  abbrev pub sort_with : (A → A → Ordering) → List A → List A
  sort_with cmp xs = sort_by (λ a b. is_le (cmp a b)) xs

  pub sort_with-IsSorted :
      {cmp : A → A → Ordering}
      → IsComparison cmp
      → (xs : List A) → IsSorted (λ a b. is_le (cmp a b)) (sort_with cmp xs)
  sort_with-IsSorted {cmp} h xs =
      sort_by-IsSorted (λ a b. is_le (cmp a b))
        (λ a b e. rw (h.swapped a b) (is_le-total (cmp a b) e)) h.trans xs
