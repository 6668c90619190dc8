-- ===== src/Sorting/Conditions.antt =====
-- What the single conditions of a filter ask for (crates/patchwright-core/src/sorting.rs).
use mathlib.Core.List.Memᴰ
use mathlib.Core.List.{Memᴰ}
use patchwright.Prelude.{
  ◌≡◌, ◌↔◌, ◌⊎◌, subst, sym, refl, inl, inr, Bool, true, ◌&&◌, ◌||◌, Option, none, some, List, [],
  ◌∷◌, Bool-cases, is_empty, any, contains, &&-eq-true, Eq, ◌==◌, option_eq, bool_eq, list_eq,
  nat_eq,
}
use mathlib.Core.Option.{some-injective}
use mathlib.Core.Bool.{or-true}
use patchwright.Sorting.{is_none_or, is_some_and, review_state_eq, ci_health_eq, queue_state_eq}

-- The filter asks for nothing, or for this.
abbrev pub Asks : {A : Type 0} → Option A → (A → Type 0) → Type 0
Asks {A} o P = (a : A) → o ≡ some a → P a

pub and_iff :
    {P Q : Type 0} (a b : Bool) → (a ≡ true) ↔ P → (b ≡ true) ↔ Q → ((a && b) ≡ true) ↔ (P × Q)
and_iff a b h k =
    (λ e. let both = &&-eq-true a b e in (h.0 both.0, k.0 both.1), λ e. rw (h.1 e.0, k.1 e.1) refl)

pub is_none_or_iff :
    {A : Type 0} {P : A → Type 0} (o : Option A) (p : A → Bool)
    → ((a : A) → (p a ≡ true) ↔ P a)
    → (is_none_or o p ≡ true) ↔ Asks o P
is_none_or_iff none p h = (λ _ a e. cc, λ _. refl)
is_none_or_iff {P = P} (some a) p h =
    (λ e b same. subst P (some-injective a b same) ((h a).0 e), λ asks. (h a).1 (asks a refl))

pub empty_or_iff :
    {A Q : Type 0} (xs : List A) (b : Bool)
    → (b ≡ true) ↔ Q
    → ((is_empty xs || b) ≡ true) ↔ ((xs ≡ []) ⊎ Q)
empty_or_iff [] b h = (λ _. inl refl, λ _. refl)
empty_or_iff (x ∷ xs) b h = (λ e. inr (h.0 e), λ s. elim s [ inl e ↦ cc | inr q ↦ h.1 q ])

pub is_some_and_iff :
    {A : Type 0} {P : A → Type 0} (o : Option A) (p : A → Bool)
    → ((a : A) → (p a ≡ true) ↔ P a)
    → (is_some_and o p ≡ true) ↔ ((a : A) × (o ≡ some a) × P a)
is_some_and_iff none p h = (λ e. cc, λ (a, e, _). cc)
is_some_and_iff {P = P} (some a) p h = (
  λ e. (a, refl, (h a).0 e),
  λ (b, same, holds). (h a).1 (subst P (sym (some-injective a b same)) holds),
)

pub contains_iff :
    {A : Type 0} ⦃eq : Eq A⦄ (xs : List A) (a : A) → (contains xs a ≡ true) ↔ Memᴰ a xs
contains_iff [] a = (λ e. cc, λ m. absurd (Memᴰ.not-nil m))
contains_iff ⦃eq⦄ (x ∷ xs) a =
    let rest = contains_iff xs a in
    (
      λ e. elim (Bool-cases (x == a)) [
        | inl same ↦ Memᴰ.head (sym ((eq.same_iff x a).0 same))
        | inr other ↦ Memᴰ.tail (rest.0 (rw other at e))
      ],
      λ m. elim (Memᴰ.cases_cons m) [
        | inl same ↦ rw ((eq.same_iff x a).1 (sym same)) refl
        | inr later ↦ rw (rest.1 later) (or-true (x == a))
      ],
    )

pub any_iff :
    {A : Type 0} {P : A → Type 0} (xs : List A) (p : A → Bool)
    → ((a : A) → (p a ≡ true) ↔ P a)
    → (any xs p ≡ true) ↔ ((a : A) × Memᴰ a xs × P a)
any_iff [] p h = (λ e. cc, λ (a, m, _). absurd (Memᴰ.not-nil m))
any_iff {P = P} (x ∷ xs) p h =
    let rest = any_iff xs p h in
    (
      λ e. elim (Bool-cases (p x)) [
        | inl passed ↦ (x, Memᴰ.head refl, (h x).0 passed)
        | inr failed ↦ let (a, m, holds) = rest.0 (rw failed at e) in (a, Memᴰ.tail m, holds)
      ],
      λ (a, m, holds). elim (Memᴰ.cases_cons m) [
        | inl same ↦ rw ((h x).1 (subst P same holds)) refl
        | inr later ↦ rw (rest.1 (a, later, holds)) (or-true (p x))
      ],
    )
