-- ===== src/Prelude/Equality.antt =====
-- `PartialEq` as an interface: a Boolean test that decides equality, with the derived instances.
use mathlib.Core.Path.{◌≡◌, refl, ap}
use mathlib.Core.Logic.{◌↔◌, inl, inr}
use mathlib.Core.Bool.{Bool, true, false, decide, decide_iff, ◌&&◌, ◌||◌}
use mathlib.Core.List.{List, [], ◌∷◌}
use mathlib.Core.Option.{Option, none, some}
use native.Mathlib.Omega.{arith}
use Prim.Native.Nat.{ℕ}
use patchwright.Prelude.Tests.{Bool-cases, nat_beq, nat_beq_iff}

pub record Eq {ℓ} (A : Type ℓ) : Type ℓ where
  pub same : A → A → Bool
  pub same_iff : (a b : A) → (same a b ≡ true) ↔ (a ≡ b)

infix 50 ◌==◌
abbrev pub ◌==◌ {ℓ} : {A : Type ℓ} ⦃eq : Eq A⦄ → A → A → Bool
◌==◌ ⦃eq⦄ = eq.same

instance abbrev pub nat_eq : Eq ℕ
nat_eq = record { same = nat_beq; same_iff = nat_beq_iff }

-- The equality that `#[derive(PartialEq)]` gives to a type with decidable equality.
abbrev pub discrete_eq {ℓ} : {A : Type ℓ} → Discrete A → Eq A
discrete_eq d = record { same = λ a b. decide (d a b); same_iff = λ a b. decide_iff (d a b) }

abbrev same_bool : Bool → Bool → Bool
same_bool true b = b
same_bool false true = false
same_bool false false = true

pub same_bool_iff : (a b : Bool) → (same_bool a b ≡ true) ↔ (a ≡ b)
same_bool_iff true true = (λ _. refl, λ _. refl)
same_bool_iff true false = (λ h. cc, λ h. cc)
same_bool_iff false true = (λ h. cc, λ h. cc)
same_bool_iff false false = (λ _. refl, λ _. refl)

instance abbrev pub bool_eq : Eq Bool
bool_eq = record { same = same_bool; same_iff = same_bool_iff }

module _ {ℓ} {A : Type ℓ} ⦃eq : Eq A⦄ where
  abbrev same_list : List A → List A → Bool
  same_list [] [] = true
  same_list [] (y ∷ ys) = false
  same_list (x ∷ xs) [] = false
  same_list (x ∷ xs) (y ∷ ys) = eq.same x y && same_list xs ys

  same_list→eq : (xs ys : List A) → same_list xs ys ≡ true → xs ≡ ys
  same_list→eq [] [] h = refl
  same_list→eq [] (y ∷ ys) h = cc
  same_list→eq (x ∷ xs) [] h = cc
  same_list→eq (x ∷ xs) (y ∷ ys) h = ground (arith, eq.same_iff x y, same_list→eq xs ys)

  same_list_refl : (xs : List A) → same_list xs xs ≡ true
  same_list_refl [] = refl
  same_list_refl (x ∷ xs) = ground (arith, (eq.same_iff x x).1 refl, same_list_refl xs)

  pub same_list_iff : (xs ys : List A) → (same_list xs ys ≡ true) ↔ (xs ≡ ys)
  same_list_iff xs ys = (same_list→eq xs ys, λ p. rw (← p) (same_list_refl xs))

  instance abbrev pub list_eq : Eq (List A)
  list_eq = record { same = same_list; same_iff = same_list_iff }

  abbrev same_option : Option A → Option A → Bool
  same_option none none = true
  same_option none (some b) = false
  same_option (some a) none = false
  same_option (some a) (some b) = eq.same a b

  pub same_option_iff : (a b : Option A) → (same_option a b ≡ true) ↔ (a ≡ b)
  same_option_iff none none = (λ _. refl, λ _. refl)
  same_option_iff none (some b) = (λ h. cc, λ h. cc)
  same_option_iff (some a) none = (λ h. cc, λ h. cc)
  same_option_iff (some a) (some b) =
      (λ h. ap some ((eq.same_iff a b).0 h), λ h. (eq.same_iff a b).1 (cc))

  instance abbrev pub option_eq : Eq (Option A)
  option_eq = record { same = same_option; same_iff = same_option_iff }

  -- `slice.contains(&a)`, `set.contains(&a)`.
  abbrev pub contains : List A → A → Bool
  contains [] a = false
  contains (x ∷ xs) a = eq.same x a || contains xs a

  pub same_refl : (a : A) → eq.same a a ≡ true
  same_refl a = (eq.same_iff a a).1 refl

  pub same-eq-false : (a b : A) → ¬ (a ≡ b) → eq.same a b ≡ false
  same-eq-false a b h = elim (Bool-cases (eq.same a b)) [
    | inl same ↦ absurd (h ((eq.same_iff a b).0 same))
    | inr other ↦ other
  ]
