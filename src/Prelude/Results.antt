-- ===== src/Prelude/Results.antt =====
-- Rust's `Result`, with `?` as the bind of a `do` block.
use mathlib.Core.Path.{◌≡◌, refl}
use mathlib.Core.Bool.{Bool, true, false}

pub data Result (E A : Type 0) : Type 0 where
  ok : A → Result E A
  err : E → Result E A

infixl 5 ◌>>=◌ ◌>>◌
abbrev pub ◌>>=◌ :
    {Failure A B : Type 0} → Result Failure A → (A → Result Failure B) → Result Failure B
ok value >>= rest = rest value
err failure >>= rest = err failure

abbrev pub ◌>>◌ :
    {Failure B : Type 0} → Result Failure (Unit {0}) → Result Failure B → Result Failure B
first >> rest = first >>= λ _. rest

-- `if test { return Err(e) }`.
abbrev pub reject_if : {E : Type 0} → Bool → E → Result E (Unit {0})
reject_if true e = err e
reject_if false e = ok tt

pub >>=-eq-ok :
    {Failure A B : Type 0} (first : Result Failure A) (rest : A → Result Failure B) {result : B}
    → (first >>= rest) ≡ ok result
    → (value : A) × (first ≡ ok value) × (rest value ≡ ok result)
>>=-eq-ok (ok value) rest h = (value, refl, h)
>>=-eq-ok (err failure) rest h = cc

pub reject_if-eq-ok :
    {E : Type 0} (b : Bool) (e : E) {u : Unit {0}} → reject_if b e ≡ ok u → b ≡ false
reject_if-eq-ok true e h = cc
reject_if-eq-ok false e h = refl

pub ok-injective : {E A : Type 0} {a b : A} → ◌≡◌ {A = Result E A} (ok a) (ok b) → a ≡ b
ok-injective h = cc

pub >>-eq-ok :
    {Failure B : Type 0} (first : Result Failure (Unit {0})) (rest : Result Failure B) {result : B}
    → (first >> rest) ≡ ok result
    → (first ≡ ok tt) × (rest ≡ ok result)
>>-eq-ok (ok tt) rest h = (refl, h)
>>-eq-ok (err failure) rest h = cc
