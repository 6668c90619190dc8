-- ===== src/Prelude/Settling.antt =====
-- Validators that accept what they return and leave it as it is.
use patchwright.Prelude.{◌≡◌, subst, Result, ok, ◌>>=◌, ◌>>◌, >>=-eq-ok, >>-eq-ok, ok-injective}

-- Whatever `first` returns, `again` returns of it.
pub record Settles {E A : Type 0} (again : A → Result E A) (first : Result E A) : Type 0 where
  pub settled : (value : A) → first ≡ ok value → again value ≡ ok value

pub ok-Settles :
    {E A : Type 0} (again : A → Result E A) (a : A) → again a ≡ ok a → Settles again (ok a)
ok-Settles again a h = record {
  settled = λ value e. subst (λ v. again v ≡ ok v) (ok-injective e) h;
}

-- A field that settles can be taken as the validator left it.
pub >>=-Settles :
    {E A B : Type 0} (again : B → Result E B) (check : A → Result E A) (a : A)
    (rest : A → Result E B)
    → Settles check (check a)
    → ((b : A) → check b ≡ ok b → Settles again (rest b))
    → Settles again (check a >>= rest)
>>=-Settles again check a rest s k = record {
  settled = λ value e.
      let (b, given, same) = >>=-eq-ok (check a) rest e in
      (k b (s.settled b given)).settled value same;
}

-- Whatever `first` returns has the property.
pub record Yields {E A : Type 0} (P : A → Type 0) (first : Result E A) : Type 0 where
  pub yielded : (value : A) → first ≡ ok value → P value

pub ok-Yields : {E A : Type 0} (P : A → Type 0) (a : A) → P a → Yields {E = E} P (ok a)
ok-Yields P a h = record { yielded = λ value e. subst P (ok-injective e) h }

-- A field that settles can be taken as the validator left it.
pub >>=-Yields :
    {E A B : Type 0} (P : B → Type 0) (check : A → Result E A) (a : A) (rest : A → Result E B)
    → Settles check (check a)
    → ((b : A) → check b ≡ ok b → Yields P (rest b))
    → Yields P (check a >>= rest)
>>=-Yields P check a rest s k = record {
  yielded = λ value e.
      let (b, given, same) = >>=-eq-ok (check a) rest e in
      (k b (s.settled b given)).yielded value same;
}

pub >>-Yields :
    {E A : Type 0} (P : A → Type 0) (check : Result E (Unit {0})) (rest : Result E A)
    → (check ≡ ok tt → Yields P rest)
    → Yields P (check >> rest)
>>-Yields P check rest k = record {
  yielded = λ value e. let passed = >>-eq-ok check rest e in (k passed.0).yielded value passed.1;
}

-- A check that passed passes again.
pub >>-Settles :
    {E A : Type 0} (again : A → Result E A) (check : Result E (Unit {0})) (rest : Result E A)
    → (check ≡ ok tt → Settles again rest)
    → Settles again (check >> rest)
>>-Settles again check rest k = record {
  settled = λ value e. let passed = >>-eq-ok check rest e in (k passed.0).settled value passed.1;
}
