-- ===== src/Actions/Settling.antt =====
-- Validators that accept what they return and leave it as it is
-- (crates/patchwright-core/src/github_actions.rs).
use Prim.Native.String.{String}
use patchwright.Prelude.{
  ℕ, ◌≡◌, refl, subst, Bool, true, false, Option, none, some, ok, >>=-eq-ok, ◌>>◌, reject_if, arith,
}
use patchwright.Prelude.Text.{Text, to_ascii_lowercase}
use patchwright.Prelude.Text.Laws.{
  trim_idempotent, to_ascii_lowercase-to_ascii_lowercase, len-to_ascii_lowercase,
  all-to_ascii_lowercase,
}
use patchwright.Actions.{GitHubActionError, invalid_field}
use patchwright.Prelude.Settling.{Settles, ok-Settles}
use patchwright.Actions.Fields.{
  Validated, validate_node_id, validate_number, is_sha, validate_sha, validate_ref, validate_body,
  validate_text, transpose_map,
}

kept : (bad : Bool) (e : GitHubActionError) (v w : Text) → (reject_if bad e >> ok v) ≡ ok w → v ≡ w
kept true e v w h = cc
kept false e v w h = cc

unchanged : (check : Text → Validated Text) (v w : Text) → check v ≡ ok w → v ≡ w → check w ≡ ok w
unchanged check v w h e = subst (λ x. check x ≡ ok w) e h

pub validate_node_id-Settles : (value : Text) → Settles validate_node_id (validate_node_id value)
unfolding validate_node_id
validate_node_id-Settles value = record { settled = λ v e. ground arith }

pub validate_number-Settles : (value : ℕ) → Settles validate_number (validate_number value)
unfolding validate_number
validate_number-Settles value = record { settled = λ v e. ground arith }

pub validate_ref-Settles : (value : Text) → Settles validate_ref (validate_ref value)
unfolding validate_ref
validate_ref-Settles value = record {
  settled = λ v e. unchanged validate_ref value v e (kept _ (invalid_field "ref") value v e);
}

pub validate_body-Settles : (value : Text) → Settles validate_body (validate_body value)
unfolding validate_body
validate_body-Settles value = record { settled = λ v e. ground (arith, trim_idempotent value) }

pub validate_text-Settles :
    (value : Text) (maximum : ℕ) (field : String)
    → Settles (λ v. validate_text v maximum field) (validate_text value maximum field)
unfolding validate_text
validate_text-Settles value maximum field = record {
  settled = λ v e. ground (arith, trim_idempotent value);
}

is_sha-to_ascii_lowercase : (s : Text) → is_sha (to_ascii_lowercase s) ≡ is_sha s
unfolding is_sha
is_sha-to_ascii_lowercase s = rw (len-to_ascii_lowercase s, all-to_ascii_lowercase s) refl

pub validate_sha-Settles : (value : Text) → Settles validate_sha (validate_sha value)
unfolding validate_sha
validate_sha-Settles value = record {
  settled = λ v e.
      ground (arith, is_sha-to_ascii_lowercase value, to_ascii_lowercase-to_ascii_lowercase value);
}

pub transpose_map-Settles :
    {A : Type 0} (check : A → Validated A) (o : Option A)
    → ((a : A) → Settles check (check a))
    → Settles (transpose_map check) (transpose_map check o)
unfolding transpose_map
transpose_map-Settles check none s = ok-Settles (transpose_map check) none refl
transpose_map-Settles check (some a) s = record {
  settled = λ value e.
      let (b, given, same) = >>=-eq-ok (check a) (λ b. ok (some b)) e in
      ground (arith, (s a).settled b given);
}
