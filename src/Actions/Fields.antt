-- ===== src/Actions/Fields.antt =====
-- The field validators of crates/patchwright-core/src/github_actions.rs. A byte test that no byte
-- beyond ASCII passes is the test of the scalar value.
use Prim.Native.String.{String}
use patchwright.Prelude.{
  ℕ, Bool, false, not, ◌&&◌, ◌||◌, List, [], ◌∷◌, Option, none, some, any, all, is_empty, contains,
  ◌==◌, nat_eq, Result, ok, ◌>>◌, ◌>>=◌, reject_if, ltb, leb,
}
use patchwright.Prelude.Text.{
  Text, codes, is_control, is_ascii_hexdigit, trim, len, to_ascii_lowercase, contains_text,
}
use patchwright.Actions.{GitHubActionError, invalid_field}

abbrev pub Validated : Type 0 → Type 0
Validated = Result GitHubActionError

abbrev pub max_body_bytes : ℕ
max_body_bytes = 65536

-- `u8::is_ascii_alphanumeric`.
unfoldable pub is_ascii_alphanumeric : ℕ → Bool
is_ascii_alphanumeric c =
    (leb b'0' c && leb c b'9') || (leb b'a' c && leb c b'z') || (leb b'A' c && leb c b'Z')

-- `u8::is_ascii_control`.
unfoldable pub is_ascii_control : ℕ → Bool
is_ascii_control c = leb c 0x1F || c == 0x7F

-- `starts_with` and `ends_with` of a list of characters.
unfoldable pub starts_with_any : Text → Text → Bool
starts_with_any [] chars = false
starts_with_any (c ∷ s) chars = contains chars c

unfoldable pub ends_with_any : Text → Text → Bool
ends_with_any [] chars = false
ends_with_any (c ∷ []) chars = contains chars c
ends_with_any (c ∷ d ∷ s) chars = ends_with_any (d ∷ s) chars

unfoldable pub is_node_id_byte : ℕ → Bool
is_node_id_byte c = is_ascii_alphanumeric c || contains (codes "_-") c

unfoldable pub validate_node_id : Text → Validated Text
validate_node_id value = do
  reject_if (is_empty value || ltb 256 (len value) || not (all value is_node_id_byte))
      (invalid_field "threadId")
  ok value

unfoldable pub validate_number : ℕ → Validated ℕ
validate_number value = do reject_if (value == 0) (invalid_field "number"); ok value

unfoldable pub is_sha : Text → Bool
is_sha value = len value == 40 && all value is_ascii_hexdigit

unfoldable pub validate_sha : Text → Validated Text
validate_sha value = do
  reject_if (not (is_sha value)) (invalid_field "sha")
  ok (to_ascii_lowercase value)

unfoldable pub is_bad_ref_byte : ℕ → Bool
is_bad_ref_byte c = is_ascii_control c || contains (codes " ~^:?*[\\") c

unfoldable pub validate_ref : Text → Validated Text
validate_ref value = do
  reject_if
      (is_empty value
        || ltb 255 (len value)
        || starts_with_any value (codes "-/.")
        || ends_with_any value (codes "/.")
        || contains_text value (codes "..")
        || contains_text value (codes "@{")
        || any value is_bad_ref_byte)
      (invalid_field "ref")
  ok value

abbrev pub secret_markers : List Text
secret_markers =
    codes "authorization: bearer "
    ∷ codes "ghp_"
    ∷ codes "gho_"
    ∷ codes "github_pat_"
    ∷ codes "-----begin"
    ∷ []

-- The tests of `validate_body` on the trimmed text.
unfoldable pub is_bad_body : Text → Bool
is_bad_body value =
    is_empty value
    || ltb max_body_bytes (len value)
    || contains value 0
    || any secret_markers (contains_text (to_ascii_lowercase value))

unfoldable pub validate_body : Text → Validated Text
validate_body value = do
  reject_if (is_bad_body (trim value)) (invalid_field "body")
  ok (trim value)

-- The tests of `validate_text` on the trimmed text.
unfoldable pub is_bad_text : Text → ℕ → Bool
is_bad_text value maximum = is_empty value || ltb maximum (len value) || any value is_control

unfoldable pub validate_text : Text → ℕ → String → Validated Text
validate_text value maximum field = do
  reject_if (is_bad_text (trim value) maximum) (invalid_field field)
  ok (trim value)

unfoldable pub is_component_byte : ℕ → Bool
is_component_byte c = is_ascii_alphanumeric c || contains (codes "-_.") c

unfoldable pub validate_repository_component : Text → Validated Unit
validate_repository_component value =
    reject_if (is_empty value || ltb 100 (len value) || not (all value is_component_byte))
      (invalid_field "repositoryFullName")

-- `map(f).transpose()`.
unfoldable pub transpose_map : {A B : Type 0} → (A → Validated B) → Option A → Validated (Option B)
transpose_map f none = ok none
transpose_map f (some a) = do b ← f a; ok (some b)
