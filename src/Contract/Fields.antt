-- ===== src/Contract/Fields.antt =====
-- The field validators of crates/patchwright-core/src/contract.rs.
use Prim.Native.String.{String}
use patchwright.Prelude.{
  ℕ, Bool, false, not, ◌&&◌, ◌||◌, Option, none, some, any, all, is_empty, contains, ◌==◌, nat_eq,
  Result, ok, ◌>>◌, reject_if, drop,
}
use patchwright.Prelude.Text.{
  Text, codes, is_whitespace, is_control, is_ascii_hexdigit, trim, len, starts_with, split_once,
}

pub data ContractError : Type 0 where
  invalid_field : String → ContractError

abbrev pub Validated : Type 0 → Type 0
Validated = Result ContractError

unfoldable pub nonempty : Text → String → Validated Unit
nonempty value field = reject_if (is_empty (trim value)) (invalid_field field)

unfoldable pub nonzero : ℕ → String → Validated Unit
nonzero value field = reject_if (value == 0) (invalid_field field)

-- `Path::is_absolute` on Unix: the path begins with a slash.
unfoldable pub is_absolute : Text → Bool
is_absolute value = starts_with value (codes "/")

unfoldable pub validate_absolute_path : Text → String → Validated Unit
validate_absolute_path value field = reject_if (not (is_absolute value)) (invalid_field field)

unfoldable pub validate_optional_absolute_path : Option Text → String → Validated Unit
validate_optional_absolute_path none field = ok tt
validate_optional_absolute_path (some value) field = validate_absolute_path value field

unfoldable pub is_git_sha : Text → Bool
is_git_sha value = (len value == 40 || len value == 64) && all value is_ascii_hexdigit

unfoldable pub validate_git_sha : Text → String → Validated Unit
validate_git_sha value field = reject_if (not (is_git_sha value)) (invalid_field field)

-- `if let Some(sha) = value { validate_git_sha(sha, field)?; }`.
unfoldable pub validate_optional_git_sha : Option Text → String → Validated Unit
validate_optional_git_sha none field = ok tt
validate_optional_git_sha (some value) field = validate_git_sha value field

unfoldable pub is_sha256 : Text → Bool
is_sha256 value = len value == 64 && all value is_ascii_hexdigit

unfoldable pub validate_sha256 : Text → String → Validated Unit
validate_sha256 value field = reject_if (not (is_sha256 value)) (invalid_field field)

unfoldable pub is_space_or_control : ℕ → Bool
is_space_or_control c = is_whitespace c || is_control c

unfoldable pub is_repository_name : Text → Bool
is_repository_name value = elim (split_once b'/' value) [
  | none ↦ false
  | some (owner, name) ↦ not (
      is_empty (trim owner)
      || is_empty (trim name)
      || contains name b'/'
      || any value is_space_or_control)
]

unfoldable pub validate_repository_name : Text → Validated Unit
validate_repository_name value =
    reject_if (not (is_repository_name value)) (invalid_field "repositoryFullName")

unfoldable pub validate_ref : Text → String → Validated Unit
validate_ref value field = do
  nonempty value field
  reject_if (any value is_control) (invalid_field field)

-- `strip_prefix("https://")`.
unfoldable pub is_https_url : Text → Bool
is_https_url value =
    let remainder = drop 8 value in
    starts_with value (codes "https://")
    && (not (is_empty remainder) && not (any remainder is_whitespace))

unfoldable pub validate_https_url : Text → String → Validated Unit
validate_https_url value field = reject_if (not (is_https_url value)) (invalid_field field)

unfoldable pub validate_github_item : ℕ → Text → ℕ → Text → Validated Unit
validate_github_item repository_id repository_full_name number html_url = do
  nonzero repository_id "repositoryId"
  validate_repository_name repository_full_name
  nonzero number "itemNumber"
  validate_https_url html_url "htmlUrl"
