-- ===== src/Contract/Parts.antt =====
-- The parts of a task contract (crates/patchwright-core/src/contract.rs).
use patchwright.Prelude.{
  ℕ, Bool, ◌||◌, List, [], ◌∷◌, any, is_empty, ◌==◌, list_eq, nat_eq, if◌then◌else◌, ok, ◌>>◌,
  ◌>>=◌, reject_if, contains,
}
use patchwright.Prelude.Text.{Text, codes, is_control, trim}
use patchwright.Contract.Fields.{Validated, invalid_field, nonempty, validate_sha256, is_absolute}

pub record InstructionDigest : Type 0 where
  pub source : Text
  pub sha256 : Text
  pub precedence : ℕ

-- `InstructionDigest::new`.
unfoldable pub new_digest : Text → Text → ℕ → Validated InstructionDigest
new_digest source sha256 precedence = do
  nonempty source "instructionSource"
  validate_sha256 sha256 "instructionSha256"
  ok (record { source = source; sha256 = sha256; precedence = precedence })

pub record VerificationCommand : Type 0 where
  pub program : Text
  pub args : List Text

abbrev pub has_control : Text → Bool
has_control text = any text is_control

-- `VerificationCommand::new`, which reading a command calls too.
unfoldable pub new_command : Text → List Text → Validated VerificationCommand
new_command program args = do
  nonempty program "verificationProgram"
  reject_if (has_control program) (invalid_field "verificationProgram")
  reject_if (any args has_control) (invalid_field "verificationArgument")
  ok (record { program = program; args = args })

pub data RiskClass : Type 0 where
  low moderate high critical : RiskClass

pub record SensitivePath : Type 0 where
  pub path : Text
  pub reason : Text

abbrev prepend : ℕ → List Text → List Text
prepend c [] = (c ∷ []) ∷ []
prepend c (segment ∷ rest) = (c ∷ segment) ∷ rest

-- The parts of a path between its slashes.
unfoldable pub segments : Text → List Text
segments [] = [] ∷ []
segments (c ∷ s) = let rest = segments s in if c == b'/' then [] ∷ rest else prepend c rest

abbrev pub is_parent_dir : Text → Bool
is_parent_dir segment = segment == codes ".."

-- The test on the path in `SensitivePath::new`: on Unix the components other than names and `.` are
-- the root, which an absolute path has, and `..`.
unfoldable pub is_bad_path : Text → Bool
is_bad_path path = is_empty (trim path) || is_absolute path || any (segments path) is_parent_dir

-- `SensitivePath::new`.
unfoldable pub new_sensitive_path : Text → Text → Validated SensitivePath
new_sensitive_path path reason = do
  reject_if (is_bad_path path) (invalid_field "sensitivePath")
  nonempty reason "sensitivePathReason"
  ok (record { path = path; reason = reason })

-- `map(f).collect::<Result<Vec<_>, _>>()`.
unfoldable pub collect_all : {A B : Type 0} → (A → Validated B) → List A → Validated (List B)
collect_all f [] = ok []
collect_all f (a ∷ rest) = do b ← f a; bs ← collect_all f rest; ok (b ∷ bs)

-- `collect::<HashSet<_>>()`.
unfoldable pub collect_set : List ℕ → List ℕ
collect_set [] = []
collect_set (x ∷ xs) = let rest = collect_set xs in if contains rest x then rest else x ∷ rest
