-- ===== src/Contract/RoundTrips.antt =====
-- A contract that was written is read back as it was (crates/patchwright-core/src/contract.rs).
use patchwright.Prelude.{
  ℕ, ◌≡◌, refl, ◌∙◌, sym, subst, List, [], ◌∷◌, map, ok, >>=-eq-ok, >>-eq-ok, ◌>>=◌, reject_if,
  reject_if-eq-ok, false, ok-injective, any, is_empty, not, ◌==◌, nat_eq, ◌||◌,
}
use patchwright.Prelude.Text.{Text, trim}
use patchwright.Prelude.Text.Laws.{trim_idempotent}
use patchwright.Contract.Fields.{
  Validated, invalid_field, nonempty, validate_optional_git_sha, validate_sha256,
  validate_github_item, validate_ref, validate_git_sha,
}
use patchwright.Contract.Source.{
  local_request, github_issue, github_pull_request, revalidate_task_source, new_github_issue,
  new_github_pull_request,
}
use patchwright.Contract.Parts.{
  new_digest, new_command, new_sensitive_path, collect_all, has_control, is_bad_path,
}
use patchwright.Contract.Tasks.{
  TaskContractDraft, TaskContract, TaskContractWire, is_bad_criteria, is_unbound,
  is_bad_dependencies, current_task_contract_version, revalidate_digest, revalidate_command,
  revalidate_path, try_from, draft_of, deserialize, serialize,
}

map-trim-map-trim : (texts : List Text) → map trim (map trim texts) ≡ map trim texts
map-trim-map-trim [] = refl
map-trim-map-trim (t ∷ ts) = rw (trim_idempotent t, map-trim-map-trim ts) refl

-- A validator that returns what it is given.
abbrev Keeps : {A : Type 0} → (A → Validated A) → Type 0
Keeps {A} check = (a b : A) → check a ≡ ok b → a ≡ b

kept-eq-ok :
    {A B : Type 0} (check : A → Validated A) (a : A) (rest : A → Validated B) {value : B}
    → Keeps check
    → (check a >>= rest) ≡ ok value
    → rest a ≡ ok value
kept-eq-ok check a rest {value} keeps e =
    let (b, given, same) = >>=-eq-ok (check a) rest e in
    subst (λ x. rest x ≡ ok value) (sym (keeps a b given)) same

revalidate_digest-Keeps : Keeps revalidate_digest
unfolding new_digest
revalidate_digest-Keeps a b e =
    ok-injective (>>-eq-ok (validate_sha256 a.sha256 _) _ (>>-eq-ok (nonempty a.source _) _ e).1).1

revalidate_command-Keeps : Keeps revalidate_command
unfolding new_command
revalidate_command-Keeps a b e =
    let program = >>-eq-ok (nonempty a.program _) _ e in
    let clean = >>-eq-ok (reject_if (has_control a.program) _) _ program.1 in
    ok-injective (>>-eq-ok (reject_if (any a.args has_control) _) _ clean.1).1

revalidate_path-Keeps : Keeps revalidate_path
unfolding new_sensitive_path
revalidate_path-Keeps a b e =
    let path = >>-eq-ok (reject_if (is_bad_path a.path) _) _ e in
    ok-injective (>>-eq-ok (nonempty a.reason _) _ path.1).1

revalidate_task_source-Keeps : Keeps revalidate_task_source
unfolding revalidate_task_source new_github_issue new_github_pull_request
revalidate_task_source-Keeps local_request b e = ok-injective e
revalidate_task_source-Keeps (github_issue s) b e = ok-injective (>>-eq-ok _ _ e).1
revalidate_task_source-Keeps (github_pull_request s) b e =
    let item =
      >>-eq-ok (validate_github_item s.repository_id s.repository_full_name s.number s.html_url) _
        e in
    let base_ref = >>-eq-ok (validate_ref s.base_ref "baseRef") _ item.1 in
    let head_ref = >>-eq-ok (validate_ref s.head_ref "headRef") _ base_ref.1 in
    let base_sha = >>-eq-ok (validate_git_sha s.base_sha "baseSha") _ head_ref.1 in
    ok-injective (>>-eq-ok (validate_git_sha s.head_sha "headSha") _ base_sha.1).1

collect_all-Keeps : {A : Type 0} (check : A → Validated A) → Keeps check → Keeps (collect_all check)
unfolding collect_all
collect_all-Keeps check keeps [] b e = ok-injective e
collect_all-Keeps check keeps (a ∷ rest) b e =
    let (x, ex, e) = >>=-eq-ok (check a) _ e in
    let (xs, exs, e) = >>=-eq-ok (collect_all check rest) _ e in
    rw (keeps a x ex, collect_all-Keeps check keeps rest xs exs) (ok-injective e)

collect_digests-Keeps : Keeps (collect_all revalidate_digest)
collect_digests-Keeps = collect_all-Keeps revalidate_digest revalidate_digest-Keeps

collect_commands-Keeps : Keeps (collect_all revalidate_command)
collect_commands-Keeps = collect_all-Keeps revalidate_command revalidate_command-Keeps

collect_paths-Keeps : Keeps (collect_all revalidate_path)
collect_paths-Keeps = collect_all-Keeps revalidate_path revalidate_path-Keeps

-- The contract that `try_from` makes of a draft.
abbrev pub made : TaskContractDraft → TaskContract
made d = record {
  version = current_task_contract_version;
  task_id = d.task_id;
  source = d.source;
  repository_binding_id = d.repository_binding_id;
  goal = trim d.goal;
  acceptance_criteria = map trim d.acceptance_criteria;
  base_sha = d.base_sha;
  head_sha = d.head_sha;
  source_sha256 = d.source_sha256;
  repository_sha256 = d.repository_sha256;
  instruction_digests = d.instruction_digests;
  verification_commands = d.verification_commands;
  required_capabilities = d.required_capabilities;
  risk = d.risk;
  sensitive_paths = d.sensitive_paths;
  dependencies = d.dependencies;
}

-- What is known once `try_from` accepts a draft: the contract, and the checks that passed.
pub record IsAccepted (d : TaskContractDraft) (c : TaskContract) : Type 0 where
  pub same : made d ≡ c
  pub goal : nonempty (trim d.goal) "goal" ≡ ok tt
  pub criteria : is_bad_criteria (map trim d.acceptance_criteria) ≡ false
  pub commands : is_empty d.verification_commands ≡ false
  pub bound : is_unbound d.source d.base_sha d.head_sha ≡ false
  pub dependencies : is_bad_dependencies d.task_id d.dependencies ≡ false

pub try_from-IsAccepted :
    (d : TaskContractDraft) (c : TaskContract) → try_from d ≡ ok c → IsAccepted d c
unfolding try_from
try_from-IsAccepted d c e =
    let goal = >>-eq-ok (nonempty (trim d.goal) "goal") _ e in
    let e = kept-eq-ok revalidate_task_source d.source _ revalidate_task_source-Keeps goal.1 in
    let criteria = >>-eq-ok (reject_if (is_bad_criteria (map trim d.acceptance_criteria)) _) _ e in
    let e = (>>-eq-ok (validate_optional_git_sha d.base_sha "baseSha") _ criteria.1).1 in
    let e = (>>-eq-ok (validate_optional_git_sha d.head_sha "headSha") _ e).1 in
    let e = (>>-eq-ok (validate_sha256 d.source_sha256 "sourceSha256") _ e).1 in
    let e = (>>-eq-ok (validate_sha256 d.repository_sha256 "repositorySha256") _ e).1 in
    let commands = >>-eq-ok (reject_if (is_empty d.verification_commands) _) _ e in
    let e = kept-eq-ok (collect_all revalidate_digest) _ _ collect_digests-Keeps commands.1 in
    let e = kept-eq-ok (collect_all revalidate_command) _ _ collect_commands-Keeps e in
    let e = kept-eq-ok (collect_all revalidate_path) _ _ collect_paths-Keeps e in
    let bound = >>-eq-ok (reject_if (is_unbound d.source d.base_sha d.head_sha) _) _ e in
    let last = >>-eq-ok (reject_if (is_bad_dependencies d.task_id d.dependencies) _) _ bound.1 in
    record {
      same = ok-injective last.1;
      goal = goal.0;
      criteria = reject_if-eq-ok _ _ criteria.0;
      commands = reject_if-eq-ok _ _ commands.0;
      bound = reject_if-eq-ok _ _ bound.0;
      dependencies = reject_if-eq-ok _ _ last.0;
    }

try_from-again : (d : TaskContractDraft) → try_from (draft_of (serialize (made d))) ≡ try_from d
unfolding try_from
try_from-again d = rw (trim_idempotent d.goal, map-trim-map-trim d.acceptance_criteria) refl

-- A contract that was validated passes validation again as it is.
try_from-try_from :
    (d : TaskContractDraft) (c : TaskContract)
    → try_from d ≡ ok c
    → try_from (draft_of (serialize c)) ≡ ok c
try_from-try_from d c e =
    subst (λ x. try_from (draft_of (serialize x)) ≡ ok c) (try_from-IsAccepted d c e).same
      (try_from-again d ∙ e)

version_kept :
    (version : ℕ) (v : TaskContract)
    → reject_if
        (not (version == 1 || version == current_task_contract_version))
        (invalid_field "version")
      ≡ ok tt
    → try_from (draft_of (serialize v)) ≡ ok v
    → deserialize (serialize (record v { version = version })) ≡ ok (record v { version = version })
unfolding deserialize
version_kept version v h k = rw (h, k) refl

-- A contract that was read is written in a form that is read back as the same contract.
pub deserialize_lem :
    (wire : TaskContractWire) (c : TaskContract)
    → deserialize wire ≡ ok c
    → deserialize (serialize c) ≡ ok c
unfolding deserialize
deserialize_lem wire c e =
    let version =
      >>-eq-ok
        (reject_if (not (wire.version == 1 || wire.version == current_task_contract_version)) _) _
        e in
    let (v, ev, same) = >>=-eq-ok (try_from (draft_of wire)) _ version.1 in
    subst (λ c. deserialize (serialize c) ≡ ok c) (ok-injective same)
      (version_kept wire.version v version.0 (try_from-try_from (draft_of wire) v ev))
