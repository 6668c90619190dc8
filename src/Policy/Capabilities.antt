-- ===== src/Policy/Capabilities.antt =====
-- Capabilities and approval classes of crates/patchwright-core/src/policy.rs.
use patchwright.Prelude.{Bool, true, false, Eq, discrete_eq}
use patchwright.Prelude.Text.{Text, codes}

pub data Capability : Type 0 where
  read_repository prepare_worktree modify_worktree run_known_command access_network : Capability
  install_dependency create_branch push_branch create_pull_request post_comment : Capability
  post_review resolve_thread create_check_run update_pull_request_branch : Capability
  ready_pull_request close_pull_request close_issue modify_workflow : Capability
  enqueue_pull_request merge_pull_request administrator_bypass : Capability

unfoldable pub Capability-discrete : Discrete Capability
Capability-discrete = hlevel

instance abbrev pub capability_eq : Eq Capability
capability_eq = discrete_eq Capability-discrete

-- `Capability::action_kind`.
unfoldable pub action_kind : Capability → Text
action_kind read_repository = codes "readRepository"
action_kind prepare_worktree = codes "prepareWorktree"
action_kind modify_worktree = codes "modifyWorktree"
action_kind run_known_command = codes "runKnownCommand"
action_kind access_network = codes "accessNetwork"
action_kind install_dependency = codes "installDependency"
action_kind create_branch = codes "createBranch"
action_kind push_branch = codes "pushBranch"
action_kind create_pull_request = codes "createPullRequest"
action_kind post_comment = codes "postComment"
action_kind post_review = codes "postReview"
action_kind resolve_thread = codes "resolveThread"
action_kind create_check_run = codes "createCheckRun"
action_kind update_pull_request_branch = codes "updatePullRequestBranch"
action_kind ready_pull_request = codes "readyPullRequest"
action_kind close_pull_request = codes "closePullRequest"
action_kind close_issue = codes "closeIssue"
action_kind modify_workflow = codes "modifyWorkflow"
action_kind enqueue_pull_request = codes "enqueuePullRequest"
action_kind merge_pull_request = codes "mergePullRequest"
action_kind administrator_bypass = codes "administratorBypass"

pub data ApprovalClass : Type 0 where
  preparation codex_runtime local_capability github_delivery merge : ApprovalClass

unfoldable pub ApprovalClass-discrete : Discrete ApprovalClass
ApprovalClass-discrete = hlevel

instance abbrev pub approval_class_eq : Eq ApprovalClass
approval_class_eq = discrete_eq ApprovalClass-discrete

unfoldable pub required_class : Capability → ApprovalClass
required_class prepare_worktree = preparation
required_class merge_pull_request = merge
required_class enqueue_pull_request = merge
required_class access_network = local_capability
required_class install_dependency = local_capability
required_class modify_workflow = local_capability
required_class read_repository = codex_runtime
required_class modify_worktree = codex_runtime
required_class run_known_command = codex_runtime
required_class create_branch = github_delivery
required_class push_branch = github_delivery
required_class create_pull_request = github_delivery
required_class post_comment = github_delivery
required_class post_review = github_delivery
required_class resolve_thread = github_delivery
required_class create_check_run = github_delivery
required_class update_pull_request_branch = github_delivery
required_class ready_pull_request = github_delivery
required_class close_pull_request = github_delivery
required_class close_issue = github_delivery
required_class administrator_bypass = local_capability

unfoldable pub class_supports : ApprovalClass → Capability → Bool
class_supports preparation prepare_worktree = true
class_supports codex_runtime modify_worktree = true
class_supports codex_runtime run_known_command = true
class_supports local_capability access_network = true
class_supports local_capability install_dependency = true
class_supports local_capability modify_workflow = true
class_supports github_delivery create_branch = true
class_supports github_delivery push_branch = true
class_supports github_delivery create_pull_request = true
class_supports github_delivery post_comment = true
class_supports github_delivery post_review = true
class_supports github_delivery resolve_thread = true
class_supports github_delivery create_check_run = true
class_supports github_delivery update_pull_request_branch = true
class_supports github_delivery ready_pull_request = true
class_supports github_delivery close_pull_request = true
class_supports github_delivery close_issue = true
class_supports merge enqueue_pull_request = true
class_supports merge merge_pull_request = true
class_supports _ _ = false
