-- ===== src/Lineage/Approval.antt =====
-- Approvals: internal/workflowrun/approval.go.
use open_actions.Api.{WorkflowRun, WorkflowRunApproval, WorkflowRunForkPullRequest}
use open_actions.Base.{Bool, true, false, not, ◌&&◌, ◌||◌, Option, none, some, is_some, ◌≡◌, arith}

abbrev fork_requires : Option WorkflowRunForkPullRequest → Bool
fork_requires none = false
fork_requires (some fork) = fork.require_approval

-- RequiresApproval.
unfoldable pub requires_approval : WorkflowRun → Bool
requires_approval run = is_some run.spec.approval || fork_requires run.spec.fork_pull_request

abbrev approval_awaits : Option WorkflowRunApproval → Bool
approval_awaits none = false
approval_awaits (some a) = not a.approved

abbrev fork_awaits : Option WorkflowRunForkPullRequest → Bool
fork_awaits none = false
fork_awaits (some fork) = fork.require_approval && not fork.approved

-- AwaitingApproval.
unfoldable pub awaiting_approval : WorkflowRun → Bool
awaiting_approval run = approval_awaits run.spec.approval || fork_awaits run.spec.fork_pull_request

abbrev approve_approval : Option WorkflowRunApproval → Option WorkflowRunApproval
approve_approval none = none
approve_approval (some a) = some (record a { approved = true })

abbrev approve_fork : Option WorkflowRunForkPullRequest → Option WorkflowRunForkPullRequest
approve_fork none = none
approve_fork (some fork) = elim fork.require_approval [
  | true ↦ some (record fork { approved = true })
  | false ↦ some fork
]

-- Approve, which changes the run in place.
unfoldable pub approve : WorkflowRun → WorkflowRun
approve run = record run {
  spec = record (run.spec) {
    approval = approve_approval run.spec.approval;
    fork_pull_request = approve_fork run.spec.fork_pull_request;
  };
}

-- An approved run waits for no approval, whatever it waited for, and still counts as one that
-- requires an approval exactly if it did.
pub approve_grants :
    (run : WorkflowRun)
    → (awaiting_approval (approve run) ≡ false)
      × (requires_approval (approve run) ≡ requires_approval run)
unfolding awaiting_approval requires_approval approve
approve_grants run = (ground arith, ground arith)

-- A run that waits for an approval is one that requires it.
pub awaiting-requires :
    (run : WorkflowRun) → awaiting_approval run ≡ true → requires_approval run ≡ true
unfolding awaiting_approval requires_approval
awaiting-requires run h = ground arith
