-- ===== src/Api/Run.antt =====
-- The WorkflowRun resource: api/v1alpha1/workflowrun_types.go.
use open_actions.Api.Meta.{ObjectMeta, Condition, ConcurrencyStatus, CommitStatus}
use open_actions.Api.Source.{WorkflowRunSource}
use open_actions.Base.{ℕ, String, List, Option, Bool}

pub record WorkflowRunApproval : Type 0 where
  pub approved : Bool

pub record WorkflowRunForkPullRequest : Type 0 where
  pub require_approval : Bool
  pub approved : Bool
  pub send_write_tokens : Bool
  pub send_secrets : Bool

pub record WorkflowRunReference : Type 0 where
  pub name : String
  pub uid : String

pub record WorkflowRunRerun : Type 0 where
  pub original_run_ref : WorkflowRunReference
  pub previous_run_ref : WorkflowRunReference
  pub attempt : ℕ
  pub job_ids : List String

pub record WorkflowRunSpec : Type 0 where
  pub project_ref : String
  pub source : WorkflowRunSource
  pub workflow_path : String
  pub fork_pull_request : Option WorkflowRunForkPullRequest
  pub approval : Option WorkflowRunApproval
  pub cancel_requested : Bool
  pub rerun : Option WorkflowRunRerun
  pub ttl_seconds_after_finished : Option ℕ

pub record WorkflowRunJobStatus : Type 0 where
  pub total : ℕ
  pub waiting : ℕ
  pub queued : ℕ
  pub active : ℕ
  pub succeeded : ℕ
  pub failed : ℕ
  pub timed_out : ℕ
  pub skipped : ℕ
  pub cancelled : ℕ

pub record WorkflowRunIdentityStatus : Type 0 where
  pub id : ℕ
  pub number : ℕ
  pub attempt : ℕ
  pub url : String

-- Status.Source, whose one field is the GitHub status with one field.
pub record WorkflowRunSourceStatus : Type 0 where
  pub github : Option (Option CommitStatus)

pub record WorkflowRunStatus : Type 0 where
  pub observed_generation : ℕ
  pub identity : Option WorkflowRunIdentityStatus
  pub workflow_name : String
  pub concurrency : Option ConcurrencyStatus
  pub concurrency_group : String
  pub jobs : Option WorkflowRunJobStatus
  pub source : Option WorkflowRunSourceStatus
  pub start_time : Option ℕ
  pub completion_time : Option ℕ
  pub conditions : List Condition

pub record WorkflowRun : Type 0 where
  pub meta : ObjectMeta
  pub spec : WorkflowRunSpec
  pub status : WorkflowRunStatus
