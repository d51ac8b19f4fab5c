-- ===== src/Api/Source.antt =====
-- What a WorkflowRun was triggered by: api/v1alpha1/workflowrun_types.go.
use open_actions.Base.{ℕ, String, List, Option}

pub record GitHubRepository : Type 0 where
  pub id : ℕ
  pub owner : String
  pub name : String

pub record GitHubPullRequest : Type 0 where
  pub number : ℕ
  pub body : String
  pub html_url : String
  pub head_repository : GitHubRepository
  pub head_ref : String
  pub head_sha : String
  pub base_ref : String

pub record GitHubWorkflowRunEvent : Type 0 where
  pub conclusion : String
  pub head_sha : String

pub record GitHubIssueEvent : Type 0 where
  pub number : ℕ
  pub body : String

pub record GitHubCommentEvent : Type 0 where
  pub body : String

pub record GitHubReviewEvent : Type 0 where
  pub body : String

pub record GitHubEvent : Type 0 where
  pub name : String
  pub action : String
  pub delivery_id : String
  pub pull_request : Option GitHubPullRequest
  pub workflow_run : Option GitHubWorkflowRunEvent
  pub issue : Option GitHubIssueEvent
  pub comment : Option GitHubCommentEvent
  pub review : Option GitHubReviewEvent
  pub inputs : List (String × String)
  pub schedule : String

pub record GitRevision : Type 0 where
  pub sha : String
  pub head_sha : String
  pub base_sha : String
  pub merge_base_sha : String
  pub ref : String
  pub head_ref : String
  pub base_ref : String

pub record GitHubWorkflowRunSource : Type 0 where
  pub actor : String
  pub repository : GitHubRepository
  pub event : GitHubEvent
  pub revision : GitRevision

pub record WorkflowRunSource : Type 0 where
  pub kind : String  -- Type
  pub github : Option GitHubWorkflowRunSource
