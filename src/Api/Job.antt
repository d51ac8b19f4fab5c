-- ===== src/Api/Job.antt =====
-- The WorkflowJob resource: api/v1alpha1/workflowjob_types.go.
use open_actions.Api.Meta.{ObjectMeta, Condition, ConcurrencyStatus, CommitStatus}
use open_actions.Base.{ℕ, String, List, Option, Bool, true, false}

-- The type is a string; `no_result` is the empty one.
pub data WorkflowJobResult : Type 0 where
  no_result success failure skipped cancelled : WorkflowJobResult

abbrev pub is_no_result : WorkflowJobResult → Bool
is_no_result no_result = true
is_no_result _ = false

abbrev pub is_success : WorkflowJobResult → Bool
is_success success = true
is_success _ = false

abbrev pub is_failure : WorkflowJobResult → Bool
is_failure failure = true
is_failure _ = false

abbrev pub is_skipped : WorkflowJobResult → Bool
is_skipped skipped = true
is_skipped _ = false

abbrev pub is_cancelled : WorkflowJobResult → Bool
is_cancelled cancelled = true
is_cancelled _ = false

pub record WorkflowJobConcurrencyCancellation : Type 0 where
  pub value : Option Bool
  pub expression : String

pub record WorkflowJobConcurrency : Type 0 where
  pub group : String
  pub cancel_in_progress : Option WorkflowJobConcurrencyCancellation

pub record WorkflowJobMatrix : Type 0 where
  pub logical_job_id : String
  pub values : List (String × String)
  pub job_index : ℕ
  pub job_total : ℕ
  pub max_parallel : ℕ
  pub fail_fast : Option Bool

pub record WorkflowJobSpec : Type 0 where
  pub workflow_run_ref : String
  pub job_id : String
  pub display_name : String
  pub runs_on : List String
  pub needs : List String
  pub condition : String  -- If
  pub continue_on_error : Bool
  pub concurrency : Option WorkflowJobConcurrency
  pub matrix : Option WorkflowJobMatrix
  pub timeout_seconds : ℕ

-- Status.Source, whose one field is the GitHub status with one field.
pub record WorkflowJobSourceStatus : Type 0 where
  pub github : Option (Option CommitStatus)

pub record WorkflowJobStatus : Type 0 where
  pub observed_generation : ℕ
  pub result : WorkflowJobResult
  pub runner_ref : Option String
  pub start_time : Option ℕ
  pub completion_time : Option ℕ
  pub outputs : List (String × String)
  pub concurrency : Option ConcurrencyStatus
  pub source : Option WorkflowJobSourceStatus
  pub conditions : List Condition

pub record WorkflowJob : Type 0 where
  pub meta : ObjectMeta
  pub spec : WorkflowJobSpec
  pub status : WorkflowJobStatus
