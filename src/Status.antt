-- ===== src/Status.antt =====
-- What the conditions of a run and of a job amount to: internal/workflowstatus/status.go, the
-- predicates of internal/workflowrun/rerun.go on a run, and those of
-- internal/controller/workflowrun_controller.go on a job.
pub mod Laws
mod Tests
use open_actions.Api.{
  Condition, is_true, is_false, is_unknown, FindCondition, WorkflowRun, WorkflowJob,
  WorkflowJobResult, no_result, success, failure, is_no_result, is_failure, is_cancelled,
  condition_true, condition_false, condition_unknown, ConditionStatus, WorkflowJobMatrix,
}
use open_actions.Base.{
  ℕ, String, Bool, true, false, not, ◌&&◌, ◌||◌, Option, none, some, ◌==◌, is_some, is_none, any,
  if◌then◌else◌,
}

-- The labels of the console.
pub data Label : Type 0 where
  queued running cancelling succeeded failed skipped cancelled timed_out waiting approval : Label

abbrev has_status : (ConditionStatus → Bool) → Option Condition → Bool
has_status test none = false
has_status test (some c) = test c.status

abbrev has_reason : String → Option Condition → Bool
has_reason reason none = false
has_reason reason (some c) = c.reason == reason

-- `condition != nil && condition.Status == metav1.ConditionTrue`, and so on.
abbrev pub holds : Option Condition → Bool
holds = has_status is_true

abbrev pub fails : Option Condition → Bool
fails = has_status is_false

abbrev pub fails_for : String → Option Condition → Bool
fails_for reason c = fails c && has_reason reason c

-- A condition that is absent or has status Unknown.
abbrev pub is_open : Option Condition → Bool
is_open c = is_none c || has_status is_unknown c

-- matrixFailFastEnabled.
unfoldable pub fail_fast_enabled : Option WorkflowJobMatrix → Bool
fail_fast_enabled none = false
fail_fast_enabled (some m) = elim m.fail_fast [ none ↦ true | some b ↦ b ]

module _ (find : FindCondition) where
  abbrev run_condition : WorkflowRun → String → Option Condition
  run_condition run kind = find run.status.conditions kind

  abbrev job_condition : WorkflowJob → String → Option Condition
  job_condition job kind = find job.status.conditions kind

  -- workflowrun.Terminal, and terminalRun of the controller.
  unfoldable pub terminal : WorkflowRun → Bool
  terminal run =
      let condition = run_condition run "Succeeded" in
      is_some condition && (holds condition || fails condition)

  -- workflowrun.Failed.
  unfoldable pub run_failed : WorkflowRun → Bool
  run_failed run =
      let condition = run_condition run "Succeeded" in
      fails_for "JobFailed" condition || fails_for "JobTimedOut" condition

  -- The `switch` of `Run` on the condition `Succeeded`.
  run_label_by : ConditionStatus → Condition → Option ℕ → Label
  run_label_by condition_true c start = succeeded
  run_label_by condition_false c start =
      if c.reason == "JobCancelled" || c.reason == "RevisionSuperseded"
      then cancelled
      else if c.reason == "JobTimedOut"
      then timed_out
      else failed
  run_label_by condition_unknown c start = if is_some start then running else queued

  -- workflowstatus.Run.
  unfoldable pub run_label : WorkflowRun → Label
  unfolding run_label_by
  run_label run =
      let condition = run_condition run "Succeeded" in
      let approved = run_condition run "Approved" in
      if run.spec.cancel_requested && is_open condition then cancelling else elim condition [
        | none ↦ if fails_for "ApprovalRequired" approved then approval else queued
        | some c ↦ run_label_by c.status c run.status.start_time
      ]

  -- The result that `Status.Result` records, if there is one.
  abbrev label_of_result : WorkflowJobResult → Option Label
  label_of_result no_result = none
  label_of_result success = some succeeded
  label_of_result failure = some failed
  label_of_result WorkflowJobResult.skipped = some skipped
  label_of_result WorkflowJobResult.cancelled = some cancelled

  abbrev label_of_condition : Option Condition → Option Label
  label_of_condition c = if holds c then some succeeded else if fails c then some failed else none

  -- The labels of a job that has not finished.
  abbrev unfinished_label : WorkflowJob → Label
  unfinished_label job =
      let ready = job_condition job "Ready" in
      if holds (job_condition job "CancellationRequested")
      then cancelling
      else if is_some job.status.start_time
      then running
      else if is_some ready && not (holds ready)
      then waiting
      else queued

  -- workflowstatus.Job.
  unfoldable pub job_label : WorkflowJob → Label
  job_label job =
      let condition = job_condition job "Succeeded" in
      if fails_for "JobTimedOut" condition
      then timed_out
      else elim (label_of_result job.status.result) [
        | some label ↦ label
        | none ↦ elim (label_of_condition condition) [
          | some label ↦ label
          | none ↦ unfinished_label job
        ]
      ]

  -- workflowstatus.JobTerminal.
  unfoldable pub job_terminal : WorkflowJob → Bool
  job_terminal job =
      let condition = job_condition job "Succeeded" in
      if not (is_no_result job.status.result)
      then true
      else is_some condition && not (has_status is_unknown condition)

  abbrev result_of_status : Option Condition → WorkflowJobResult
  result_of_status c = if holds c then success else if fails c then failure else no_result

  -- workflowJobResult of the controller, for a job that is not nil.
  unfoldable pub job_result : WorkflowJob → WorkflowJobResult
  job_result job =
      if not (is_no_result job.status.result)
      then job.status.result
      else result_of_status (job_condition job "Succeeded")

  -- workflowJobTerminal of the controller.
  unfoldable pub result_is_known : WorkflowJob → Bool
  unfolding job_result
  result_is_known job = not (is_no_result (job_result job))

  -- workflowJobTimedOut.
  unfoldable pub job_timed_out : WorkflowJob → Bool
  job_timed_out job = fails_for "JobTimedOut" (job_condition job "Succeeded")

  -- workflowJobEffectiveResult.
  unfoldable pub effective_result : WorkflowJob → WorkflowJobResult
  unfolding job_result job_timed_out
  effective_result job =
      let result = job_result job in
      if is_failure result && job.spec.continue_on_error && not (job_timed_out job)
      then success
      else result

  -- workflowJobCancelledByMatrixFailFast.
  unfoldable pub cancelled_by_fail_fast : WorkflowJob → Bool
  unfolding job_result
  cancelled_by_fail_fast job =
      is_cancelled (job_result job) && any (λ c. c.reason == "MatrixFailFast") job.status.conditions

  -- workflowJobFailureTriggersMatrixFailFast, with matrixFailFastEnabled.
  unfoldable pub triggers_fail_fast : WorkflowJob → Bool
  unfolding effective_result
  triggers_fail_fast job =
      let condition = job_condition job "Succeeded" in
      fail_fast_enabled job.spec.matrix
      && is_failure (effective_result job)
      && (is_none condition
          || not (has_reason "MatrixFailFast" condition)
            && not (has_reason "CancellationRequested" condition))
