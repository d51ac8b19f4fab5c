-- ===== src/Status/Laws.antt =====
-- The two readings of a job's and a run's end agree.
use open_actions.Api.{FindCondition, WorkflowRun, WorkflowJob}
use open_actions.Base.{Bool, true, false, ◌≡◌, arith}
use open_actions.Status.{
  Label, succeeded, failed, skipped, cancelled, timed_out, terminal, run_label, job_label,
  job_terminal, result_is_known,
}

-- The labels of something that has ended.
abbrev pub is_final : Label → Bool
is_final succeeded = true
is_final failed = true
is_final skipped = true
is_final cancelled = true
is_final timed_out = true
is_final _ = false

module _ (find : FindCondition) where
  -- The label of a run is one of an end exactly if the run counts as terminal.
  pub final-run_label : (run : WorkflowRun) → is_final (run_label find run) ≡ terminal find run
  unfolding run_label terminal
  final-run_label run = ground arith

  -- The label of a job is one of an end exactly if the job counts as terminal.
  pub final-job_label : (job : WorkflowJob) → is_final (job_label find job) ≡ job_terminal find job
  unfolding job_label job_terminal
  final-job_label job = ground arith

  -- A job counts as terminal for the console exactly if the controller knows its result.
  pub job_terminal-result_is_known :
      (job : WorkflowJob) → job_terminal find job ≡ result_is_known find job
  unfolding job_terminal result_is_known
  job_terminal-result_is_known job = ground arith
