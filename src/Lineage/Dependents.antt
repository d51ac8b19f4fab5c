-- ===== src/Lineage/Dependents.antt =====
-- Which jobs run again: jobIDsWithDependents of internal/workflowrun/rerun.go and what it calls.
pub mod Sound
mod Closed
pub mod Laws
pub mod Failed
use Prim.Native.String.{compare}
use open_actions.Api.{
  FindCondition, WorkflowRun, WorkflowJob, is_no_result, is_failure, is_cancelled,
}
use open_actions.Base.{
  ℕ, zero, suc, ◌%◌, ◌^◌, String, Bool, true, false, not, ◌&&◌, ◌||◌, Option, none, some, is_some,
  List, [], ◌∷◌, ◌==◌, any, length, eqb, if◌then◌else◌, keep, map,
}
use open_actions.Base.Sorting.{sort_texts}
use open_actions.Base.Dict.{mem, add}
use open_actions.Base.Result.{Result, ok, err}
use open_actions.Status.{run_failed, fails}
use text.Mathlib.Text.{is_le}

-- logicalJobID.
unfoldable pub logical_id : WorkflowJob → String
logical_id job = elim job.spec.matrix [
  | none ↦ job.spec.job_id
  | some matrix ↦ matrix.logical_job_id
]

-- needsSelectedJob.
unfoldable pub needs_selected : List String → List String → Bool
needs_selected needs logical = any (λ d. mem d logical) needs

-- The variables of jobIDsWithDependents.
pub record Selection : Type 0 where
  pub selected : List String
  pub logical : List String
  pub changed : Bool

-- The body of the inner loop, and the loop.
unfoldable pub visit : WorkflowJob → Selection → Selection
visit job s =
    if mem job.spec.job_id s.selected || not (needs_selected job.spec.needs s.logical)
    then s
    else record {
      selected = job.spec.job_id ∷ s.selected;
      logical = add (logical_id job) s.logical;
      changed = true;
    }

unfoldable pub sweep : List WorkflowJob → Selection → Selection
sweep [] s = s
sweep (job ∷ jobs) s = sweep jobs (visit job s)

-- `for changed := true; changed;`, with fuel.
unfoldable pub close : ℕ → List WorkflowJob → Selection → Selection
close zero jobs s = s
close (suc n) jobs s =
    let next = sweep jobs (record s { changed = false }) in
    elim next.changed [ false ↦ next | true ↦ close n jobs next ]

-- The logical IDs of the jobs that are selected at the start.
unfoldable pub start_logical : List WorkflowJob → List String → List String
start_logical [] selected = []
start_logical (job ∷ jobs) selected =
    let rest = start_logical jobs selected in
    if mem job.spec.job_id selected then add (logical_id job) rest else rest

-- jobIDsWithDependents. Each sweep but the last selects a job, so that one more sweep than there
-- are jobs is enough.
unfoldable pub job_ids_with_dependents : List WorkflowJob → List String → List String
unfolding close sweep visit start_logical logical_id needs_selected sort_texts
job_ids_with_dependents jobs selected =
    sort_texts
      (close (suc (length jobs)) jobs (record {
        selected = selected;
        logical = start_logical jobs selected;
        changed = true;
      })).selected

-- JobAndDependentIDs.
unfoldable pub job_and_dependent_ids : List WorkflowJob → String → List String
unfolding job_ids_with_dependents
job_and_dependent_ids jobs job_id = job_ids_with_dependents jobs (job_id ∷ [])

-- matrixFailFastCancelled.
unfoldable pub fail_fast_cancelled : WorkflowJob → Bool
fail_fast_cancelled job =
    if not (is_some job.spec.matrix) || not (is_cancelled job.status.result)
    then false
    else any (λ c. c.reason == "MatrixFailFast") job.status.conditions

pub data RerunError : Type 0 where
  incomplete_history no_failed_jobs multiple_attempts : RerunError

module _ (find : FindCondition) where
  -- The test of FailedJobIDs on one job.
  unfoldable pub counts_as_failed : WorkflowJob → Bool
  unfolding fail_fast_cancelled
  counts_as_failed job =
      is_failure job.status.result
      || is_no_result job.status.result && fails (find job.status.conditions "Succeeded")
      || fail_fast_cancelled job

  unfoldable pub failed_seeds : List WorkflowJob → List String
  unfolding counts_as_failed
  failed_seeds [] = []
  failed_seeds (job ∷ jobs) =
      let rest = failed_seeds jobs in
      if counts_as_failed job then add job.spec.job_id rest else rest

  -- FailedJobIDs; a run that did not fail selects nothing.
  unfoldable pub failed_job_ids : WorkflowRun → List WorkflowJob → Result RerunError (List String)
  unfolding run_failed failed_seeds job_ids_with_dependents
  failed_job_ids run jobs =
      let seeds = failed_seeds jobs in
      if not (run_failed find run)
      then ok []
      else if not
          (elim run.status.jobs [ none ↦ false | some s ↦ eqb (length jobs % 2 ^ 32) s.total ])
      then err incomplete_history
      else elim seeds [
        | [] ↦ err no_failed_jobs
        | x ∷ xs ↦ ok (job_ids_with_dependents jobs (x ∷ xs))
      ]
