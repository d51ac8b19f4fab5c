-- ===== src/Lineage/Dependents/Failed.antt =====
-- The jobs of a failed run that run again.
use open_actions.Api.{FindCondition, WorkflowRun, WorkflowJob}
use open_actions.Base.{String, true, ◌&&◌, ◌≡◌, ◌↔◌, refl, arith, List, [], ◌∷◌, any, ◌==◌}
use open_actions.Base.Dict.{mem, mem-add}
use open_actions.Base.Result.{ok}
use open_actions.Lineage.Dependents.{
  counts_as_failed, failed_seeds, failed_job_ids, job_ids_with_dependents,
}
use open_actions.Lineage.Dependents.Laws.{IdsAgree, job_ids_with_dependents_iff}
use open_actions.Lineage.Dependents.Sound.{IsSelected}
use open_actions.Status.{run_failed}

module _ (find : FindCondition) where
  mem-failed_seeds :
      (k : String) (jobs : List WorkflowJob)
      → mem k (failed_seeds find jobs)
        ≡ any (λ job. counts_as_failed find job && k == job.spec.job_id) jobs
  unfolding failed_seeds
  mem-failed_seeds k [] = refl
  mem-failed_seeds k (job ∷ jobs) =
      ground (arith, mem-failed_seeds k jobs, mem-add k job.spec.job_id (failed_seeds find jobs))

  failed_job_ids-eq-ok :
      (run : WorkflowRun) (jobs : List WorkflowJob) {ids : List String}
      → run_failed find run ≡ true
      → failed_job_ids find run jobs ≡ ok ids
      → ids ≡ job_ids_with_dependents jobs (failed_seeds find jobs)
  unfolding failed_job_ids
  failed_job_ids-eq-ok run jobs {ids} failed e = ground arith

  -- The IDs that FailedJobIDs returns without an error for a failed run are those to which a
  -- chain of needs leads from a job that counts as failed. Jobs with one ID are taken to belong
  -- to one logical job.
  pub failed_job_ids_iff :
      (run : WorkflowRun) (jobs : List WorkflowJob) {ids : List String}
      → IdsAgree jobs
      → run_failed find run ≡ true
      → failed_job_ids find run jobs ≡ ok ids
      → ((k : String) → (mem k ids ≡ true) ↔ IsSelected jobs (failed_seeds find jobs) k)
        × ((k : String)
            → mem k (failed_seeds find jobs)
              ≡ any (λ job. counts_as_failed find job && k == job.spec.job_id) jobs)
  failed_job_ids_iff run jobs {ids} agree failed e =
      let same = failed_job_ids-eq-ok run jobs failed e in
      (
        λ k. rw same (job_ids_with_dependents_iff jobs (failed_seeds find jobs) agree k),
        λ k. mem-failed_seeds k jobs,
      )
