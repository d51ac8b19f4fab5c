-- ===== src/Lineage/Attempts.antt =====
-- The attempts of a run: LatestAttempt and NewRerun of internal/workflowrun/rerun.go. The search of a
-- condition, the comparison of sources and the name of an attempt are parameters.
pub mod Laws
use open_actions.Api.{
  FindCondition, WorkflowRun, WorkflowRunRerun, WorkflowRunReference, WorkflowRunSource,
}
use open_actions.Base.{
  ℕ, zero, suc, String, Bool, true, false, not, ◌&&◌, Option, none, some, List, [], ◌∷◌, ◌==◌, any,
  eqb, ltb, if◌then◌else◌,
}
use open_actions.Base.Dict.{get}
use open_actions.Base.Result.{Result, ok, err}
use open_actions.Lineage.Dependents.{RerunError, multiple_attempts}
use open_actions.Status.{fails_for}

-- The parameters: meta.FindStatusCondition, apiequality.Semantic.DeepEqual, and RerunName, which
-- takes a digest.
pub record Environment : Type 0 where
  pub find : FindCondition
  pub same_source : WorkflowRunSource → WorkflowRunSource → Bool
  pub rerun_name : WorkflowRun → ℕ → String

abbrev seen_before : ℕ → List ℕ → Bool
seen_before n numbers = any (eqb n) numbers

module _ (env : Environment) (root : WorkflowRun) where
  -- The tests of the loop of LatestAttempt: the number of an attempt that is one of the root's.
  unfoldable pub lineage_attempt : WorkflowRun → Option ℕ
  lineage_attempt run = elim run.spec.rerun [
    | none ↦ none
    | some rerun ↦
        if not (
          rerun.original_run_ref.name == root.meta.name
          && rerun.original_run_ref.uid == root.meta.uid)
        then none
        else if not (
            run.spec.project_ref == root.spec.project_ref
            && run.spec.workflow_path == root.spec.workflow_path
            && env.same_source run.spec.source root.spec.source)
        then none
        else if fails_for "RerunInvalid" (env.find run.status.conditions "Planned")
        then none
        else some rerun.attempt
  ]

  -- `latest.Spec.Rerun == nil || rerun.Attempt > latest.Spec.Rerun.Attempt`.
  abbrev is_newer : ℕ → WorkflowRun → Bool
  is_newer n latest = elim latest.spec.rerun [ none ↦ true | some l ↦ ltb l.attempt n ]

  -- The loop.
  unfoldable pub scan : WorkflowRun → List ℕ → List WorkflowRun → Result RerunError WorkflowRun
  scan latest attempts [] = ok latest
  scan latest attempts (run ∷ runs) =
      let skip = scan latest attempts runs in
      elim (lineage_attempt run) [
        | none ↦ skip
        | some n ↦
            let later = scan (if is_newer n latest then run else latest) (n ∷ attempts) runs in
            if seen_before n attempts then err multiple_attempts else later
      ]

  -- LatestAttempt.
  unfoldable pub latest_attempt : List WorkflowRun → Result RerunError WorkflowRun
  unfolding scan
  latest_attempt runs = scan root (1 ∷ []) runs

  -- NewRerun.
  unfoldable pub new_rerun : WorkflowRun → ℕ → List String → WorkflowRun
  new_rerun previous attempt job_ids =
      let snapshot = get "actions.kelos.dev/github-event-snapshot" root.meta.annotations in
      record {
        meta = record {
          name = env.rerun_name root attempt;
          namespace = root.meta.namespace;
          uid = "";
          creation_timestamp = 0;
          labels = ("actions.kelos.dev/workflow-run-root-uid", root.meta.uid) ∷ [];
          annotations =
              if snapshot == ""
              then []
              else ("actions.kelos.dev/github-event-snapshot", snapshot) ∷ [];
        };
        spec = record (previous.spec) {
          cancel_requested = false;
          rerun = some (record {
            original_run_ref = record { name = root.meta.name; uid = root.meta.uid };
            previous_run_ref = record { name = previous.meta.name; uid = previous.meta.uid };
            attempt = attempt;
            job_ids = job_ids;
          });
        };
        status = record {
          observed_generation = 0;
          identity = none;
          workflow_name = "";
          concurrency = none;
          concurrency_group = "";
          jobs = none;
          source = none;
          start_time = none;
          completion_time = none;
          conditions = [];
        };
      }
