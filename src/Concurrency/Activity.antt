-- ===== src/Concurrency/Activity.antt =====
-- Whether a member of a concurrency group still runs: concurrencyMemberActive and what it calls in
-- internal/controller, over what the API server answers.
use open_actions.Api.{
  FindCondition, Condition, WorkflowRun, WorkflowJob, is_true, ConditionStatus, condition_true,
  condition_false, condition_unknown, is_unknown,
}
use open_actions.Base.{
  String, Bool, true, false, not, ◌&&◌, Option, none, some, List, [], ◌∷◌, ◌==◌, any, if◌then◌else◌,
}
use open_actions.Base.Result.{Result, ok, err, ◌>>=◌}
use open_actions.Concurrency.Member.{
  Member, GateError, api_failure, not_controlled, unsupported_kind,
}
use open_actions.Status.{terminal, result_is_known}

-- The answer to a Get.
pub data Read {ℓ} (A : Type ℓ) : Type ℓ where
  found : A → Read A
  missing failed : Read A

-- The parts of a batch/v1 Job and of a Pod that the sources read.
pub record NativeJob : Type 0 where
  pub controller_uid : Option String
  pub conditions : List Condition

pub record Pod : Type 0 where
  pub phase : String

-- One reading of the cluster; each List goes by the label that holds the UID.
pub record Cluster : Type 0 where
  pub get_run : String → Read WorkflowRun
  pub get_job : String → Read WorkflowJob
  pub get_native_job : String → Read NativeJob
  pub native_jobs_of_run : String → Result GateError (List NativeJob)
  pub native_jobs_of_job : String → Result GateError (List NativeJob)
  pub pods_of_run : String → Result GateError (List Pod)
  pub pods_of_job : String → Result GateError (List Pod)

-- jobResult, over the conditions of the native Job.
unfoldable pub native_result : List Condition → ConditionStatus
native_result [] = condition_unknown
native_result (c ∷ cs) =
    let rest = native_result cs in
    if not (is_true c.status)
    then rest
    else if c.kind == "Complete"
    then condition_true
    else if c.kind == "Failed"
    then condition_false
    else rest

-- jobTerminal.
unfoldable pub native_terminal : NativeJob → Bool
unfolding native_result
native_terminal job = not (is_unknown (native_result job.conditions))

-- podActive.
unfoldable pub pod_active : Pod → Bool
pod_active pod = not (pod.phase == "Succeeded") && not (pod.phase == "Failed")

-- The two lists of activeRuntimeWorkloads and workflowJobUIDExecutionActive, in their order.
unfoldable pub workloads_active :
    Result GateError (List NativeJob) → Result GateError (List Pod) → Result GateError Bool
unfolding native_terminal pod_active
workloads_active listed_jobs listed_pods =
    let pods_active = (do pods ← listed_pods; ok (any pod_active pods)) in
    listed_jobs >>= λ jobs.
    if any (λ job. not (native_terminal job)) jobs then ok true else pods_active

is_controlled_by : Option String → String → Bool
is_controlled_by none uid = false
is_controlled_by (some owner) uid = owner == uid

-- workflowJobExecutionActive.
unfoldable pub job_execution_active : Cluster → WorkflowJob → Result GateError Bool
unfolding native_terminal pod_active is_controlled_by
job_execution_active c job =
    let listed = (do pods ← c.pods_of_job job.meta.uid; ok (any pod_active pods)) in
    elim (c.get_native_job job.meta.name) [
      | failed ↦ err api_failure
      | missing ↦ listed
      | found native ↦
          if not (is_controlled_by native.controller_uid job.meta.uid)
          then err not_controlled
          else if not (native_terminal native)
          then ok true
          else listed
    ]

module _ (find : FindCondition) (c : Cluster) where
  -- The case "WorkflowRun" of concurrencyMemberActive.
  unfoldable pub run_member_active : Member → Result GateError Bool
  unfolding terminal workloads_active
  run_member_active m =
      let workloads = workloads_active (c.native_jobs_of_run m.uid) (c.pods_of_run m.uid) in
      elim (c.get_run m.name) [
        | failed ↦ err api_failure
        | missing ↦ workloads
        | found run ↦
            if not (run.meta.uid == m.uid) then workloads else ok (not (terminal find run))
      ]

  -- The case "WorkflowJob".
  unfoldable pub job_member_active : Member → Result GateError Bool
  unfolding result_is_known workloads_active job_execution_active
  job_member_active m =
      let workloads = workloads_active (c.native_jobs_of_job m.uid) (c.pods_of_job m.uid) in
      elim (c.get_job m.name) [
        | failed ↦ err api_failure
        | missing ↦ workloads
        | found job ↦
            if not (job.meta.uid == m.uid)
            then workloads
            else if not (result_is_known find job)
            then ok true
            else job_execution_active c job
      ]

  -- concurrencyMemberActive.
  unfoldable pub member_active : Member → Result GateError Bool
  unfolding run_member_active job_member_active
  member_active m =
      if m.kind == "WorkflowRun"
      then run_member_active m
      else if m.kind == "WorkflowJob"
      then job_member_active m
      else err unsupported_kind
