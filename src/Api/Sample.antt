-- ===== src/Api/Sample.antt =====
-- Data for the tests: a run, a job, and a search of the conditions.
use open_actions.Api.Job.{WorkflowJob, no_result}
use open_actions.Api.Meta.{FindCondition}
use open_actions.Api.Run.{WorkflowRun}
use open_actions.Base.{String, true, false, none, some, List, [], ◌∷◌, ◌==◌, if◌then◌else◌}

-- meta.FindStatusCondition: the first condition of the type.
abbrev pub find_first : FindCondition
find_first [] kind = none
find_first (c ∷ cs) kind = if c.kind == kind then some c else find_first cs kind

abbrev pub bare_job : String → List String → WorkflowJob
bare_job id needs = record {
  meta = record {
    name = id;
    namespace = "demo";
    uid = id;
    creation_timestamp = 1;
    labels = [];
    annotations = [];
  };
  spec = record {
    workflow_run_ref = "ci";
    job_id = id;
    display_name = id;
    runs_on = [];
    needs = needs;
    condition = "";
    continue_on_error = false;
    concurrency = none;
    matrix = none;
    timeout_seconds = 60;
  };
  status = record {
    observed_generation = 1;
    result = no_result;
    runner_ref = none;
    start_time = none;
    completion_time = none;
    outputs = [];
    concurrency = none;
    source = none;
    conditions = [];
  };
}

-- A run whose pull request from a fork needs an approval.
abbrev pub bare_run : String → WorkflowRun
bare_run name = record {
  meta = record {
    name = name;
    namespace = "demo";
    uid = name;
    creation_timestamp = 1;
    labels = [];
    annotations = [];
  };
  spec = record {
    project_ref = "demo";
    source = record { kind = "GitHub"; github = none };
    workflow_path = "ci.yaml";
    fork_pull_request = some (record {
      require_approval = true;
      approved = false;
      send_write_tokens = false;
      send_secrets = false;
    });
    approval = none;
    cancel_requested = false;
    rerun = none;
    ttl_seconds_after_finished = none;
  };
  status = record {
    observed_generation = 1;
    identity = none;
    workflow_name = "CI";
    concurrency = none;
    concurrency_group = "";
    jobs = none;
    source = none;
    start_time = none;
    completion_time = none;
    conditions = [];
  };
}
