-- ===== src/Concurrency/Attempts/Tests.antt =====
-- The Lease of a group in which one run goes on and another one waits.
use open_actions.Api.{
  WorkflowRun, GitHubWorkflowRunSource, Condition, condition_true, condition_unknown,
}
use open_actions.Api.Sample.{bare_run}
use open_actions.Base.{String, false, none, some, [], ◌∷◌, ◌≡◌, refl}
use open_actions.Concurrency.Attempts.{lease_to_create}
use open_actions.Concurrency.Bootstrap.{
  bootstrap, matches_scope, before, insert_candidate, sort_candidates, holders_of, waiters_of,
}
use open_actions.Concurrency.Lease.{Lease}
use open_actions.Concurrency.Member.{Member, Scope, run_decision, run_member}
use open_actions.Concurrency.Sample.{sample}
use open_actions.Status.{terminal}

abbrev scope : Scope
scope = record { project = "demo"; repository_id = 2 }

abbrev pushed : GitHubWorkflowRunSource
pushed = record {
  actor = "someone";
  repository = record { id = 2; owner = "demo"; name = "demo" };
  event = record {
    name = "push";
    action = "";
    delivery_id = "";
    pull_request = none;
    workflow_run = none;
    issue = none;
    comment = none;
    review = none;
    inputs = [];
    schedule = "";
  };
  revision = record {
    sha = "";
    head_sha = "";
    base_sha = "";
    merge_base_sha = "";
    ref = "refs/heads/main";
    head_ref = "";
    base_ref = "";
  };
}

abbrev run_with : String → Condition → WorkflowRun
run_with name planned =
    let bare = bare_run name in
    record bare {
      spec = record (bare.spec) { source = record { kind = "GitHub"; github = some pushed } };
      status = record (bare.status) { concurrency_group = "deploy"; conditions = planned ∷ [] };
    }

abbrev goes_on : WorkflowRun
goes_on = run_with "a" (record { kind = "Planned"; status = condition_true; reason = "Planned" })

abbrev waits : WorkflowRun
waits =
    run_with "b"
      (record { kind = "Planned"; status = condition_unknown; reason = "WaitingForConcurrency" })

abbrev member : String → Member
member name = record { kind = "WorkflowRun"; name = name; uid = name; cancel_in_progress = false }

chosen :
    bootstrap sample scope "deploy" (waits ∷ goes_on ∷ []) ≡ (some (member "a"), some (member "b"))
unfolding bootstrap matches_scope before insert_candidate sort_candidates holders_of waiters_of
    run_decision run_member terminal
chosen = refl

abbrev created : Lease
created = lease_to_create sample scope "deploy" (member "c") 7 (waits ∷ goes_on ∷ [])
