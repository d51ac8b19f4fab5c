-- ===== src/Lineage/Tests.antt =====
-- The theorems at two jobs, of which one needs the other, and at a run that waits for an approval.
use open_actions.Api.{WorkflowJob}
use open_actions.Api.Sample.{bare_job, bare_run}
use open_actions.Base.{true, false, ◌≡◌, ◌↔◌, sym, ◌∙◌, List, [], ◌∷◌, refl}
use open_actions.Base.Dict.{mem}
use open_actions.Lineage.Approval.{
  approve, awaiting_approval, requires_approval, approve_grants, awaiting-requires,
}
use open_actions.Lineage.Dependents.{job_ids_with_dependents, logical_id}
use open_actions.Lineage.Dependents.Laws.{IdsAgree, job_ids_with_dependents_iff}
use open_actions.Lineage.Dependents.Sound.{IsSelected}
use open_actions.Api.{WorkflowRun, failure, condition_false}
use open_actions.Api.Sample.{find_first}
use open_actions.Base.{ℕ, String, ◌⊎◌, any, ◌&&◌, ◌==◌, some}
use open_actions.Base.Result.{ok}
use open_actions.Lineage.Attempts.{Environment, lineage_attempt, latest_attempt, new_rerun}
use open_actions.Lineage.Attempts.Laws.{
  is_ok, numbers, all_new, IsNotBefore, latest_attempt-all_new, latest_attempt_highest,
  new_rerun-lineage_attempt,
}
use open_actions.Lineage.Dependents.{counts_as_failed, failed_seeds, failed_job_ids}
use open_actions.Lineage.Dependents.Failed.{failed_job_ids_iff}
use open_actions.Status.{run_failed}
use open_actions.Lineage.History.{
  no_history, add_attempt, add_attempts, selected_ids, group, is_complete, is_retained, ids_of,
  complete_ids,
}
use open_actions.Lineage.History.Laws.{IsUnreplaced, add_attempt_iff}
use mathlib.Core.List.{Memᴰ}

approve_grants_example :
    (awaiting_approval (approve (bare_run "ci")) ≡ false)
    × (requires_approval (approve (bare_run "ci")) ≡ requires_approval (bare_run "ci"))
approve_grants_example = approve_grants (bare_run "ci")

awaits : awaiting_approval (bare_run "ci") ≡ true
unfolding awaiting_approval
awaits = refl

awaiting-requires_example : requires_approval (bare_run "ci") ≡ true
awaiting-requires_example = awaiting-requires (bare_run "ci") awaits

abbrev two_jobs : List WorkflowJob
two_jobs = bare_job "build" [] ∷ bare_job "test" ("build" ∷ []) ∷ []

-- The job that needs the selected one runs again too.
two_jobs_again : job_ids_with_dependents two_jobs ("build" ∷ []) ≡ "build" ∷ "test" ∷ []
unfolding job_ids_with_dependents
two_jobs_again = refl

is_plain : (a : WorkflowJob) → Memᴰ a two_jobs → logical_id a ≡ a.spec.job_id
unfolding logical_id
is_plain a (Memᴰ.head e) = rw e refl
is_plain a (Memᴰ.tail (Memᴰ.head e)) = rw e refl
is_plain a (Memᴰ.tail (Memᴰ.tail m)) = elim m [ ]

two_jobs-IdsAgree : IdsAgree two_jobs
two_jobs-IdsAgree a b at_a at_b e = is_plain a at_a ∙ e ∙ sym (is_plain b at_b)

job_ids_with_dependents_iff_example :
    (mem "test" (job_ids_with_dependents two_jobs ("build" ∷ [])) ≡ true)
    ↔ IsSelected two_jobs ("build" ∷ []) "test"
job_ids_with_dependents_iff_example =
    job_ids_with_dependents_iff two_jobs ("build" ∷ []) two_jobs-IdsAgree "test"

abbrev env : Environment
env = record {
  find = find_first;
  same_source = λ a b. a.kind == b.kind;
  rerun_name = λ run n. run.meta.name;
}

abbrev root : WorkflowRun
root = bare_run "ci"

abbrev second : WorkflowRun
second = new_rerun env root root 2 ("build" ∷ [])

abbrev third : WorkflowRun
third = new_rerun env root second 3 ("build" ∷ [])

abbrev attempts : List WorkflowRun
attempts = third ∷ second ∷ []

-- The third attempt is the latest, whatever the order.
latest_is_third : latest_attempt env root attempts ≡ ok third
unfolding latest_attempt lineage_attempt new_rerun
latest_is_third = refl

third_counts : lineage_attempt env root third ≡ some 3
unfolding lineage_attempt new_rerun
third_counts = refl

latest_attempt-all_new_example :
    is_ok (latest_attempt env root attempts) ≡ all_new env root (1 ∷ []) (numbers env root attempts)
latest_attempt-all_new_example = latest_attempt-all_new env root attempts

latest_attempt_highest_example :
    ((third ≡ root) ⊎ Memᴰ third attempts)
    × ((run : WorkflowRun)
        → Memᴰ run attempts
        → (n : ℕ) → lineage_attempt env root run ≡ some n
        → IsNotBefore env root third n)
latest_attempt_highest_example = latest_attempt_highest env root attempts refl latest_is_third

new_rerun-lineage_attempt_example : lineage_attempt env root second ≡ some 2
new_rerun-lineage_attempt_example =
    new_rerun-lineage_attempt env root root 2 ("build" ∷ []) refl refl refl refl

-- A run that failed, as its first job did.
abbrev failed_run : WorkflowRun
failed_run =
    let bare = bare_run "ci" in
    record bare {
      status = record (bare.status) {
        conditions =
            record { kind = "Succeeded"; status = condition_false; reason = "JobFailed" } ∷ [];
        jobs = some (record {
          total = 2;
          waiting = 0;
          queued = 0;
          active = 0;
          succeeded = 0;
          failed = 1;
          timed_out = 0;
          skipped = 1;
          cancelled = 0;
        });
      };
    }

abbrev failed_jobs : List WorkflowJob
failed_jobs =
    let build = bare_job "build" [] in
    record build { status = record (build.status) { result = failure } }
    ∷ bare_job "test" ("build" ∷ [])
    ∷ []

it_failed : run_failed find_first failed_run ≡ true
unfolding run_failed
it_failed = refl

both_again : failed_job_ids find_first failed_run failed_jobs ≡ ok ("build" ∷ "test" ∷ [])
unfolding failed_job_ids run_failed
both_again = refl

failed_is_plain : (a : WorkflowJob) → Memᴰ a failed_jobs → logical_id a ≡ a.spec.job_id
unfolding logical_id
failed_is_plain a (Memᴰ.head e) = rw e refl
failed_is_plain a (Memᴰ.tail (Memᴰ.head e)) = rw e refl
failed_is_plain a (Memᴰ.tail (Memᴰ.tail m)) = elim m [ ]

failed_jobs-IdsAgree : IdsAgree failed_jobs
failed_jobs-IdsAgree a b at_a at_b e = failed_is_plain a at_a ∙ e ∙ sym (failed_is_plain b at_b)

failed_job_ids_iff_example :
    ((k : String)
      → (mem k ("build" ∷ "test" ∷ []) ≡ true)
        ↔ IsSelected failed_jobs (failed_seeds find_first failed_jobs) k)
    × ((k : String)
        → mem k (failed_seeds find_first failed_jobs)
          ≡ any (λ job. counts_as_failed find_first job && k == job.spec.job_id) failed_jobs)
failed_job_ids_iff_example =
    failed_job_ids_iff find_first failed_run failed_jobs failed_jobs-IdsAgree it_failed both_again

-- The second attempt ran `build` again; of the first one `test` still counts.
abbrev second_jobs : List WorkflowJob
second_jobs = bare_job "build" [] ∷ []

abbrev old_test : WorkflowJob
old_test = bare_job "test" ("build" ∷ [])

add_attempt_iff_example :
    Memᴰ old_test
      (add_attempt (add_attempts no_history ((second, second_jobs) ∷ [])) root two_jobs).1
    ↔ (Memᴰ old_test two_jobs
        × ((r : WorkflowRun) (js : List WorkflowJob)
            → Memᴰ {A = WorkflowRun × List WorkflowJob} (r, js) ((second, second_jobs) ∷ [])
            → IsUnreplaced r js old_test))
add_attempt_iff_example = add_attempt_iff ((second, second_jobs) ∷ []) root two_jobs old_test

-- The older `test` counts, and the older `build` does not.
left_of_two :
    (add_attempt (add_attempts no_history ((second, second_jobs) ∷ [])) root two_jobs).1
    ≡ old_test ∷ []
unfolding add_attempts add_attempt is_retained ids_of complete_ids selected_ids group is_complete
    logical_id new_rerun
left_of_two = refl
