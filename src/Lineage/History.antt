-- ===== src/Lineage/History.antt =====
-- The jobs of a run's attempts that still count: JobHistory of internal/workflowrun/rerun.go. A set is
-- a list of its elements.
pub mod Listed
pub mod Laws
use open_actions.Api.{WorkflowRun, WorkflowJob}
use open_actions.Base.{
  ℕ, zero, suc, String, Bool, true, false, not, ◌&&◌, ◌||◌, Option, none, some, List, [], ◌∷◌, ◌++◌,
  ◌==◌, eqb, keep, length, if◌then◌else◌,
}
use open_actions.Base.Dict.{mem}
use open_actions.Lineage.Dependents.{logical_id}

-- JobHistory.
pub record JobHistory : Type 0 where
  pub job_ids : List String
  pub logical_ids : List String

abbrev pub no_history : JobHistory
no_history = record { job_ids = []; logical_ids = [] }

-- A job that no newer attempt replaces.
unfoldable pub is_retained : JobHistory → WorkflowJob → Bool
is_retained h job =
    not (mem job.spec.job_id h.job_ids)
    && not (mem (logical_id job) h.logical_ids)
    && not (mem (logical_id job) h.job_ids)

-- `groups[id]`: the jobs of a logical job.
unfoldable pub group : String → List WorkflowJob → List WorkflowJob
group id jobs = keep (λ job. logical_id job == id) jobs

-- A group whose first job has no matrix, or that has all jobs of its matrix.
unfoldable pub is_complete : List WorkflowJob → Bool
is_complete [] = false
is_complete (job ∷ jobs) = elim job.spec.matrix [
  | none ↦ true
  | some matrix ↦ eqb (length (job ∷ jobs)) matrix.job_total
]

-- The IDs of the complete groups of `all`, over the jobs of `jobs`.
unfoldable pub complete_ids : List WorkflowJob → List WorkflowJob → List String
complete_ids all [] = []
complete_ids all (job ∷ jobs) =
    let rest = complete_ids all jobs in
    if is_complete (group (logical_id job) all) then logical_id job ∷ rest else rest

unfoldable pub ids_of : List WorkflowJob → List String
ids_of [] = []
ids_of (job ∷ jobs) = job.spec.job_id ∷ ids_of jobs

-- The IDs that a rerun selected.
unfoldable pub selected_ids : WorkflowRun → List String
selected_ids run = elim run.spec.rerun [ none ↦ [] | some rerun ↦ rerun.job_ids ]

-- JobHistory.Add: the history that it leaves, and what it returns.
unfoldable pub add_attempt :
    JobHistory → WorkflowRun → List WorkflowJob → JobHistory × List WorkflowJob
add_attempt h run jobs = (
  record {
    job_ids = selected_ids run ++ (ids_of jobs ++ h.job_ids);
    logical_ids = complete_ids jobs jobs ++ h.logical_ids;
  },
  keep (is_retained h) jobs,
)

-- The history that the calls of Add leave, on one attempt after the other.
unfoldable pub add_attempts : JobHistory → List (WorkflowRun × List WorkflowJob) → JobHistory
unfolding add_attempt
add_attempts h [] = h
add_attempts h ((run, jobs) ∷ attempts) = add_attempts (add_attempt h run jobs).0 attempts
