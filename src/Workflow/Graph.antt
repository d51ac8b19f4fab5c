-- ===== src/Workflow/Graph.antt =====
-- validateJobGraph: that every need names a job, and that no job waits for itself.
pub mod Path
pub mod Cycle
pub mod Visit
pub mod Laws
use open_actions.Base.{
  ℕ, zero, suc, String, Option, none, some, is_some, List, [], ◌∷◌, ◌==◌, length, reversed,
  if◌then◌else◌,
}
use open_actions.Base.Dict.{lookup, insert}
use open_actions.Base.Result.{Result, ok, err, ◌>>=◌}
use open_actions.Base.Sorting.{sort_texts}
use open_actions.Workflow.Definition.{Job}

abbrev pub Jobs : Type 0
Jobs = List (String × Job)

pub data GraphError : Type 0 where
  missing_job : String → String → GraphError
  dependency_cycle : List String → GraphError
  out_of_fuel : GraphError

-- `jobs[id].Needs`; a missing key reads as a job without needs.
unfoldable pub needs_of : Jobs → String → List String
needs_of jobs id = elim (lookup id jobs) [ none ↦ [] | some job ↦ job.needs ]

unfoldable pub keys : Jobs → List String
keys [] = []
keys ((id, job) ∷ jobs) = id ∷ keys jobs

unfoldable pub check_needs : Jobs → String → List String → Result GraphError (Unit {0})
check_needs jobs id [] = ok tt
check_needs jobs id (d ∷ needs) = elim (lookup d jobs) [
  | none ↦ err (missing_job id d)
  | some job ↦ check_needs jobs id needs
]

-- The first loop.
unfoldable pub check_all : Jobs → List String → Result GraphError (Unit {0})
unfolding check_needs needs_of
check_all jobs [] = ok tt
check_all jobs (id ∷ ids) = do _ ← check_needs jobs id (needs_of jobs id); check_all jobs ids

-- The values 1 and 2 of `state`; a key that is missing reads as 0.
pub data Mark : Type 0 where
  visiting visited : Mark

-- `state` and `stack`, whose top comes first.
pub record Search : Type 0 where
  pub marks : List (String × Mark)
  pub stack : List String

-- `stack[start:]`, from the top down to `id`.
unfoldable pub down_to : String → List String → List String
down_to id [] = []
down_to id (top ∷ stack) =
    let below = down_to id stack in if top == id then top ∷ [] else top ∷ below

unfoldable pub cycle_at : String → List String → List String
unfolding down_to
cycle_at id stack = reversed (id ∷ down_to id stack)

abbrev pub pop : List String → List String
pop [] = []
pop (top ∷ stack) = stack

-- The loop over the dependencies, with `visit` as an argument.
unfoldable pub visit_each :
    (String → Search → Result GraphError Search) → List String → Search → Result GraphError Search
visit_each visit [] s = ok s
visit_each visit (d ∷ ds) s = do t ← visit d s; visit_each visit ds t

-- `visit`, with fuel.
unfoldable pub visit : ℕ → Jobs → String → Search → Result GraphError Search
unfolding visit_each
visit zero jobs id s = err out_of_fuel
visit (suc n) jobs id s = elim (lookup id s.marks) [
  | some visited ↦ ok s
  | some visiting ↦ err (dependency_cycle (cycle_at id s.stack))
  | none ↦ do
    t ←
        visit_each (visit n jobs) (needs_of jobs id)
          (record { marks = insert id visiting s.marks; stack = id ∷ s.stack })
    ok (record { marks = insert id visited t.marks; stack = pop t.stack })
]

-- validateJobGraph. Each call below another one is for a further job, so that one call more than
-- there are jobs is deep enough.
unfoldable pub validate_job_graph : Jobs → Result GraphError (Unit {0})
unfolding check_all keys visit visit_each
validate_job_graph jobs = do
  let ids = sort_texts (keys jobs)
  _ ← check_all jobs ids
  _ ← visit_each (visit (suc (length (keys jobs))) jobs) ids (record { marks = []; stack = [] })
  ok tt
