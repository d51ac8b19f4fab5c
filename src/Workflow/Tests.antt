-- ===== src/Workflow/Tests.antt =====
-- Runs of the definitions, and instances of the theorems at two jobs and at a matrix of four cells.
use open_actions.Base.{◌≤◌, String, ◌≡◌, ◌⊎◌, ◌↔◌, refl, List, [], ◌∷◌, length}
use open_actions.Base.Dict.{lookup, insert}
use open_actions.Base.Result.{ok, err}
use open_actions.Base.Sorting.{sort_texts, insert_text}
use open_actions.Workflow.Definition.{Job}
use open_actions.Workflow.Graph.{
  Jobs, missing_job, dependency_cycle, needs_of, keys, check_needs, check_all, down_to, cycle_at,
  visit_each, validate_job_graph,
}
use open_actions.Workflow.Graph.Path.{Route, Ends}
use open_actions.Workflow.Graph.Laws.{
  IsClosed, IsMissing, validate_job_graph_iff, validate_job_graph-cases,
}
use open_actions.Workflow.Matrix.{
  Entry, ResolvedMatrix, entry_matches_any, partial_match_any, entries_compatible,
  count_combinations, add_combination, visit_values, put_all, apply_include, apply_includes,
  names_of, own_jobs, some_jobs, expand_axes, expand_matrix,
}
use open_actions.Workflow.Matrix.Axes.{product, wanted, bounded, visit-wanted}
use open_actions.Workflow.Matrix.Includes.{ExtendAll}
use open_actions.Workflow.Matrix.Laws.{base_of, expand_matrix-ExtendAll}
use open_actions.Workflow.Value.{text, scalar_string, values_equal}

abbrev job : List String → Job
job needs = record { name = ""; runs_on = "linux" ∷ []; needs = needs; condition = "" }

abbrev two_jobs : Jobs
two_jobs = ("test", job ("build" ∷ [])) ∷ ("build", job []) ∷ []

abbrev cyclic_jobs : Jobs
cyclic_jobs = ("a", job ("b" ∷ [])) ∷ ("b", job ("a" ∷ [])) ∷ []

two_jobs_pass : validate_job_graph two_jobs ≡ ok tt
unfolding validate_job_graph check_all check_needs needs_of keys visit_each
    open_actions.Workflow.Graph.visit lookup insert sort_texts insert_text
two_jobs_pass = refl

cycle_found : validate_job_graph cyclic_jobs ≡ err (dependency_cycle ("a" ∷ "b" ∷ "a" ∷ []))
unfolding validate_job_graph check_all check_needs needs_of keys visit_each
    open_actions.Workflow.Graph.visit lookup insert sort_texts insert_text cycle_at down_to
cycle_found = refl

validate_job_graph_iff_example :
    (validate_job_graph two_jobs ≡ ok tt) ↔ (IsClosed two_jobs × ((a : String) → Ends two_jobs a))
validate_job_graph_iff_example = validate_job_graph_iff two_jobs

validate_job_graph-cases_example :
    (validate_job_graph cyclic_jobs ≡ ok tt)
    ⊎ (((a : String) × (d : String) × (validate_job_graph cyclic_jobs ≡ err (missing_job a d))
          × IsMissing cyclic_jobs a d)
        ⊎ ((c : List String) × (k : String) × (validate_job_graph cyclic_jobs
              ≡ err (dependency_cycle c))
            × Route cyclic_jobs k c k))
validate_job_graph-cases_example = validate_job_graph-cases cyclic_jobs

-- Two axes, an exclude that drops one cell, an include that adds to one cell and another that is a
-- job of its own.
abbrev matrix : ResolvedMatrix
matrix = record {
  axes = ("os", text "linux" ∷ text "windows" ∷ []) ∷ ("go", text "1.21" ∷ text "1.22" ∷ []) ∷ [];
  include = (("os", text "windows") ∷ ("extra", text "x") ∷ []) ∷ (("os", text "mac") ∷ []) ∷ [];
  exclude = (("os", text "windows") ∷ ("go", text "1.21") ∷ []) ∷ [];
}

abbrev cell : String → String → Entry
cell go os = ("go", text go) ∷ ("os", text os) ∷ []

abbrev cells : List Entry
cells =
    cell "1.21" "linux"
    ∷ cell "1.22" "linux"
    ∷ (("go", text "1.22") ∷ ("os", text "windows") ∷ ("extra", text "x") ∷ [])
    ∷ (("os", text "mac") ∷ [])
    ∷ []

matrix_expands : expand_matrix matrix ≡ ok cells
unfolding expand_matrix expand_axes own_jobs some_jobs count_combinations
    open_actions.Workflow.Matrix.visit visit_values add_combination entry_matches_any
    partial_match_any entries_compatible put_all apply_include apply_includes names_of lookup insert
    sort_texts insert_text scalar_string values_equal
matrix_expands = refl

expand_matrix-ExtendAll_example :
    ExtendAll cells (base_of matrix) × (1 ≤ length cells) × (length cells ≤ 256)
unfolding names_of
expand_matrix-ExtendAll_example =
    expand_matrix-ExtendAll matrix cells (refl, (refl, tt)) matrix_expands

visit-wanted_example :
    open_actions.Workflow.Matrix.visit matrix.axes matrix.exclude
      (sort_texts (names_of matrix.axes))
      []
      []
      []
    ≡ bounded (
        wanted matrix.axes matrix.exclude
          (product matrix.axes matrix.exclude (sort_texts (names_of matrix.axes)) []))
unfolding names_of
visit-wanted_example = visit-wanted matrix.axes matrix.exclude (refl, (refl, tt))
