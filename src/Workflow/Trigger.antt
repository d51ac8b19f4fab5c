-- ===== src/Workflow/Trigger.antt =====
-- Whether an event triggers a workflow: Match of internal/workflow/workflow.go.
pub mod Files
pub mod Push
mod Tests
use open_actions.Base.{
  String, Bool, true, false, not, ◌&&◌, ◌||◌, Option, none, some, is_some, is_none, List, [], ◌∷◌,
  ◌==◌, starts_with, if◌then◌else◌,
}
use open_actions.Base.Dict.{mem, lookup}
use open_actions.Base.Result.{Result, ok, err, ◌>>=◌}
use open_actions.Workflow.Cron.{CronLibrary, parse_cron}
use open_actions.Workflow.Event.{
  EventFilter, ChangedFiles, Event, is_nonempty, needs_changed_files, matches_paths,
}
use open_actions.Workflow.Inputs.{Numbers, InputError, resolve_inputs}
use open_actions.Workflow.Matcher.{matches_patterns}

pub data MatchError : Type 0 where
  invalid_cron no_changed_files : MatchError
  bad_input : InputError → MatchError

abbrev pub default_pull_request_types : List String
default_pull_request_types = "opened" ∷ "synchronize" ∷ "reopened" ∷ []

abbrev pub default_merge_group_types : List String
default_merge_group_types = "checks_requested" ∷ []

abbrev pub is_pull_request : String → Bool
is_pull_request name = name == "pull_request" || name == "pull_request_target"

-- `types`.
unfoldable pub types_of : EventFilter → Event → List String
types_of f event =
    if is_pull_request event.name && not f.types_set && not (is_nonempty f.types)
    then default_pull_request_types
    else if event.name == "merge_group" && not f.types_set && not (is_nonempty f.types)
    then default_merge_group_types
    else f.types

-- The types and the workflow let the event pass.
unfoldable pub types_allow : EventFilter → Event → Bool
unfolding types_of
types_allow f event = not (is_nonempty (types_of f event)) || mem event.action (types_of f event)

unfoldable pub workflow_allows : EventFilter → Event → Bool
workflow_allows f event =
    not (event.name == "workflow_run" && is_nonempty f.workflows)
    || mem event.workflow_name f.workflows

-- The case of a push: whether its ref passes the branches and the tags.
unfoldable pub push_allows : EventFilter → Event → Bool
unfolding matches_patterns
push_allows f event =
    if starts_with event.ref "refs/heads/"
    then not (
        (f.tags_set && not f.branches_set)
        || (f.branches_set && not (matches_patterns f.branches event.ref_name)))
    else if starts_with event.ref "refs/tags/"
    then not (
        (f.branches_set && not f.tags_set)
        || (f.tags_set && not (matches_patterns f.tags event.ref_name)))
    else false

-- `branch`.
unfoldable pub branch_of : Event → String
branch_of event =
    if is_pull_request event.name || event.name == "merge_group" || event.name == "workflow_run"
    then event.base_ref
    else event.ref_name

unfoldable pub branch_allows : EventFilter → Event → Bool
unfolding matches_patterns branch_of
branch_allows f event =
    not (not (event.name == "push") && is_nonempty f.branches)
    || matches_patterns f.branches (branch_of event)

-- The test of the changed files.
unfoldable pub files_allow : EventFilter → Event → Result MatchError Bool
unfolding needs_changed_files matches_paths
files_allow f event =
    if needs_changed_files f event
    then (elim event.changed_files [
      | none ↦ err no_changed_files
      | some files ↦ ok (matches_paths f files)
    ])
    else ok true

module _ (cron : CronLibrary) (numbers : Numbers) where
  abbrev pub is_dispatch : Event → Bool
  is_dispatch event = event.name == "workflow_dispatch" || event.name == "workflow_call"

  -- The end of Match, which gives the event its inputs.
  unfoldable pub with_inputs : EventFilter → Event → Result MatchError (Event × Bool)
  unfolding resolve_inputs
  with_inputs f event =
      if is_dispatch event
      then (elim (resolve_inputs numbers event.name f.inputs event.inputs) [
        | err e ↦ err (bad_input e)
        | ok r ↦ ok (record event { inputs = r.0; input_values = r.1 }, true)
      ])
      else ok (event, true)

  -- The case of a schedule.
  unfoldable pub match_schedule : EventFilter → Event → Result MatchError (Event × Bool)
  unfolding parse_cron
  match_schedule f event =
      if is_none (parse_cron cron event.schedule)
      then err invalid_cron
      else ok (event, mem event.schedule f.schedules)

  unfoldable pub match_files : EventFilter → Event → Result MatchError (Event × Bool)
  unfolding files_allow with_inputs
  match_files f event = do
    allowed ← files_allow f event
    (if allowed then with_inputs f event else ok (event, false))

  -- Match, with the filter of the event.
  unfoldable pub match_filter : EventFilter → Event → Result MatchError (Event × Bool)
  unfolding types_allow workflow_allows push_allows branch_allows match_schedule match_files
  match_filter f event =
      if not (types_allow f event)
      then ok (event, false)
      else if not (workflow_allows f event)
      then ok (event, false)
      else if event.name == "schedule"
      then match_schedule f event
      else if event.name == "push" && not (push_allows f event)
      then ok (event, false)
      else if not (branch_allows f event)
      then ok (event, false)
      else match_files f event

  -- Match.
  unfoldable pub match_trigger :
      List (String × EventFilter) → Event → Result MatchError (Event × Bool)
  unfolding match_filter
  match_trigger events event = elim (lookup event.name events) [
    | none ↦ ok (event, false)
    | some f ↦ match_filter f event
  ]
