-- ===== src/Workflow/Event.antt =====
-- Events, and the filters of a trigger: internal/workflow/workflow.go and paths.go. Of an event the
-- fields that the matching reads or writes.
use open_actions.Base.{
  ℕ, zero, suc, String, Bool, true, false, not, ◌&&◌, ◌||◌, Option, List, [], ◌∷◌, ◌==◌,
  starts_with, any, if◌then◌else◌,
}
use open_actions.Base.Text.{runes}
use open_actions.Workflow.Matcher.{compile_patterns, matches}
use open_actions.Workflow.Value.{Value}

pub record WorkflowInput : Type 0 where
  pub description : String
  pub required : Bool
  pub default : Value
  pub type_name : String  -- Type
  pub options : List String
  pub default_set : Bool

pub record EventFilter : Type 0 where
  pub branches : List String
  pub paths : List String
  pub paths_ignore : List String
  pub tags : List String
  pub types : List String
  pub workflows : List String
  pub inputs : List (String × WorkflowInput)
  pub schedules : List String  -- the Cron of each Schedule
  pub paths_set : Bool
  pub paths_ignore_set : Bool
  pub branches_set : Bool
  pub tags_set : Bool
  pub types_set : Bool

pub record ChangedFiles : Type 0 where
  pub paths : List String
  pub always_run : Bool

pub record Event : Type 0 where
  pub name : String
  pub action : String
  pub ref : String
  pub ref_name : String
  pub base_ref : String
  pub workflow_name : String
  pub inputs : List (String × String)
  pub input_values : List (String × Value)
  pub schedule : String
  pub changed_files : Option ChangedFiles

abbrev pub is_nonempty {ℓ} : {A : Type ℓ} → List A → Bool
is_nonempty [] = false
is_nonempty (x ∷ xs) = true

-- EventFilter.NeedsChangedFiles.
unfoldable pub needs_changed_files : EventFilter → Event → Bool
needs_changed_files f event =
    (f.paths_set || f.paths_ignore_set || is_nonempty f.paths || is_nonempty f.paths_ignore)
    && not (event.name == "push" && starts_with event.ref "refs/tags/")

-- `paths[:min(len(paths), n)]`.
abbrev pub take {ℓ} : {A : Type ℓ} → ℕ → List A → List A
take zero xs = []
take (suc n) [] = []
take (suc n) (x ∷ xs) = x ∷ take n xs

abbrev pub max_changed_files : ℕ
max_changed_files = 3000

abbrev pub differ : Bool → Bool → Bool
differ true b = not b
differ false b = b

-- EventFilter.matchesPaths.
unfoldable pub matches_paths : EventFilter → ChangedFiles → Bool
unfolding compile_patterns matches
matches_paths f files =
    let ignore = is_nonempty f.paths_ignore in
    let patterns = if ignore then f.paths_ignore else f.paths in
    files.always_run
    || any (λ path. differ (matches (compile_patterns patterns) (runes path)) ignore)
        (take max_changed_files files.paths)
