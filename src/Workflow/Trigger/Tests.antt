-- ===== src/Workflow/Trigger/Tests.antt =====
-- Runs of patterns, inputs and triggers, and instances of their theorems.
use Prim.Native.Char.{Char, code}
use open_actions.Base.{
  ◌+◌, ◌≤◌, String, true, false, ◌≡◌, ◌↔◌, refl, some, is_some, List, [], ◌∷◌, ◌++◌, ◌==◌, all, eqb,
}
use open_actions.Base.Dict.{lookup, insert}
use open_actions.Base.Result.{ok}
use open_actions.Base.Text.{runes, ◌⧺◌}
use open_actions.Workflow.Cron.{CronLibrary, count_fields, spaced, parse_cron}
use open_actions.Workflow.Event.{
  WorkflowInput, EventFilter, Event, needs_changed_files, matches_paths,
}
use open_actions.Workflow.Glob.{
  step, star_atom, quantify, quantifiable, escape, read_class, before_bracket,
  github_character_class, valid_characters, is_ascii_alphanumeric, joins_range,
  same_character_class_range, compile_from, compile_github_pattern,
}
use open_actions.Workflow.Inputs.{
  Numbers, implicit_default, input_type_of, value_of, check_known, payload_length,
  valid_input_value, input_expression_value, add_input, resolve_each, resolve_inputs,
}
use open_actions.Workflow.Inputs.Laws.{resolve_inputs_lem}
use open_actions.Workflow.Inputs.Turn.{Passes}
use open_actions.Workflow.Matcher.{
  in_class, is_char, after_run, after_slash, after_one, accepts_atom, accepts, is_negated,
  trim_negation, compile_patterns, matches_from, matches, matches_patterns,
}
use open_actions.Workflow.Matcher.Last.{IsSelected, matches_patterns_iff}
use open_actions.Workflow.Matcher.Plain.{slash, is_name, matches_patterns-directory}
use open_actions.Workflow.Trigger.{
  types_of, types_allow, workflow_allows, push_allows, branch_allows, files_allow, with_inputs,
  match_files, match_filter, match_trigger,
}
use open_actions.Workflow.Trigger.Files.{FilesPass}
use open_actions.Workflow.Trigger.Push.{BranchPasses, match_trigger-push}
use open_actions.Workflow.Value.{Value, text, null, scalar_string}
use mathlib.Core.List.{Memᴰ}

patterns_run :
    (matches_patterns ("feature/**" ∷ "!feature/old/*" ∷ []) "feature/old/x" ≡ false)
    × (matches_patterns ("feature/**" ∷ "!feature/old/*" ∷ []) "feature/old/x/y" ≡ true)
    × (matches_patterns ("**/v[0-9a]+.md" ∷ []) "docs/v20a.md" ≡ true)
    × (matches_patterns ("**/v[0-9a]+.md" ∷ []) "v7.md" ≡ true)
    × (matches_patterns ("**/v[0-9a]+.md" ∷ []) "v.md" ≡ false)
    × (matches_patterns ("x?\\*" ∷ []) "*" ≡ true)
unfolding runes matches_patterns matches matches_from compile_patterns accepts accepts_atom
    after_one after_run after_slash is_char in_class is_negated trim_negation compile_github_pattern
    compile_from step star_atom quantify quantifiable escape read_class before_bracket
    github_character_class valid_characters is_ascii_alphanumeric joins_range
    same_character_class_range
patterns_run = (refl, refl, refl, refl, refl, refl)

matches_patterns_iff_example :
    (matches_patterns ("feature/**" ∷ "!feature/old/*" ∷ []) "feature/new" ≡ true)
    ↔ IsSelected ("feature/**" ∷ "!feature/old/*" ∷ []) "feature/new"
matches_patterns_iff_example =
    matches_patterns_iff ("feature/**" ∷ "!feature/old/*" ∷ []) "feature/new"

matches_patterns-directory_example :
    ((matches_patterns (("docs" ⧺ "/**") ∷ []) "docs/a/b" ≡ true)
      ↔ ((u : List Char) × (runes "docs/a/b" ≡ runes "docs" ++ slash ∷ u)))
    × ((matches_patterns (("docs" ⧺ "/*") ∷ []) "docs/a/b" ≡ true) ↔ (
        (u : List Char) × (runes "docs/a/b" ≡ runes "docs" ++ slash ∷ u) × (all is_name u ≡ true)))
unfolding runes
matches_patterns-directory_example = matches_patterns-directory "docs" "docs/a/b" refl

abbrev cron : CronLibrary
cron = record {
  Schedule = Unit {0};
  parse = λ s. some tt;
  next = λ s n. n + 300;
  is_space = λ c. eqb (code c) 32;
  start = 0;
}

abbrev numbers : Numbers
numbers = record { is_number = λ s. s == "1"; parse = λ s. s }

abbrev filter : EventFilter
filter = record {
  branches = "main" ∷ [];
  paths = "docs/**" ∷ [];
  paths_ignore = [];
  tags = [];
  types = [];
  workflows = [];
  inputs = [];
  schedules = [];
  paths_set = true;
  paths_ignore_set = false;
  branches_set = true;
  tags_set = false;
  types_set = false;
}

abbrev push_event : Event
push_event = record {
  name = "push";
  action = "";
  ref = "refs/heads/main";
  ref_name = "main";
  base_ref = "";
  workflow_name = "";
  inputs = [];
  input_values = [];
  schedule = "";
  changed_files = some (record { paths = "README.md" ∷ "docs/a.md" ∷ []; always_run = false });
}

abbrev events : List (String × EventFilter)
events = ("push", filter) ∷ []

push_runs : match_trigger cron numbers events push_event ≡ ok (push_event, true)
unfolding match_trigger match_filter match_files files_allow with_inputs types_of types_allow
    workflow_allows push_allows branch_allows lookup needs_changed_files matches_paths runes
    matches_patterns matches matches_from compile_patterns accepts accepts_atom after_one after_run
    after_slash is_char is_negated trim_negation compile_github_pattern compile_from step star_atom
push_runs = refl

match_trigger-push_example :
    (match_trigger cron numbers events push_event ≡ ok (push_event, true))
    ↔ (BranchPasses filter push_event × FilesPass filter push_event)
unfolding lookup
match_trigger-push_example =
    match_trigger-push cron numbers events filter push_event refl refl refl refl

abbrev choice : WorkflowInput
choice = record {
  description = "";
  required = true;
  default = text "dev";
  type_name = "choice";
  options = "dev" ∷ "live" ∷ [];
  default_set = true;
}

abbrev note : WorkflowInput
note = record {
  description = "";
  required = true;
  default = null;
  type_name = "";
  options = [];
  default_set = false;
}

abbrev definitions : List (String × WorkflowInput)
definitions = ("where", choice) ∷ ("note", note) ∷ []

abbrev resolved : List (String × String) × List (String × Value)
resolved =
    (("where", "dev") ∷ ("note", "now") ∷ [], ("where", text "dev") ∷ ("note", text "now") ∷ [])

inputs_run :
    resolve_inputs numbers "workflow_dispatch" definitions (("note", "now") ∷ []) ≡ ok resolved
unfolding resolve_inputs resolve_each add_input value_of input_type_of implicit_default check_known
    payload_length valid_input_value input_expression_value lookup insert scalar_string runes
inputs_run = refl

resolve_inputs_lem_example :
    ((k v : String) → lookup k (("note", "now") ∷ []) ≡ some v → lookup k resolved.0 ≡ some v)
    × ((k : String) (d : WorkflowInput)
        → Memᴰ (k, d) definitions
        → d.required ≡ true
        → is_some (lookup k resolved.0) ≡ true)
    × ((k v : String)
        → lookup k resolved.0 ≡ some v
        → (d : WorkflowInput) × Memᴰ (k, d) definitions × Passes numbers d v)
    × (payload_length resolved.0 ≤ 65535)
resolve_inputs_lem_example =
    resolve_inputs_lem numbers "workflow_dispatch" definitions (("note", "now") ∷ []) resolved
      inputs_run

cron_runs :
    (is_some (parse_cron cron "5 4 * * *") ≡ true) × (is_some (parse_cron cron "5 4 *  *") ≡ false)
unfolding parse_cron count_fields spaced runes
cron_runs = (refl, refl)
