-- ===== src/Expression/Calls.antt =====
-- The functions that expressions call: evaluateContains to evaluateJoin, and the functions on JSON,
-- of internal/expression/expression.go. An argument that is missing is a panic.
use open_actions.Base.{
  ℕ, String, Bool, true, false, ◌-◌, ◌||◌, Option, none, some, List, ◌==◌, ltb, starts_with,
  if◌then◌else◌,
}
use open_actions.Base.Result.{Result, ok, err, ◌>>=◌, ◌>>◌, fail_if}
use open_actions.Base.Text.{◌⧺◌}
use open_actions.Expression.Texts.{byte_length, has_text, has_suffix}
use open_actions.Expression.Value.{
  boolean, text, Value, scalar, array, ArrayItems, empty, item, Runtime, HashPattern, sensitive,
  normalize, interface_value, contains_sensitive, string_value, join_string_value,
}
use open_actions.Expression.Access.{item_at, equal, lookup_property}
use open_actions.Expression.Node.{
  EvalError, not_scalar, too_large, not_serializable, invalid_json, out_of_range,
  context_unavailable, workspace_unavailable, workspace_invalid, hash_failed,
}
use open_actions.Expression.Hash.{found_or, max_evaluation_bytes, hash_file_patterns}

-- `arguments[n]`.
unfoldable pub argument_at : ArrayItems → ℕ → Result EvalError Value
unfolding found_or item_at
argument_at vs n = found_or out_of_range (item_at vs n)

-- appendEvaluationString, onto what the builder holds.
unfoldable pub append_string : String → String → Result EvalError String
unfolding byte_length
append_string result more =
    if ltb (max_evaluation_bytes - byte_length result) (byte_length more)
    then err too_large
    else ok (result ⧺ more)

-- The separator of evaluateJoin, from the text of its argument.
unfoldable pub separator_text : Option String → String
separator_text none = ","
separator_text (some separator) = separator

module _ (r : Runtime) where
  -- `v.stringValue()`, where its failure is an error of the caller.
  unfoldable pub scalar_text : Value → Result EvalError String
  unfolding found_or string_value
  scalar_text v = found_or not_scalar (string_value r v)

  -- The loop of evaluateContains over an array; its marks are those of the items that were passed.
  unfoldable pub contains_item : ArrayItems → Value → Bool → Bool → Value
  unfolding equal
  contains_item empty wanted s passed = scalar (boolean false) (s || passed)
  contains_item (item v vs) wanted s passed =
      let later = contains_item vs wanted s (passed || sensitive v) in
      if equal r v wanted then scalar (boolean true) (s || sensitive v) else later

  -- evaluateContains.
  unfoldable pub contains_value : Value → Value → Result EvalError Value
  unfolding contains_item scalar_text has_text
  contains_value (array i f xs s) wanted =
      ok (contains_item xs wanted (s || sensitive wanted) false)
  contains_value search wanted = do
    a ← scalar_text search
    b ← scalar_text wanted
    ok (scalar (boolean (has_text (r.lower a) (r.lower b))) (sensitive search || sensitive wanted))

  unfoldable pub evaluate_contains : ArrayItems → Result EvalError Value
  unfolding argument_at contains_value
  evaluate_contains arguments = do
    search ← argument_at arguments 0
    wanted ← argument_at arguments 1
    contains_value search wanted

  -- evaluateStartsWith.
  unfoldable pub evaluate_starts_with : ArrayItems → Result EvalError Value
  unfolding argument_at scalar_text
  evaluate_starts_with arguments = do
    search ← argument_at arguments 0
    a ← scalar_text search
    prefix ← argument_at arguments 1
    b ← scalar_text prefix
    ok (
        scalar (boolean (starts_with (r.lower a) (r.lower b)))
          (sensitive search || sensitive prefix))

  -- Whether evaluateEndsWith holds; a value that is no scalar ends with nothing.
  unfoldable pub ends_with : Option String → Option String → Bool
  unfolding has_suffix
  ends_with (some a) (some b) = has_suffix (r.lower a) (r.lower b)
  ends_with _ _ = false

  -- evaluateEndsWith.
  unfoldable pub evaluate_ends_with : ArrayItems → Result EvalError Value
  unfolding argument_at ends_with string_value
  evaluate_ends_with arguments = do
    search ← argument_at arguments 0
    suffix ← argument_at arguments 1
    ok (
        scalar (boolean (ends_with (string_value r search) (string_value r suffix)))
          (sensitive search || sensitive suffix))

  -- The loop of evaluateJoin, after its first item or before it.
  unfoldable pub join_items : String → Bool → ArrayItems → String → Bool → Result EvalError Value
  unfolding append_string join_string_value
  join_items separator after empty result s = ok (scalar (text result) s)
  join_items separator after (item v vs) result s = do
    separated ← if after then append_string result separator else ok result
    joined ← append_string separated (join_string_value r v)
    join_items separator true vs joined (s || sensitive v)

  -- The separator of evaluateJoin, and whether it is marked. It counts with two items or more.
  unfoldable pub join_separator : ArrayItems → ArrayItems → String × Bool
  unfolding string_value separator_text
  join_separator (item x (item y xs)) (item first (item given empty)) =
      (separator_text (string_value r given), sensitive given)
  join_separator _ _ = (",", false)

  unfoldable pub join_value : Value → ArrayItems → Result EvalError Value
  unfolding join_items join_separator string_value
  join_value (array i f xs s) arguments =
      let (separator, marked) = join_separator xs arguments in
      join_items separator false xs "" (s || marked)
  join_value items arguments = elim (string_value r items) [
    | none ↦ ok (scalar (text "") (sensitive items))
    | some t ↦ ok (scalar (text t) (sensitive items))
  ]

  -- evaluateJoin.
  unfoldable pub evaluate_join : ArrayItems → Result EvalError Value
  unfolding argument_at join_value
  evaluate_join arguments = do items ← argument_at arguments 0; join_value items arguments

  -- evaluateToJSON, at its argument; the encoding ends without its line break.
  unfoldable pub to_json : Value → Result EvalError Value
  unfolding found_or interface_value contains_sensitive byte_length
  to_json input = do
    encoded ← found_or not_serializable (r.encode_json (interface_value input))
    fail_if (ltb max_evaluation_bytes (byte_length encoded)) too_large
    ok (scalar (text encoded) (contains_sensitive input))

  unfoldable pub evaluate_to_json : ArrayItems → Result EvalError Value
  unfolding argument_at to_json
  evaluate_to_json arguments = do input ← argument_at arguments 0; to_json input

  -- evaluateFromJSON, at its argument.
  unfoldable pub from_json : Value → Result EvalError Value
  unfolding scalar_text found_or normalize byte_length
  from_json input = do
    source ← scalar_text input
    fail_if (ltb max_evaluation_bytes (byte_length source)) too_large
    decoded ← found_or invalid_json (r.decode_json source)
    ok (normalize decoded (sensitive input))

  unfoldable pub evaluate_from_json : ArrayItems → Result EvalError Value
  unfolding argument_at from_json
  evaluate_from_json arguments = do input ← argument_at arguments 0; from_json input

  -- The directory that hashFiles works in: `github.workspace`, which is not the empty text.
  unfoldable pub workspace_of : Option Value → Result EvalError String
  unfolding lookup_property found_or string_value
  workspace_of github = do
    context ← found_or (context_unavailable "github") github
    value ← found_or workspace_unavailable (lookup_property r context "workspace")
    workspace ← found_or workspace_invalid (string_value r value)
    if workspace == "" then err workspace_invalid else ok workspace

  -- The last lines of evaluateHashFiles, at the patterns and their mark.
  unfoldable pub digest_value : String → List HashPattern × Bool → Result EvalError Value
  unfolding found_or
  digest_value workspace (patterns, marked) = do
    digest ← found_or hash_failed (r.hash_workspace workspace patterns)
    ok (scalar (text digest) marked)

  -- evaluateHashFiles, at the value of the context `github`.
  unfoldable pub evaluate_hash_files : Option Value → ArrayItems → Result EvalError Value
  unfolding workspace_of hash_file_patterns digest_value
  evaluate_hash_files github arguments = do
    workspace ← workspace_of github
    patterns ← hash_file_patterns r arguments
    digest_value workspace patterns
