-- ===== src/Workflow/Inputs.antt =====
-- The inputs of an event: resolveInputs of internal/workflow/workflow.go. The numbers are parameters:
-- which texts strconv.ParseFloat and the pattern of numbers accept, and how the number is written.
pub mod Turn
pub mod Laws
use open_actions.Base.{
  ℕ, ◌+◌, String, Bool, true, false, not, ◌&&◌, ◌||◌, Option, none, some, is_some, List, [], ◌∷◌,
  ◌==◌, length, ltb, if◌then◌else◌,
}
use open_actions.Base.Dict.{mem, lookup, insert}
use open_actions.Base.Result.{Result, ok, err, ◌>>=◌, ◌>>◌, fail_if}
use open_actions.Base.Text.{runes}
use open_actions.Workflow.Event.{WorkflowInput}
use open_actions.Workflow.Value.{Value, text, number, boolean, scalar_string}

pub record Numbers : Type 0 where
  pub is_number : String → Bool
  pub parse : String → String

pub data InputError : Type 0 where
  too_many_inputs : InputError
  unknown_input missing_input long_input invalid_input : String → InputError
  long_payload : InputError

abbrev pub max_trigger_inputs : ℕ
max_trigger_inputs = 25

abbrev pub max_input_value_length : ℕ
max_input_value_length = 65535

abbrev pub max_input_payload_length : ℕ
max_input_payload_length = 65535

-- utf8.RuneCountInString.
abbrev pub rune_count : String → ℕ
rune_count s = length (runes s)

-- implicitWorkflowCallInputDefault.
unfoldable pub implicit_default : String → String
implicit_default input_type =
    if input_type == "boolean" then "false" else if input_type == "number" then "0" else ""

-- The first two values of scalarString: a value without a text reads as the empty one.
abbrev pub text_of : Option String → String
text_of none = ""
text_of (some s) = s

-- `inputType`.
unfoldable pub input_type_of : WorkflowInput → String
input_type_of d = if d.type_name == "" then "string" else d.type_name

-- The value of an input and `found`, before its checks.
unfoldable pub value_of :
    String → String → WorkflowInput → Option String → Result InputError (Option String)
unfolding implicit_default input_type_of scalar_string
value_of event_name name d (some value) = ok (some value)
value_of event_name name d none =
    if d.default_set
    then ok (some (text_of (scalar_string d.default)))
    else if d.required
    then err (missing_input name)
    else if event_name == "workflow_call"
    then ok (some (implicit_default (input_type_of d)))
    else ok none

-- `for name := range provided { ... }`.
unfoldable pub check_known :
    List (String × WorkflowInput) → List (String × String) → Result InputError (Unit {0})
check_known definitions [] = ok tt
check_known definitions ((name, value) ∷ provided) =
    fail_if (not (is_some (lookup name definitions))) (unknown_input name)
    >> check_known definitions provided

-- validateInputPayloadLength.
unfoldable pub payload_length : List (String × String) → ℕ
payload_length [] = 0
payload_length ((name, value) ∷ inputs) = rune_count name + rune_count value + payload_length inputs

abbrev pub Resolved : Type 0
Resolved = List (String × String) × List (String × Value)

module _ (numbers : Numbers) where
  -- validInputValue.
  unfoldable pub valid_input_value : String → String → List String → Bool
  valid_input_value input_type value options =
      if input_type == "boolean"
      then value == "true" || value == "false"
      else if input_type == "number"
      then numbers.is_number value
      else if input_type == "choice"
      then mem value options
      else true

  -- inputExpressionValue.
  unfoldable pub input_expression_value : String → String → Value
  input_expression_value input_type value =
      if input_type == "boolean"
      then boolean (value == "true")
      else if input_type == "number"
      then number (numbers.parse value)
      else text value

  -- The end of the loop's body, at a value.
  unfoldable pub add_input :
      String → WorkflowInput → Resolved → Option String → Result InputError Resolved
  unfolding valid_input_value input_expression_value input_type_of
  add_input name d r none = ok r
  add_input name d r (some value) = do
    fail_if (ltb max_input_value_length (rune_count value)) (long_input name)
    fail_if (not (valid_input_value (input_type_of d) value d.options)) (invalid_input name)
    ok (insert name value r.0, insert name (input_expression_value (input_type_of d) value) r.1)

  -- The loop over the definitions.
  unfoldable pub resolve_each :
      String
      → List (String × WorkflowInput)
      → List (String × String)
      → Resolved
      → Result InputError Resolved
  unfolding value_of add_input
  resolve_each event_name [] provided r = ok r
  resolve_each event_name ((name, d) ∷ definitions) provided r = do
    value ← value_of event_name name d (lookup name provided)
    more ← add_input name d r value
    resolve_each event_name definitions provided more

  -- resolveInputs.
  unfoldable pub resolve_inputs :
      String → List (String × WorkflowInput) → List (String × String) → Result InputError Resolved
  unfolding check_known resolve_each payload_length
  resolve_inputs event_name definitions provided = do
    fail_if (ltb max_trigger_inputs (length provided)) too_many_inputs
    check_known definitions provided
    r ← resolve_each event_name definitions provided ([], [])
    fail_if (ltb max_input_payload_length (payload_length r.0)) long_payload
    ok r
