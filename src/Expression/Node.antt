-- ===== src/Expression/Node.antt =====
-- The syntax of expressions: the tokens of internal/expression/parser.go and the nodes of
-- internal/expression/expression.go, with their validation and the contexts that they read.
use open_actions.Base.{
  ℕ, suc, String, Bool, true, false, ◌&&◌, ◌||◌, not, Option, none, some, List, ◌==◌, ltb,
  if◌then◌else◌,
}
use open_actions.Base.Dict.{mem}
use open_actions.Base.Result.{Result, ok, err, ◌>>◌, fail_if}
use open_actions.Expression.Value.{Value, Runtime}

-- tokenKind.
pub data TokenKind : Type 0 where
  end_token identifier_token number_token string_token left_paren_token right_paren_token :
      TokenKind
  left_bracket_token right_bracket_token dot_token comma_token wildcard_token : TokenKind
  not_token equal_token not_equal_token less_token less_equal_token : TokenKind
  greater_token greater_equal_token and_token or_token : TokenKind

-- node, and the arguments of a call.
mutual
  pub data Node : Type 0 where
    literal : Value → Node
    context_node : String → Node
    wildcard_node : Node
    property_node : Node → String → Node
    index_node : Node → Node → Node
    unary_node : Node → Node
    binary_node : TokenKind → Node → Node → Node
    call_node : String → Arguments → Node

  pub data Arguments : Type 0 where
    no_arguments : Arguments
    argument : Node → Arguments → Arguments

-- The errors of a validation and an evaluation. The last two are panics: an argument or an
-- expression that is missing, and a placeholder whose position passes over the greatest int.
pub data EvalError : Type 0 where
  context_unavailable function_unavailable unsupported_function argument_number : String → EvalError
  status_unavailable : String → EvalError
  misplaced_wildcard unsupported_operator index_not_scalar not_scalar too_large : EvalError
  not_serializable invalid_json workspace_unavailable workspace_invalid : EvalError
  invalid_pattern hash_failed invalid_template : EvalError
  out_of_range placeholder_overflow : EvalError

pub record Availability : Type 0 where
  pub contexts : List String
  pub status_functions : Bool
  pub hash_files : Bool

unfoldable pub argument_count : Arguments → ℕ
argument_count no_arguments = 0
argument_count (argument n ns) = suc (argument_count ns)

-- The functions, by their names in lower case.
pub data Function : Type 0 where
  contains_function starts_with_function ends_with_function format_function : Function
  join_function to_json_function from_json_function hash_files_function : Function
  success_function always_function failure_function cancelled_function : Function
  unknown_function : Function

-- The cases of the `switch` statements on a function's name.
unfoldable pub function_of : String → Function
function_of name =
    if name == "contains"
    then contains_function
    else (if name == "startswith"
        then starts_with_function
        else (if name == "endswith"
            then ends_with_function
            else (if name == "format"
                then format_function
                else (if name == "join"
                    then join_function
                    else (if name == "tojson"
                        then to_json_function
                        else (if name == "fromjson"
                            then from_json_function
                            else (if name == "hashfiles"
                                then hash_files_function
                                else (if name == "success"
                                    then success_function
                                    else (if name == "always"
                                        then always_function
                                        else (if name == "failure"
                                            then failure_function
                                            else (if name == "cancelled"
                                                then cancelled_function
                                                else unknown_function)))))))))))

abbrev pub is_status_function : Function → Bool
is_status_function success_function = true
is_status_function always_function = true
is_status_function failure_function = true
is_status_function cancelled_function = true
is_status_function _ = false

-- hashFiles is for steps, which a runner runs.
abbrev pub needs_runner : Function → Bool
needs_runner hash_files_function = true
needs_runner _ = false

-- `minimum` and `maximum` of a call; `none` is the greatest int.
unfoldable pub argument_bounds : Function → ℕ × Option ℕ
argument_bounds contains_function = (2, some 2)
argument_bounds starts_with_function = (2, some 2)
argument_bounds ends_with_function = (2, some 2)
argument_bounds format_function = (2, none)
argument_bounds join_function = (1, some 2)
argument_bounds to_json_function = (1, some 1)
argument_bounds from_json_function = (1, some 1)
argument_bounds hash_files_function = (1, none)
argument_bounds _ = (0, some 0)

-- `len(n.arguments) < minimum || len(n.arguments) > maximum`.
unfoldable pub out_of_bounds : ℕ → ℕ × Option ℕ → Bool
out_of_bounds n (least, none) = ltb n least
out_of_bounds n (least, some most) = ltb n least || ltb most n

-- What a call needs before its arguments are looked at.
unfoldable pub validate_function :
    Availability → String → Function → ℕ → Result EvalError (Unit {0})
unfolding argument_bounds out_of_bounds
validate_function a name unknown_function n = err (unsupported_function name)
validate_function a name f n = do
  fail_if (is_status_function f && not a.status_functions) (function_unavailable name)
  fail_if (needs_runner f && not a.hash_files) (function_unavailable name)
  fail_if (out_of_bounds n (argument_bounds f)) (argument_number name)

module _ (r : Runtime) where
  -- allowsContext.
  unfoldable pub allows_context : Availability → String → Bool
  allows_context a name = mem (r.lower name) a.contexts

  unfoldable mutual
    unfolding validate_function function_of argument_count allows_context

    -- validate, at each kind of node.
    pub validate_node : Availability → Node → Result EvalError (Unit {0})
    validate_node a (literal v) = ok tt
    validate_node a (context_node name) =
        fail_if (not (allows_context a name)) (context_unavailable name)
    validate_node a wildcard_node = ok tt
    validate_node a (property_node target name) = validate_node a target
    validate_node a (index_node target index) = do validate_node a target; validate_node a index
    validate_node a (unary_node operand) = validate_node a operand
    validate_node a (binary_node operator left right) = do
      validate_node a left
      validate_node a right
    validate_node a (call_node name arguments) = do
      validate_function a name (function_of (r.lower name)) (argument_count arguments)
      validate_arguments a arguments

    pub validate_arguments : Availability → Arguments → Result EvalError (Unit {0})
    validate_arguments a no_arguments = ok tt
    validate_arguments a (argument n ns) = do validate_node a n; validate_arguments a ns

  unfoldable mutual
    -- usesContext.
    pub node_uses_context : Node → String → Bool
    node_uses_context (literal v) name = false
    node_uses_context (context_node here) name = r.equal_fold here name
    node_uses_context wildcard_node name = false
    node_uses_context (property_node target property) name = node_uses_context target name
    node_uses_context (index_node target index) name =
        let first = node_uses_context target name in
        let second = node_uses_context index name in first || second
    node_uses_context (unary_node operand) name = node_uses_context operand name
    node_uses_context (binary_node operator left right) name =
        let first = node_uses_context left name in
        let second = node_uses_context right name in first || second
    node_uses_context (call_node function arguments) name = arguments_use_context arguments name

    pub arguments_use_context : Arguments → String → Bool
    arguments_use_context no_arguments name = false
    arguments_use_context (argument n ns) name =
        let here = node_uses_context n name in
        let later = arguments_use_context ns name in here || later

  unfoldable mutual
    unfolding function_of

    -- usesStatusFunction.
    pub node_uses_status : Node → Bool
    node_uses_status (literal v) = false
    node_uses_status (context_node here) = false
    node_uses_status wildcard_node = false
    node_uses_status (property_node target property) = node_uses_status target
    node_uses_status (index_node target index) =
        let first = node_uses_status target in
        let second = node_uses_status index in first || second
    node_uses_status (unary_node operand) = node_uses_status operand
    node_uses_status (binary_node operator left right) =
        let first = node_uses_status left in let second = node_uses_status right in first || second
    node_uses_status (call_node function arguments) =
        let later = arguments_use_status arguments in
        is_status_function (function_of (r.lower function)) || later

    pub arguments_use_status : Arguments → Bool
    arguments_use_status no_arguments = false
    arguments_use_status (argument n ns) =
        let here = node_uses_status n in let later = arguments_use_status ns in here || later
