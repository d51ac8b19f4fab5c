-- ===== src/Expression/Evaluate.antt =====
-- The evaluation of expressions and of whole programs: internal/expression/expression.go.
use Prim.Native.Nat.{Ordering}
use open_actions.Base.{
  ℕ, String, Bool, true, false, ◌||◌, not, Option, none, some, List, if◌then◌else◌,
}
use open_actions.Base.Dict.{lookup}
use open_actions.Base.Result.{Result, ok, err, ◌>>=◌}
use open_actions.Expression.Value.{
  boolean, Raw, Value, scalar, array, ArrayItems, empty, item, Runtime, sensitive, mark, truthy,
  string_value,
}
use open_actions.Expression.Access.{
  wildcard, filtered_index, integer_index, position_item, marked_or_empty, property, equal,
  compare_values,
}
use open_actions.Expression.Node.{
  TokenKind, equal_token, not_equal_token, less_token, less_equal_token, greater_token,
  greater_equal_token, and_token, or_token, Node, literal, context_node, wildcard_node,
  property_node, index_node, unary_node, binary_node, call_node, Arguments, no_arguments, argument,
  EvalError, context_unavailable, unsupported_function, status_unavailable, misplaced_wildcard,
  unsupported_operator, index_not_scalar, Availability, Function, contains_function,
  starts_with_function, ends_with_function, format_function, join_function, to_json_function,
  from_json_function, hash_files_function, success_function, always_function, failure_function,
  cancelled_function, unknown_function, function_of,
}
use open_actions.Expression.Hash.{found_or}
use open_actions.Expression.Calls.{
  evaluate_contains, evaluate_starts_with, evaluate_ends_with, evaluate_join, evaluate_to_json,
  evaluate_from_json, evaluate_hash_files,
}
use open_actions.Expression.Format.{evaluate_format}

-- Status.
pub record Status : Type 0 where
  pub success : Bool
  pub failure : Bool
  pub cancelled : Bool

-- evaluation: the contexts by their names in lower case, and the status.
pub record Evaluation : Type 0 where
  pub roots : List (String × Value)
  pub status : Option Status

-- Context.
pub record Context : Type 0 where
  pub availability : Availability
  pub values : List (String × Raw)
  pub status : Option Status

-- The operators that compare, at the outcome of `compare`.
unfoldable pub matches_order : TokenKind → Option Ordering → Bool
matches_order less_token (some Ordering.lt) = true
matches_order less_equal_token (some Ordering.lt) = true
matches_order less_equal_token (some Ordering.eq) = true
matches_order greater_token (some Ordering.gt) = true
matches_order greater_equal_token (some Ordering.gt) = true
matches_order greater_equal_token (some Ordering.eq) = true
matches_order _ _ = false

-- `n.index.(wildcardNode)`.
unfoldable pub is_wildcard : Node → Bool
is_wildcard wildcard_node = true
is_wildcard _ = false

-- A status function.
unfoldable pub status_value : Option Status → String → (Status → Bool) → Result EvalError Value
status_value none name read = err (status_unavailable name)
status_value (some s) name read = ok (scalar (boolean (read s)) false)

module _ (r : Runtime) where
  -- The operators on two values.
  unfoldable pub apply_operator : TokenKind → Value → Value → Result EvalError Value
  unfolding equal compare_values matches_order
  apply_operator equal_token v w = ok (scalar (boolean (equal r v w)) (sensitive v || sensitive w))
  apply_operator not_equal_token v w =
      ok (scalar (boolean (not (equal r v w))) (sensitive v || sensitive w))
  apply_operator less_token v w = ok (
      scalar (boolean (matches_order less_token (compare_values r v w)))
        (sensitive v || sensitive w))
  apply_operator less_equal_token v w = ok (
      scalar (boolean (matches_order less_equal_token (compare_values r v w)))
        (sensitive v || sensitive w))
  apply_operator greater_token v w = ok (
      scalar (boolean (matches_order greater_token (compare_values r v w)))
        (sensitive v || sensitive w))
  apply_operator greater_equal_token v w = ok (
      scalar (boolean (matches_order greater_equal_token (compare_values r v w)))
        (sensitive v || sensitive w))
  apply_operator _ v w = err unsupported_operator

  -- An operator at its left value; `&&` and `||` look at the right one only if they have to.
  unfoldable pub binary_value : TokenKind → Value → Result EvalError Value → Result EvalError Value
  unfolding truthy mark apply_operator
  binary_value and_token left right =
      if not (truthy r left) then ok left else (do w ← right; ok (mark (sensitive left) w))
  binary_value or_token left right =
      if truthy r left then ok left else (do w ← right; ok (mark (sensitive left) w))
  binary_value operator left right = do w ← right; apply_operator operator left w

  -- A property by the text of an index, and the mark of the index.
  unfoldable pub named_value : Value → Bool → Option String → Result EvalError Value
  unfolding property mark
  named_value target s none = err index_not_scalar
  named_value target s (some name) = ok (mark s (property r target name))

  -- The index of a value that is no filtered array: the position of an array, or a property.
  unfoldable pub position_value : Value → Value → Option (Option ℕ) → Result EvalError Value
  unfolding named_value marked_or_empty position_item
  position_value (array i f xs s) index (some p) =
      ok (marked_or_empty (s || sensitive index) (position_item xs (some p)))
  position_value target index p = named_value target (sensitive index) (string_value r index)

  -- indexNode.evaluate, at an index that is a value.
  unfoldable pub index_value : Value → Value → Result EvalError Value
  unfolding filtered_index position_value integer_index
  index_value (array i true xs s) index = ok (filtered_index r xs s index)
  index_value target index = position_value target index (integer_index r index)

  -- callNode.evaluate, at arguments that are values.
  unfoldable pub call_value :
      Evaluation → String → Function → Result EvalError ArrayItems → Result EvalError Value
  unfolding status_value evaluate_contains evaluate_starts_with evaluate_ends_with evaluate_format
      evaluate_join evaluate_to_json evaluate_from_json evaluate_hash_files lookup
  call_value e name success_function vs = status_value e.status name (λ s. s.success)
  call_value e name failure_function vs = status_value e.status name (λ s. s.failure)
  call_value e name cancelled_function vs = status_value e.status name (λ s. s.cancelled)
  call_value e name always_function vs = ok (scalar (boolean true) false)
  call_value e name contains_function vs = vs >>= evaluate_contains r
  call_value e name starts_with_function vs = vs >>= evaluate_starts_with r
  call_value e name ends_with_function vs = vs >>= evaluate_ends_with r
  call_value e name format_function vs = vs >>= evaluate_format r
  call_value e name join_function vs = vs >>= evaluate_join r
  call_value e name to_json_function vs = vs >>= evaluate_to_json r
  call_value e name from_json_function vs = vs >>= evaluate_from_json r
  call_value e name hash_files_function vs =
      vs >>= evaluate_hash_files r (lookup (r.lower "github") e.roots)
  call_value e name unknown_function vs = vs >>= λ _. err (unsupported_function name)

  unfoldable mutual
    unfolding lookup wildcard index_value property truthy binary_value call_value function_of
        found_or is_wildcard

    -- evaluate, at each kind of node.
    pub evaluate_node : Evaluation → Node → Result EvalError Value
    evaluate_node e (literal v) = ok v
    evaluate_node e (context_node name) =
        found_or (context_unavailable name) (lookup (r.lower name) e.roots)
    evaluate_node e wildcard_node = err misplaced_wildcard
    evaluate_node e (property_node target name) = do
      v ← evaluate_node e target
      ok (property r v name)
    evaluate_node e (index_node target index) =
        let position = evaluate_node e index in
        evaluate_node e target >>= λ v.
        if is_wildcard index then ok (wildcard v) else (do w ← position; index_value v w)
    evaluate_node e (unary_node operand) = do
      v ← evaluate_node e operand
      ok (scalar (boolean (not (truthy r v))) (sensitive v))
    evaluate_node e (binary_node operator left right) =
        let second = evaluate_node e right in
        evaluate_node e left >>= λ v. binary_value operator v second
    evaluate_node e (call_node name arguments) =
        let vs = evaluate_arguments e arguments in call_value e name (function_of (r.lower name)) vs

    pub evaluate_arguments : Evaluation → Arguments → Result EvalError ArrayItems
    evaluate_arguments e no_arguments = ok empty
    evaluate_arguments e (argument n ns) = do
      v ← evaluate_node e n
      vs ← evaluate_arguments e ns
      ok (item v vs)
