-- ===== src/Expression/Program.antt =====
-- Parsed templates and their evaluation: Program, Validate and Evaluate of
-- internal/expression/expression.go.
use open_actions.Base.{String, Bool, false, ◌||◌, List, [], ◌∷◌, any, ltb, if◌then◌else◌}
use open_actions.Base.Dict.{insert}
use open_actions.Base.Result.{Result, ok, err, ◌>>=◌, ◌>>◌}
use open_actions.Expression.Texts.{byte_length}
use open_actions.Expression.Value.{
  text, Raw, plain, Value, scalar, Runtime, sensitive, normalize, interface_value,
  contains_sensitive,
}
use open_actions.Expression.Node.{
  Node, EvalError, too_large, out_of_range, Availability, validate_node, node_uses_context,
  node_uses_status,
}
use open_actions.Expression.Hash.{max_evaluation_bytes}
use open_actions.Expression.Calls.{scalar_text, append_string}
use open_actions.Expression.Evaluate.{Evaluation, Context, evaluate_node}

-- segment: a text, or an expression.
pub data Segment : Type 0 where
  copied : String → Segment
  expression : Node → Segment

-- Program.
pub record Program : Type 0 where
  pub segments : List Segment
  pub whole : Bool

-- Result.
pub record Outcome : Type 0 where
  pub value : Raw
  pub secret : Bool

-- What `len(result.text)` is at a value that is a text.
unfoldable pub is_too_large : Value → Bool
unfolding byte_length
is_too_large (scalar (text t) s) = ltb max_evaluation_bytes (byte_length t)
is_too_large _ = false

-- What Evaluate returns of the value of a whole program.
unfoldable pub whole_outcome : Value → Result EvalError Outcome
unfolding is_too_large interface_value contains_sensitive
whole_outcome v =
    if is_too_large v
    then err too_large
    else ok (record { value = interface_value v; secret = contains_sensitive v })

-- `p.segments[0].expression`.
unfoldable pub first_node : List Segment → Result EvalError Node
first_node (expression n ∷ rest) = ok n
first_node _ = err out_of_range

module _ (r : Runtime) where
  -- newEvaluation: the context `secrets` is marked.
  unfoldable pub new_roots : List (String × Raw) → List (String × Value)
  unfolding normalize insert
  new_roots [] = []
  new_roots ((name, input) ∷ values) =
      insert (r.lower name) (normalize input (r.equal_fold name "secrets")) (new_roots values)

  -- Validate.
  unfoldable pub validate_segments : Availability → List Segment → Result EvalError (Unit {0})
  unfolding validate_node
  validate_segments a [] = ok tt
  validate_segments a (copied t ∷ rest) = validate_segments a rest
  validate_segments a (expression n ∷ rest) = do validate_node r a n; validate_segments a rest

  unfoldable pub segment_uses_status : Segment → Bool
  unfolding node_uses_status
  segment_uses_status (copied t) = false
  segment_uses_status (expression n) = node_uses_status r n

  -- UsesStatusFunction.
  unfoldable pub uses_status_function : Program → Bool
  unfolding segment_uses_status
  uses_status_function p = any segment_uses_status p.segments

  unfoldable pub segment_uses_context : String → Segment → Bool
  unfolding node_uses_context
  segment_uses_context name (copied t) = false
  segment_uses_context name (expression n) = node_uses_context r n name

  -- UsesContext.
  unfoldable pub uses_context : Program → String → Bool
  unfolding segment_uses_context
  uses_context p name = any (segment_uses_context name) p.segments

  -- The loop of Evaluate over the segments.
  unfoldable pub interpolate : Evaluation → List Segment → String → Bool → Result EvalError Outcome
  unfolding append_string evaluate_node scalar_text
  interpolate e [] result s = ok (record { value = plain (text result); secret = s })
  interpolate e (copied t ∷ rest) result s = do
    more ← append_string result t
    interpolate e rest more s
  interpolate e (expression n ∷ rest) result s = do
    v ← evaluate_node r e n
    t ← scalar_text r v
    more ← append_string result t
    interpolate e rest more (s || sensitive v)

  -- Evaluate, after the validation.
  unfoldable pub run : Program → Evaluation → Result EvalError Outcome
  unfolding first_node evaluate_node whole_outcome interpolate
  run p e =
      if p.whole
      then (do n ← first_node p.segments; v ← evaluate_node r e n; whole_outcome v)
      else interpolate e p.segments "" false

  -- Evaluate.
  unfoldable pub evaluate : Program → Context → Result EvalError Outcome
  unfolding validate_segments new_roots run
  evaluate p c = do
    validate_segments c.availability p.segments
    run p (record { roots = new_roots c.values; status = c.status })
