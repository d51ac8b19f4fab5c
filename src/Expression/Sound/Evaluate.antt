-- ===== src/Expression/Sound/Evaluate.antt =====
-- A valid expression is safe to evaluate.
use open_actions.Base.{
  String, Bool, true, false, ℕ, ◌≤◌, ◌≡◌, refl, inl, inr, arith, not, Option, none, some,
}
use open_actions.Base.Dict.{lookup}
use open_actions.Base.Result.{Result, ok, >>=-eq-ok, fail_if}
use open_actions.Expression.Value.{
  Value, scalar, array, object, ArrayItems, empty, item, sensitive, Runtime, truthy, string_value,
}
use open_actions.Expression.Access.{item_count, wildcard, integer_index}
use open_actions.Expression.Node.{
  TokenKind, equal_token, not_equal_token, less_token, less_equal_token, greater_token,
  greater_equal_token, and_token, or_token, Node, literal, context_node, wildcard_node,
  property_node, index_node, unary_node, binary_node, call_node, Arguments, no_arguments, argument,
  EvalError, Function, contains_function, starts_with_function, ends_with_function, format_function,
  join_function, to_json_function, from_json_function, hash_files_function, success_function,
  always_function, failure_function, cancelled_function, unknown_function, function_of,
  context_unavailable, Availability, argument_bounds, out_of_bounds, argument_count,
  validate_function, validate_node, validate_arguments, argument_number,
}
use open_actions.Expression.Evaluate.{
  Status, Evaluation, is_wildcard, status_value, apply_operator, binary_value, named_value,
  position_value, index_value, call_value, evaluate_node, evaluate_arguments,
}
use open_actions.Expression.Sound.{
  is_operator, IsWellFormed, AreWellFormed, IsSafe, IsSafe-bind, IsSafe-if,
}
use open_actions.Expression.Sound.Calls.{
  found_or-IsSafe, evaluate_contains-IsSafe, evaluate_starts_with-IsSafe, evaluate_ends_with-IsSafe,
  evaluate_format-IsSafe, evaluate_join-IsSafe, evaluate_to_json-IsSafe, evaluate_from_json-IsSafe,
}
use open_actions.Expression.Sound.Hash.{evaluate_hash_files-IsSafe}

-- A call that passes its tests has as many arguments as it needs.
enough :
    (name : String) (n least : ℕ) (most : Option ℕ)
    → fail_if (out_of_bounds n (least, most)) (argument_number name) ≡ ok tt
    → least ≤ n
unfolding out_of_bounds
enough name n least none h = ground (arith, h)
enough name n least (some most) h = ground (arith, h)

unit_ok : {m : Result EvalError (Unit {0})} {u : Unit {0}} → m ≡ ok u → m ≡ ok tt
unit_ok h = h

module _ (r : Runtime) where
  status_value-IsSafe :
      (s : Option Status) (name : String) (read : Status → Bool) → IsSafe (status_value s name read)
  unfolding status_value
  status_value-IsSafe none name read = tt
  status_value-IsSafe (some s) name read = tt

  call_value-IsSafe :
      (e : Evaluation) (a : Availability) (name : String) (f : Function)
      (vs : Result EvalError ArrayItems) (n : ℕ)
      → validate_function a name f n ≡ ok tt
      → IsSafe vs
      → ((ws : ArrayItems) → vs ≡ ok ws → item_count ws ≡ n)
      → IsSafe (call_value r e name f vs)
  unfolding call_value validate_function argument_bounds
  call_value-IsSafe e a name success_function vs n h k count =
      status_value-IsSafe e.status name (λ s. s.success)
  call_value-IsSafe e a name failure_function vs n h k count =
      status_value-IsSafe e.status name (λ s. s.failure)
  call_value-IsSafe e a name cancelled_function vs n h k count =
      status_value-IsSafe e.status name (λ s. s.cancelled)
  call_value-IsSafe e a name always_function vs n h k count = tt
  call_value-IsSafe e a name contains_function vs n h k count =
      let least = enough name n 2 (some 2) h in
      IsSafe-bind _ vs k λ ws x. evaluate_contains-IsSafe r ws (ground (arith, least, count ws x))
  call_value-IsSafe e a name starts_with_function vs n h k count =
      let least = enough name n 2 (some 2) h in
      IsSafe-bind _ vs k
        λ ws x. evaluate_starts_with-IsSafe r ws (ground (arith, least, count ws x))
  call_value-IsSafe e a name ends_with_function vs n h k count =
      let least = enough name n 2 (some 2) h in
      IsSafe-bind _ vs k λ ws x. evaluate_ends_with-IsSafe r ws (ground (arith, least, count ws x))
  call_value-IsSafe e a name format_function vs n h k count =
      let least = enough name n 2 none h in
      IsSafe-bind _ vs k λ ws x. evaluate_format-IsSafe r ws (ground (arith, least, count ws x))
  call_value-IsSafe e a name join_function vs n h k count =
      let least = enough name n 1 (some 2) h in
      IsSafe-bind _ vs k λ ws x. evaluate_join-IsSafe r ws (ground (arith, least, count ws x))
  call_value-IsSafe e a name to_json_function vs n h k count =
      let least = enough name n 1 (some 1) h in
      IsSafe-bind _ vs k λ ws x. evaluate_to_json-IsSafe r ws (ground (arith, least, count ws x))
  call_value-IsSafe e a name from_json_function vs n h k count =
      let least = enough name n 1 (some 1) h in
      IsSafe-bind _ vs k λ ws x. evaluate_from_json-IsSafe r ws (ground (arith, least, count ws x))
  call_value-IsSafe e a name hash_files_function vs n h k count =
      IsSafe-bind _ vs k λ ws x. evaluate_hash_files-IsSafe r (lookup (r.lower "github") e.roots) ws
  call_value-IsSafe e a name unknown_function vs n h k count = absurd (cc)

  apply_operator-IsSafe :
      (operator : TokenKind) (v w : Value)
      → is_operator operator ≡ true
      → (operator ≡ and_token → ⊥)
      → (operator ≡ or_token → ⊥)
      → IsSafe (apply_operator r operator v w)
  unfolding apply_operator
  apply_operator-IsSafe equal_token v w h p q = tt
  apply_operator-IsSafe not_equal_token v w h p q = tt
  apply_operator-IsSafe less_token v w h p q = tt
  apply_operator-IsSafe less_equal_token v w h p q = tt
  apply_operator-IsSafe greater_token v w h p q = tt
  apply_operator-IsSafe greater_equal_token v w h p q = tt
  apply_operator-IsSafe and_token v w h p q = absurd (p refl)
  apply_operator-IsSafe or_token v w h p q = absurd (q refl)
  apply_operator-IsSafe _ v w h p q = absurd (cc)

  binary_value-IsSafe :
      (operator : TokenKind) (v : Value) (right : Result EvalError Value)
      → is_operator operator ≡ true
      → IsSafe right
      → IsSafe (binary_value r operator v right)
  unfolding binary_value
  binary_value-IsSafe and_token v right h k =
      IsSafe-if (not (truthy r v)) (ok v) _ tt (IsSafe-bind _ right k λ w e. tt)
  binary_value-IsSafe or_token v right h k =
      IsSafe-if (truthy r v) (ok v) _ tt (IsSafe-bind _ right k λ w e. tt)
  binary_value-IsSafe operator v right h k =
      IsSafe-bind _ right k
        λ w e. apply_operator-IsSafe operator v w h (λ x. absurd (cc)) (λ x. absurd (cc))

  named_value-IsSafe :
      (v : Value) (s : Bool) (name : Option String) → IsSafe (named_value r v s name)
  unfolding named_value
  named_value-IsSafe v s none = tt
  named_value-IsSafe v s (some name) = tt

  position_value-IsSafe : (v w : Value) (p : Option (Option ℕ)) → IsSafe (position_value r v w p)
  unfolding position_value
  position_value-IsSafe (scalar x s) w p =
      named_value-IsSafe (scalar x s) (sensitive w) (string_value r w)
  position_value-IsSafe (object i fs s) w p =
      named_value-IsSafe (object i fs s) (sensitive w) (string_value r w)
  position_value-IsSafe (array i f xs s) w none =
      named_value-IsSafe (array i f xs s) (sensitive w) (string_value r w)
  position_value-IsSafe (array i f xs s) w (some p) = tt

  index_value-IsSafe : (v w : Value) → IsSafe (index_value r v w)
  unfolding index_value
  index_value-IsSafe (array i true xs s) w = tt
  index_value-IsSafe (array i false xs s) w =
      position_value-IsSafe (array i false xs s) w (integer_index r w)
  index_value-IsSafe (scalar x s) w = position_value-IsSafe (scalar x s) w (integer_index r w)
  index_value-IsSafe (object i fs s) w = position_value-IsSafe (object i fs s) w (integer_index r w)

  evaluate_arguments-count :
      (e : Evaluation) (ns : Arguments) (vs : ArrayItems)
      → evaluate_arguments r e ns ≡ ok vs
      → item_count vs ≡ argument_count ns
  unfolding evaluate_arguments item_count argument_count
  evaluate_arguments-count e no_arguments empty h = refl
  evaluate_arguments-count e no_arguments (item v vs) h = absurd (cc)
  evaluate_arguments-count e (argument n ns) us h =
      let (v, first, rest) = >>=-eq-ok (evaluate_node r e n) _ h in
      let (vs, second, last_step) = >>=-eq-ok (evaluate_arguments r e ns) _ rest in
      let later = evaluate_arguments-count e ns vs second in cc

  mutual
    unfolding evaluate_node validate_node argument_count item_count

    -- An expression that the parser makes and that is valid.
    pub evaluate_node-IsSafe :
        (e : Evaluation) (a : Availability) (n : Node)
        → IsWellFormed n
        → validate_node r a n ≡ ok tt
        → IsSafe (evaluate_node r e n)
    evaluate_node-IsSafe e a (literal v) w h = tt
    evaluate_node-IsSafe e a (context_node name) w h =
        found_or-IsSafe (context_unavailable name) (lookup (r.lower name) e.roots) tt
    evaluate_node-IsSafe e a wildcard_node w h = w
    evaluate_node-IsSafe e a (property_node target name) w h =
        IsSafe-bind _ (evaluate_node r e target) (evaluate_node-IsSafe e a target w h) λ v x. tt
    evaluate_node-IsSafe e a (index_node target index) (w, is_index) h =
        let (u, first, second) =
          >>=-eq-ok (validate_node r a target) (λ _. validate_node r a index) h in
        IsSafe-bind _ (evaluate_node r e target) (evaluate_node-IsSafe e a target w (unit_ok first))
          λ v x. elim is_index [
            | inl every ↦ rw (every, IsSafe) tt
            | inr well ↦
                let position = evaluate_node-IsSafe e a index well second in
                IsSafe-if (is_wildcard index) (ok (wildcard v)) _ tt
                  (IsSafe-bind _ (evaluate_node r e index) position λ y z. index_value-IsSafe v y)
          ]
    evaluate_node-IsSafe e a (unary_node operand) w h =
        IsSafe-bind _ (evaluate_node r e operand) (evaluate_node-IsSafe e a operand w h) λ v x. tt
    evaluate_node-IsSafe e a (binary_node operator left right) (is_op, wl, wr) h =
        let (u, first, second) =
          >>=-eq-ok (validate_node r a left) (λ _. validate_node r a right) h in
        let later = evaluate_node-IsSafe e a right wr second in
        IsSafe-bind _ (evaluate_node r e left) (evaluate_node-IsSafe e a left wl (unit_ok first))
          λ v x. binary_value-IsSafe operator v (evaluate_node r e right) is_op later
    evaluate_node-IsSafe e a (call_node name arguments) w h =
        let f = function_of (r.lower name) in
        let (u, first, second) =
          >>=-eq-ok (validate_function a name f (argument_count arguments))
            (λ _. validate_arguments r a arguments) h in
        call_value-IsSafe e a name f (evaluate_arguments r e arguments) (argument_count arguments)
          (unit_ok first) (evaluate_arguments-IsSafe e a arguments w second)
          (evaluate_arguments-count e arguments)

    evaluate_arguments-IsSafe :
        (e : Evaluation) (a : Availability) (ns : Arguments)
        → AreWellFormed ns
        → validate_arguments r a ns ≡ ok tt
        → IsSafe (evaluate_arguments r e ns)
    evaluate_arguments-IsSafe e a no_arguments w h = tt
    evaluate_arguments-IsSafe e a (argument n ns) (w, ws) h =
        let (u, first, second) =
          >>=-eq-ok (validate_node r a n) (λ _. validate_arguments r a ns) h in
        let later = evaluate_arguments-IsSafe e a ns ws second in
        IsSafe-bind _ (evaluate_node r e n) (evaluate_node-IsSafe e a n w (unit_ok first))
          λ v x. IsSafe-bind _ (evaluate_arguments r e ns) later λ vs y. tt
