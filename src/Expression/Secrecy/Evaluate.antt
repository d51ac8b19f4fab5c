-- ===== src/Expression/Secrecy/Evaluate.antt =====
-- Evaluation keeps secrets: in evaluations that cannot be told apart, an expression gives values that
-- cannot be told apart.
use open_actions.Base.{
  ℕ, String, Bool, true, false, ◌≡◌, sym, ap, subst, inl, inr, arith, ◌||◌, not, Option, none, some,
  Bool-cases,
}
use open_actions.Base.Dict.{lookup}
use open_actions.Base.Result.{Result}
use open_actions.Expression.Value.{
  boolean, Value, scalar, array, object, ArrayItems, sensitive, Runtime, truthy, string_value,
}
use open_actions.Expression.Access.{
  filtered_index, integer_index, position_item, marked_or_empty, property,
}
use open_actions.Expression.Node.{
  Node, literal, context_node, wildcard_node, property_node, index_node, unary_node, binary_node,
  call_node, Arguments, no_arguments, argument, EvalError, Function, contains_function,
  starts_with_function, ends_with_function, format_function, join_function, to_json_function,
  from_json_function, hash_files_function, success_function, always_function, failure_function,
  cancelled_function, unknown_function, function_of, context_unavailable,
}
use open_actions.Expression.Hash.{found_or}
use open_actions.Expression.Calls.{workspace_of}
use open_actions.Expression.Evaluate.{
  Status, Evaluation, is_wildcard, status_value, named_value, position_value, index_value,
  call_value, evaluate_node, evaluate_arguments,
}
use open_actions.Expression.Secrecy.{
  Same, scalars, arrays, objects, Alike, Agree, IsHidden, Agree-IsHidden, Agree-bind, Alike-scalar,
  Alike-mark, sensitive-mark, truthy-Same, string_value-Same,
}
use open_actions.Expression.Secrecy.Read.{
  BothFound, wildcard-Alike, filtered_index-Alike, property-secret, property-Alike,
  integer_index-Same, at_position, marked_or_empty-Alike,
}
use open_actions.Expression.Secrecy.Calls.{
  AlikeItems, none_alike, all_alike, evaluate_contains-Alike, evaluate_starts_with-Alike,
  evaluate_ends_with-Alike,
}
use open_actions.Expression.Secrecy.Join.{evaluate_join-Alike}
use open_actions.Expression.Secrecy.Json.{evaluate_to_json-Alike, evaluate_from_json-Alike}
use open_actions.Expression.Secrecy.Format.{evaluate_format-Alike}
use open_actions.Expression.Secrecy.Hash.{evaluate_hash_files-Alike}
use open_actions.Expression.Secrecy.Operators.{Same-refl, binary_value-Alike}

module _ (r : Runtime) where
  -- Evaluations whose contexts cannot be told apart, with the same status and workspace.
  pub record AlikeEvaluations (e f : Evaluation) : Type 0 where
    pub roots : (name : String) → BothFound Alike (lookup name e.roots) (lookup name f.roots)
    pub status : e.status ≡ f.status
    pub workspace :
        workspace_of r (lookup (r.lower "github") e.roots)
        ≡ workspace_of r (lookup (r.lower "github") f.roots)

  named_value-secret :
      (v : Value) (s : Bool) (name : Option String)
      → (sensitive v || s) ≡ true
      → IsHidden (named_value r v s name)
  unfolding named_value
  named_value-secret v s none h = tt
  named_value-secret v s (some name) h =
      let from_target = property-secret r v name in rw sensitive-mark (ground (arith, from_target))

  marked_or_empty-secret :
      (s : Bool) (o : Option Value) → s ≡ true → sensitive (marked_or_empty s o) ≡ true
  unfolding marked_or_empty
  marked_or_empty-secret s none h = h
  marked_or_empty-secret s (some v) h = rw sensitive-mark (ground arith)

  position_value-secret :
      (v w : Value) (p : Option (Option ℕ))
      → (sensitive v || sensitive w) ≡ true
      → IsHidden (position_value r v w p)
  unfolding position_value
  position_value-secret (scalar x s) w p h =
      named_value-secret (scalar x s) (sensitive w) (string_value r w) h
  position_value-secret (object i fs s) w p h =
      named_value-secret (object i fs s) (sensitive w) (string_value r w) h
  position_value-secret (array i f xs s) w none h =
      named_value-secret (array i f xs s) (sensitive w) (string_value r w) h
  position_value-secret (array i f xs s) w (some p) h =
      marked_or_empty-secret (s || sensitive w) (position_item xs (some p)) h

  index_value-secret :
      (v w : Value) → (sensitive v || sensitive w) ≡ true → IsHidden (index_value r v w)
  unfolding index_value filtered_index
  index_value-secret (scalar x s) w h = position_value-secret (scalar x s) w (integer_index r w) h
  index_value-secret (object i fs s) w h =
      position_value-secret (object i fs s) w (integer_index r w) h
  index_value-secret (array i false xs s) w h =
      position_value-secret (array i false xs s) w (integer_index r w) h
  index_value-secret (array i true xs s) w h = h

  named_value-Alike :
      {v w : Value} (s t : Bool) (name : Option String)
      → Alike v w
      → Agree Alike (named_value r v s name) (named_value r w t name)
  unfolding named_value
  named_value-Alike s t none h = tt
  named_value-Alike {v} {w} s t (some name) h =
      Alike-mark s t (property r v name) (property r w name) (property-Alike r name h)

  position_value-Same :
      {v w a b : Value} (p : Option (Option ℕ))
      → Same false v w
      → Same false a b
      → Agree Alike (position_value r v a p) (position_value r w b p)
  unfolding position_value
  position_value-Same {a} {b} p (scalars x s t) k =
      rw (sym (string_value-Same r k))
        (named_value-Alike (sensitive a) (sensitive b) (string_value r a) (inr (scalars x s t)))
  position_value-Same {a} {b} p (objects i s t h) k =
      rw (sym (string_value-Same r k))
        (named_value-Alike (sensitive a) (sensitive b) (string_value r a) (inr (objects i s t h)))
  position_value-Same {a} {b} none (arrays i f s t h) k =
      rw (sym (string_value-Same r k))
        (named_value-Alike (sensitive a) (sensitive b) (string_value r a) (inr (arrays i f s t h)))
  position_value-Same {a} {b} (some p) (arrays i f {xs} {ys} s t h) k =
      marked_or_empty-Alike (s || sensitive a) (t || sensitive b) (position_item xs (some p))
        (position_item ys (some p)) (at_position r (some p) h)

  position_value-both :
      {v w a b : Value}
      → Same false v w
      → Same false a b
      → Agree Alike
          (position_value r v a (integer_index r a))
          (position_value r w b (integer_index r b))
  position_value-both {v} {w} {a} {b} h k =
      subst (λ p. Agree Alike (position_value r v a (integer_index r a)) (position_value r w b p))
        (integer_index-Same r k) (position_value-Same (integer_index r a) h k)

  index_value-Alike :
      {v w a b : Value}
      → Alike v w
      → Alike a b
      → Agree Alike (index_value r v a) (index_value r w b)
  unfolding index_value
  index_value-Alike {v} {w} {a} {b} (inl (p, q)) k =
      Agree-IsHidden _ _ (index_value-secret v a (ground arith))
        (index_value-secret w b (ground arith))
  index_value-Alike {v} {w} {a} {b} (inr h) (inl (p, q)) =
      Agree-IsHidden _ _ (index_value-secret v a (ground arith))
        (index_value-secret w b (ground arith))
  index_value-Alike (inr (scalars x s t)) (inr k) = position_value-both (scalars x s t) k
  index_value-Alike (inr (objects i s t h)) (inr k) =
      position_value-both (objects {b = false} i s t h) k
  index_value-Alike (inr (arrays i false s t h)) (inr k) =
      position_value-both (arrays {b = false} i false s t h) k
  index_value-Alike {a} {b} (inr (arrays i true s t h)) (inr k) =
      filtered_index-Alike r s t (inr k) h

  status_value_refl :
      (s : Option Status) (name : String) (read : Status → Bool)
      → Agree Alike (status_value s name read) (status_value s name read)
  unfolding status_value
  status_value_refl none name read = tt
  status_value_refl (some s) name read = inr (scalars (boolean (read s)) false false)

  call_value-Alike :
      {e f : Evaluation} (name : String) (function : Function) (m n : Result EvalError ArrayItems)
      → AlikeEvaluations e f
      → Agree AlikeItems m n
      → Agree Alike (call_value r e name function m) (call_value r f name function n)
  unfolding call_value
  call_value-Alike {e} name success_function m n h k =
      rw (sym h.status) (status_value_refl e.status name (λ s. s.success))
  call_value-Alike {e} name failure_function m n h k =
      rw (sym h.status) (status_value_refl e.status name (λ s. s.failure))
  call_value-Alike {e} name cancelled_function m n h k =
      rw (sym h.status) (status_value_refl e.status name (λ s. s.cancelled))
  call_value-Alike name always_function m n h k = inr (scalars (boolean true) false false)
  call_value-Alike name contains_function m n h k =
      Agree-bind Alike _ _ m n k λ vs ws a. evaluate_contains-Alike r a
  call_value-Alike name starts_with_function m n h k =
      Agree-bind Alike _ _ m n k λ vs ws a. evaluate_starts_with-Alike r a
  call_value-Alike name ends_with_function m n h k =
      Agree-bind Alike _ _ m n k λ vs ws a. evaluate_ends_with-Alike r a
  call_value-Alike name format_function m n h k =
      Agree-bind Alike _ _ m n k λ vs ws a. evaluate_format-Alike r a
  call_value-Alike name join_function m n h k =
      Agree-bind Alike _ _ m n k λ vs ws a. evaluate_join-Alike r a
  call_value-Alike name to_json_function m n h k =
      Agree-bind Alike _ _ m n k λ vs ws a. evaluate_to_json-Alike r a
  call_value-Alike name from_json_function m n h k =
      Agree-bind Alike _ _ m n k λ vs ws a. evaluate_from_json-Alike r a
  call_value-Alike {e} {f} name hash_files_function m n h k = Agree-bind Alike _ _ m n k λ vs ws a.
      evaluate_hash_files-Alike r (lookup (r.lower "github") e.roots)
        (lookup (r.lower "github") f.roots) h.workspace a
  call_value-Alike name unknown_function m n h k = Agree-bind Alike _ _ m n k λ vs ws a. tt

  context_value :
      (error : EvalError) (m n : Option Value)
      → BothFound Alike m n
      → Agree Alike (found_or error m) (found_or error n)
  unfolding found_or
  context_value error none none h = tt
  context_value error (some v) (some w) h = h
  context_value error none (some w) h = elim h [ ]
  context_value error (some v) none h = elim h [ ]

  negated :
      {v w : Value}
      → Alike v w
      → Alike
          (scalar (boolean (not (truthy r v))) (sensitive v))
          (scalar (boolean (not (truthy r w))) (sensitive w))
  negated (inl secret) = inl secret
  negated {v} {w} (inr h) =
      Alike-scalar _ _ (sensitive v) (sensitive w)
        (inr (ap (λ b. boolean (not b)) (truthy-Same r h)))

  mutual
    unfolding evaluate_node

    pub evaluate_node-Alike :
        {e f : Evaluation} (n : Node)
        → AlikeEvaluations e f
        → Agree Alike (evaluate_node r e n) (evaluate_node r f n)
    evaluate_node-Alike (literal v) h = inr (Same-refl false v)
    evaluate_node-Alike {e} {f} (context_node name) h =
        context_value (context_unavailable name) (lookup (r.lower name) e.roots)
          (lookup (r.lower name) f.roots) (h.roots (r.lower name))
    evaluate_node-Alike wildcard_node h = tt
    evaluate_node-Alike {e} {f} (property_node target name) h =
        Agree-bind Alike _ _ (evaluate_node r e target) (evaluate_node r f target)
          (evaluate_node-Alike target h) λ v w a. property-Alike r name a
    evaluate_node-Alike {e} {f} (index_node target index) h =
        let position = evaluate_node-Alike index h in
        Agree-bind Alike _ _ (evaluate_node r e target) (evaluate_node r f target)
          (evaluate_node-Alike target h)
          λ v w a. elim (Bool-cases (is_wildcard index)) [
            | inl every ↦ rw (every, Agree) (wildcard-Alike v w a)
            | inr one ↦
                rw (one, Agree)
                  (Agree-bind Alike _ _ (evaluate_node r e index) (evaluate_node r f index) position
                    λ x y b. index_value-Alike a b)
          ]
    evaluate_node-Alike {e} {f} (unary_node operand) h =
        Agree-bind Alike _ _ (evaluate_node r e operand) (evaluate_node r f operand)
          (evaluate_node-Alike operand h) λ v w a. negated a
    evaluate_node-Alike {e} {f} (binary_node operator left right) h =
        let second = evaluate_node-Alike right h in
        Agree-bind Alike _ _ (evaluate_node r e left) (evaluate_node r f left)
          (evaluate_node-Alike left h)
          λ v w a.
            binary_value-Alike r operator (evaluate_node r e right) (evaluate_node r f right) a
              second
    evaluate_node-Alike {e} {f} (call_node name arguments) h =
        call_value-Alike name (function_of (r.lower name)) (evaluate_arguments r e arguments)
          (evaluate_arguments r f arguments) h (evaluate_arguments-Alike arguments h)

    evaluate_arguments-Alike :
        {e f : Evaluation} (ns : Arguments)
        → AlikeEvaluations e f
        → Agree AlikeItems (evaluate_arguments r e ns) (evaluate_arguments r f ns)
    evaluate_arguments-Alike no_arguments h = none_alike
    evaluate_arguments-Alike {e} {f} (argument n ns) h =
        let later = evaluate_arguments-Alike ns h in
        Agree-bind AlikeItems _ _ (evaluate_node r e n) (evaluate_node r f n)
          (evaluate_node-Alike n h)
          λ v w a.
            Agree-bind AlikeItems _ _ (evaluate_arguments r e ns) (evaluate_arguments r f ns) later
              λ vs ws b. all_alike a b
