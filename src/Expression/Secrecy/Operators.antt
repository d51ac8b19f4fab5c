-- ===== src/Expression/Secrecy/Operators.antt =====
-- The operators of expressions keep secrets.
use open_actions.Base.{
  Bool, true, false, ◌≡◌, sym, ap, inl, inr, arith, ◌&&◌, ◌||◌, not, Bool-cases,
}
use open_actions.Base.Result.{Result}
use open_actions.Expression.Value.{
  boolean, Value, scalar, array, object, ArrayItems, empty, item, ObjectFields, last, entry,
  sensitive, mark, Runtime, truthy,
}
use open_actions.Expression.Access.{equal, compare_values}
use open_actions.Expression.Node.{
  TokenKind, equal_token, not_equal_token, less_token, less_equal_token, greater_token,
  greater_equal_token, and_token, or_token, EvalError,
}
use open_actions.Expression.Evaluate.{matches_order, apply_operator, binary_value}
use open_actions.Expression.Secrecy.{
  Same, scalars, arrays, objects, SameItems, no_items, both_items, SameFields, no_fields,
  both_fields, Alike, Agree, IsHidden, Agree-IsHidden, Agree-bind, IsHidden-bind, Alike-mark,
  sensitive-mark, truthy-Same,
}
use open_actions.Expression.Secrecy.Read.{equal-Same, compare_values-Same}
use open_actions.Expression.Secrecy.Calls.{Alike-both}

mutual
  pub Same-refl : (b : Bool) (v : Value) → Same b v v
  Same-refl b (scalar x s) = scalars x s s
  Same-refl b (array i f xs s) = arrays i f s s (SameItems-refl xs)
  Same-refl b (object i fs s) = objects i s s (SameFields-refl fs)

  SameItems-refl : (vs : ArrayItems) → SameItems vs vs
  SameItems-refl empty = no_items
  SameItems-refl (item v vs) =
      both_items (Same-refl (sensitive v && sensitive v) v) (SameItems-refl vs)

  SameFields-refl : (fs : ObjectFields) → SameFields fs fs
  SameFields-refl last = no_fields
  SameFields-refl (entry k v fs) =
      both_fields k (Same-refl (sensitive v && sensitive v) v) (SameFields-refl fs)

module _ (r : Runtime) where
  -- What an operator makes of two values.
  operated :
      (f : Value → Value → Bool) {v w a b : Value}
      → (Same false v w → Same false a b → f v a ≡ f w b)
      → Alike v w
      → Alike a b
      → Alike
          (scalar (boolean (f v a)) (sensitive v || sensitive a))
          (scalar (boolean (f w b)) (sensitive w || sensitive b))
  operated f {v} {w} {a} {b} same (inl secret) k = Alike-both v w a b _ _ (inl secret)
  operated f {v} {w} {a} {b} same (inr h) (inl secret) = Alike-both v w a b _ _ (inr (inl secret))
  operated f {v} {w} {a} {b} same (inr h) (inr k) =
      Alike-both v w a b _ _ (inr (inr (ap boolean (same h k))))

  compared :
      (operator : TokenKind) {v w a b : Value}
      → Alike v w
      → Alike a b
      → Alike
          (scalar
            (boolean (matches_order operator (compare_values r v a)))
            (sensitive v || sensitive a))
          (scalar
            (boolean (matches_order operator (compare_values r w b)))
            (sensitive w || sensitive b))
  compared operator h k =
      operated (λ x y. matches_order operator (compare_values r x y))
        (λ m n. ap (matches_order operator) (compare_values-Same r m n)) h k

  apply_operator-Alike :
      (operator : TokenKind) {v w a b : Value}
      → Alike v w
      → Alike a b
      → Agree Alike (apply_operator r operator v a) (apply_operator r operator w b)
  unfolding apply_operator
  apply_operator-Alike equal_token h k = operated (equal r) (equal-Same r) h k
  apply_operator-Alike not_equal_token h k =
      operated (λ x y. not (equal r x y)) (λ m n. ap not (equal-Same r m n)) h k
  apply_operator-Alike less_token h k = compared less_token h k
  apply_operator-Alike less_equal_token h k = compared less_equal_token h k
  apply_operator-Alike greater_token h k = compared greater_token h k
  apply_operator-Alike greater_equal_token h k = compared greater_equal_token h k
  apply_operator-Alike _ h k = tt

  apply_operator-secret :
      (operator : TokenKind) (v w : Value)
      → sensitive v ≡ true
      → IsHidden (apply_operator r operator v w)
  unfolding apply_operator
  apply_operator-secret equal_token v w h = ground arith
  apply_operator-secret not_equal_token v w h = ground arith
  apply_operator-secret less_token v w h = ground arith
  apply_operator-secret less_equal_token v w h = ground arith
  apply_operator-secret greater_token v w h = ground arith
  apply_operator-secret greater_equal_token v w h = ground arith
  apply_operator-secret _ v w h = tt

  -- The right operand, marked with a secret left one.
  marked : (v w : Value) → sensitive v ≡ true → sensitive (mark (sensitive v) w) ≡ true
  marked v w h = rw sensitive-mark (ground arith)

  binary_value-secret :
      (operator : TokenKind) (v : Value) (right : Result EvalError Value)
      → sensitive v ≡ true
      → IsHidden (binary_value r operator v right)
  unfolding binary_value
  binary_value-secret and_token v right h = elim (Bool-cases (truthy r v)) [
    | inl holds ↦ rw (holds, IsHidden) (IsHidden-bind _ right λ w. marked v w h)
    | inr fails ↦ rw (fails, IsHidden) h
  ]
  binary_value-secret or_token v right h = elim (Bool-cases (truthy r v)) [
    | inl holds ↦ rw (holds, IsHidden) h
    | inr fails ↦ rw (fails, IsHidden) (IsHidden-bind _ right λ w. marked v w h)
  ]
  binary_value-secret operator v right h =
      IsHidden-bind _ right λ w. apply_operator-secret operator v w h

  pub binary_value-Alike :
      (operator : TokenKind) {v w : Value} (m n : Result EvalError Value)
      → Alike v w
      → Agree Alike m n
      → Agree Alike (binary_value r operator v m) (binary_value r operator w n)
  unfolding binary_value
  binary_value-Alike operator {v} {w} m n (inl (p, q)) k =
      Agree-IsHidden _ _ (binary_value-secret operator v m p) (binary_value-secret operator w n q)
  binary_value-Alike and_token {v} {w} m n (inr h) k =
      let more = Agree-bind Alike _ _ m n k λ a b c. Alike-mark (sensitive v) (sensitive w) a b c in
      rw (sym (truthy-Same r h)) (elim (Bool-cases (truthy r v)) [
        | inl holds ↦ rw (holds, Agree) more
        | inr fails ↦ rw (fails, Agree) (inr h)
      ])
  binary_value-Alike or_token {v} {w} m n (inr h) k =
      let more = Agree-bind Alike _ _ m n k λ a b c. Alike-mark (sensitive v) (sensitive w) a b c in
      rw (sym (truthy-Same r h)) (elim (Bool-cases (truthy r v)) [
        | inl holds ↦ rw (holds, Agree) (inr h)
        | inr fails ↦ rw (fails, Agree) more
      ])
  binary_value-Alike operator m n (inr h) k =
      Agree-bind Alike _ _ m n k λ a b c. apply_operator-Alike operator (inr h) c
