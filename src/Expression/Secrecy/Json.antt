-- ===== src/Expression/Secrecy/Json.antt =====
-- The functions on JSON keep secrets.
use open_actions.Base.{true, false, ◌≡◌, sym, inl, inr, ltb}
use open_actions.Base.Result.{fail_if}
use open_actions.Expression.Texts.{byte_length}
use open_actions.Expression.Value.{
  text, Value, ArrayItems, sensitive, Runtime, interface_value, contains_sensitive, string_value,
}
use open_actions.Expression.Node.{not_serializable, invalid_json, too_large, not_scalar}
use open_actions.Expression.Hash.{found_or, max_evaluation_bytes}
use open_actions.Expression.Calls.{
  argument_at, scalar_text, to_json, evaluate_to_json, from_json, evaluate_from_json,
}
use open_actions.Expression.Secrecy.{
  scalars, Alike, Agree, IsHidden, Agree-IsHidden, Agree-bind, Agree-step, IsHidden-bind,
  string_value-Same,
}
use open_actions.Expression.Secrecy.Normal.{
  Same-SameOutside, normalize-Same, normalize-secret, contains_sensitive-mark,
}
use open_actions.Expression.Secrecy.Calls.{AlikeItems, argument_at-AlikeItems}

module _ (r : Runtime) where
  to_json-IsHidden : (v : Value) → contains_sensitive v ≡ true → IsHidden (to_json r v)
  unfolding to_json
  to_json-IsHidden v h =
      IsHidden-bind _ (found_or not_serializable (r.encode_json (interface_value v))) λ encoded.
        IsHidden-bind _ (fail_if (ltb max_evaluation_bytes (byte_length encoded)) too_large)
          λ done. h

  to_json-Alike : {v w : Value} → Alike v w → Agree Alike (to_json r v) (to_json r w)
  unfolding to_json
  to_json-Alike {v} {w} (inl (p, q)) =
      Agree-IsHidden _ _ (to_json-IsHidden v (contains_sensitive-mark v p))
        (to_json-IsHidden w (contains_sensitive-mark w q))
  to_json-Alike {v} {w} (inr same) =
      elim (Same-SameOutside (λ (e : false ≡ true). absurd (cc)) same) [
        | inl (p, q) ↦ Agree-IsHidden _ _ (to_json-IsHidden v p) (to_json-IsHidden w q)
        | inr e ↦ rw (sym e) (
            Agree-step Alike _ _ (found_or not_serializable (r.encode_json (interface_value v)))
              λ encoded.
                Agree-step Alike _ _
                  (fail_if (ltb max_evaluation_bytes (byte_length encoded)) too_large)
                  λ done.
                    inr (scalars (text encoded) (contains_sensitive v) (contains_sensitive w)))
      ]

  pub evaluate_to_json-Alike :
      {vs ws : ArrayItems}
      → AlikeItems vs ws
      → Agree Alike (evaluate_to_json r vs) (evaluate_to_json r ws)
  unfolding evaluate_to_json
  evaluate_to_json-Alike {vs} {ws} h =
      Agree-bind Alike _ _ (argument_at vs 0) (argument_at ws 0) (argument_at-AlikeItems 0 h)
        λ v w a. to_json-Alike a

  from_json-IsHidden : (v : Value) → sensitive v ≡ true → IsHidden (from_json r v)
  unfolding from_json
  from_json-IsHidden v h = IsHidden-bind _ (scalar_text r v) λ source.
      IsHidden-bind _ (fail_if (ltb max_evaluation_bytes (byte_length source)) too_large) λ done.
        IsHidden-bind _ (found_or invalid_json (r.decode_json source))
          λ decoded. rw h (normalize-secret decoded)

  from_json-Alike : {v w : Value} → Alike v w → Agree Alike (from_json r v) (from_json r w)
  unfolding from_json scalar_text
  from_json-Alike {v} {w} (inl (p, q)) =
      Agree-IsHidden _ _ (from_json-IsHidden v p) (from_json-IsHidden w q)
  from_json-Alike {v} {w} (inr same) = rw (sym (string_value-Same r same)) (
      Agree-step Alike _ _ (found_or not_scalar (string_value r v)) λ source.
        Agree-step Alike _ _ (fail_if (ltb max_evaluation_bytes (byte_length source)) too_large)
          λ done.
            Agree-step Alike _ _ (found_or invalid_json (r.decode_json source))
              λ decoded. inr (normalize-Same decoded (sensitive v) (sensitive w)))

  pub evaluate_from_json-Alike :
      {vs ws : ArrayItems}
      → AlikeItems vs ws
      → Agree Alike (evaluate_from_json r vs) (evaluate_from_json r ws)
  unfolding evaluate_from_json
  evaluate_from_json-Alike {vs} {ws} h =
      Agree-bind Alike _ _ (argument_at vs 0) (argument_at ws 0) (argument_at-AlikeItems 0 h)
        λ v w a. from_json-Alike a
