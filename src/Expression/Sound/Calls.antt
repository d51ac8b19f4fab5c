-- ===== src/Expression/Sound/Calls.antt =====
-- The functions of expressions are safe at as many arguments as they are validated to have.
use Prim.Native.String.{[], ◌∷◌}
use open_actions.Base.{
  ℕ, zero, suc, ◌+◌, ◌-◌, ◌<◌, ◌≤◌, String, Bool, true, false, arith, ◌||◌, Option, none, some, ltb,
  leb, leb-lt, inl, inr, Bool-cases, if◌then◌else◌,
}
use open_actions.Base.Result.{ok, err, fail_if}
use open_actions.Base.Text.{◌⧺◌}
use open_actions.Expression.Texts.{byte_length, char_count, atoi}
use open_actions.Expression.Value.{
  Value, scalar, array, object, ArrayItems, empty, item, sensitive, Runtime, interface_value,
  string_value, join_string_value,
}
use open_actions.Expression.Access.{item_count, item_at}
use open_actions.Expression.Node.{EvalError, not_scalar, too_large, not_serializable, invalid_json}
use open_actions.Expression.Hash.{found_or, max_evaluation_bytes}
use open_actions.Expression.Calls.{
  argument_at, append_string, scalar_text, contains_value, evaluate_contains, evaluate_starts_with,
  evaluate_ends_with, join_items, join_separator, join_value, evaluate_join, to_json,
  evaluate_to_json, from_json, evaluate_from_json,
}
use open_actions.Expression.Format.{
  argument_after, placeholder, piece_of, write_template, format_with, evaluate_format,
}
use open_actions.Expression.Secrecy.Format.{Piece-cases}
use open_actions.Expression.Sound.{IsExpected, IsSafe, IsSafe-bind, IsSafe-if}

pub argument_at-IsSafe : (vs : ArrayItems) (n : ℕ) → n < item_count vs → IsSafe (argument_at vs n)
unfolding argument_at found_or item_at item_count
argument_at-IsSafe empty n h = absurd (omega (arith, h))
argument_at-IsSafe (item v vs) zero h = tt
argument_at-IsSafe (item v vs) (suc n) h = argument_at-IsSafe vs n (omega (arith, h))

pub found_or-IsSafe :
    {A : Type 0} (e : EvalError) (o : Option A) → IsExpected e → IsSafe (found_or e o)
unfolding found_or
found_or-IsSafe e none h = h
found_or-IsSafe e (some a) h = tt

pub fail_if-IsSafe : (b : Bool) (e : EvalError) → IsExpected e → IsSafe (fail_if b e)
fail_if-IsSafe true e h = h
fail_if-IsSafe false e h = tt

pub append_string-IsSafe : (result more : String) → IsSafe (append_string result more)
unfolding append_string
append_string-IsSafe result more =
    IsSafe-if (ltb (max_evaluation_bytes - byte_length result) (byte_length more)) (err too_large)
      (ok (result ⧺ more)) tt tt

module _ (r : Runtime) where
  pub scalar_text-IsSafe : (v : Value) → IsSafe (scalar_text r v)
  unfolding scalar_text
  scalar_text-IsSafe v = found_or-IsSafe not_scalar (string_value r v) tt

  contains_value-IsSafe : (v w : Value) → IsSafe (contains_value r v w)
  unfolding contains_value scalar_text found_or string_value
  contains_value-IsSafe (array i f xs s) w = tt
  contains_value-IsSafe (scalar x s) (scalar y t) = tt
  contains_value-IsSafe (scalar x s) (array i f xs t) = tt
  contains_value-IsSafe (scalar x s) (object i fs t) = tt
  contains_value-IsSafe (object i fs s) w = tt

  pub evaluate_contains-IsSafe :
      (vs : ArrayItems) → 2 ≤ item_count vs → IsSafe (evaluate_contains r vs)
  unfolding evaluate_contains
  evaluate_contains-IsSafe vs h =
      IsSafe-bind _ (argument_at vs 0) (argument_at-IsSafe vs 0 (omega (arith, h))) λ a e.
        IsSafe-bind _ (argument_at vs 1) (argument_at-IsSafe vs 1 (omega (arith, h)))
          λ b d. contains_value-IsSafe a b

  pub evaluate_starts_with-IsSafe :
      (vs : ArrayItems) → 2 ≤ item_count vs → IsSafe (evaluate_starts_with r vs)
  unfolding evaluate_starts_with
  evaluate_starts_with-IsSafe vs h =
      IsSafe-bind _ (argument_at vs 0) (argument_at-IsSafe vs 0 (omega (arith, h))) λ a e.
        IsSafe-bind _ (scalar_text r a) (scalar_text-IsSafe a) λ s f.
          IsSafe-bind _ (argument_at vs 1) (argument_at-IsSafe vs 1 (omega (arith, h)))
            λ b d. IsSafe-bind _ (scalar_text r b) (scalar_text-IsSafe b) λ t g. tt

  pub evaluate_ends_with-IsSafe :
      (vs : ArrayItems) → 2 ≤ item_count vs → IsSafe (evaluate_ends_with r vs)
  unfolding evaluate_ends_with
  evaluate_ends_with-IsSafe vs h =
      IsSafe-bind _ (argument_at vs 0) (argument_at-IsSafe vs 0 (omega (arith, h))) λ a e.
        IsSafe-bind _ (argument_at vs 1) (argument_at-IsSafe vs 1 (omega (arith, h))) λ b d. tt

  join_items-IsSafe :
      (separator : String) (after : Bool) (vs : ArrayItems) (result : String) (s : Bool)
      → IsSafe (join_items r separator after vs result s)
  unfolding join_items
  join_items-IsSafe separator after empty result s = tt
  join_items-IsSafe separator after (item v vs) result s =
      IsSafe-bind _ (if after then append_string result separator else ok result)
        (IsSafe-if after (append_string result separator) (ok result)
          (append_string-IsSafe result separator) tt)
        λ a e.
          IsSafe-bind _ (append_string a (join_string_value r v))
            (append_string-IsSafe a (join_string_value r v))
            λ b d. join_items-IsSafe separator true vs b (s || sensitive v)

  join_value-IsSafe : (v : Value) (vs : ArrayItems) → IsSafe (join_value r v vs)
  unfolding join_value string_value
  join_value-IsSafe (scalar x s) vs = tt
  join_value-IsSafe (object i fs s) vs = tt
  join_value-IsSafe (array i f xs s) vs =
      join_items-IsSafe (join_separator r xs vs).0 false xs "" (s || (join_separator r xs vs).1)

  pub evaluate_join-IsSafe : (vs : ArrayItems) → 1 ≤ item_count vs → IsSafe (evaluate_join r vs)
  unfolding evaluate_join
  evaluate_join-IsSafe vs h =
      IsSafe-bind _ (argument_at vs 0) (argument_at-IsSafe vs 0 (omega (arith, h)))
        λ a e. join_value-IsSafe a vs

  pub evaluate_to_json-IsSafe :
      (vs : ArrayItems) → 1 ≤ item_count vs → IsSafe (evaluate_to_json r vs)
  unfolding evaluate_to_json to_json
  evaluate_to_json-IsSafe vs h =
      IsSafe-bind _ (argument_at vs 0) (argument_at-IsSafe vs 0 (omega (arith, h))) λ a e.
        IsSafe-bind _ (found_or not_serializable (r.encode_json (interface_value a)))
          (found_or-IsSafe not_serializable (r.encode_json (interface_value a)) tt)
          λ t d.
            IsSafe-bind _ (fail_if (ltb max_evaluation_bytes (byte_length t)) too_large)
              (fail_if-IsSafe (ltb max_evaluation_bytes (byte_length t)) too_large tt) λ u g. tt

  pub evaluate_from_json-IsSafe :
      (vs : ArrayItems) → 1 ≤ item_count vs → IsSafe (evaluate_from_json r vs)
  unfolding evaluate_from_json from_json
  evaluate_from_json-IsSafe vs h =
      IsSafe-bind _ (argument_at vs 0) (argument_at-IsSafe vs 0 (omega (arith, h))) λ a e.
        IsSafe-bind _ (scalar_text r a) (scalar_text-IsSafe a) λ t d.
          IsSafe-bind _ (fail_if (ltb max_evaluation_bytes (byte_length t)) too_large)
            (fail_if-IsSafe (ltb max_evaluation_bytes (byte_length t)) too_large tt)
            λ u g.
              IsSafe-bind _ (found_or invalid_json (r.decode_json t))
                (found_or-IsSafe invalid_json (r.decode_json t) tt) λ x y. tt

  argument_after-IsSafe :
      (vs : ArrayItems) (position : Option ℕ) → IsSafe (argument_after vs position)
  unfolding argument_after
  argument_after-IsSafe vs none = tt
  argument_after-IsSafe vs (some n) = elim (Bool-cases (leb 9223372036854775808 (n + 1))) [
    | inl over ↦ rw (over, IsSafe) tt
    | inr fits ↦
        rw (fits, IsSafe)
          (elim (Bool-cases (leb (item_count vs) (n + 1))) [
            | inl beyond ↦ rw (beyond, IsSafe) tt
            | inr within ↦
                rw (within, IsSafe)
                  (argument_at-IsSafe vs (n + 1) (leb-lt (item_count vs) (n + 1) within))
          ])
  ]

  write_template-IsSafe :
      (vs : ArrayItems) (skip : ℕ) (template result : String) (s : Bool)
      → IsSafe (write_template r vs skip template result s)
  unfolding write_template placeholder
  write_template-IsSafe vs skip [] result s = tt
  write_template-IsSafe vs (suc skip) (c ∷ template) result s =
      write_template-IsSafe vs skip template result s
  write_template-IsSafe vs zero (c ∷ template) result s = elim (Piece-cases (piece_of c template)) [
    | inl e ↦ rw (e, IsSafe) tt
    | inr (inl (piece, skip, e)) ↦
        rw (e, IsSafe)
          (IsSafe-bind _ (append_string result piece) (append_string-IsSafe result piece)
            λ more d. write_template-IsSafe vs skip template more s)
    | inr (inr (inside, e)) ↦
        rw (e, IsSafe)
          (IsSafe-bind _ (placeholder vs inside) (argument_after-IsSafe vs (atoi inside))
            λ chosen a.
              IsSafe-bind _ (scalar_text r chosen) (scalar_text-IsSafe chosen) λ replacement b.
                IsSafe-bind _ (append_string result replacement)
                  (append_string-IsSafe result replacement)
                  λ more d.
                    write_template-IsSafe vs (suc (char_count inside)) template more
                      (s || sensitive chosen))
  ]

  pub evaluate_format-IsSafe : (vs : ArrayItems) → 1 ≤ item_count vs → IsSafe (evaluate_format r vs)
  unfolding evaluate_format format_with
  evaluate_format-IsSafe vs h =
      IsSafe-bind _ (argument_at vs 0) (argument_at-IsSafe vs 0 (omega (arith, h))) λ a e.
        IsSafe-bind _ (scalar_text r a) (scalar_text-IsSafe a)
          λ t d. write_template-IsSafe vs 0 t "" (sensitive a)
