-- ===== src/Expression/Tests.antt =====
-- Expressions at concrete inputs.
use open_actions.Base.{
  String, Bool, true, false, not, ◌≡◌, ◌↔◌, refl, none, some, [], ◌∷◌, ◌==◌, eqb, ltb,
}
use open_actions.Base.Dict.{lookup}
use open_actions.Base.Result.{ok, err}
use open_actions.Expression.Texts.{atoi}
use open_actions.Expression.Value.{
  null, boolean, number, text, plain, list, dict, nil, cons, end, field, scalar, empty, item,
  Runtime,
}
use open_actions.Expression.Node.{
  equal_token, literal, context_node, wildcard_node, property_node, index_node, binary_node,
  Availability, placeholder_overflow,
}
use open_actions.Expression.Calls.{workspace_of}
use open_actions.Expression.Format.{placeholder, evaluate_format, piece_of}
use open_actions.Expression.Evaluate.{Context}
use open_actions.Expression.Program.{
  expression, Program, Outcome, evaluate, new_roots, validate_segments,
}
use open_actions.Expression.Secrecy.Normal.{hidden_scalars, dicts, both_raw_fields, no_raw_fields}
use open_actions.Expression.Secrecy.Program.{
  OutcomesAlike, SameInputs, no_inputs, both_inputs, input_workspace, evaluate-OutcomesAlike,
}
use open_actions.Expression.Sound.{IsSafe}
use open_actions.Expression.Sound.Program.{IsParsed, placeholder-panics}
use open_actions.Expression.Parser.Progress.{Ends}
use open_actions.Expression.Template.{parse, find_opening}
use open_actions.Expression.Template.Total.{parse-IsParsed, evaluate-parse-IsSafe}

abbrev plain_runtime : Runtime
plain_runtime = record {
  is_nan = λ n. eqb n 9;
  same_number = eqb;
  less_number = ltb;
  is_integer = λ n. not (eqb n 9);
  position = some;
  zero_number = 0;
  one_number = 1;
  nan = 9;
  format_number = λ n. "n";
  is_json_number = λ t. false;
  parse_float = λ t. none;
  parse_hexadecimal = λ t. none;
  negate = λ n. n;
  lower = λ t. t;
  equal_fold = λ a b. a == b;
  trim_space = λ t. t;
  encode_json = λ x. none;
  decode_json = λ t. none;
  clean = λ t. t;
  is_glob = λ t. true;
  hash_workspace = λ t ps. none;
}

abbrev secrets_only : Availability
secrets_only = record { contexts = "secrets" ∷ []; status_functions = false; hash_files = false }

abbrev context_with : String → Context
context_with token = record {
  availability = secrets_only;
  values = ("secrets", dict (some 1) (field "TOKEN" (plain (text token)) end)) ∷ [];
  status = none;
}

-- `${{ secrets.TOKEN == 'a' }}`.
abbrev compare_token : Program
compare_token = record {
  segments =
      expression (
        binary_node equal_token (property_node (context_node "secrets") "TOKEN")
          (literal (scalar (text "a") false)))
      ∷ [];
  whole = true;
}

abbrev secret_boolean : Bool → Outcome
secret_boolean b = record { value = plain (boolean b); secret = true }

compare_equal : evaluate plain_runtime compare_token (context_with "a") ≡ ok (secret_boolean true)
unfolding evaluate
compare_equal = refl

compare_other : evaluate plain_runtime compare_token (context_with "b") ≡ ok (secret_boolean false)
unfolding evaluate
compare_other = refl

tokens_differ : SameInputs plain_runtime (context_with "a").values (context_with "b").values
tokens_differ =
    both_inputs "secrets"
      (dicts (some 1)
        (both_raw_fields "TOKEN" (hidden_scalars (text "a") (text "b")) no_raw_fields))
      no_inputs

no_workspace :
    input_workspace plain_runtime (context_with "a").values
    ≡ input_workspace plain_runtime (context_with "b").values
unfolding workspace_of new_roots lookup
no_workspace = refl

evaluate-OutcomesAlike_example : OutcomesAlike (secret_boolean true) (secret_boolean false)
evaluate-OutcomesAlike_example =
    evaluate-OutcomesAlike plain_runtime compare_token (context_with "a") (context_with "b") refl
      refl tokens_differ no_workspace compare_equal compare_other

compare_valid : validate_segments plain_runtime secrets_only compare_token.segments ≡ ok tt
unfolding validate_segments
compare_valid = refl

compare_parsed : parse plain_runtime "${{secrets.TOKEN=='a'}}" ≡ ok compare_token
unfolding parse find_opening
compare_parsed = refl

parse-IsParsed_example : Ends IsParsed (parse plain_runtime "${{secrets.TOKEN=='a'}}")
parse-IsParsed_example = parse-IsParsed plain_runtime "${{secrets.TOKEN=='a'}}"

evaluate-parse-IsSafe_example : IsSafe (evaluate plain_runtime compare_token (context_with "a"))
evaluate-parse-IsSafe_example =
    evaluate-parse-IsSafe plain_runtime "${{secrets.TOKEN=='a'}}" (context_with "a") compare_parsed
      compare_valid

greatest : atoi "9223372036854775807" ≡ some 9223372036854775807
unfolding atoi
greatest = refl

placeholder-panics_example :
    (placeholder empty "9223372036854775807" ≡ err placeholder_overflow)
    ↔ (atoi "9223372036854775807" ≡ some 9223372036854775807)
placeholder-panics_example = placeholder-panics empty "9223372036854775807"

-- `format('{0}{{', 'x')`.
format_test :
    evaluate_format plain_runtime
      (item (scalar (text "{0}{{") false) (item (scalar (text "x") true) empty))
    ≡ ok (scalar (text "x{") true)
unfolding evaluate_format piece_of
format_test = refl

-- `*` over an object, by the names in order.
wildcard_test :
    evaluate plain_runtime
      (record {
        segments = expression (index_node (context_node "secrets") wildcard_node) ∷ [];
        whole = true;
      })
      (record {
        availability = secrets_only;
        values =
            ("secrets", dict (some 1) (field "b" (plain null) (field "a" (plain (number 2)) end)))
            ∷ [];
        status = none;
      })
    ≡ ok (record {
      value = list none (cons (plain (number 2)) (cons (plain null) nil));
      secret = true;
    })
unfolding evaluate
wildcard_test = refl
