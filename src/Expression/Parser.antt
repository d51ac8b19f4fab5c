-- ===== src/Expression/Parser.antt =====
-- The parser of expressions, by recursive descent: internal/expression/parser.go. It runs on fuel.
pub mod Progress
pub mod Measure
pub mod Total
use open_actions.Base.{
  ℕ, zero, suc, ◌+◌, ◌-◌, String, Bool, true, false, ◌*◌, not, ◌&&◌, ◌||◌, Option, none, some, ◌==◌,
  eqb, ltb, starts_with, if◌then◌else◌,
}
use open_actions.Base.Result.{Result, ok, err, ◌>>=◌}
use open_actions.Expression.Texts.{drop_first, char_count}
use open_actions.Expression.Value.{Scalar, null, boolean, number, text, scalar, Runtime}
use open_actions.Expression.Node.{
  TokenKind, end_token, identifier_token, number_token, string_token, left_paren_token,
  right_paren_token, left_bracket_token, right_bracket_token, dot_token, comma_token,
  wildcard_token, not_token, equal_token, not_equal_token, less_token, less_equal_token,
  greater_token, greater_equal_token, and_token, or_token, Node, literal, context_node,
  wildcard_node, property_node, index_node, unary_node, binary_node, call_node, Arguments,
  no_arguments, argument,
}
use open_actions.Expression.Lexer.{
  SyntaxError, unexpected_token, expected_property, expected_bracket, expected_paren,
  expected_expression, too_many_nodes, too_deep, invalid_number, out_of_fuel, Token, next_token,
}

-- parser: what is left of the input, the current token, and the counts of nodes and nestings.
pub record Parser : Type 0 where
  pub input : String
  pub current : Token
  pub nodes : ℕ
  pub nesting : ℕ

abbrev pub Parsed : Type 0
Parsed = Result SyntaxError (Node × Parser)

-- maxExpressionNodes and maxExpressionNesting.
abbrev pub max_nodes : ℕ
max_nodes = 256

abbrev pub max_nesting : ℕ
max_nesting = 64

-- addNode.
unfoldable pub add_node : Node → Parser → Parsed
add_node n p =
    if ltb max_nodes (p.nodes + 1)
    then err too_many_nodes
    else ok (n, record p { nodes = p.nodes + 1 })

-- The beginning and the end of parseNested.
unfoldable pub enter : Parser → Result SyntaxError Parser
enter p =
    if ltb max_nesting (p.nesting + 1)
    then err too_deep
    else ok (record p { nesting = p.nesting + 1 })

unfoldable pub leave : Parser → Parser
leave p = record p { nesting = p.nesting - 1 }

-- The number of a kind, as iota gives it.
unfoldable pub kind_number : TokenKind → ℕ
kind_number end_token = 0
kind_number identifier_token = 1
kind_number number_token = 2
kind_number string_token = 3
kind_number left_paren_token = 4
kind_number right_paren_token = 5
kind_number left_bracket_token = 6
kind_number right_bracket_token = 7
kind_number dot_token = 8
kind_number comma_token = 9
kind_number wildcard_token = 10
kind_number not_token = 11
kind_number equal_token = 12
kind_number not_equal_token = 13
kind_number less_token = 14
kind_number less_equal_token = 15
kind_number greater_token = 16
kind_number greater_equal_token = 17
kind_number and_token = 18
kind_number or_token = 19

-- `p.current.kind == kind`.
unfoldable pub is_kind : TokenKind → Parser → Bool
unfolding kind_number
is_kind kind p = eqb (kind_number p.current.kind) (kind_number kind)

-- The levels of binary operators: parseOr, parseAnd and parseComparison.
pub data Level : Type 0 where
  or_level and_level comparison_level : Level

-- The operators of a level.
unfoldable pub joins : Level → TokenKind → Bool
joins or_level or_token = true
joins and_level and_token = true
joins comparison_level equal_token = true
joins comparison_level not_equal_token = true
joins comparison_level less_token = true
joins comparison_level less_equal_token = true
joins comparison_level greater_token = true
joins comparison_level greater_equal_token = true
joins _ _ = false

module _ (r : Runtime) where
  -- advance.
  unfoldable pub advance : Parser → Result SyntaxError Parser
  unfolding next_token
  advance p = do
    (token, rest) ← next_token r p.input
    ok (record p { input = rest; current = token })

  -- A token that has to come next.
  unfoldable pub expect_paren : Parser → Result SyntaxError Parser
  unfolding advance is_kind
  expect_paren p = if is_kind right_paren_token p then advance p else err expected_paren

  unfoldable pub expect_bracket : Parser → Result SyntaxError Parser
  unfolding advance is_kind
  expect_bracket p = if is_kind right_bracket_token p then advance p else err expected_bracket

  -- parseNumber.
  unfoldable pub parse_unsigned : Bool → String → String → Option ℕ
  unfolding drop_first
  parse_unsigned negative unsigned all =
      if starts_with unsigned "0x" || starts_with unsigned "0X"
      then elim (r.parse_hexadecimal (drop_first (drop_first unsigned))) [
        | none ↦ none
        | some n ↦ some (if negative then r.negate n else n)
      ]
      else (if r.is_json_number all then r.parse_float all else none)

  unfoldable pub parse_number : String → Option ℕ
  unfolding parse_unsigned drop_first
  parse_number all =
      let negative = starts_with all "-" in
      parse_unsigned negative (if negative then drop_first all else all) all

  unfoldable pub number_node : Option ℕ → Parser → Parsed
  unfolding add_node
  number_node none p = err invalid_number
  number_node (some n) p = add_node (literal (scalar (number n) false)) p

  -- An identifier that is no call: a literal, or a context.
  unfoldable pub word_node : String → Parser → Parsed
  unfolding add_node
  word_node name p =
      let lowered = r.lower name in
      if lowered == "true"
      then add_node (literal (scalar (boolean true) false)) p
      else (if lowered == "false"
          then add_node (literal (scalar (boolean false) false)) p
          else (if lowered == "null"
              then add_node (literal (scalar null false)) p
              else add_node (context_node name) p))

  -- Whether an identifier before a parenthesis is a function.
  unfoldable pub is_call : String → Parser → Bool
  unfolding is_kind
  is_call name p =
      let lowered = r.lower name in
      is_kind left_paren_token p
      && not (lowered == "true" || lowered == "false" || lowered == "null")

  -- A wildcard, after a dot.
  unfoldable pub wildcard_property : Node → Parser → Parsed
  unfolding advance add_node
  wildcard_property target p = add_node wildcard_node p >>= λ wildcard.
      advance wildcard.1 >>= λ q. add_node (index_node target wildcard.0) q

  -- A named property, after a dot.
  unfoldable pub named_property : Node → Parser → Parsed
  unfolding advance add_node is_kind
  named_property target p =
      if is_kind identifier_token p
      then (advance p >>= λ q. add_node (property_node target p.current.text) q)
      else err expected_property

  unfoldable pub property_after : Node → Parser → Parsed
  unfolding wildcard_property named_property is_kind
  property_after target p =
      if is_kind wildcard_token p then wildcard_property target p else named_property target p

  -- The literals of parsePrimary that a token stands for.
  unfoldable pub parse_literal : Parser → Parsed
  unfolding advance add_node is_kind number_node parse_number
  parse_literal p =
      if is_kind number_token p
      then (advance p >>= λ q. number_node (parse_number p.current.text) q)
      else (if is_kind string_token p
          then (advance p >>= λ q. add_node (literal (scalar (text p.current.text) false)) q)
          else err expected_expression)

  unfoldable mutual
    unfolding joins advance add_node enter leave expect_paren expect_bracket parse_literal word_node
        is_call property_after is_kind

    -- parseOr, parseAnd and parseComparison.
    pub parse_level : ℕ → Level → Parser → Parsed
    parse_level zero level p = err out_of_fuel
    parse_level (suc fuel) level p =
        parse_operand fuel level p >>= λ left. parse_operators fuel level left.0 left.1

    -- The operands of a level.
    pub parse_operand : ℕ → Level → Parser → Parsed
    parse_operand zero level p = err out_of_fuel
    parse_operand (suc fuel) or_level p = parse_level fuel and_level p
    parse_operand (suc fuel) and_level p = parse_level fuel comparison_level p
    parse_operand (suc fuel) comparison_level p = parse_unary fuel p

    -- The loop of parseBinary, and that of parseComparison.
    pub parse_operators : ℕ → Level → Node → Parser → Parsed
    parse_operators zero level left p = err out_of_fuel
    parse_operators (suc fuel) level left p = elim (joins level p.current.kind) [
      | false ↦ ok (left, p)
      | true ↦ advance p >>= λ q. parse_operand fuel level q >>= λ right.
          add_node (binary_node p.current.kind left right.0) right.1 >>= λ joined.
          parse_operators fuel level joined.0 joined.1
    ]

    -- parseUnary.
    pub parse_unary : ℕ → Parser → Parsed
    parse_unary zero p = err out_of_fuel
    parse_unary (suc fuel) p = elim (is_kind not_token p) [
      | true ↦ advance p >>= λ q. enter q >>= λ t.
          parse_unary fuel t >>= λ operand. add_node (unary_node operand.0) (leave operand.1)
      | false ↦ parse_primary fuel p >>= λ result. parse_postfix fuel result.0 result.1
    ]

    -- The loop of parsePostfix.
    pub parse_postfix : ℕ → Node → Parser → Parsed
    parse_postfix zero result p = err out_of_fuel
    parse_postfix (suc fuel) result p = elim (is_kind dot_token p) [
      | true ↦
          advance p >>= λ q. property_after result q >>= λ next. parse_postfix fuel next.0 next.1
      | false ↦ elim (is_kind left_bracket_token p) [
        | true ↦ advance p >>= λ q. parse_index fuel q >>= λ index. expect_bracket index.1 >>= λ t.
            add_node (index_node result index.0) t >>= λ next. parse_postfix fuel next.0 next.1
        | false ↦ ok (result, p)
      ]
    ]

    -- The index of parsePostfix, after its bracket.
    pub parse_index : ℕ → Parser → Parsed
    parse_index zero p = err out_of_fuel
    parse_index (suc fuel) p = elim (is_kind wildcard_token p) [
      | true ↦ add_node wildcard_node p >>= λ index. advance index.1 >>= λ q. ok (index.0, q)
      | false ↦ parse_nested fuel p
    ]

    -- parseNested at parseOr.
    pub parse_nested : ℕ → Parser → Parsed
    parse_nested zero p = err out_of_fuel
    parse_nested (suc fuel) p =
        enter p >>= λ q. parse_level fuel or_level q >>= λ inner. ok (inner.0, leave inner.1)

    -- parsePrimary.
    pub parse_primary : ℕ → Parser → Parsed
    parse_primary zero p = err out_of_fuel
    parse_primary (suc fuel) p = elim (is_kind identifier_token p) [
      | true ↦ advance p >>= λ q. elim (is_call p.current.text q) [
        | true ↦ advance q >>= λ t. parse_arguments fuel t >>= λ arguments.
            expect_paren arguments.1 >>= λ u. add_node (call_node p.current.text arguments.0) u
        | false ↦ word_node p.current.text q
      ]
      | false ↦ elim (is_kind left_paren_token p) [
        | true ↦ advance p >>= λ q.
            parse_nested fuel q >>= λ inner. expect_paren inner.1 >>= λ t. ok (inner.0, t)
        | false ↦ parse_literal p
      ]
    ]

    -- The arguments of parseCall, after its parenthesis.
    pub parse_arguments : ℕ → Parser → Result SyntaxError (Arguments × Parser)
    parse_arguments zero p = err out_of_fuel
    parse_arguments (suc fuel) p = elim (is_kind right_paren_token p) [
      | true ↦ ok (no_arguments, p)
      | false ↦ more_arguments fuel p
    ]

    -- The loop of parseCall.
    pub more_arguments : ℕ → Parser → Result SyntaxError (Arguments × Parser)
    more_arguments zero p = err out_of_fuel
    more_arguments (suc fuel) p = parse_nested fuel p >>= λ first.
        elim (is_kind comma_token first.1) [
          | false ↦ ok (argument first.0 no_arguments, first.1)
          | true ↦ advance first.1 >>= λ q.
              more_arguments fuel q >>= λ rest. ok (argument first.0 rest.0, rest.1)
        ]

  -- What parseExpression starts from.
  unfoldable pub start : String → Parser
  start input = record {
    input = input;
    current = record { kind = end_token; text = "" };
    nodes = 0;
    nesting = 0;
  }

  -- parseExpression, on fuel.
  unfoldable pub parse_with : ℕ → String → Result SyntaxError Node
  unfolding advance parse_level is_kind start
  parse_with fuel input = advance (start input) >>= λ p. parse_level fuel or_level p >>= λ result.
      if is_kind end_token result.1 then ok result.0 else err unexpected_token

  -- parseExpression.
  unfoldable pub parse_expression : String → Result SyntaxError Node
  unfolding parse_with char_count
  parse_expression input = parse_with (12 * char_count input + 12) input
