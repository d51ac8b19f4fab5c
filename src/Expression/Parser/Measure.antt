-- ===== src/Expression/Parser/Measure.antt =====
-- What the steps of the parser leave to read.
use open_actions.Base.{
  ℕ, ◌+◌, ◌<◌, ◌≤◌, String, true, ◌≡◌, ◌≢◌, refl, ◌⊎◌, inl, inr, arith, Option, none, some, ◌==◌,
  eqb-eq, ltb, Bool-cases,
}
use open_actions.Base.Result.{Result, ok, err, ◌>>=◌}
use open_actions.Expression.Texts.{char_count}
use open_actions.Expression.Value.{Runtime}
use open_actions.Expression.Node.{
  TokenKind, end_token, identifier_token, number_token, string_token, left_paren_token,
  right_paren_token, right_bracket_token, wildcard_token, equal_token, not_equal_token, less_token,
  less_equal_token, greater_token, greater_equal_token, and_token, or_token, Node, wildcard_node,
  index_node, Arguments,
}
use open_actions.Expression.Lexer.{SyntaxError, out_of_fuel, next_token}
use open_actions.Expression.Parser.{
  Parser, max_nodes, max_nesting, add_node, enter, leave, kind_number, is_kind, Level, or_level,
  and_level, comparison_level, joins, advance, expect_paren, expect_bracket, parse_number,
  number_node, word_node, is_call, wildcard_property, named_property, property_after, parse_literal,
}
use open_actions.Expression.Parser.Progress.{Ends, Ends-bind, Ends-if, weight, next_token-Within}
use open_actions.Expression.Evaluate.{is_wildcard}
use open_actions.Expression.Sound.{is_operator, IsWellFormed, AreWellFormed}

-- What the parser has still to read: the rest of the input, and the current token.
abbrev pub measure : Parser → ℕ
measure p = char_count p.input + weight p.current.kind

-- An expression is well-formed, and its parser is below a bound.
abbrev pub Shrinks : ℕ → Node × Parser → Type 0
Shrinks bound x = IsWellFormed x.0 × (measure x.1 < bound)

abbrev pub AllShrink : ℕ → Arguments × Parser → Type 0
AllShrink bound x = AreWellFormed x.0 × (measure x.1 < bound)

abbrev pub Below : ℕ → Parser → Type 0
Below bound q = measure q < bound

kind_number-ne : (k : TokenKind) → weight k ≡ 1 → kind_number k ≢ 0
unfolding kind_number
kind_number-ne end_token h = absurd (cc)
kind_number-ne _ h = λ e. absurd (omega (arith, e))

weight-eq : (k : TokenKind) → kind_number k ≢ 0 → weight k ≡ 1
unfolding kind_number
weight-eq end_token h = absurd (h refl)
weight-eq _ h = refl

-- The parser stands at a token that is not the last one.
pub is_kind-weight :
    (k : TokenKind) (p : Parser) → weight k ≡ 1 → is_kind k p ≡ true → weight p.current.kind ≡ 1
unfolding is_kind
is_kind-weight k p h e =
    let same = eqb-eq (kind_number p.current.kind) (kind_number k) e in
    weight-eq p.current.kind (λ z. kind_number-ne k h (omega (arith, z, same)))

pub joins-operator :
    (level : Level) (k : TokenKind) → joins level k ≡ true → (is_operator k ≡ true) × (weight k ≡ 1)
unfolding joins
joins-operator or_level or_token h = (refl, refl)
joins-operator and_level and_token h = (refl, refl)
joins-operator comparison_level equal_token h = (refl, refl)
joins-operator comparison_level not_equal_token h = (refl, refl)
joins-operator comparison_level less_token h = (refl, refl)
joins-operator comparison_level less_equal_token h = (refl, refl)
joins-operator comparison_level greater_token h = (refl, refl)
joins-operator comparison_level greater_equal_token h = (refl, refl)
joins-operator _ _ h = absurd (cc)

pub add_node-Shrinks :
    (n : Node) (p : Parser) (bound : ℕ)
    → IsWellFormed n
    → measure p < bound
    → Ends (Shrinks bound) (add_node n p)
unfolding add_node
add_node-Shrinks n p bound w h =
    Ends-if (Shrinks bound) (ltb max_nodes (p.nodes + 1)) _ _ (λ e. tt) (λ e. (w, h))

pub enter-Below : (p : Parser) (bound : ℕ) → measure p < bound → Ends (Below bound) (enter p)
unfolding enter
enter-Below p bound h =
    Ends-if (Below bound) (ltb max_nesting (p.nesting + 1)) _ _ (λ e. tt) (λ e. h)

-- A node that may stand as an index.
abbrev pub IsIndex : ℕ → Node × Parser → Type 0
IsIndex bound x = ((is_wildcard x.0 ≡ true) ⊎ IsWellFormed x.0) × (measure x.1 < bound)

pub Ends-weaken {ℓ} :
    {A : Type ℓ} (P Q : A → Type 0) (m : Result SyntaxError A)
    → Ends P m
    → ((a : A) → P a → Q a)
    → Ends Q m
Ends-weaken P Q (ok a) h more = more a h
Ends-weaken P Q (err out_of_fuel) h more = h
Ends-weaken P Q (err _) h more = tt

pub left_below : (p : Parser) (bound : ℕ) → measure p < bound → measure (leave p) < bound
unfolding leave
left_below p bound h = h

module _ (r : Runtime) where
  pub call_paren :
      (name : String) (p : Parser) → is_call r name p ≡ true → is_kind left_paren_token p ≡ true
  unfolding is_call
  call_paren name p h = ground (arith, h)

  pub read-Below :
      (p : Parser) (bound : ℕ) → char_count p.input < bound → Ends (Below bound) (advance r p)
  unfolding advance
  read-Below p bound h =
      Ends-bind (λ x. weight x.0.kind + char_count x.1 ≤ char_count p.input) (Below bound) _
        (next_token r p.input) (next_token-Within r p.input) λ x k. omega (arith, h, k)

  -- A token that is not the last one pays for the step past it.
  pub advance-Below :
      (k : TokenKind) (p : Parser) (bound : ℕ)
      → weight k ≡ 1
      → is_kind k p ≡ true
      → measure p ≤ bound
      → Ends (Below bound) (advance r p)
  advance-Below k p bound w e h =
      let one = is_kind-weight k p w e in read-Below p bound (omega (arith, one, h))

  pub expect_paren-Below :
      (p : Parser) (bound : ℕ) → measure p ≤ bound → Ends (Below bound) (expect_paren r p)
  unfolding expect_paren
  expect_paren-Below p bound h =
      Ends-if (Below bound) (is_kind right_paren_token p) _ _
        (λ e. advance-Below right_paren_token p bound refl e h) (λ e. tt)

  pub expect_bracket-Below :
      (p : Parser) (bound : ℕ) → measure p ≤ bound → Ends (Below bound) (expect_bracket r p)
  unfolding expect_bracket
  expect_bracket-Below p bound h =
      Ends-if (Below bound) (is_kind right_bracket_token p) _ _
        (λ e. advance-Below right_bracket_token p bound refl e h) (λ e. tt)

  pub word_node-Shrinks :
      (name : String) (p : Parser) (bound : ℕ)
      → measure p < bound
      → Ends (Shrinks bound) (word_node r name p)
  unfolding word_node
  word_node-Shrinks name p bound h =
      Ends-if (Shrinks bound) (r.lower name == "true") _ _ (λ e. add_node-Shrinks _ p bound tt h)
        λ e.
          Ends-if (Shrinks bound) (r.lower name == "false") _ _
            (λ e. add_node-Shrinks _ p bound tt h)
            λ e.
              Ends-if (Shrinks bound) (r.lower name == "null") _ _
                (λ e. add_node-Shrinks _ p bound tt h) (λ e. add_node-Shrinks _ p bound tt h)

  number_node-Shrinks :
      (o : Option ℕ) (p : Parser) (bound : ℕ)
      → measure p < bound
      → Ends (Shrinks bound) (number_node r o p)
  unfolding number_node
  number_node-Shrinks none p bound h = tt
  number_node-Shrinks (some n) p bound h = add_node-Shrinks _ p bound tt h

  pub parse_literal-Shrinks : (p : Parser) → Ends (Shrinks (measure p)) (parse_literal r p)
  unfolding parse_literal
  parse_literal-Shrinks p =
      let m = measure p in
      Ends-if (Shrinks m) (is_kind number_token p) _ _
        (λ e.
          Ends-bind (Below m) (Shrinks m) _ (advance r p)
            (advance-Below number_token p m refl e (omega arith))
            λ q h. number_node-Shrinks (parse_number r p.current.text) q m h)
        (λ e.
          Ends-if (Shrinks m) (is_kind string_token p) _ _
            (λ d.
              Ends-bind (Below m) (Shrinks m) _ (advance r p)
                (advance-Below string_token p m refl d (omega arith))
                λ q h. add_node-Shrinks _ q m tt h)
            (λ d. tt))

  -- A wildcard is read as an index.
  pub read_wildcard :
      {B : Type 0} (P : B → Type 0) (f : Node → Parser → Result SyntaxError B) (p : Parser)
      (bound : ℕ)
      → is_kind wildcard_token p ≡ true
      → measure p ≤ bound
      → ((q : Parser) → measure q < bound → Ends P (f wildcard_node q))
      → Ends P (add_node wildcard_node p >>= λ x. advance r x.1 >>= λ q. f x.0 q)
  unfolding add_node
  read_wildcard P f p bound e h next =
      let one = is_kind-weight wildcard_token p refl e in
      elim (Bool-cases (ltb max_nodes (p.nodes + 1))) [
        | inl over ↦ rw (over, Ends) tt
        | inr fits ↦
            rw (fits, Ends)
              (Ends-bind (Below bound) P (λ q. f wildcard_node q)
                (advance r (record p { nodes = p.nodes + 1 }))
                (read-Below (record p { nodes = p.nodes + 1 }) bound (omega (arith, one, h)))
                λ q k. next q k)
      ]

  pub property_after-Shrinks :
      (target : Node) (p : Parser) (bound : ℕ)
      → IsWellFormed target
      → measure p ≤ bound
      → Ends (Shrinks bound) (property_after r target p)
  unfolding property_after wildcard_property named_property is_wildcard
  property_after-Shrinks target p bound w h =
      Ends-if (Shrinks bound) (is_kind wildcard_token p) _ _
        (λ e.
          read_wildcard (Shrinks bound) (λ n q. add_node (index_node target n) q) p bound e h
            λ q k. add_node-Shrinks _ q bound (w, inl refl) k)
        (λ e.
          Ends-if (Shrinks bound) (is_kind identifier_token p) _ _
            (λ d.
              Ends-bind (Below bound) (Shrinks bound) _ (advance r p)
                (advance-Below identifier_token p bound refl d h)
                λ q k. add_node-Shrinks _ q bound w k)
            (λ d. tt))
