-- ===== src/Expression/Lexer.antt =====
-- The tokens of an expression: the lexer of internal/expression/parser.go. A token keeps no position,
-- which only the texts of errors name. The lexer looks at bytes; a character past ASCII begins with
-- a byte that no token begins with.
use Prim.Native.Char.{Char, code}
use Prim.Native.String.{[], ◌∷◌}
use open_actions.Base.{
  ℕ, String, Bool, false, ◌&&◌, ◌||◌, Option, none, some, ◌==◌, eqb, leb, is_none, if◌then◌else◌,
}
use open_actions.Base.Result.{Result, ok, err}
use open_actions.Base.Text.{◌⧺◌}
use open_actions.Expression.Texts.{ascii_digit}
use open_actions.Expression.Value.{Runtime}
use open_actions.Expression.Node.{
  TokenKind, end_token, identifier_token, number_token, string_token, left_paren_token,
  right_paren_token, left_bracket_token, right_bracket_token, dot_token, comma_token,
  wildcard_token, not_token, equal_token, not_equal_token, less_token, less_equal_token,
  greater_token, greater_equal_token, and_token, or_token,
}

-- The errors of the lexer and the parser. The last one is for want of fuel.
pub data SyntaxError : Type 0 where
  unsupported_character unterminated_string invalid_number unexpected_token : SyntaxError
  expected_property expected_bracket expected_paren expected_expression : SyntaxError
  too_many_nodes too_deep empty_expression nested_expression not_closed not_whole : SyntaxError
  out_of_fuel : SyntaxError

-- token.
pub record Token : Type 0 where
  pub kind : TokenKind
  pub text : String

-- A token, and what is left of the input.
abbrev pub Lexed : Type 0
Lexed = Result SyntaxError (Token × String)

abbrev between : ℕ → ℕ → Char → Bool
between low high c = leb low (code c) && leb (code c) high

-- identifierStart.
unfoldable pub identifier_start : Char → Bool
identifier_start c = eqb (code c) 95 || between 65 90 c || between 97 122 c

-- identifierPart.
unfoldable pub identifier_part : Char → Bool
unfolding identifier_start ascii_digit
identifier_part c = identifier_start c || ascii_digit c || eqb (code c) 45

-- asciiHex.
unfoldable pub ascii_hex : Char → Bool
unfolding ascii_digit
ascii_hex c = ascii_digit c || between 97 102 c || between 65 70 c

-- unicode.IsSpace at the bytes of ASCII.
unfoldable pub is_space : Char → Bool
is_space c = between 9 13 c || eqb (code c) 32

unfoldable pub skip_spaces : String → String
unfolding is_space
skip_spaces [] = []
skip_spaces (c ∷ s) = let rest = skip_spaces s in if is_space c then rest else c ∷ s

-- The loops `for l.pos < len(l.input) && p(l.input[l.pos])`: what they pass over, and the rest.
unfoldable pub span : (Char → Bool) → String → String × String
span p [] = ([], [])
span p (c ∷ s) = let (passed, rest) = span p s in if p c then (c ∷ passed, rest) else ([], c ∷ s)

-- stringToken, after its opening quote. A quote that is doubled stands for itself.
unfoldable pub string_rest : String → Option (String × String)
string_rest [] = none
string_rest (c ∷ []) = if eqb (code c) 39 then some ([], []) else none
string_rest (c ∷ d ∷ s) =
    let doubled = string_rest s in
    let next = string_rest (d ∷ s) in
    if eqb (code c) 39
    then (if eqb (code d) 39
        then elim doubled [ none ↦ none | some (content, rest) ↦ some (c ∷ content, rest) ]
        else some ([], d ∷ s))
    else elim next [ none ↦ none | some (content, rest) ↦ some (c ∷ content, rest) ]

unfoldable pub string_of : Option (String × String) → Lexed
string_of none = err unterminated_string
string_of (some (content, rest)) = ok (record { kind = string_token; text = content }, rest)

-- The optional first character of a text, if it has a property.
unfoldable pub optional : (Char → Bool) → String → String × String
optional p [] = ([], [])
optional p (c ∷ s) = if p c then (c ∷ [], s) else ([], c ∷ s)

-- The digits after the point of a number, with the point.
unfoldable pub fraction : String → String × String
unfolding span ascii_digit
fraction [] = ([], [])
fraction (c ∷ s) =
    let (digits, rest) = span ascii_digit s in
    if eqb (code c) 46 then (c ∷ digits, rest) else ([], c ∷ s)

-- The exponent of a number; `none` if it has no digits.
unfoldable pub exponent : String → Option (String × String)
unfolding span ascii_digit optional
exponent [] = some ([], [])
exponent (c ∷ s) =
    let (sign, unsigned) = optional (λ d. eqb (code d) 43 || eqb (code d) 45) s in
    let (digits, rest) = span ascii_digit unsigned in
    if eqb (code c) 101 || eqb (code c) 69
    then (if digits == "" then none else some (c ∷ (sign ⧺ digits), rest))
    else some ([], c ∷ s)

-- `0x` or `0X`, and what stands after it.
unfoldable pub hexadecimal_prefix : String → Option (String × String)
hexadecimal_prefix (c ∷ d ∷ s) =
    if eqb (code c) 48 && (eqb (code d) 120 || eqb (code d) 88) then some (c ∷ d ∷ [], s) else none
hexadecimal_prefix _ = none

module _ (r : Runtime) where
  unfoldable pub number_of : String → String × String → Option (String × String) → Lexed
  number_of read point none = err invalid_number
  number_of read (decimals, after) (some (power, rest)) =
      let number = read ⧺ (decimals ⧺ power) in
      if is_none (r.parse_float number)
      then err invalid_number
      else ok (record { kind = number_token; text = number }, rest)

  -- numberToken, after its sign.
  unfoldable pub number_rest : String → String → Option (String × String) → Lexed
  unfolding span ascii_hex ascii_digit fraction exponent number_of
  number_rest sign unsigned (some (prefix, s)) =
      let (digits, rest) = span ascii_hex s in
      if digits == ""
      then err invalid_number
      else ok (record { kind = number_token; text = sign ⧺ (prefix ⧺ digits) }, rest)
  number_rest sign unsigned none =
      let (digits, rest) = span ascii_digit unsigned in
      let point = fraction rest in number_of (sign ⧺ digits) point (exponent point.1)

  -- numberToken.
  unfoldable pub number_token_of : String → Lexed
  unfolding optional hexadecimal_prefix number_rest
  number_token_of s =
      let (sign, unsigned) = optional (λ c. eqb (code c) 45) s in
      number_rest sign unsigned (hexadecimal_prefix unsigned)

-- A token of one character.
unfoldable pub sign_kind : ℕ → Option TokenKind
sign_kind n =
    if eqb n 40
    then some left_paren_token
    else (if eqb n 41
        then some right_paren_token
        else (if eqb n 91
            then some left_bracket_token
            else (if eqb n 93
                then some right_bracket_token
                else (if eqb n 46
                    then some dot_token
                    else (if eqb n 44
                        then some comma_token
                        else (if eqb n 42 then some wildcard_token else none))))))

-- `consume`: whether a text begins with a character.
unfoldable pub consumes : ℕ → String → Bool
consumes expected [] = false
consumes expected (c ∷ s) = eqb (code c) expected

unfoldable pub after_first : String → String
after_first [] = []
after_first (c ∷ s) = s

-- An operator by its first character: its second one, the kind with it, and the kind without it.
unfoldable pub operator_kind : ℕ → Option (ℕ × TokenKind × Option TokenKind)
operator_kind n =
    if eqb n 33
    then some (61, not_equal_token, some not_token)
    else (if eqb n 61
        then some (61, equal_token, none)
        else (if eqb n 60
            then some (61, less_equal_token, some less_token)
            else (if eqb n 62
                then some (61, greater_equal_token, some greater_token)
                else (if eqb n 38
                    then some (38, and_token, none)
                    else (if eqb n 124 then some (124, or_token, none) else none)))))

unfoldable pub short_operator : Char → String → Option TokenKind → Lexed
short_operator c s none = err unsupported_character
short_operator c s (some kind) = ok (record { kind = kind; text = c ∷ [] }, s)

unfoldable pub operator_token : Char → String → ℕ × TokenKind × Option TokenKind → Lexed
unfolding consumes after_first short_operator
operator_token c s (second, long, short) =
    if consumes second s
    then ok (record { kind = long; text = c ∷ c ∷ [] }, after_first s)
    else short_operator c s short

unfoldable pub consumes_digit : String → Bool
unfolding ascii_digit
consumes_digit [] = false
consumes_digit (c ∷ s) = ascii_digit c

module _ (r : Runtime) where
  -- The lines of `next` after its `switch`.
  unfoldable pub word_token : Char → String → Lexed
  unfolding identifier_start identifier_part span number_token_of consumes_digit ascii_digit
  word_token c s =
      let (word, rest) = span identifier_part s in
      let digit_follows = consumes_digit s in
      if identifier_start c
      then ok (record { kind = identifier_token; text = c ∷ word }, rest)
      else (if ascii_digit c || (eqb (code c) 45 && digit_follows)
          then number_token_of r (c ∷ s)
          else err unsupported_character)

  -- `next`, at the character `c` that the text `s` follows.
  unfoldable pub token_at : Char → String → Lexed
  unfolding sign_kind string_rest string_of operator_kind operator_token word_token
  token_at c s =
      let other =
        if eqb (code c) 39 then string_of (string_rest s) else elim (operator_kind (code c)) [
          | some operator ↦ operator_token c s operator
          | none ↦ word_token c s
        ] in
      elim (sign_kind (code c)) [
        | some kind ↦ ok (record { kind = kind; text = c ∷ [] }, s)
        | none ↦ other
      ]

  -- The text after the spaces.
  unfoldable pub token_after : String → Lexed
  unfolding token_at
  token_after [] = ok (record { kind = end_token; text = "" }, [])
  token_after (c ∷ s) = token_at c s

  -- next.
  unfoldable pub next_token : String → Lexed
  unfolding skip_spaces token_after
  next_token s = token_after (skip_spaces s)
