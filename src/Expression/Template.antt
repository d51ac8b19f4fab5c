-- ===== src/Expression/Template.antt =====
-- Templates and conditions: Parse, ParseCondition and expressionEnd of
-- internal/expression/expression.go.
pub mod Total
use Prim.Native.Char.{Char, code}
use Prim.Native.String.{[], ◌∷◌}
use open_actions.Base.{
  ℕ, zero, suc, String, Bool, true, false, not, ◌&&◌, List, ◌==◌, eqb, starts_with, if◌then◌else◌,
}
use open_actions.Base.Result.{Result, ok, err, ◌>>=◌}
use open_actions.Expression.Texts.{drop_first, char_count}
use open_actions.Expression.Value.{Runtime}
use open_actions.Expression.Lexer.{
  SyntaxError, empty_expression, nested_expression, not_closed, not_whole, out_of_fuel,
}
use open_actions.Expression.Parser.{parse_expression}
use open_actions.Expression.Program.{Segment, copied, expression, Program}

-- Where an expression begins: the text before `${{`, and the text after it. `none` is a text without
-- an expression.
pub data Opening : Type 0 where
  closed : Opening
  opened : String → String → Opening

unfoldable pub after_char : Char → Opening → Opening
after_char c closed = closed
after_char c (opened before after) = opened (c ∷ before) after

unfoldable pub find_opening : String → Opening
unfolding after_char drop_first
find_opening [] = closed
find_opening (c ∷ s) =
    let rest = find_opening s in
    if starts_with (c ∷ s) "${{" then opened [] (drop_first (drop_first s)) else after_char c rest

-- What expressionEnd finds: the source of the expression, and the text after its end.
abbrev pub Ended : Type 0
Ended = Result SyntaxError (String × String)

unfoldable pub put_before : Char → Ended → Ended
put_before c (ok (source, rest)) = ok (c ∷ source, rest)
put_before c (err e) = err e

-- expressionEnd. The Boolean says whether the text stands in quotes.
unfoldable pub expression_end : Bool → String → Ended
unfolding put_before drop_first
expression_end quoted [] = err not_closed
expression_end quoted (c ∷ []) = err not_closed
expression_end quoted (c ∷ d ∷ s) =
    let skipped = expression_end quoted s in
    let next = expression_end quoted (d ∷ s) in
    let toggled = expression_end (not quoted) (d ∷ s) in
    if eqb (code c) 39
    then (if quoted && eqb (code d) 39
        then put_before c (put_before d skipped)
        else put_before c toggled)
    else (if quoted
        then put_before c next
        else (if starts_with (c ∷ d ∷ s) "${{"
            then err nested_expression
            else (if starts_with (c ∷ d ∷ s) "}}" then ok ([], s) else put_before c next)))

-- A text before an expression, if there is one.
unfoldable pub text_before : String → List Segment → List Segment
text_before before rest = if before == "" then rest else List.◌∷◌ (copied before) rest

unfoldable pub is_whole : List Segment → Bool
is_whole (List.◌∷◌ (expression n) List.[]) = true
is_whole _ = false

-- The segments of an empty template.
unfoldable pub program_of : String → List Segment → Program
unfolding is_whole
program_of input segments =
    if input == ""
    then record { segments = List.◌∷◌ (copied "") List.[]; whole = false }
    else record { segments = segments; whole = is_whole segments }

module _ (r : Runtime) where
  -- The loop of Parse, on fuel: each round takes the delimiters of an expression from the input.
  unfoldable pub parse_segments : ℕ → String → Result SyntaxError (List Segment)
  unfolding expression_end parse_expression text_before
  parse_segments zero input = err out_of_fuel
  parse_segments (suc fuel) input = if input == "" then ok List.[] else elim (find_opening input) [
    | closed ↦ ok (List.◌∷◌ (copied input) List.[])
    | opened before after ↦ expression_end false after >>= λ found.
        if r.trim_space found.0 == ""
        then err empty_expression
        else (parse_expression r (r.trim_space found.0) >>= λ n.
            parse_segments fuel found.1 >>= λ rest.
            ok (text_before before (List.◌∷◌ (expression n) rest)))
  ]

  -- Parse.
  unfoldable pub parse : String → Result SyntaxError Program
  unfolding parse_segments program_of char_count
  parse input =
      parse_segments (suc (char_count input)) input >>= λ segments. ok (program_of input segments)

  -- ParseCondition.
  unfoldable pub parse_condition : String → Result SyntaxError Program
  unfolding parse parse_expression
  parse_condition input =
      let trimmed = r.trim_space input in
      if starts_with trimmed "${{"
      then (parse trimmed >>= λ p. if p.whole then ok p else err not_whole)
      else (if trimmed == ""
          then err empty_expression
          else (parse_expression r trimmed >>= λ n.
              ok (record { segments = List.◌∷◌ (expression n) List.[]; whole = true })))
