-- ===== src/Expression/Format.antt =====
-- The function format: evaluateFormat of internal/expression/expression.go. The source walks over
-- the bytes of the template; what is not a brace is copied as it stands.
use Prim.Native.Char.{Char, code}
use Prim.Native.String.{String, [], ◌∷◌}
use open_actions.Base.{
  ℕ, zero, suc, ◌+◌, Bool, false, ◌&&◌, ◌||◌, Option, none, some, eqb, leb, if◌then◌else◌,
}
use open_actions.Base.Result.{Result, ok, err, ◌>>=◌}
use open_actions.Base.Text.{cut}
use open_actions.Expression.Texts.{atoi, char_count}
use open_actions.Expression.Value.{text, Value, scalar, ArrayItems, Runtime, sensitive}
use open_actions.Expression.Access.{item_count}
use open_actions.Expression.Node.{EvalError, invalid_template, placeholder_overflow}
use open_actions.Expression.Calls.{argument_at, append_string, scalar_text}

-- The argument after the position of a placeholder: `position+1` is an int of 64 bits, which may pass
-- over its greatest value and is then less than every length.
unfoldable pub argument_after : ArrayItems → Option ℕ → Result EvalError Value
unfolding item_count argument_at
argument_after arguments none = err invalid_template
argument_after arguments (some position) =
    if leb 9223372036854775808 (position + 1)
    then err placeholder_overflow
    else (if leb (item_count arguments) (position + 1)
        then err invalid_template
        else argument_at arguments (position + 1))

-- The argument that a placeholder names.
unfoldable pub placeholder : ArrayItems → String → Result EvalError Value
unfolding atoi argument_after
placeholder arguments inside = argument_after arguments (atoi inside)

-- `strings.HasPrefix(s, "{{")` after the first character, and the same for `}}`.
unfoldable pub repeats : ℕ → String → Bool
repeats brace [] = false
repeats brace (c ∷ s) = eqb (code c) brace

-- What stands at the beginning of a template: a text to copy with the number of further characters
-- that it takes, or a placeholder.
pub data Piece : Type 0 where
  copied : String → ℕ → Piece
  filled : String → Piece
  broken : Piece

unfoldable pub placeholder_piece : Option (String × String) → Piece
placeholder_piece none = broken
placeholder_piece (some (inside, after)) = filled inside

-- The `switch` of evaluateFormat.
unfoldable pub piece_of : Char → String → Piece
unfolding repeats placeholder_piece cut
piece_of c template =
    if eqb (code c) 123 && repeats 123 template
    then copied "{" 1
    else (if eqb (code c) 125 && repeats 125 template
        then copied "}" 1
        else (if eqb (code c) 123
            then placeholder_piece (cut 125 template)
            else (if eqb (code c) 125 then broken else copied (c ∷ []) 0)))

module _ (r : Runtime) (arguments : ArrayItems) where
  -- The loop of evaluateFormat; the number counts the characters that were read already.
  unfoldable pub write_template : ℕ → String → String → Bool → Result EvalError Value
  unfolding placeholder append_string scalar_text char_count
  write_template skip [] result s = ok (scalar (text result) s)
  write_template (suc skip) (c ∷ template) result s = write_template skip template result s
  write_template zero (c ∷ template) result s = elim (piece_of c template) [
    | broken ↦ err invalid_template
    | copied piece skip ↦ do more ← append_string result piece; write_template skip template more s
    | filled inside ↦ do
      chosen ← placeholder arguments inside
      replacement ← scalar_text r chosen
      more ← append_string result replacement
      write_template (suc (char_count inside)) template more (s || sensitive chosen)
  ]

  -- evaluateFormat, at its template.
  unfoldable pub format_with : Value → Result EvalError Value
  unfolding write_template scalar_text
  format_with first = do
    template ← scalar_text r first
    write_template 0 template "" (sensitive first)

  -- evaluateFormat.
  unfoldable pub evaluate_format : Result EvalError Value
  unfolding argument_at format_with
  evaluate_format = do first ← argument_at arguments 0; format_with first
