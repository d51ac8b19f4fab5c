-- ===== src/Runner/Escapes.antt =====
-- The escapes in the values of workflow commands: internal/workflowcommand/parser.go. A text is the
-- list of its characters.
mod Tests
use Prim.Native.Char.{Char, code}
use open_actions.Base.{
  ℕ, zero, suc, ◌-◌, String, Bool, true, false, ◌&&◌, List, [], ◌∷◌, ◌++◌, eqb, length,
  if◌then◌else◌,
}
use open_actions.Base.Text.{runes}

-- strings.HasPrefix.
unfoldable pub has_prefix : List Char → List Char → Bool
has_prefix s [] = true
has_prefix [] (p ∷ ps) = false
has_prefix (c ∷ s) (p ∷ ps) = eqb (code c) (code p) && has_prefix s ps

-- strings.ReplaceAll from left to right; the number says how many characters of an occurrence that
-- was replaced are still to be passed over.
unfoldable pub replace_all : List Char → List Char → ℕ → List Char → List Char
unfolding has_prefix
replace_all old new skip [] = []
replace_all old new (suc n) (c ∷ s) = replace_all old new n s
replace_all old new zero (c ∷ s) =
    let after = replace_all old new (length old - 1) s in
    let later = replace_all old new zero s in
    if has_prefix (c ∷ s) old then new ++ after else c ∷ later

-- replaceEscape; its second argument is strings.ToLower of the first one.
unfoldable pub replace_escape : String → String → String → List Char → List Char
unfolding replace_all runes
replace_escape encoded lowered decoded value =
    replace_all (runes lowered) (runes decoded) zero
      (replace_all (runes encoded) (runes decoded) zero value)

-- unescapeDoubleColonData.
unfoldable pub unescape_double_colon_data : List Char → List Char
unfolding replace_escape
unescape_double_colon_data value =
    replace_escape "%25" "%25" "%"
      (replace_escape "%0A" "%0a" "\n" (replace_escape "%0D" "%0d" "\r" value))

-- unescapeDoubleColonProperty.
unfoldable pub unescape_double_colon_property : List Char → List Char
unfolding unescape_double_colon_data
unescape_double_colon_property value =
    unescape_double_colon_data
      (replace_escape "%2C" "%2c" "," (replace_escape "%3A" "%3a" ":" value))

-- unescapeBracketValue.
unfoldable pub unescape_bracket_value : List Char → List Char
unfolding replace_escape
unescape_bracket_value value = replace_escape "%25" "%25" "%" (
    replace_escape "%5D" "%5d" "]" (
      replace_escape "%0A" "%0a" "\n"
        (replace_escape "%0D" "%0d" "\r" (replace_escape "%3B" "%3b" ";" value))))
