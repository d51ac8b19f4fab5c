-- ===== src/Workflow/Matcher.antt =====
-- The matching of patterns: patternMatchers of internal/workflow/workflow.go, with what package regexp
-- does for the expressions that compileGitHubPattern writes.
pub mod Last
pub mod Plain
use Prim.Native.Char.{Char, code}
use open_actions.Base.{
  String, Bool, true, false, not, ◌&&◌, ◌||◌, Option, none, some, List, [], ◌∷◌, eqb, if◌then◌else◌,
}
use open_actions.Base.Text.{runes}
use open_actions.Workflow.Glob.{
  GlobAtom, literal, class, star, double_star, directories, optional, repeated, in_range,
  compile_github_pattern,
}

-- A character is of the class `[s]`; a dash between two characters makes a range.
unfoldable pub in_class : List Char → Char → Bool
in_class [] x = false
in_class (a ∷ []) x = eqb (code a) (code x)
in_class (a ∷ b ∷ []) x = eqb (code a) (code x) || eqb (code b) (code x)
in_class (a ∷ b ∷ c ∷ s) x =
    let later = in_class s x in
    let next = in_class (b ∷ c ∷ s) x in
    if eqb (code b) 45 then in_range (code a) (code c) x || later else eqb (code a) (code x) || next

-- The atoms that stand for one character.
unfoldable pub is_char : GlobAtom → Char → Bool
unfolding in_class
is_char (literal c) x = eqb (code c) (code x)
is_char (class s) x = in_class s x
is_char star x = not (eqb (code x) 47)
is_char double_star x = true
is_char _ x = false

-- A run of characters of `p`, and what is left matches `rest`.
unfoldable pub after_run : (Char → Bool) → (List Char → Bool) → List Char → Bool
after_run p rest [] = rest []
after_run p rest (x ∷ v) = rest (x ∷ v) || (p x && after_run p rest v)

-- `.*/`, and what is left matches `rest`.
unfoldable pub after_slash : (List Char → Bool) → List Char → Bool
after_slash rest [] = false
after_slash rest (x ∷ v) = (eqb (code x) 47 && rest v) || after_slash rest v

-- One character of `p`, and what is left matches `rest`.
unfoldable pub after_one : (Char → Bool) → (List Char → Bool) → List Char → Bool
after_one p rest [] = false
after_one p rest (x ∷ v) = p x && rest v

abbrev pub is_empty : List Char → Bool
is_empty [] = true
is_empty (x ∷ v) = false

-- An atom, and what is left matches `rest`.
unfoldable pub accepts_atom : GlobAtom → (List Char → Bool) → List Char → Bool
unfolding is_char after_run after_slash after_one
accepts_atom (literal c) rest v = after_one (is_char (literal c)) rest v
accepts_atom (class s) rest v = after_one (is_char (class s)) rest v
accepts_atom star rest v = after_run (is_char star) rest v
accepts_atom double_star rest v = after_run (is_char double_star) rest v
accepts_atom directories rest v = rest v || after_slash rest v
accepts_atom (optional a) rest v = rest v || after_one (is_char a) rest v
accepts_atom (repeated a) rest v = after_one (is_char a) (after_run (is_char a) rest) v

-- MatchString of the compiled atoms, between `^` and `$`.
unfoldable pub accepts : List GlobAtom → List Char → Bool
unfolding accepts_atom
accepts [] v = is_empty v
accepts (a ∷ atoms) v = accepts_atom a (accepts atoms) v

-- patternMatcher.
pub record PatternMatcher : Type 0 where
  pub matcher : List GlobAtom
  pub negated : Bool

-- strings.HasPrefix(pattern, "!") and strings.TrimPrefix(pattern, "!").
unfoldable pub is_negated : List Char → Bool
is_negated [] = false
is_negated (c ∷ s) = eqb (code c) 33

unfoldable pub trim_negation : List Char → List Char
trim_negation [] = []
trim_negation (c ∷ s) = if eqb (code c) 33 then s else c ∷ s

-- compilePatterns.
unfoldable pub compile_patterns : List String → List PatternMatcher
unfolding compile_github_pattern is_negated trim_negation
compile_patterns [] = []
compile_patterns (pattern ∷ patterns) =
    elim (compile_github_pattern (trim_negation (runes pattern))) [
      | none ↦ compile_patterns patterns
      | some atoms ↦
          record { matcher = atoms; negated = is_negated (runes pattern) }
          ∷ compile_patterns patterns
    ]

-- The loop of patternMatchers.matches.
unfoldable pub matches_from : Bool → List PatternMatcher → List Char → Bool
unfolding accepts
matches_from matched [] value = matched
matches_from matched (p ∷ matchers) value =
    matches_from (if accepts p.matcher value then not p.negated else matched) matchers value

-- patternMatchers.matches.
unfoldable pub matches : List PatternMatcher → List Char → Bool
unfolding matches_from
matches matchers value = matches_from false matchers value

-- matchesPatterns.
unfoldable pub matches_patterns : List String → String → Bool
unfolding compile_patterns matches
matches_patterns patterns value = matches (compile_patterns patterns) (runes value)
