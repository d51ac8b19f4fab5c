-- ===== src/Expression/Hash.antt =====
-- The patterns of the function hashFiles: hashFilePatterns of internal/expression/hash.go. The walk
-- over the files of the workspace is a parameter.
use open_actions.Base.{
  ℕ, zero, suc, String, Bool, false, ◌&&◌, ◌||◌, not, Option, none, some, List, [], ◌∷◌, ◌++◌, ◌==◌,
  starts_with, ltb, all, if◌then◌else◌,
}
use open_actions.Base.Result.{Result, ok, err, ◌>>=◌, ◌>>◌, fail_if}
use open_actions.Runner.Lines.{trim_return}
use open_actions.Expression.Texts.{byte_length, split, drop_first, join_returns}
use open_actions.Expression.Value.{
  ArrayItems, empty, item, Runtime, HashPattern, sensitive, string_value,
}
use open_actions.Expression.Node.{EvalError, not_scalar, too_large, invalid_pattern}

-- maxEvaluationStringBytes.
abbrev pub max_evaluation_bytes : ℕ
max_evaluation_bytes = 100000

-- What an option lacks is an error.
unfoldable pub found_or : {A : Type 0} → EvalError → Option A → Result EvalError A
found_or e none = err e
found_or e (some a) = ok a

module _ (r : Runtime) where
  -- The loop over the exclamation marks before a pattern, on fuel: each round takes one away.
  unfoldable pub negations : ℕ → Bool → String → Bool × String
  unfolding drop_first
  negations zero negate line = (negate, line)
  negations (suc fuel) negate line =
      let later = negations fuel (not negate) (r.trim_space (drop_first line)) in
      if starts_with line "!" then later else (negate, line)

  -- The segments of a cleaned pattern.
  unfoldable pub segments_of : String → List String
  unfolding split drop_first
  segments_of cleaned =
      if cleaned == "." || cleaned == "/"
      then []
      else split 47 (if starts_with cleaned "/" then drop_first cleaned else cleaned)

  -- The lines of the loop after the exclamation marks; filepath.ToSlash changes no text on Linux.
  unfoldable pub pattern_of : Bool → String → Result EvalError HashPattern
  unfolding segments_of
  pattern_of negate line =
      let absolute = starts_with line "/" in
      let cleaned = r.clean line in
      let segments = segments_of cleaned in
      if line == "" || (not absolute && (cleaned == ".." || starts_with cleaned "../"))
      then err invalid_pattern
      else (if all (λ s. s == "**" || r.is_glob s) segments
          then ok (record { segments = segments; negate = negate; absolute = absolute })
          else err invalid_pattern)

  -- One line of an argument: a pattern, or none for an empty line and a comment.
  unfoldable pub read_pattern : String → Result EvalError (Option HashPattern)
  unfolding negations pattern_of byte_length trim_return
  read_pattern raw =
      let line = r.trim_space (trim_return raw) in
      let (negate, rest) = negations (byte_length line) false line in
      if line == "" || starts_with line "#"
      then ok none
      else (do pattern ← pattern_of negate rest; ok (some pattern))

  unfoldable pub read_patterns : List String → Result EvalError (List HashPattern)
  unfolding read_pattern
  read_patterns [] = ok []
  read_patterns (line ∷ lines) = do
    first ← read_pattern line
    later ← read_patterns lines
    ok (elim first [ none ↦ later | some pattern ↦ pattern ∷ later ])

  -- hashFilePatterns.
  unfoldable pub hash_file_patterns : ArrayItems → Result EvalError (List HashPattern × Bool)
  unfolding found_or read_patterns split join_returns string_value byte_length
  hash_file_patterns empty = ok ([], false)
  hash_file_patterns (item v vs) = do
    input ← found_or not_scalar (string_value r v)
    fail_if (ltb max_evaluation_bytes (byte_length input)) too_large
    here ← read_patterns (split 10 (join_returns input))
    rest ← hash_file_patterns vs
    ok (here ++ rest.0, sensitive v || rest.1)
