-- ===== src/Expression/Sound/Hash.antt =====
-- The function hashFiles is safe at any arguments.
use open_actions.Base.{
  String, Bool, false, ◌&&◌, ◌||◌, not, Option, none, List, [], ◌∷◌, ◌==◌, all, starts_with, ltb,
}
use open_actions.Base.Result.{ok, err, fail_if}
use open_actions.Expression.Texts.{byte_length, split, join_returns}
use open_actions.Expression.Value.{Value, ArrayItems, empty, item, Runtime, string_value}
use open_actions.Expression.Access.{lookup_property}
use open_actions.Expression.Node.{
  not_scalar, too_large, context_unavailable, workspace_unavailable, workspace_invalid, hash_failed,
  invalid_pattern,
}
use open_actions.Expression.Hash.{
  found_or, max_evaluation_bytes, negations, segments_of, pattern_of, read_pattern, read_patterns,
  hash_file_patterns,
}
use open_actions.Expression.Calls.{workspace_of, digest_value, evaluate_hash_files}
use open_actions.Expression.Sound.{IsSafe, IsSafe-bind, IsSafe-if}
use open_actions.Runner.Lines.{trim_return}
use open_actions.Expression.Sound.Calls.{found_or-IsSafe, fail_if-IsSafe}

module _ (r : Runtime) where
  pattern_of-IsSafe : (negate : Bool) (line : String) → IsSafe (pattern_of r negate line)
  unfolding pattern_of
  pattern_of-IsSafe negate line =
      IsSafe-if
        (line == ""
          || (not (starts_with line "/")
              && (r.clean line == ".." || starts_with (r.clean line) "../")))
        (err invalid_pattern) _ tt
        (IsSafe-if (all (λ s. s == "**" || r.is_glob s) (segments_of r (r.clean line))) _ _ tt tt)

  read_pattern-IsSafe : (raw : String) → IsSafe (read_pattern r raw)
  unfolding read_pattern
  read_pattern-IsSafe raw =
      let line = r.trim_space (trim_return raw) in
      let rest = negations r (byte_length line) false line in
      IsSafe-if (line == "" || starts_with line "#") (ok none) _ tt
        (IsSafe-bind _ (pattern_of r rest.0 rest.1) (pattern_of-IsSafe rest.0 rest.1) λ p e. tt)

  read_patterns-IsSafe : (lines : List String) → IsSafe (read_patterns r lines)
  unfolding read_patterns
  read_patterns-IsSafe [] = tt
  read_patterns-IsSafe (line ∷ lines) =
      IsSafe-bind _ (read_pattern r line) (read_pattern-IsSafe line)
        λ p e. IsSafe-bind _ (read_patterns r lines) (read_patterns-IsSafe lines) λ q d. tt

  hash_file_patterns-IsSafe : (vs : ArrayItems) → IsSafe (hash_file_patterns r vs)
  unfolding hash_file_patterns
  hash_file_patterns-IsSafe empty = tt
  hash_file_patterns-IsSafe (item v vs) =
      IsSafe-bind _ (found_or not_scalar (string_value r v))
        (found_or-IsSafe not_scalar (string_value r v) tt)
        λ a e.
          IsSafe-bind _ (fail_if (ltb max_evaluation_bytes (byte_length a)) too_large)
            (fail_if-IsSafe (ltb max_evaluation_bytes (byte_length a)) too_large tt)
            λ b d.
              IsSafe-bind _ (read_patterns r (split 10 (join_returns a)))
                (read_patterns-IsSafe (split 10 (join_returns a)))
                λ p f.
                  IsSafe-bind _ (hash_file_patterns r vs) (hash_file_patterns-IsSafe vs) λ q g. tt

  workspace_of-IsSafe : (github : Option Value) → IsSafe (workspace_of r github)
  unfolding workspace_of
  workspace_of-IsSafe github =
      IsSafe-bind _ (found_or (context_unavailable "github") github)
        (found_or-IsSafe (context_unavailable "github") github tt)
        λ c e.
          IsSafe-bind _ (found_or workspace_unavailable (lookup_property r c "workspace"))
            (found_or-IsSafe workspace_unavailable (lookup_property r c "workspace") tt)
            λ v d.
              IsSafe-bind _ (found_or workspace_invalid (string_value r v))
                (found_or-IsSafe workspace_invalid (string_value r v) tt)
                λ w f. IsSafe-if (w == "") (err workspace_invalid) (ok w) tt tt

  pub evaluate_hash_files-IsSafe :
      (github : Option Value) (vs : ArrayItems) → IsSafe (evaluate_hash_files r github vs)
  unfolding evaluate_hash_files digest_value
  evaluate_hash_files-IsSafe github vs =
      IsSafe-bind _ (workspace_of r github) (workspace_of-IsSafe github) λ w e.
        IsSafe-bind _ (hash_file_patterns r vs) (hash_file_patterns-IsSafe vs) λ p d.
          IsSafe-bind _ (found_or hash_failed (r.hash_workspace w p.0))
            (found_or-IsSafe hash_failed (r.hash_workspace w p.0) tt) λ t f. tt
