-- ===== src/Expression/Secrecy/Hash.antt =====
-- The function hashFiles keeps secrets: its digest is marked if a pattern is.
use open_actions.Base.{
  String, Bool, true, ◌≡◌, refl, sym, ap, ◌⊎◌, inl, inr, arith, ◌||◌, Option, List, ◌++◌, ltb,
}
use open_actions.Base.Result.{Result, ok, err, ◌>>=◌, fail_if}
use open_actions.Expression.Texts.{split, join_returns, byte_length}
use open_actions.Expression.Value.{
  text, Value, ArrayItems, sensitive, Runtime, HashPattern, string_value,
}
use open_actions.Expression.Node.{EvalError, hash_failed, too_large, not_scalar}
use open_actions.Expression.Hash.{found_or, max_evaluation_bytes, read_patterns, hash_file_patterns}
use open_actions.Expression.Calls.{workspace_of, digest_value, evaluate_hash_files}
use open_actions.Expression.Secrecy.{
  scalars, Alike, Agree, Agree-err, Agree-IsHidden, Agree-bind, Agree-step, IsHidden-bind,
  string_value-Same,
}
use open_actions.Expression.Secrecy.Calls.{AlikeItems, none_alike, all_alike}

-- Two readings of patterns, marked both or the same.
abbrev pub PatternsAlike : List HashPattern × Bool → List HashPattern × Bool → Type 0
PatternsAlike p q = ((p.1 ≡ true) × (q.1 ≡ true)) ⊎ (p.0 ≡ q.0)

-- What a step makes of whatever comes before it.
AgreesAlways {ℓ} :
    {A : Type ℓ} (f g : A → Result EvalError (List HashPattern × Bool)) (m n : Result EvalError A)
    → ((a b : A) → Agree PatternsAlike (f a) (g b))
    → Agree PatternsAlike (m >>= f) (n >>= g)
AgreesAlways f g (ok a) (ok b) h = h a b
AgreesAlways f g (ok a) (err e) h = Agree-err PatternsAlike e (f a)
AgreesAlways f g (err e) n h = tt

module _ (r : Runtime) where
  later :
      (v w : Value) (here : List HashPattern) (p q : List HashPattern × Bool)
      → PatternsAlike p q
      → PatternsAlike (here ++ p.0, sensitive v || p.1) (here ++ q.0, sensitive w || q.1)
  later v w here p q (inl (h, k)) = inl (ground arith, ground arith)
  later v w here p q (inr e) = inr (ap (λ ps. here ++ ps) e)

  digest :
      (workspace : String) (p q : List HashPattern × Bool)
      → PatternsAlike p q
      → Agree Alike (digest_value r workspace p) (digest_value r workspace q)
  unfolding digest_value
  digest workspace p q (inl (h, k)) =
      Agree-IsHidden _ _
        (IsHidden-bind _ (found_or hash_failed (r.hash_workspace workspace p.0)) λ t. h)
        (IsHidden-bind _ (found_or hash_failed (r.hash_workspace workspace q.0)) λ t. k)
  digest workspace p q (inr e) = rw (sym e) (
      Agree-step Alike _ _ (found_or hash_failed (r.hash_workspace workspace p.0))
        λ t. inr (scalars (text t) p.1 q.1))

  hash_file_patterns-AlikeItems :
      {vs ws : ArrayItems}
      → AlikeItems vs ws
      → Agree PatternsAlike (hash_file_patterns r vs) (hash_file_patterns r ws)
  unfolding hash_file_patterns
  hash_file_patterns-AlikeItems none_alike = inr refl
  hash_file_patterns-AlikeItems (all_alike {v} {w} {vs} {ws} (inl (p, q)) h) =
      AgreesAlways _ _ (found_or not_scalar (string_value r v))
        (found_or not_scalar (string_value r w))
        λ a b.
          AgreesAlways _ _ (fail_if (ltb max_evaluation_bytes (byte_length a)) too_large)
            (fail_if (ltb max_evaluation_bytes (byte_length b)) too_large)
            λ c d.
              AgreesAlways _ _ (read_patterns r (split 10 (join_returns a)))
                (read_patterns r (split 10 (join_returns b)))
                λ x y.
                  AgreesAlways _ _ (hash_file_patterns r vs) (hash_file_patterns r ws)
                    λ i j. inl (ground arith, ground arith)
  hash_file_patterns-AlikeItems (all_alike {v} {w} {vs} {ws} (inr same) h) =
      rw (sym (string_value-Same r same)) (
        Agree-step PatternsAlike _ _ (found_or not_scalar (string_value r v)) λ a.
          Agree-step PatternsAlike _ _
            (fail_if (ltb max_evaluation_bytes (byte_length a)) too_large)
            λ c. Agree-step PatternsAlike _ _ (read_patterns r (split 10 (join_returns a))) λ x.
              Agree-bind PatternsAlike _ _ (hash_file_patterns r vs) (hash_file_patterns r ws)
                (hash_file_patterns-AlikeItems h) λ p q. later v w x p q)

  -- The context `github` counts by the workspace that it names.
  pub evaluate_hash_files-Alike :
      {vs ws : ArrayItems} (m n : Option Value)
      → workspace_of r m ≡ workspace_of r n
      → AlikeItems vs ws
      → Agree Alike (evaluate_hash_files r m vs) (evaluate_hash_files r n ws)
  unfolding evaluate_hash_files
  evaluate_hash_files-Alike {vs} {ws} m n e h = rw e (
      Agree-step Alike _ _ (workspace_of r n) λ workspace.
        Agree-bind Alike _ _ (hash_file_patterns r vs) (hash_file_patterns r ws)
          (hash_file_patterns-AlikeItems h) λ p q. digest workspace p q)
