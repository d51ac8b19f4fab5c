-- ===== src/Expression/Secrecy/Program.antt =====
-- Whole programs keep secrets: what two evaluations give differs only where both results are secret.
use open_actions.Base.{
  String, Bool, true, false, ◌≡◌, refl, sym, subst, ◌⊎◌, inl, inr, arith, ◌||◌, Option, some, List,
  [], ◌∷◌, ◌==◌, Bool-cases, if◌then◌else◌,
}
use open_actions.Base.Dict.{lookup, lookup-insert}
use open_actions.Base.Result.{Result, ok, err, ◌>>=◌}
use open_actions.Expression.Value.{
  text, Raw, Value, sensitive, Runtime, normalize, contains_sensitive,
}
use open_actions.Expression.Node.{EvalError}
use open_actions.Expression.Calls.{scalar_text, append_string, workspace_of}
use open_actions.Expression.Evaluate.{Evaluation, Context, evaluate_node}
use open_actions.Expression.Program.{
  Segment, copied, expression, Program, Outcome, is_too_large, whole_outcome, first_node, new_roots,
  validate_segments, interpolate, run, evaluate,
}
use open_actions.Expression.Secrecy.{
  Same, scalars, arrays, objects, Alike, Agree, Agree-bind, Agree-step, Alike-Same,
}
use open_actions.Expression.Secrecy.Read.{BothFound}
use open_actions.Expression.Secrecy.Normal.{
  SameRaw, normalize-SameRaw, contains_sensitive-mark, Same-SameOutside,
}
use open_actions.Expression.Secrecy.Format.{scalar_text-Same}
use open_actions.Expression.Secrecy.Evaluate.{AlikeEvaluations, evaluate_node-Alike}

-- Both results are secret, or they carry the same value.
abbrev pub OutcomesAlike : Outcome → Outcome → Type 0
OutcomesAlike o q = ((o.secret ≡ true) × (q.secret ≡ true)) ⊎ (o.value ≡ q.value)

abbrev IsSecretOutcome : Result EvalError Outcome → Type 0
IsSecretOutcome (ok o) = o.secret ≡ true
IsSecretOutcome (err e) = Unit

Agree-IsSecretOutcome :
    (m n : Result EvalError Outcome)
    → IsSecretOutcome m
    → IsSecretOutcome n
    → Agree OutcomesAlike m n
Agree-IsSecretOutcome (ok v) (ok w) h k = inl (h, k)
Agree-IsSecretOutcome (ok v) (err e) h k = tt
Agree-IsSecretOutcome (err e) n h k = tt

IsSecretOutcome-bind {ℓ} :
    {A : Type ℓ} (f : A → Result EvalError Outcome) (m : Result EvalError A)
    → ((v : A) → IsSecretOutcome (f v))
    → IsSecretOutcome (m >>= f)
IsSecretOutcome-bind f (ok v) next = next v
IsSecretOutcome-bind f (err e) next = tt

whole_outcome-secret : (v : Value) → contains_sensitive v ≡ true → IsSecretOutcome (whole_outcome v)
unfolding whole_outcome
whole_outcome-secret v h = elim (Bool-cases (is_too_large v)) [
  | inl over ↦ rw (over, IsSecretOutcome) tt
  | inr fits ↦ rw (fits, IsSecretOutcome) h
]

is_too_large-Same : {v w : Value} → Same false v w → is_too_large v ≡ is_too_large w
unfolding is_too_large
is_too_large-Same (scalars (text a) s t) = refl
is_too_large-Same (scalars _ s t) = refl
is_too_large-Same (arrays i f s t h) = refl
is_too_large-Same (objects i s t h) = refl

whole_outcome-Alike :
    {v w : Value} → Alike v w → Agree OutcomesAlike (whole_outcome v) (whole_outcome w)
unfolding whole_outcome
whole_outcome-Alike {v} {w} (inl (p, q)) =
    Agree-IsSecretOutcome _ _ (whole_outcome-secret v (contains_sensitive-mark v p))
      (whole_outcome-secret w (contains_sensitive-mark w q))
whole_outcome-Alike {v} {w} (inr h) =
    rw (sym (is_too_large-Same h)) (elim (Bool-cases (is_too_large v)) [
      | inl over ↦ rw (over, Agree) tt
      | inr fits ↦ rw (fits, Agree) (Same-SameOutside (λ (e : false ≡ true). absurd (cc)) h)
    ])

module _ (r : Runtime) where
  interpolate-secret :
      (e : Evaluation) (segments : List Segment) (result : String) (s : Bool)
      → s ≡ true
      → IsSecretOutcome (interpolate r e segments result s)
  unfolding interpolate
  interpolate-secret e [] result s h = h
  interpolate-secret e (copied t ∷ rest) result s h =
      IsSecretOutcome-bind _ (append_string result t) λ more. interpolate-secret e rest more s h
  interpolate-secret e (expression n ∷ rest) result s h =
      IsSecretOutcome-bind _ (evaluate_node r e n) λ v.
        IsSecretOutcome-bind _ (scalar_text r v) λ t.
          IsSecretOutcome-bind _ (append_string result t)
            λ more. interpolate-secret e rest more (s || sensitive v) (ground arith)

  interpolate-Alike :
      {e f : Evaluation} (segments : List Segment) (result : String) (s t : Bool)
      → AlikeEvaluations r e f
      → Agree OutcomesAlike (interpolate r e segments result s) (interpolate r f segments result t)
  unfolding interpolate
  interpolate-Alike [] result s t h = inr refl
  interpolate-Alike (copied piece ∷ rest) result s t h =
      Agree-step OutcomesAlike _ _ (append_string result piece)
        λ more. interpolate-Alike rest more s t h
  interpolate-Alike {e} {f} (expression n ∷ rest) result s t h =
      Agree-bind OutcomesAlike _ _ (evaluate_node r e n) (evaluate_node r f n)
        (evaluate_node-Alike r n h)
        λ v w a. elim a [
          | inl (p, q) ↦
              Agree-IsSecretOutcome _ _
                (IsSecretOutcome-bind _ (scalar_text r v) λ piece.
                  IsSecretOutcome-bind _ (append_string result piece)
                    λ more. interpolate-secret e rest more (s || sensitive v) (ground arith))
                (IsSecretOutcome-bind _ (scalar_text r w) λ piece.
                  IsSecretOutcome-bind _ (append_string result piece)
                    λ more. interpolate-secret f rest more (t || sensitive w) (ground arith))
          | inr same ↦ rw (scalar_text-Same r same) (
              Agree-step OutcomesAlike _ _ (scalar_text r w) λ piece.
                Agree-step OutcomesAlike _ _ (append_string result piece)
                  λ more. interpolate-Alike rest more (s || sensitive v) (t || sensitive w) h)
        ]

  run-Alike :
      {e f : Evaluation} (p : Program)
      → AlikeEvaluations r e f
      → Agree OutcomesAlike (run r p e) (run r p f)
  unfolding run
  run-Alike {e} {f} p h = elim (Bool-cases p.whole) [
    | inl whole ↦
        rw (whole, Agree, run)
          (Agree-step OutcomesAlike _ _ (first_node p.segments) λ n.
            Agree-bind OutcomesAlike _ _ (evaluate_node r e n) (evaluate_node r f n)
              (evaluate_node-Alike r n h) λ v w a. whole_outcome-Alike a)
    | inr mixed ↦ rw (mixed, Agree, run) (interpolate-Alike p.segments "" false false h)
  ]

  -- The same names, and values that differ in secrets only; `secrets` has nothing else.
  pub data SameInputs : List (String × Raw) → List (String × Raw) → Type 0 where
    no_inputs : SameInputs [] []
    both_inputs :
        (name : String) {x y : Raw} {xs ys : List (String × Raw)}
        → SameRaw (r.equal_fold name "secrets") x y
        → SameInputs xs ys
        → SameInputs ((name, x) ∷ xs) ((name, y) ∷ ys)

  BothFound-if :
      (b : Bool) (v w : Value) (m n : Option Value)
      → Alike v w
      → BothFound Alike m n
      → BothFound Alike (if b then some v else m) (if b then some w else n)
  BothFound-if true v w m n h k = h
  BothFound-if false v w m n h k = k

  new_roots-SameInputs :
      {xs ys : List (String × Raw)} (k : String)
      → SameInputs xs ys
      → BothFound Alike (lookup k (new_roots r xs)) (lookup k (new_roots r ys))
  unfolding new_roots lookup
  new_roots-SameInputs k no_inputs = tt
  new_roots-SameInputs k (both_inputs name {x} {y} {xs} {ys} i h) =
      let marked = r.equal_fold name "secrets" in
      rw
        (
          lookup-insert (new_roots r xs) (r.lower name) k (normalize x marked),
          lookup-insert (new_roots r ys) (r.lower name) k (normalize y marked),
        )
        (BothFound-if (r.lower name == k) (normalize x marked) (normalize y marked) _ _
          (Alike-Same (normalize x marked) (normalize y marked) (normalize-SameRaw i))
          (new_roots-SameInputs k h))

  -- The workspace that hashFiles reads from the inputs.
  abbrev pub input_workspace : List (String × Raw) → Result EvalError String
  input_workspace values = workspace_of r (lookup (r.lower "github") (new_roots r values))

  evaluate-Agree :
      (p : Program) (c d : Context)
      → c.availability ≡ d.availability
      → c.status ≡ d.status
      → SameInputs c.values d.values
      → input_workspace c.values ≡ input_workspace d.values
      → Agree OutcomesAlike (evaluate r p c) (evaluate r p d)
  unfolding evaluate
  evaluate-Agree p c d available status same workspace = rw available (
      Agree-step OutcomesAlike _ _ (validate_segments r d.availability p.segments) λ valid.
        run-Alike p (record {
          roots = λ k. new_roots-SameInputs k same;
          status = status;
          workspace = workspace;
        }))

  -- Two contexts have the same availability and status, the same names with values that differ only
  -- in scalars that are marked as secret or stand in the context `secrets`, and the same workspace
  -- for hashFiles. If a program evaluates to a result in both, then the two results are both marked
  -- as secret or carry the same value. Which errors occur is not compared, nor are the marks of
  -- results with the same value.
  pub evaluate-OutcomesAlike :
      (p : Program) (c d : Context) {o q : Outcome}
      → c.availability ≡ d.availability
      → c.status ≡ d.status
      → SameInputs c.values d.values
      → input_workspace c.values ≡ input_workspace d.values
      → evaluate r p c ≡ ok o
      → evaluate r p d ≡ ok q
      → OutcomesAlike o q
  evaluate-OutcomesAlike p c d {o} {q} available status same workspace first second =
      subst (λ m. Agree OutcomesAlike m (ok q)) first
        (subst (λ n. Agree OutcomesAlike (evaluate r p c) n) second
          (evaluate-Agree p c d available status same workspace))
