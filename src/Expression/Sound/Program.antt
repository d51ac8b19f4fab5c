-- ===== src/Expression/Sound/Program.antt =====
-- Valid programs end in a value or in an error that a workflow can run into; and the panic of format.
use Prim.Native.String.{[], ◌∷◌}
use open_actions.Base.{
  ℕ, ◌+◌, ◌<◌, String, Bool, true, false, ◌≡◌, ◌↔◌, refl, ap, leb-le, inl, inr, arith, Option, none,
  some, List, ◌||◌, leb, Bool-cases, Option-cases,
}
use open_actions.Base.Result.{ok, err, ◌>>=◌, >>=-eq-ok}
use open_actions.Expression.Texts.{atoi, bounded_int, signed_value}
use open_actions.Expression.Value.{ArrayItems, sensitive, Runtime}
use open_actions.Expression.Access.{item_count, item_at}
use open_actions.Expression.Node.{Availability, validate_node, placeholder_overflow, too_large}
use open_actions.Expression.Hash.{found_or}
use open_actions.Expression.Calls.{scalar_text, append_string, argument_at}
use open_actions.Expression.Format.{argument_after, placeholder}
use open_actions.Expression.Evaluate.{Evaluation, Context, evaluate_node}
use open_actions.Expression.Program.{
  Segment, copied, expression, Program, is_too_large, whole_outcome, first_node, new_roots,
  validate_segments, interpolate, run, evaluate,
}
use open_actions.Expression.Sound.{IsWellFormed, IsSafe, IsSafe-bind, IsSafe-if}
use open_actions.Expression.Sound.Calls.{scalar_text-IsSafe, append_string-IsSafe}
use open_actions.Expression.Sound.Evaluate.{evaluate_node-IsSafe}

-- The expressions of a program are well-formed.
abbrev pub AreSegments : List Segment → Type 0
AreSegments List.[] = Unit
AreSegments (List.◌∷◌ (copied t) rest) = AreSegments rest
AreSegments (List.◌∷◌ (expression n) rest) = IsWellFormed n × AreSegments rest

-- What the first segment of a whole program is.
abbrev pub IsOneExpression : List Segment → Type 0
IsOneExpression (List.◌∷◌ (expression n) List.[]) = Unit
IsOneExpression _ = ⊥

-- A program as Parse makes it.
abbrev pub IsParsed : Program → Type 0
IsParsed p = AreSegments p.segments × (p.whole ≡ true → IsOneExpression p.segments)

module _ (r : Runtime) where
  interpolate-IsSafe :
      (e : Evaluation) (a : Availability) (segments : List Segment) (result : String) (s : Bool)
      → AreSegments segments
      → validate_segments r a segments ≡ ok tt
      → IsSafe (interpolate r e segments result s)
  unfolding interpolate validate_segments
  interpolate-IsSafe e a List.[] result s w h = tt
  interpolate-IsSafe e a (List.◌∷◌ (copied t) rest) result s w h =
      IsSafe-bind _ (append_string result t) (append_string-IsSafe result t)
        λ more x. interpolate-IsSafe e a rest more s w h
  interpolate-IsSafe e a (List.◌∷◌ (expression n) rest) result s (w, ws) h =
      let (u, first, second) =
        >>=-eq-ok (validate_node r a n) (λ _. validate_segments r a rest) h in
      IsSafe-bind _ (evaluate_node r e n) (evaluate_node-IsSafe r e a n w first) λ v x.
        IsSafe-bind _ (scalar_text r v) (scalar_text-IsSafe r v) λ t y.
          IsSafe-bind _ (append_string result t) (append_string-IsSafe result t)
            λ more z. interpolate-IsSafe e a rest more (s || sensitive v) ws second

  one-IsSafe :
      (e : Evaluation) (a : Availability) (segments : List Segment)
      → AreSegments segments
      → IsOneExpression segments
      → validate_segments r a segments ≡ ok tt
      → IsSafe (first_node segments >>= λ n. evaluate_node r e n >>= λ v. whole_outcome v)
  unfolding first_node validate_segments whole_outcome
  one-IsSafe e a List.[] w o h = elim o [ ]
  one-IsSafe e a (List.◌∷◌ (copied t) rest) w o h = elim o [ ]
  one-IsSafe e a (List.◌∷◌ (expression n) (List.◌∷◌ m rest)) w o h = elim o [ ]
  one-IsSafe e a (List.◌∷◌ (expression n) List.[]) (w, ws) o h =
      let (u, first, second) = >>=-eq-ok (validate_node r a n) (λ _. ok tt) h in
      IsSafe-bind _ (evaluate_node r e n) (evaluate_node-IsSafe r e a n w first)
        λ v x. IsSafe-if (is_too_large v) (err too_large) _ tt tt

  run-IsSafe :
      (p : Program) (e : Evaluation) (a : Availability)
      → IsParsed p
      → validate_segments r a p.segments ≡ ok tt
      → IsSafe (run r p e)
  unfolding run
  run-IsSafe p e a (well, whole) h = elim (Bool-cases p.whole) [
    | inl one ↦ rw (one, IsSafe) (one-IsSafe e a p.segments well (whole one) h)
    | inr mixed ↦ rw (mixed, IsSafe) (interpolate-IsSafe e a p.segments "" false well h)
  ]

  -- A program as the parser makes it is safe to evaluate once it is validated.
  pub evaluate-IsSafe :
      (p : Program) (c : Context)
      → IsParsed p
      → validate_segments r c.availability p.segments ≡ ok tt
      → IsSafe (evaluate r p c)
  unfolding evaluate
  evaluate-IsSafe p c parsed h =
      rw (h, IsSafe)
        (run-IsSafe p (record { roots = new_roots r c.values; status = c.status }) c.availability
          parsed h)

-- A number of Atoi is an int of 64 bits.
bounded : (o : Option ℕ) (n : ℕ) → bounded_int o ≡ some n → n < 9223372036854775808
unfolding bounded_int
bounded none n h = absurd (cc)
bounded (some m) n h = ground (arith, h)

atoi_bounded : (s : String) (n : ℕ) → atoi s ≡ some n → n < 9223372036854775808
unfolding atoi
atoi_bounded [] n h = absurd (cc)
atoi_bounded (c ∷ s) n h = bounded (signed_value c s) n h

argument_at-ne : (vs : ArrayItems) (n : ℕ) → argument_at vs n ≡ err placeholder_overflow → ⊥
unfolding argument_at found_or
argument_at-ne vs n h = elim (Option-cases (item_at vs n)) [
  | inl missing ↦ absurd (cc)
  | inr (v, found) ↦ absurd (cc)
]

-- The placeholder with the greatest int passes over it.
overflows :
    (vs : ArrayItems) (o : Option ℕ)
    → ((n : ℕ) → o ≡ some n → n < 9223372036854775808)
    → argument_after vs o ≡ err placeholder_overflow
    → o ≡ some 9223372036854775807
unfolding argument_after
overflows vs none small h = absurd (cc)
overflows vs (some n) small h = elim (Bool-cases (leb 9223372036854775808 (n + 1))) [
  | inl over ↦
      let less = small n refl in
      let here = leb-le 9223372036854775808 (n + 1) over in ap some (omega (arith, less, here))
  | inr fits ↦ elim (Bool-cases (leb (item_count vs) (n + 1))) [
    | inl beyond ↦ absurd (ground (arith, h))
    | inr within ↦ absurd (argument_at-ne vs (n + 1) (ground (arith, h)))
  ]
]

overflow :
    (vs : ArrayItems) → argument_after vs (some 9223372036854775807) ≡ err placeholder_overflow
unfolding argument_after
overflow vs = refl

-- A placeholder of format, at any arguments, panics exactly if what stands in it reads as the
-- greatest int of 64 bits.
pub placeholder-panics :
    (vs : ArrayItems) (inside : String)
    → (placeholder vs inside ≡ err placeholder_overflow) ↔ (atoi inside ≡ some 9223372036854775807)
unfolding placeholder
placeholder-panics vs inside =
    (overflows vs (atoi inside) (atoi_bounded inside), λ e. rw e (overflow vs))
