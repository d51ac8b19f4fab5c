-- ===== src/Expression/Template/Total.antt =====
-- Parsing a template ends for every input, with a program whose expressions are well-formed.
use Prim.Native.Char.{Char, code}
use Prim.Native.String.{[], ◌∷◌}
use open_actions.Base.{
  ℕ, zero, suc, ◌<◌, ◌≤◌, String, Bool, true, false, not, ◌≡◌, refl, subst, ◌⊎◌, inl, inr, arith,
  ◌&&◌, List, ◌==◌, eqb, starts_with, Bool-cases, if◌then◌else◌,
}
use open_actions.Base.Result.{ok, err}
use open_actions.Expression.Texts.{drop_first, char_count}
use open_actions.Expression.Value.{Runtime}
use open_actions.Expression.Lexer.{out_of_fuel}
use open_actions.Expression.Parser.{parse_expression}
use open_actions.Expression.Parser.Progress.{Ends, Ends-bind, Ends-if}
use open_actions.Expression.Parser.Total.{parse_expression-IsWellFormed}
use open_actions.Expression.Evaluate.{Context}
use open_actions.Expression.Program.{
  Segment, copied, expression, Program, evaluate, validate_segments,
}
use open_actions.Expression.Sound.{IsWellFormed, IsSafe}
use open_actions.Expression.Sound.Program.{AreSegments, IsOneExpression, IsParsed, evaluate-IsSafe}
use open_actions.Expression.Template.{
  Opening, closed, opened, after_char, find_opening, Ended, put_before, expression_end, text_before,
  is_whole, parse_segments, program_of, parse, parse_condition,
}

-- The text after an opening is shorter than the whole.
abbrev Shorter : ℕ → Opening → Type 0
Shorter n closed = Unit
Shorter n (opened before after) = char_count after < n

drop_first-le : (s : String) → char_count (drop_first s) ≤ char_count s
unfolding drop_first char_count
drop_first-le [] = omega arith
drop_first-le (c ∷ s) = omega arith

Shorter-if :
    (b : Bool) (n : ℕ) (x y : Opening) → Shorter n x → Shorter n y → Shorter n (if b then x else y)
Shorter-if true n x y h k = h
Shorter-if false n x y h k = k

after_char-Shorter :
    (c : Char) (n : ℕ) (o : Opening) → Shorter n o → Shorter (suc n) (after_char c o)
unfolding after_char
after_char-Shorter c n closed h = tt
after_char-Shorter c n (opened before after) h = omega (arith, h)

find_opening-Shorter : (s : String) → Shorter (char_count s) (find_opening s)
unfolding find_opening char_count
find_opening-Shorter [] = tt
find_opening-Shorter (c ∷ s) =
    let one = drop_first-le s in
    let two = drop_first-le (drop_first s) in
    Shorter-if (starts_with (c ∷ s) "${{") (suc (char_count s))
      (opened [] (drop_first (drop_first s))) _ (omega (arith, one, two))
      (after_char-Shorter c (char_count s) (find_opening s) (find_opening-Shorter s))

-- What is left after an expression.
abbrev Left : ℕ → String × String → Type 0
Left n x = char_count x.1 ≤ n

put_before-Left :
    (c : Char) (m n : ℕ) (x : Ended) → m ≤ n → Ends (Left m) x → Ends (Left n) (put_before c x)
unfolding put_before
put_before-Left c m n (ok (source, rest)) h k = omega (arith, h, k)
put_before-Left c m n (err out_of_fuel) h k = k
put_before-Left c m n (err _) h k = tt

expression_end-Left :
    (quoted : Bool) (s : String) → Ends (Left (char_count s)) (expression_end quoted s)
unfolding expression_end char_count
expression_end-Left quoted [] = tt
expression_end-Left quoted (c ∷ []) = tt
expression_end-Left quoted (c ∷ d ∷ s) =
    let skipped = expression_end-Left quoted s in
    let next = expression_end-Left quoted (d ∷ s) in
    let toggled = expression_end-Left (not quoted) (d ∷ s) in
    let n = suc (char_count s) in
    let P = Left (suc n) in
    Ends-if P (eqb (code c) 39) _ _
      (λ e.
        Ends-if P (quoted && eqb (code d) 39) _ _
          (λ e.
            put_before-Left c n (suc n) _ (omega arith)
              (put_before-Left d (char_count s) n (expression_end quoted s) (omega arith) skipped))
          (λ e.
            put_before-Left c n (suc n) (expression_end (not quoted) (d ∷ s)) (omega arith)
              toggled))
      (λ e.
        Ends-if P quoted _ _
          (λ e. put_before-Left c n (suc n) (expression_end quoted (d ∷ s)) (omega arith) next)
          (λ e.
            Ends-if P (starts_with (c ∷ d ∷ s) "${{") _ _ (λ e. tt)
              (λ e.
                Ends-if P (starts_with (c ∷ d ∷ s) "}}") _ _ (λ e. omega arith)
                  (λ e.
                    put_before-Left c n (suc n) (expression_end quoted (d ∷ s)) (omega arith)
                      next))))

text_before-AreSegments :
    (before : String) (rest : List Segment)
    → AreSegments rest
    → AreSegments (text_before before rest)
unfolding text_before
text_before-AreSegments before rest h = elim (Bool-cases (before == "")) [
  | inl nothing ↦ rw nothing h
  | inr something ↦ rw something h
]

is_whole-IsOneExpression :
    (segments : List Segment) → is_whole segments ≡ true → IsOneExpression segments
unfolding is_whole
is_whole-IsOneExpression List.[] h = absurd (cc)
is_whole-IsOneExpression (List.◌∷◌ (copied t) rest) h = absurd (cc)
is_whole-IsOneExpression (List.◌∷◌ (expression n) List.[]) h = tt
is_whole-IsOneExpression (List.◌∷◌ (expression n) (List.◌∷◌ m rest)) h = absurd (cc)

Opening-cases :
    (o : Opening) {n : ℕ}
    → Shorter n o
    → (o ≡ closed)
      ⊎ ((before : String) × (after : String) × (o ≡ opened before after) × (char_count after < n))
Opening-cases closed h = inl refl
Opening-cases (opened before after) h = inr (before, after, refl, h)

module _ (r : Runtime) where
  parse_segments-AreSegments :
      (fuel : ℕ) (input : String)
      → char_count input < fuel
      → Ends AreSegments (parse_segments r fuel input)
  unfolding parse_segments
  parse_segments-AreSegments zero input h = absurd (omega (arith, h))
  parse_segments-AreSegments (suc fuel) input h =
      Ends-if AreSegments (input == "") _ _ (λ e. tt)
        λ e. elim (Opening-cases (find_opening input) (find_opening-Shorter input)) [
          | inl plain ↦ rw (plain, Ends) (tt)
          | inr (before, after, found, shorter) ↦
              rw (found, Ends)
                (Ends-bind (Left (char_count after)) AreSegments _ (expression_end false after)
                  (expression_end-Left false after)
                  λ x k.
                    Ends-if AreSegments (r.trim_space x.0 == "") _ _ (λ e. tt)
                      λ e.
                        Ends-bind IsWellFormed AreSegments _ (parse_expression r (r.trim_space x.0))
                          (parse_expression-IsWellFormed r (r.trim_space x.0))
                          λ n w.
                            Ends-bind AreSegments AreSegments _ (parse_segments r fuel x.1)
                              (parse_segments-AreSegments fuel x.1 (omega (arith, h, shorter, k)))
                              λ rest l.
                                text_before-AreSegments before (List.◌∷◌ (expression n) rest)
                                  (w, l))
        ]

  program_of-IsParsed :
      (input : String) (segments : List Segment)
      → AreSegments segments
      → IsParsed (program_of input segments)
  unfolding program_of
  program_of-IsParsed input segments h = elim (Bool-cases (input == "")) [
    | inl nothing ↦ rw (nothing, IsParsed) (tt, λ (e : false ≡ true). absurd (cc))
    | inr something ↦ rw (something, IsParsed) (h, λ e. is_whole-IsOneExpression segments e)
  ]

  -- The parsing of a template ends at every input, never for want of fuel: with a program that has
  -- well-formed expressions and is one expression if it is whole, or with an error of the syntax.
  pub parse-IsParsed : (input : String) → Ends IsParsed (parse r input)
  unfolding parse
  parse-IsParsed input =
      Ends-bind AreSegments IsParsed _ (parse_segments r (suc (char_count input)) input)
        (parse_segments-AreSegments (suc (char_count input)) input (omega arith))
        λ segments h. program_of-IsParsed input segments h

  pub parse_condition-IsParsed : (input : String) → Ends IsParsed (parse_condition r input)
  unfolding parse_condition
  parse_condition-IsParsed input =
      let trimmed = r.trim_space input in
      Ends-if IsParsed (starts_with trimmed "${{") _ _
        (λ e.
          Ends-bind IsParsed IsParsed _ (parse r trimmed) (parse-IsParsed trimmed)
            λ p h. Ends-if IsParsed p.whole _ _ (λ d. h) (λ d. tt))
        (λ e.
          Ends-if IsParsed (trimmed == "") _ _ (λ d. tt)
            (λ d.
              Ends-bind IsWellFormed IsParsed _ (parse_expression r trimmed)
                (parse_expression-IsWellFormed r trimmed) λ n w. ((w, tt), λ b. tt)))

  -- A template is parsed, and the program passes the validation for the availability of a context.
  -- Then it evaluates in that context, at any values and any status, to a result or to an error that
  -- is no unsupported function or operator, no misplaced wildcard, and no panic for want of an
  -- argument or an expression.
  pub evaluate-parse-IsSafe :
      (input : String) {p : Program} (c : Context)
      → parse r input ≡ ok p
      → validate_segments r c.availability p.segments ≡ ok tt
      → IsSafe (evaluate r p c)
  evaluate-parse-IsSafe input {p} c parsed valid =
      evaluate-IsSafe r p c (subst (Ends IsParsed) parsed (parse-IsParsed input)) valid
