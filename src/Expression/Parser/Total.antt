-- ===== src/Expression/Parser/Total.antt =====
-- The parser ends for every input, with a well-formed expression or an error of the syntax.
use open_actions.Base.{ℕ, zero, suc, ◌+◌, ◌*◌, ◌<◌, ◌≤◌, String, refl, inl, inr, arith, Bool-cases}
use open_actions.Base.Result.{ok}
use open_actions.Expression.Texts.{char_count}
use open_actions.Expression.Value.{Runtime}
use open_actions.Expression.Node.{
  end_token, identifier_token, left_paren_token, right_paren_token, left_bracket_token, dot_token,
  comma_token, wildcard_token, not_token, Node, index_node, binary_node,
}
use open_actions.Expression.Parser.{
  Parser, add_node, enter, leave, is_kind, Level, or_level, and_level, comparison_level, joins,
  advance, expect_paren, expect_bracket, is_call, property_after, parse_level, parse_operand,
  parse_operators, parse_unary, parse_postfix, parse_index, parse_nested, parse_primary,
  parse_arguments, more_arguments, start, parse_with, parse_expression,
}
use open_actions.Expression.Parser.Progress.{Ends, Ends-bind, Ends-if}
use open_actions.Expression.Evaluate.{is_wildcard}
use open_actions.Expression.Sound.{IsWellFormed}
use open_actions.Expression.Parser.Measure.{
  measure, Shrinks, AllShrink, Below, joins-operator, add_node-Shrinks, enter-Below, IsIndex,
  Ends-weaken, left_below, call_paren, read-Below, advance-Below, expect_paren-Below,
  expect_bracket-Below, word_node-Shrinks, parse_literal-Shrinks, read_wildcard,
  property_after-Shrinks,
}

module _ (r : Runtime) where
  -- The fuel that a level needs besides the twelve rounds for each character.
  abbrev cost : Level → ℕ
  cost or_level = 8
  cost and_level = 6
  cost comparison_level = 4

  cost-le : (level : Level) → cost level ≤ 8
  cost-le or_level = omega arith
  cost-le and_level = omega arith
  cost-le comparison_level = omega arith

  mutual
    unfolding parse_level is_wildcard

    pub parse_level-Shrinks :
        (fuel : ℕ) (level : Level) (p : Parser)
        → 12 * measure p + cost level ≤ fuel
        → Ends (Shrinks (measure p)) (parse_level r fuel level p)
    parse_level-Shrinks zero or_level p h = absurd (omega (arith, h))
    parse_level-Shrinks zero and_level p h = absurd (omega (arith, h))
    parse_level-Shrinks zero comparison_level p h = absurd (omega (arith, h))
    parse_level-Shrinks (suc fuel) level p h =
        let m = measure p in
        Ends-bind (Shrinks m) (Shrinks m) _ (parse_operand r fuel level p)
          (parse_operand-Shrinks fuel level p h)
          λ left k.
            parse_operators-Shrinks fuel level left.0 left.1 m k.0 k.1 (omega (arith, h, k.1))

    parse_operand-Shrinks :
        (fuel : ℕ) (level : Level) (p : Parser)
        → 12 * measure p + cost level ≤ suc fuel
        → Ends (Shrinks (measure p)) (parse_operand r fuel level p)
    parse_operand-Shrinks zero or_level p h = absurd (omega (arith, h))
    parse_operand-Shrinks zero and_level p h = absurd (omega (arith, h))
    parse_operand-Shrinks zero comparison_level p h = absurd (omega (arith, h))
    parse_operand-Shrinks (suc fuel) or_level p h =
        parse_level-Shrinks fuel and_level p (omega (arith, h))
    parse_operand-Shrinks (suc fuel) and_level p h =
        parse_level-Shrinks fuel comparison_level p (omega (arith, h))
    parse_operand-Shrinks (suc fuel) comparison_level p h =
        parse_unary-Shrinks fuel p (omega (arith, h))

    parse_operators-Shrinks :
        (fuel : ℕ) (level : Level) (left : Node) (p : Parser) (bound : ℕ)
        → IsWellFormed left
        → measure p < bound
        → 12 * measure p + 1 ≤ fuel
        → Ends (Shrinks bound) (parse_operators r fuel level left p)
    parse_operators-Shrinks zero level left p bound w h enough = absurd (omega (arith, enough))
    parse_operators-Shrinks (suc fuel) level left p bound w h enough =
        elim (Bool-cases (joins level p.current.kind)) [
          | inr ends ↦ rw (ends, Ends) (w, h)
          | inl goes ↦
              let m = measure p in
              let (is_op, one) = joins-operator level p.current.kind goes in
              let most = cost-le level in
              rw (goes, Ends)
                (Ends-bind (Below m) (Shrinks bound) _ (advance r p)
                  (read-Below r p m (omega (arith, one)))
                  λ q k.
                    Ends-bind (Shrinks (measure q)) (Shrinks bound) _ (parse_operand r fuel level q)
                      (parse_operand-Shrinks fuel level q (omega (arith, k, most, enough)))
                      λ right l.
                        Ends-bind (Shrinks m) (Shrinks bound) _
                          (add_node (binary_node p.current.kind left right.0) right.1)
                          (add_node-Shrinks _ right.1 m (is_op, w, l.0) (omega (arith, k, l.1)))
                          λ joined j.
                            parse_operators-Shrinks fuel level joined.0 joined.1 bound j.0
                              (omega (arith, h, j.1)) (omega (arith, enough, j.1)))
        ]

    parse_unary-Shrinks :
        (fuel : ℕ) (p : Parser)
        → 12 * measure p + 2 ≤ fuel
        → Ends (Shrinks (measure p)) (parse_unary r fuel p)
    parse_unary-Shrinks zero p h = absurd (omega (arith, h))
    parse_unary-Shrinks (suc fuel) p h = elim (Bool-cases (is_kind not_token p)) [
      | inl negated ↦
          let m = measure p in
          rw (negated, Ends)
            (Ends-bind (Below m) (Shrinks m) _ (advance r p)
              (advance-Below r not_token p m refl negated (omega arith))
              λ q k. Ends-bind (Below m) (Shrinks m) _ (enter q) (enter-Below q m k) λ t l.
                Ends-bind (Shrinks (measure t)) (Shrinks m) _ (parse_unary r fuel t)
                  (parse_unary-Shrinks fuel t (omega (arith, l, h)))
                  λ operand j.
                    add_node-Shrinks _ (leave operand.1) m j.0
                      (left_below operand.1 m (omega (arith, l, j.1))))
      | inr other ↦
          let m = measure p in
          rw (other, Ends)
            (Ends-bind (Shrinks m) (Shrinks m) _ (parse_primary r fuel p)
              (parse_primary-Shrinks fuel p (omega (arith, h)))
              λ result k.
                parse_postfix-Shrinks fuel result.0 result.1 m k.0 k.1 (omega (arith, h, k.1)))
    ]

    parse_postfix-Shrinks :
        (fuel : ℕ) (result : Node) (p : Parser) (bound : ℕ)
        → IsWellFormed result
        → measure p < bound
        → 12 * measure p + 1 ≤ fuel
        → Ends (Shrinks bound) (parse_postfix r fuel result p)
    parse_postfix-Shrinks zero result p bound w h enough = absurd (omega (arith, enough))
    parse_postfix-Shrinks (suc fuel) result p bound w h enough =
        elim (Bool-cases (is_kind dot_token p)) [
          | inl dot ↦
              let m = measure p in
              rw (dot, Ends)
                (Ends-bind (Below m) (Shrinks bound) _ (advance r p)
                  (advance-Below r dot_token p m refl dot (omega arith))
                  λ q k.
                    Ends-bind (Shrinks m) (Shrinks bound) _ (property_after r result q)
                      (property_after-Shrinks r result q m w (omega (arith, k)))
                      λ next j.
                        parse_postfix-Shrinks fuel next.0 next.1 bound j.0 (omega (arith, h, j.1))
                          (omega (arith, enough, j.1)))
          | inr no_dot ↦ elim (Bool-cases (is_kind left_bracket_token p)) [
            | inl bracket ↦
                let m = measure p in
                rw (no_dot, bracket, Ends)
                  (Ends-bind (Below m) (Shrinks bound) _ (advance r p)
                    (advance-Below r left_bracket_token p m refl bracket (omega arith))
                    λ q k.
                      Ends-bind (IsIndex (measure q)) (Shrinks bound) _ (parse_index r fuel q)
                        (parse_index-IsIndex fuel q (omega (arith, enough, k)))
                        λ index l.
                          Ends-bind (Below m) (Shrinks bound) _ (expect_bracket r index.1)
                            (expect_bracket-Below r index.1 m (omega (arith, k, l.1)))
                            λ t j.
                              Ends-bind (Shrinks m) (Shrinks bound) _
                                (add_node (index_node result index.0) t)
                                (add_node-Shrinks _ t m (w, l.0) j)
                                λ next i.
                                  parse_postfix-Shrinks fuel next.0 next.1 bound i.0
                                    (omega (arith, h, i.1)) (omega (arith, enough, i.1)))
            | inr neither ↦ rw (no_dot, neither, Ends) (w, h)
          ]
        ]

    parse_index-IsIndex :
        (fuel : ℕ) (p : Parser)
        → 12 * measure p + 10 ≤ fuel
        → Ends (IsIndex (measure p)) (parse_index r fuel p)
    parse_index-IsIndex zero p h = absurd (omega (arith, h))
    parse_index-IsIndex (suc fuel) p h = elim (Bool-cases (is_kind wildcard_token p)) [
      | inl wild ↦
          rw (wild, Ends)
            (read_wildcard r (IsIndex (measure p)) (λ n q. ok (n, q)) p (measure p) wild
              (omega arith) λ q k. (inl refl, k))
      | inr other ↦
          rw (other, Ends)
            (Ends-weaken (Shrinks (measure p)) (IsIndex (measure p)) (parse_nested r fuel p)
              (parse_nested-Shrinks fuel p (omega (arith, h))) λ x k. (inr k.0, k.1))
    ]

    parse_nested-Shrinks :
        (fuel : ℕ) (p : Parser)
        → 12 * measure p + 9 ≤ fuel
        → Ends (Shrinks (measure p)) (parse_nested r fuel p)
    parse_nested-Shrinks zero p h = absurd (omega (arith, h))
    parse_nested-Shrinks (suc fuel) p h =
        let m = measure p in
        Ends-bind (Below (suc m)) (Shrinks m) _ (enter p) (enter-Below p (suc m) (omega arith))
          λ q k.
            Ends-bind (Shrinks (measure q)) (Shrinks m) _ (parse_level r fuel or_level q)
              (parse_level-Shrinks fuel or_level q (omega (arith, k, h)))
              λ inner l. (l.0, left_below inner.1 m (omega (arith, k, l.1)))

    parse_primary-Shrinks :
        (fuel : ℕ) (p : Parser)
        → 12 * measure p + 1 ≤ fuel
        → Ends (Shrinks (measure p)) (parse_primary r fuel p)
    parse_primary-Shrinks zero p h = absurd (omega (arith, h))
    parse_primary-Shrinks (suc fuel) p h = elim (Bool-cases (is_kind identifier_token p)) [
      | inl name ↦
          let m = measure p in
          rw (name, Ends)
            (Ends-bind (Below m) (Shrinks m) _ (advance r p)
              (advance-Below r identifier_token p m refl name (omega arith))
              λ q k. elim (Bool-cases (is_call r p.current.text q)) [
                | inl call ↦
                    rw (call, Ends)
                      (Ends-bind (Below (measure q)) (Shrinks m) _ (advance r q)
                        (advance-Below r left_paren_token q (measure q) refl
                          (call_paren r p.current.text q call) (omega arith))
                        λ t l.
                          Ends-bind (AllShrink (suc (measure t))) (Shrinks m) _
                            (parse_arguments r fuel t)
                            (parse_arguments-AllShrink fuel t (omega (arith, h, k, l)))
                            λ vs j.
                              Ends-bind (Below m) (Shrinks m) _ (expect_paren r vs.1)
                                (expect_paren-Below r vs.1 m (omega (arith, k, l, j.1)))
                                λ u i. add_node-Shrinks _ u m j.0 i)
                | inr word ↦ rw (word, Ends) (word_node-Shrinks r p.current.text q m k)
              ])
      | inr no_name ↦ elim (Bool-cases (is_kind left_paren_token p)) [
        | inl paren ↦
            let m = measure p in
            rw (no_name, paren, Ends)
              (Ends-bind (Below m) (Shrinks m) _ (advance r p)
                (advance-Below r left_paren_token p m refl paren (omega arith))
                λ q k.
                  Ends-bind (Shrinks (measure q)) (Shrinks m) _ (parse_nested r fuel q)
                    (parse_nested-Shrinks fuel q (omega (arith, h, k)))
                    λ inner l.
                      Ends-bind (Below m) (Shrinks m) _ (expect_paren r inner.1)
                        (expect_paren-Below r inner.1 m (omega (arith, k, l.1))) λ t j. (l.0, j))
        | inr neither ↦ rw (no_name, neither, Ends) (parse_literal-Shrinks r p)
      ]
    ]

    parse_arguments-AllShrink :
        (fuel : ℕ) (p : Parser)
        → 12 * measure p + 11 ≤ fuel
        → Ends (AllShrink (suc (measure p))) (parse_arguments r fuel p)
    parse_arguments-AllShrink zero p h = absurd (omega (arith, h))
    parse_arguments-AllShrink (suc fuel) p h = elim (Bool-cases (is_kind right_paren_token p)) [
      | inl nothing ↦ rw (nothing, Ends) (tt, omega arith)
      | inr something ↦ rw (something, Ends) (more_arguments-AllShrink fuel p (omega (arith, h)))
    ]

    more_arguments-AllShrink :
        (fuel : ℕ) (p : Parser)
        → 12 * measure p + 10 ≤ fuel
        → Ends (AllShrink (suc (measure p))) (more_arguments r fuel p)
    more_arguments-AllShrink zero p h = absurd (omega (arith, h))
    more_arguments-AllShrink (suc fuel) p h =
        let m = measure p in
        Ends-bind (Shrinks m) (AllShrink (suc m)) _ (parse_nested r fuel p)
          (parse_nested-Shrinks fuel p (omega (arith, h)))
          λ first k. elim (Bool-cases (is_kind comma_token first.1)) [
            | inr ends ↦ rw (ends, Ends) ((k.0, tt), omega (arith, k.1))
            | inl comma ↦
                rw (comma, Ends)
                  (Ends-bind (Below m) (AllShrink (suc m)) _ (advance r first.1)
                    (advance-Below r comma_token first.1 m refl comma (omega (arith, k.1)))
                    λ q l.
                      Ends-bind (AllShrink (suc (measure q))) (AllShrink (suc m)) _
                        (more_arguments r fuel q)
                        (more_arguments-AllShrink fuel q (omega (arith, h, l)))
                        λ rest j. ((k.0, j.0), omega (arith, l, j.1)))
          ]

  parse_with-IsWellFormed :
      (fuel : ℕ) (input : String)
      → 12 * char_count input + 12 ≤ fuel
      → Ends IsWellFormed (parse_with r fuel input)
  unfolding parse_with start
  parse_with-IsWellFormed fuel input h =
      let m = suc (char_count input) in
      Ends-bind (Below m) IsWellFormed _ (advance r (start r input))
        (read-Below r (start r input) m (omega arith))
        λ p k.
          Ends-bind (Shrinks (measure p)) IsWellFormed _ (parse_level r fuel or_level p)
            (parse_level-Shrinks fuel or_level p (omega (arith, h, k)))
            λ result l. Ends-if IsWellFormed (is_kind end_token result.1) _ _ (λ e. l.0) (λ e. tt)

  -- The parser ends at every input, never for want of fuel: with an expression that has wildcards
  -- only as indices and no operators but the eight binary ones, or with an error of the syntax.
  pub parse_expression-IsWellFormed :
      (input : String) → Ends IsWellFormed (parse_expression r input)
  unfolding parse_expression
  parse_expression-IsWellFormed input =
      parse_with-IsWellFormed (12 * char_count input + 12) input (omega arith)
