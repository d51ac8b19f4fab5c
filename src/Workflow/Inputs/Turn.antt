-- ===== src/Workflow/Inputs/Turn.antt =====
-- One turn of the loop of resolveInputs.
use open_actions.Base.{
  ◌≤◌, String, Bool, true, false, not, ◌≡◌, ◌≢◌, ◌⊎◌, inl, inr, refl, ap, sym, ◌∙◌, subst, arith,
  Option, none, some, is_some, List, ◌∷◌, ◌==◌, eq_iff, eq_refl, ltb, Bool-cases, Option-cases,
}
use open_actions.Base.Dict.{lookup, insert, lookup-insert}
use open_actions.Base.Result.{ok, fail_if, >>=-eq-ok}
use open_actions.Workflow.Event.{WorkflowInput}
use open_actions.Workflow.Inputs.{
  Numbers, long_input, invalid_input, Resolved, max_input_value_length, rune_count, input_type_of,
  value_of, valid_input_value, input_expression_value, add_input, resolve_each,
}

-- A test that does not fail.
pub fail_if-eq-ok : {E : Type 0} (b : Bool) (e : E) → fail_if b e ≡ ok tt → b ≡ false
fail_if-eq-ok true e h = absurd (cc)
fail_if-eq-ok false e h = refl

module _ (numbers : Numbers) where
  -- A value of a definition that passes the checks.
  abbrev pub Passes : WorkflowInput → String → Type 0
  Passes d v =
      (valid_input_value numbers (input_type_of d) v d.options ≡ true) × (rune_count v ≤ 65535)

  add_input-some :
      (name : String) (d : WorkflowInput) (r : Resolved) (v : String) {s : Resolved}
      → add_input numbers name d r (some v) ≡ ok s
      → Passes d v × (insert name v r.0 ≡ s.0)
  unfolding add_input
  add_input-some name d r v {s} h =
      let (_, short, e1) =
        >>=-eq-ok (fail_if (ltb max_input_value_length (rune_count v)) (long_input name)) _ h in
      let (_, valid, e2) =
        >>=-eq-ok
          (fail_if (not (valid_input_value numbers (input_type_of d) v d.options))
            (invalid_input name))
          _ e1 in
      let small = fail_if-eq-ok _ _ short in
      let good = fail_if-eq-ok _ _ valid in
      let same : (
        insert name v r.0,
        insert name (input_expression_value numbers (input_type_of d) v) r.1,
      )
          ≡ s =
        ground arith in
      ((ground (arith, good), ground (arith, small)), ap (λ x. x.0) same)

  add_input-none :
      (name : String) (d : WorkflowInput) (r : Resolved) {s : Resolved}
      → add_input numbers name d r none ≡ ok s
      → r.0 ≡ s.0
  unfolding add_input
  add_input-none name d r {s} h = let same : r ≡ s = ground arith in ap (λ x. x.0) same

  -- What a turn of the loop does to the inputs that were resolved.
  pub data Turn (event_name name : String) (d : WorkflowInput) (given : Option String)
      (r s : List (String × String)) : Type 0 where
    skipped : value_of event_name name d given ≡ ok none → r ≡ s → Turn event_name name d given r s
    added :
        (v : String)
        → value_of event_name name d given ≡ ok (some v)
        → Passes d v
        → insert name v r ≡ s
        → Turn event_name name d given r s

  pub turn :
      (event_name name : String) (d : WorkflowInput) (ds : List (String × WorkflowInput))
      (provided : List (String × String)) (r : Resolved) {out : Resolved}
      → resolve_each numbers event_name ((name, d) ∷ ds) provided r ≡ ok out
      → (s : Resolved) × Turn event_name name d (lookup name provided) r.0 s.0
        × (resolve_each numbers event_name ds provided s ≡ ok out)
  unfolding resolve_each
  turn event_name name d ds provided r h =
      let (o, valued, e1) = >>=-eq-ok (value_of event_name name d (lookup name provided)) _ h in
      let (s, put, e2) = >>=-eq-ok (add_input numbers name d r o) _ e1 in
      elim (Option-cases o) [
        | inl bare ↦
            (s, skipped (valued ∙ ap ok bare) (add_input-none name d r (rw bare at put)), e2)
        | inr (v, there) ↦
            let (passes, same) = add_input-some name d r v (rw there at put) in
            (s, added v (valued ∙ ap ok there) passes same, e2)
      ]

  module _ (event_name name : String) (d : WorkflowInput) where
    pub turn_sound :
        (given : Option String) (r s : List (String × String)) (k v : String)
        → Turn event_name name d given r s
        → lookup k s ≡ some v
        → (lookup k r ≡ some v) ⊎ ((name ≡ k) × Passes d v)
    turn_sound given r s k v (skipped _ same) at = inl (ap (lookup k) same ∙ at)
    turn_sound given r s k v (added w _ passes same) at = elim (Bool-cases (name == k)) [
      | inl here ↦
          let put = lookup-insert r name k w in
          let equal : w ≡ v = ground (arith, put, here, same, at) in
          inr ((eq_iff name k).0 here, subst (λ x. Passes d x) equal passes)
      | inr other ↦ let put = lookup-insert r name k w in inl (ground (arith, put, other, same, at))
    ]

    pub turn-stays :
        (given : Option String) (r s : List (String × String)) (k : String)
        → Turn event_name name d given r s
        → is_some (lookup k r) ≡ true
        → is_some (lookup k s) ≡ true
    turn-stays given r s k (skipped _ same) at = ap (λ x. is_some (lookup k x)) (sym same) ∙ at
    turn-stays given r s k (added w _ _ same) at =
        let put = lookup-insert r name k w in
        ap (λ x. is_some (lookup k x)) (sym same) ∙ ground (arith, put, at)

    value_of-given : (v : String) → value_of event_name name d (some v) ≡ ok (some v)
    unfolding value_of
    value_of-given v = refl

    pub turn-given :
        (r s : List (String × String)) (v : String)
        → Turn event_name name d (some v) r s
        → lookup name s ≡ some v
    turn-given r s v (skipped bare _) = absurd (ground (arith, bare, value_of-given v))
    turn-given r s v (added w there _ same) =
        let equal : w ≡ v = ground (arith, there, value_of-given v) in
        let put = lookup-insert r name name w in
        ap (lookup name) (sym same) ∙ ground (arith, put, eq_refl name, equal)

    keeps_other :
        (given : Option String) (r s : List (String × String)) (k v : String)
        → name == k ≡ false
        → Turn event_name name d given r s
        → lookup k r ≡ some v
        → lookup k s ≡ some v
    keeps_other given r s k v other (skipped _ same) at = ap (lookup k) (sym same) ∙ at
    keeps_other given r s k v other (added w _ _ same) at =
        let put = lookup-insert r name k w in
        ap (lookup k) (sym same) ∙ ground (arith, put, other, at)

    pub turn-keeps :
        (provided r s : List (String × String)) (k v : String)
        → lookup k provided ≡ some v
        → Turn event_name name d (lookup name provided) r s
        → lookup k r ≡ some v
        → lookup k s ≡ some v
    turn-keeps provided r s k v given t at = elim (Bool-cases (name == k)) [
      | inl here ↦
          let same = (eq_iff name k).0 here in
          let now : lookup name provided ≡ some v = ap (λ x. lookup x provided) same ∙ given in
          ap (λ x. lookup x s) (sym same)
          ∙ turn-given r s v (subst (λ o. Turn event_name name d o r s) now t)
      | inr other ↦ keeps_other (lookup name provided) r s k v other t at
    ]

    -- A required input is there, or it is an error.
    value_of-required :
        (given : Option String) → d.required ≡ true → value_of event_name name d given ≢ ok none
    unfolding value_of
    value_of-required none needed h = absurd (ground (arith, needed, h))
    value_of-required (some v) needed h = absurd (ground (arith, h))

    pub turn-required :
        (given : Option String) (r s : List (String × String))
        → d.required ≡ true
        → Turn event_name name d given r s
        → is_some (lookup name s) ≡ true
    turn-required given r s needed (skipped bare _) = absurd (value_of-required given needed bare)
    turn-required given r s needed (added w _ _ same) =
        let put = lookup-insert r name name w in
        ap (λ x. is_some (lookup name x)) (sym same) ∙ ground (arith, put, eq_refl name)
