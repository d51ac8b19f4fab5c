-- ===== src/Workflow/Inputs/Laws.antt =====
-- What resolveInputs gives.
use open_actions.Base.{
  ◌≤◌, String, true, not, ◌≡◌, ◌≢◌, ◌⊎◌, inl, inr, ap, sym, ◌∙◌, subst, arith, some, is_some, List,
  [], ◌∷◌, ◌==◌, eq_iff, length, ltb, Bool-cases,
}
use open_actions.Base.Dict.{lookup}
use open_actions.Base.Result.{ok, fail_if, >>=-eq-ok}
use open_actions.Workflow.Event.{WorkflowInput}
use open_actions.Workflow.Inputs.{
  Numbers, too_many_inputs, long_payload, unknown_input, Resolved, max_trigger_inputs,
  max_input_payload_length, check_known, payload_length, resolve_each, resolve_inputs,
}
use open_actions.Workflow.Inputs.Turn.{
  Passes, Turn, turn, turn_sound, turn-stays, turn-given, turn-keeps, turn-required, fail_if-eq-ok,
}
use mathlib.Core.List.{Memᴰ}

abbrev pub Definitions : Type 0
Definitions = List (String × WorkflowInput)

lookup-Memᴰ :
    (k : String) (defs : Definitions)
    → is_some (lookup k defs) ≡ true
    → (d : WorkflowInput) × Memᴰ (k, d) defs
unfolding lookup
lookup-Memᴰ k [] h = absurd (cc)
lookup-Memᴰ k ((name, d) ∷ defs) h = elim (Bool-cases (name == k)) [
  | inl here ↦ (d, Memᴰ.head (ap (λ x. (x, d)) (sym ((eq_iff name k).0 here))))
  | inr other ↦ let (e, m) = lookup-Memᴰ k defs (ground (arith, other, h)) in (e, Memᴰ.tail m)
]

-- Every input that is provided has a definition.
check_known-defined :
    (defs : Definitions) (provided : List (String × String))
    → check_known defs provided ≡ ok tt
    → (k v : String) → lookup k provided ≡ some v
    → is_some (lookup k defs) ≡ true
unfolding check_known lookup
check_known-defined defs [] h k v at = absurd (cc)
check_known-defined defs ((name, w) ∷ provided) h k v at =
    let (_, first, rest) =
      >>=-eq-ok (fail_if (not (is_some (lookup name defs))) (unknown_input name)) _ h in
    let known = fail_if-eq-ok _ _ first in
    elim (Bool-cases (name == k)) [
      | inl here ↦
          ap (λ x. is_some (lookup x defs)) (sym ((eq_iff name k).0 here)) ∙ ground (arith, known)
      | inr other ↦ check_known-defined defs provided rest k v (ground (arith, other, at))
    ]

module _ (numbers : Numbers) (event_name : String) (provided : List (String × String)) where
  each-stays :
      (defs : Definitions) (r : Resolved) {out : Resolved} (k : String)
      → resolve_each numbers event_name defs provided r ≡ ok out
      → is_some (lookup k r.0) ≡ true
      → is_some (lookup k out.0) ≡ true
  unfolding resolve_each
  each-stays [] r {out} k h at =
      let same : r ≡ out = ground arith in subst (λ x. is_some (lookup k x.0) ≡ true) same at
  each-stays ((name, d) ∷ defs) r k h at =
      let (s, t, rest) = turn numbers event_name name d defs provided r h in
      each-stays defs s k rest (turn-stays numbers event_name name d _ r.0 s.0 k t at)

  each-required :
      (defs : Definitions) (r : Resolved) {out : Resolved} (k : String) (d : WorkflowInput)
      → resolve_each numbers event_name defs provided r ≡ ok out
      → d.required ≡ true
      → Memᴰ (k, d) defs
      → is_some (lookup k out.0) ≡ true
  each-required [] r k d h needed m = elim m [ ]
  each-required ((name, e) ∷ defs) r k d h needed m =
      let (s, t, rest) = turn numbers event_name name e defs provided r h in
      elim m [
        | Memᴰ.head same ↦
            let at =
              turn-required numbers event_name name e _ r.0 s.0
                (ap (λ x. x.1.required) (sym same) ∙ needed) t in
            each-stays defs s k rest (ap (λ x. is_some (lookup x.0 s.0)) same ∙ at)
        | Memᴰ.tail later ↦ each-required defs s k d rest needed later
      ]

  each-keeps :
      (defs : Definitions) (r : Resolved) {out : Resolved} (k v : String)
      → resolve_each numbers event_name defs provided r ≡ ok out
      → lookup k provided ≡ some v
      → lookup k r.0 ≡ some v
      → lookup k out.0 ≡ some v
  unfolding resolve_each
  each-keeps [] r {out} k v h given at =
      let same : r ≡ out = ground arith in subst (λ x. lookup k x.0 ≡ some v) same at
  each-keeps ((name, d) ∷ defs) r k v h given at =
      let (s, t, rest) = turn numbers event_name name d defs provided r h in
      each-keeps defs s k v rest given
        (turn-keeps numbers event_name name d provided r.0 s.0 k v given t at)

  each-given :
      (defs : Definitions) (r : Resolved) {out : Resolved} (k v : String)
      → resolve_each numbers event_name defs provided r ≡ ok out
      → lookup k provided ≡ some v
      → is_some (lookup k defs) ≡ true
      → lookup k out.0 ≡ some v
  unfolding lookup
  each-given [] r k v h given known = absurd (cc)
  each-given ((name, d) ∷ defs) r {out} k v h given known =
      let (s, t, rest) = turn numbers event_name name d defs provided r h in
      elim (Bool-cases (name == k)) [
        | inl here ↦
            let same = (eq_iff name k).0 here in
            let now : lookup name provided ≡ some v = ap (λ x. lookup x provided) same ∙ given in
            let put =
              turn-given numbers event_name name d r.0 s.0 v
                (subst (λ o. Turn numbers event_name name d o r.0 s.0) now t) in
            each-keeps defs s k v rest given (ap (λ x. lookup x s.0) (sym same) ∙ put)
        | inr other ↦ each-given defs s k v rest given (ground (arith, other, known))
      ]

  each_sound :
      (defs : Definitions) (r : Resolved) {out : Resolved} (k v : String)
      → resolve_each numbers event_name defs provided r ≡ ok out
      → lookup k out.0 ≡ some v
      → (lookup k r.0 ≡ some v) ⊎ ((d : WorkflowInput) × Memᴰ (k, d) defs × Passes numbers d v)
  unfolding resolve_each
  each_sound [] r {out} k v h at =
      let same : r ≡ out = ground arith in inl (subst (λ x. lookup k x.0 ≡ some v) (sym same) at)
  each_sound ((name, d) ∷ defs) r k v h at =
      let (s, t, rest) = turn numbers event_name name d defs provided r h in
      elim (each_sound defs s k v rest at) [
        | inr (e, m, passes) ↦ inr (e, Memᴰ.tail m, passes)
        | inl before ↦ elim (turn_sound numbers event_name name d _ r.0 s.0 k v t before) [
          | inl earlier ↦ inl earlier
          | inr (same, passes) ↦ inr (d, Memᴰ.head (ap (λ x. (x, d)) (sym same)), passes)
        ]
      ]

nothing_there : (k v : String) → lookup k [] ≢ some v
unfolding lookup
nothing_there k v h = absurd (cc)

-- Where resolveInputs ends without an error, every input that was provided is kept, every required
-- input is there, every value is of an input that is defined, valid for its type, and no longer than
-- 65535 characters, and all names and values together are no longer than 65535.
pub resolve_inputs_lem :
    (numbers : Numbers) (event_name : String) (defs : Definitions)
    (provided : List (String × String)) (r : Resolved)
    → resolve_inputs numbers event_name defs provided ≡ ok r
    → ((k v : String) → lookup k provided ≡ some v → lookup k r.0 ≡ some v)
      × ((k : String) (d : WorkflowInput)
          → Memᴰ (k, d) defs
          → d.required ≡ true
          → is_some (lookup k r.0) ≡ true)
      × ((k v : String)
          → lookup k r.0 ≡ some v
          → (d : WorkflowInput) × Memᴰ (k, d) defs × Passes numbers d v)
      × (payload_length r.0 ≤ 65535)
unfolding resolve_inputs
resolve_inputs_lem numbers event_name defs provided r h =
    let (_, _, e1) =
      >>=-eq-ok (fail_if (ltb max_trigger_inputs (length provided)) too_many_inputs) _ h in
    let (_, known, e2) = >>=-eq-ok (check_known defs provided) _ e1 in
    let (s, each, e3) = >>=-eq-ok (resolve_each numbers event_name defs provided ([], [])) _ e2 in
    let (_, small, e4) =
      >>=-eq-ok (fail_if (ltb max_input_payload_length (payload_length s.0)) long_payload) _ e3 in
    let short = fail_if-eq-ok _ _ small in
    let same : s ≡ r = ground (arith, e4) in
    let each' =
      subst (λ x. resolve_each numbers event_name defs provided ([], []) ≡ ok x) same each in
    (
      λ k v given.
          each-given numbers event_name provided defs ([], []) k v each' given
            (check_known-defined defs provided known k v given),
      λ k d m needed. each-required numbers event_name provided defs ([], []) k d each' needed m,
      λ k v at. elim (each_sound numbers event_name provided defs ([], []) k v each' at) [
        | inl nowhere ↦ absurd (nothing_there k v nowhere)
        | inr found ↦ found
      ],
      subst (λ x. payload_length x.0 ≤ 65535) same (ground (arith, short)),
    )
