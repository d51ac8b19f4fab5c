-- ===== src/Workflow/Matrix/Includes.antt =====
-- What the includes do to the combinations.
use open_actions.Base.{
  ◌≤◌, String, Bool, true, false, ◌≡◌, inl, inr, refl, sym, ap, ◌∙◌, arith, Option, none, some,
  List, [], ◌∷◌, ◌++◌, all, length, ltb, eq_iff, ◌==◌, Bool-cases, if◌then◌else◌,
}
use open_actions.Base.Dict.{lookup, insert, lookup-insert}
use open_actions.Base.Result.{ok, >>=-eq-ok}
use open_actions.Workflow.Matrix.{
  Entry, max_matrix_jobs, max_map_entries, entries_compatible, put_all, apply_include,
  apply_includes,
}
use open_actions.Workflow.Value.{Value, values_equal, same_text, scalar_string}

-- What stands in `o` stands in `c` too, by its text.
abbrev pub Extends : Entry → Entry → Type 0
Extends c o =
    (k : String) (v : Value)
    → lookup k o ≡ some v
    → (w : Value) × (lookup k c ≡ some w) × (scalar_string w ≡ scalar_string v)

-- The combinations begin with one for each original, which it extends.
abbrev pub ExtendAll : List Entry → List Entry → Type 0
ExtendAll cs [] = Unit
ExtendAll [] (o ∷ os) = ⊥
ExtendAll (c ∷ cs) (o ∷ os) = Extends c o × ExtendAll cs os

same_text-eq : (a b : Option String) → same_text a b ≡ true → b ≡ a
same_text-eq none b h = absurd (cc)
same_text-eq (some x) none h = absurd (cc)
same_text-eq (some x) (some y) h = ap some (sym ((eq_iff x y).0 h))

values_equal-text : (a b : Value) → values_equal a b ≡ true → scalar_string b ≡ scalar_string a
unfolding values_equal
values_equal-text a b h = same_text-eq (scalar_string a) (scalar_string b) h

-- A field of an include that does not contradict the original.
abbrev is_compatible : Entry → String × Value → Bool
is_compatible original f = elim (lookup f.0 original) [
  | none ↦ true
  | some existing ↦ values_equal existing f.1
]

insert-Extends :
    (c o : Entry) (name : String) (value : Value)
    → Extends c o
    → is_compatible o (name, value) ≡ true
    → Extends (insert name value c) o
insert-Extends c o name value h e k v at = elim (Bool-cases (name == k)) [
  | inl same ↦
      let here : lookup name o ≡ some v = ap (λ x. lookup x o) ((eq_iff name k).0 same) ∙ at in
      let agree : values_equal v value ≡ true = ground (arith, here, e) in
      (value, lookup-insert c name k value ∙ rw same refl, values_equal-text v value agree)
  | inr other ↦
      let (w, there, text) = h k v at in (w, lookup-insert c name k value ∙ rw other there, text)
]

put_all-Extends :
    (c o include : Entry)
    → Extends c o
    → all (is_compatible o) include ≡ true
    → Extends (put_all c include) o
unfolding put_all
put_all-Extends c o [] h e = h
put_all-Extends c o ((name, value) ∷ include) h e =
    put_all-Extends (insert name value c) o include (insert-Extends c o name value h (ground arith))
      (ground arith)

apply_include-ExtendAll :
    (include : Entry) (os cs : List Entry) {out : List Entry} {applied : Bool}
    → ExtendAll cs os
    → apply_include include os cs ≡ ok (out, applied)
    → ExtendAll out os
unfolding apply_include entries_compatible
apply_include-ExtendAll include [] cs h e = tt
apply_include-ExtendAll include (o ∷ os) [] h e = absurd h
apply_include-ExtendAll include (o ∷ os) (c ∷ cs) {out} {applied} (here, h) e =
    let later = apply_include include os cs in
    elim (Bool-cases (entries_compatible o include)) [
      | inr apart ↦
          let (x, done, last) = >>=-eq-ok later _ (rw (apart, apply_include) at e) in
          let rest = apply_include-ExtendAll include os cs h done in
          let same : c ∷ x.0 ≡ out = ground (arith, last) in rw (← same) (here, rest)
      | inl fits ↦ elim (Bool-cases (ltb max_map_entries (length (put_all c include)))) [
        | inl big ↦ absurd (ground (arith, fits, big, e))
        | inr small ↦
            let (x, done, last) = >>=-eq-ok later _ (rw (fits, small, apply_include) at e) in
            let rest = apply_include-ExtendAll include os cs h done in
            let same : put_all c include ∷ x.0 ≡ out = ground (arith, last) in
            rw (← same) (put_all-Extends c o include here fits, rest)
      ]
    ]

append-ExtendAll : (cs ys os : List Entry) → ExtendAll cs os → ExtendAll (cs ++ ys) os
append-ExtendAll cs ys [] h = tt
append-ExtendAll [] ys (o ∷ os) h = absurd h
append-ExtendAll (c ∷ cs) ys (o ∷ os) (here, h) = (here, append-ExtendAll cs ys os h)

-- An include that applied to none is a combination of its own.
abbrev pub with_own : Bool → List Entry → Entry → List Entry
with_own applied changed include = if applied then changed else changed ++ include ∷ []

with_own-ExtendAll :
    (applied : Bool) (changed : List Entry) (include : Entry) (os : List Entry)
    → ExtendAll changed os
    → ExtendAll (with_own applied changed include) os
with_own-ExtendAll true changed include os h = h
with_own-ExtendAll false changed include os h = append-ExtendAll changed (include ∷ []) os h

pub ExtendAll-refl : (os : List Entry) → ExtendAll os os
ExtendAll-refl [] = tt
ExtendAll-refl (o ∷ os) = (λ k v at. (v, at, refl), ExtendAll-refl os)

-- The includes leave each combination an extension of its original, and no more than 256 of them.
pub apply_includes-ExtendAll :
    (os includes cs : List Entry) {out : List Entry}
    → ExtendAll cs os
    → length cs ≤ 256
    → apply_includes os includes cs ≡ ok out
    → ExtendAll out os × (length out ≤ 256)
unfolding apply_includes
apply_includes-ExtendAll os [] cs {out} h fits e =
    let same : cs ≡ out = ground arith in rw (← same) (h, fits)
apply_includes-ExtendAll os (include ∷ includes) cs {out} h fits e =
    let ((changed, applied), done, last) = >>=-eq-ok (apply_include include os cs) _ e in
    let more = with_own applied changed include in
    let kept = apply_include-ExtendAll include os cs h done in
    let kept' : ExtendAll more os = with_own-ExtendAll applied changed include os kept in
    elim (Bool-cases (ltb max_matrix_jobs (length more))) [
      | inl big ↦ absurd (ground (arith, big, last))
      | inr small ↦
          apply_includes-ExtendAll os includes more kept' (ground (arith, small))
            (ground (arith, small, last))
    ]
