-- ===== src/Expression/Secrecy/Join.antt =====
-- The function join keeps secrets.
use open_actions.Base.{
  String, Bool, true, false, ◌≡◌, refl, sym, ap, ◌⊎◌, inl, inr, arith, ◌||◌, if◌then◌else◌,
}
use open_actions.Base.Result.{ok}
use open_actions.Expression.Value.{
  text, Value, scalar, array, object, ArrayItems, empty, item, sensitive, Runtime, scalar_string,
  string_value, join_string_value,
}
use open_actions.Expression.Calls.{
  argument_at, append_string, join_items, separator_text, join_separator, join_value, evaluate_join,
}
use open_actions.Expression.Secrecy.{
  scalars, arrays, objects, SameItems, no_items, both_items, Alike, Agree, IsHidden, Agree-IsHidden,
  Agree-bind, Agree-step, IsHidden-bind, Alike-Same, join_string_value-Same,
}
use open_actions.Expression.Secrecy.Calls.{
  AlikeItems, none_alike, all_alike, argument_at-AlikeItems, string_value-Alike,
}

module _ (r : Runtime) where
  join_items-secret :
      (separator : String) (after : Bool) (vs : ArrayItems) (result : String) (s : Bool)
      → s ≡ true
      → IsHidden (join_items r separator after vs result s)
  unfolding join_items
  join_items-secret separator after empty result s h = h
  join_items-secret separator after (item v vs) result s h =
      IsHidden-bind _ (if after then append_string result separator else ok result) λ a.
        IsHidden-bind _ (append_string a (join_string_value r v))
          λ b. join_items-secret separator true vs b (s || sensitive v) (ground arith)

  join_items-Alike :
      (separator : String) (after : Bool) {vs ws : ArrayItems} (result : String) (s t : Bool)
      → SameItems vs ws
      → Agree Alike
          (join_items r separator after vs result s)
          (join_items r separator after ws result t)
  unfolding join_items
  join_items-Alike separator after result s t no_items = inr (scalars (text result) s t)
  join_items-Alike separator after result s t (both_items {v} {w} {vs} {ws} i h) =
      Agree-step Alike _ _ (if after then append_string result separator else ok result) λ a.
        elim (Alike-Same v w i) [
          | inl (p, q) ↦
              Agree-IsHidden _ _
                (IsHidden-bind _ (append_string a (join_string_value r v))
                  λ b. join_items-secret separator true vs b (s || sensitive v) (ground arith))
                (IsHidden-bind _ (append_string a (join_string_value r w))
                  λ b. join_items-secret separator true ws b (t || sensitive w) (ground arith))
          | inr same ↦ rw (sym (join_string_value-Same r same)) (
              Agree-step Alike _ _ (append_string a (join_string_value r v))
                λ b. join_items-Alike separator true b (s || sensitive v) (t || sensitive w) h)
        ]

  -- The separators are the same, or both are marked.
  join_separator-Alike :
      {xs ys vs ws : ArrayItems}
      → SameItems xs ys
      → AlikeItems vs ws
      → (((join_separator r xs vs).1 ≡ true) × ((join_separator r ys ws).1 ≡ true))
        ⊎ ((join_separator r xs vs).0 ≡ (join_separator r ys ws).0)
  unfolding join_separator
  join_separator-Alike no_items k = inr refl
  join_separator-Alike (both_items i no_items) k = inr refl
  join_separator-Alike (both_items i (both_items j h)) none_alike = inr refl
  join_separator-Alike (both_items i (both_items j h)) (all_alike a none_alike) = inr refl
  join_separator-Alike (both_items i (both_items j h))
        (all_alike a (all_alike {v} {w} b none_alike)) =
      elim (string_value-Alike r b) [ inl e ↦ inl e | inr e ↦ inr (ap separator_text e) ]
  join_separator-Alike (both_items i (both_items j h)) (all_alike a (all_alike b (all_alike c k))) =
      inr refl

  join_value-secret :
      (v : Value) (vs : ArrayItems) → sensitive v ≡ true → IsHidden (join_value r v vs)
  unfolding join_value string_value
  join_value-secret (scalar x s) vs h = h
  join_value-secret (object i fs s) vs h = h
  join_value-secret (array i f xs s) vs h =
      join_items-secret (join_separator r xs vs).0 false xs "" (s || (join_separator r xs vs).1)
        (ground arith)

  join_value-Alike :
      {v w : Value} {vs ws : ArrayItems}
      → Alike v w
      → AlikeItems vs ws
      → Agree Alike (join_value r v vs) (join_value r w ws)
  unfolding join_value string_value
  join_value-Alike {v} {w} {vs} {ws} (inl (p, q)) k =
      Agree-IsHidden _ _ (join_value-secret v vs p) (join_value-secret w ws q)
  join_value-Alike (inr (scalars x s t)) k = inr (scalars (text (scalar_string r x)) s t)
  join_value-Alike (inr (objects i s t h)) k = inr (scalars (text "") s t)
  join_value-Alike {vs} {ws} (inr (arrays i f {xs} {ys} s t h)) k =
      elim (join_separator-Alike h k) [
        | inl (p, q) ↦
            Agree-IsHidden _ _
              (join_items-secret (join_separator r xs vs).0 false xs ""
                (s || (join_separator r xs vs).1) (ground arith))
              (join_items-secret (join_separator r ys ws).0 false ys ""
                (t || (join_separator r ys ws).1) (ground arith))
        | inr same ↦ rw (sym same) (
            join_items-Alike (join_separator r xs vs).0 false "" (s || (join_separator r xs vs).1)
              (t || (join_separator r ys ws).1) h)
      ]

  pub evaluate_join-Alike :
      {vs ws : ArrayItems}
      → AlikeItems vs ws
      → Agree Alike (evaluate_join r vs) (evaluate_join r ws)
  unfolding evaluate_join
  evaluate_join-Alike {vs} {ws} h =
      Agree-bind Alike _ _ (argument_at vs 0) (argument_at ws 0) (argument_at-AlikeItems 0 h)
        λ v w a. join_value-Alike a h
