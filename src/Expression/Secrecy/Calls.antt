-- ===== src/Expression/Secrecy/Calls.antt =====
-- The functions of expressions keep secrets: at arguments that cannot be told apart they give values
-- that cannot be told apart.
use open_actions.Base.{
  ℕ, zero, suc, Bool, true, false, ◌≡◌, refl, sym, ◌⊎◌, inl, inr, arith, ◌||◌, starts_with,
  Bool-cases,
}
use open_actions.Base.Result.{Result, ok, err}
use open_actions.Expression.Value.{
  Scalar, boolean, Value, scalar, array, object, ArrayItems, empty, item, sensitive, Runtime,
  string_value,
}
use open_actions.Expression.Access.{item_at, equal}
use open_actions.Expression.Node.{EvalError, not_scalar}
use open_actions.Expression.Hash.{found_or}
use open_actions.Expression.Calls.{
  argument_at, scalar_text, contains_item, contains_value, evaluate_contains, evaluate_starts_with,
  ends_with, evaluate_ends_with,
}
use open_actions.Expression.Secrecy.{
  Same, scalars, arrays, objects, SameItems, no_items, both_items, BothSecret, Alike, Agree,
  IsHidden, Agree-IsHidden, Agree-bind, Alike-scalar, Alike-Same, string_value-Same,
}
use open_actions.Expression.Secrecy.Read.{equal-Same}

-- Arguments that cannot be told apart, one by one.
pub data AlikeItems : ArrayItems → ArrayItems → Type 0 where
  none_alike : AlikeItems empty empty
  all_alike :
      {v w : Value} {vs ws : ArrayItems}
      → Alike v w
      → AlikeItems vs ws
      → AlikeItems (item v vs) (item w ws)

pub argument_at-AlikeItems :
    {vs ws : ArrayItems} (n : ℕ)
    → AlikeItems vs ws
    → Agree Alike (argument_at vs n) (argument_at ws n)
unfolding argument_at found_or item_at
argument_at-AlikeItems n none_alike = tt
argument_at-AlikeItems zero (all_alike a h) = a
argument_at-AlikeItems (suc n) (all_alike a h) = argument_at-AlikeItems n h

-- The texts of two values, whichever they are if both are secret.
abbrev pub TextsAlike {ℓ} : {A : Type ℓ} → Value → Value → A → A → Type ℓ
TextsAlike v w a b = BothSecret v w ⊎ (a ≡ b)

pub Agree-refl {ℓ κ} :
    {A : Type ℓ} (R : A → A → Type κ) (m : Result EvalError A) → ((a : A) → R a a) → Agree R m m
Agree-refl R (ok a) h = h a
Agree-refl R (err e) h = tt

Agree-secret {ℓ} :
    {A : Type ℓ} (v w : Value) (m n : Result EvalError A)
    → BothSecret v w
    → Agree (TextsAlike v w) m n
Agree-secret v w (ok a) (ok b) h = inl h
Agree-secret v w (ok a) (err e) h = tt
Agree-secret v w (err e) n h = tt

-- What is made of two values and of their texts.
pub Alike-both :
    (v w a b : Value) (x y : Scalar)
    → BothSecret v w ⊎ (BothSecret a b ⊎ (x ≡ y))
    → Alike (scalar x (sensitive v || sensitive a)) (scalar y (sensitive w || sensitive b))
Alike-both v w a b x y (inl (p, q)) = inl (ground arith, ground arith)
Alike-both v w a b x y (inr (inl (p, q))) = inl (ground arith, ground arith)
Alike-both v w a b x y (inr (inr e)) =
    Alike-scalar x y (sensitive v || sensitive a) (sensitive w || sensitive b) (inr e)

module _ (r : Runtime) where
  pub string_value-Alike :
      {v w : Value} → Alike v w → TextsAlike v w (string_value r v) (string_value r w)
  string_value-Alike (inl secret) = inl secret
  string_value-Alike (inr same) = inr (string_value-Same r same)

  pub scalar_text-Alike :
      {v w : Value} → Alike v w → Agree (TextsAlike v w) (scalar_text r v) (scalar_text r w)
  unfolding scalar_text
  scalar_text-Alike {v} {w} (inl secret) =
      Agree-secret v w (found_or not_scalar (string_value r v))
        (found_or not_scalar (string_value r w)) secret
  scalar_text-Alike {v} {w} (inr same) =
      rw (sym (string_value-Same r same))
        (Agree-refl (TextsAlike v w) (found_or not_scalar (string_value r v)) λ a. inr refl)

  -- Two texts in, one Boolean out.
  combined :
      {A : Type 0} (f : A → A → Scalar) (v w a b : Value) (x y p q : A)
      → TextsAlike v w x y
      → TextsAlike a b p q
      → Alike
          (scalar (f x p) (sensitive v || sensitive a))
          (scalar (f y q) (sensitive w || sensitive b))
  combined f v w a b x y p q (inl secret) k = Alike-both v w a b (f x p) (f y q) (inl secret)
  combined f v w a b x y p q (inr e) (inl secret) =
      Alike-both v w a b (f x p) (f y q) (inr (inl secret))
  combined f v w a b x y p q (inr e) (inr d) = Alike-both v w a b (f x p) (f y q) (inr (inr (cc)))

  contains_item-secret :
      (vs : ArrayItems) (wanted : Value) (s passed : Bool)
      → s ≡ true
      → sensitive (contains_item r vs wanted s passed) ≡ true
  unfolding contains_item
  contains_item-secret empty wanted s passed h = ground arith
  contains_item-secret (item v vs) wanted s passed h = elim (Bool-cases (equal r v wanted)) [
    | inl found ↦ rw found (ground arith)
    | inr other ↦ rw other (contains_item-secret vs wanted s (passed || sensitive v) h)
  ]

  -- A secret item that was passed, against one that was found.
  contains_item-passed :
      (vs : ArrayItems) (wanted : Value) (s t passed : Bool)
      → t ≡ true
      → passed ≡ true
      → Alike (scalar (boolean true) t) (contains_item r vs wanted s passed)
        × Alike (contains_item r vs wanted s passed) (scalar (boolean true) t)
  unfolding contains_item
  contains_item-passed empty wanted s t passed h k = (inl (h, ground arith), inl (ground arith, h))
  contains_item-passed (item v vs) wanted s t passed h k = elim (Bool-cases (equal r v wanted)) [
    | inl found ↦ rw found (
      inr (scalars (boolean true) t (s || sensitive v)),
      inr (scalars (boolean true) (s || sensitive v) t),
    )
    | inr other ↦
        rw other (contains_item-passed vs wanted s t (passed || sensitive v) h (ground arith))
  ]

  contains_item-Alike :
      {vs ws : ArrayItems} {a b : Value} (s t p q : Bool)
      → SameItems vs ws
      → Same false a b
      → Alike (contains_item r vs a s p) (contains_item r ws b t q)
  unfolding contains_item
  contains_item-Alike s t p q no_items k = inr (scalars (boolean false) (s || p) (t || q))
  contains_item-Alike {a} {b} s t p q (both_items {v} {w} {vs} {ws} i h) k =
      let later = contains_item-Alike s t (p || sensitive v) (q || sensitive w) h k in
      let here = inr (scalars (boolean true) (s || sensitive v) (t || sensitive w)) in
      elim (Alike-Same v w i) [
        | inl (hv, hw) ↦ elim (Bool-cases (equal r v a)) [
          | inl found ↦ elim (Bool-cases (equal r w b)) [
            | inl too ↦ rw (found, too) here
            | inr other ↦
                rw (found, other)
                  (contains_item-passed ws b t (s || sensitive v) (q || sensitive w) (ground arith)
                    (ground arith)).0
          ]
          | inr other ↦ elim (Bool-cases (equal r w b)) [
            | inl found ↦
                rw (other, found)
                  (contains_item-passed vs a s (t || sensitive w) (p || sensitive v) (ground arith)
                    (ground arith)).1
            | inr too ↦ rw (other, too) later
          ]
        ]
        | inr same ↦ rw (sym (equal-Same r same k)) (elim (Bool-cases (equal r v a)) [
          | inl found ↦ rw found here
          | inr other ↦ rw other later
        ])
      ]

  contains_value-secret :
      (v w : Value) → (sensitive v || sensitive w) ≡ true → IsHidden (contains_value r v w)
  unfolding contains_value scalar_text found_or string_value
  contains_value-secret (array i f xs s) w h = contains_item-secret xs w (s || sensitive w) false h
  contains_value-secret (scalar x s) (scalar y t) h = h
  contains_value-secret (scalar x s) (array i f xs t) h = tt
  contains_value-secret (scalar x s) (object i fs t) h = tt
  contains_value-secret (object i fs s) w h = tt

  contains_value-Alike :
      (v w a b : Value)
      → Alike v w
      → Alike a b
      → Agree Alike (contains_value r v a) (contains_value r w b)
  unfolding contains_value scalar_text found_or string_value
  contains_value-Alike v w a b (inl (p, q)) k =
      Agree-IsHidden _ _ (contains_value-secret v a (ground arith))
        (contains_value-secret w b (ground arith))
  contains_value-Alike v w a b (inr h) (inl (p, q)) =
      Agree-IsHidden _ _ (contains_value-secret v a (ground arith))
        (contains_value-secret w b (ground arith))
  contains_value-Alike v w a b (inr (arrays i f s t h)) (inr k) =
      contains_item-Alike (s || sensitive a) (t || sensitive b) false false h k
  contains_value-Alike v w a b (inr (scalars x s t)) (inr (scalars y p q)) =
      Alike-both (scalar x s) (scalar x t) (scalar y p) (scalar y q) _ _ (inr (inr refl))
  contains_value-Alike v w a b (inr (scalars x s t)) (inr (arrays i f p q k)) = tt
  contains_value-Alike v w a b (inr (scalars x s t)) (inr (objects i p q k)) = tt
  contains_value-Alike v w a b (inr (objects i s t h)) (inr k) = tt

  pub evaluate_contains-Alike :
      {vs ws : ArrayItems}
      → AlikeItems vs ws
      → Agree Alike (evaluate_contains r vs) (evaluate_contains r ws)
  unfolding evaluate_contains
  evaluate_contains-Alike {vs} {ws} h =
      Agree-bind Alike _ _ (argument_at vs 0) (argument_at ws 0) (argument_at-AlikeItems 0 h)
        λ v w a.
          Agree-bind Alike _ _ (argument_at vs 1) (argument_at ws 1) (argument_at-AlikeItems 1 h)
            λ x y b. contains_value-Alike v w x y a b

  pub evaluate_starts_with-Alike :
      {vs ws : ArrayItems}
      → AlikeItems vs ws
      → Agree Alike (evaluate_starts_with r vs) (evaluate_starts_with r ws)
  unfolding evaluate_starts_with
  evaluate_starts_with-Alike {vs} {ws} h =
      Agree-bind Alike _ _ (argument_at vs 0) (argument_at ws 0) (argument_at-AlikeItems 0 h)
        λ v w a.
          Agree-bind Alike _ _ (scalar_text r v) (scalar_text r w) (scalar_text-Alike a) λ c d e.
            Agree-bind Alike _ _ (argument_at vs 1) (argument_at ws 1) (argument_at-AlikeItems 1 h)
              λ x y b.
                Agree-bind Alike _ _ (scalar_text r x) (scalar_text r y) (scalar_text-Alike b)
                  λ m n g.
                    combined (λ y z. boolean (starts_with (r.lower y) (r.lower z))) v w x y c d m n
                      e g

  pub evaluate_ends_with-Alike :
      {vs ws : ArrayItems}
      → AlikeItems vs ws
      → Agree Alike (evaluate_ends_with r vs) (evaluate_ends_with r ws)
  unfolding evaluate_ends_with
  evaluate_ends_with-Alike {vs} {ws} h =
      Agree-bind Alike _ _ (argument_at vs 0) (argument_at ws 0) (argument_at-AlikeItems 0 h)
        λ v w a.
          Agree-bind Alike _ _ (argument_at vs 1) (argument_at ws 1) (argument_at-AlikeItems 1 h)
            λ x y b.
              combined (λ p q. boolean (ends_with r p q)) v w x y _ _ _ _ (string_value-Alike a)
                (string_value-Alike b)
