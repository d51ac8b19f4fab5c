-- ===== src/Expression/Secrecy.antt =====
-- Values that an observer of what is not secret cannot tell apart, and results that agree so far.
pub mod Read
pub mod Normal
pub mod Calls
pub mod Join
pub mod Json
pub mod Format
pub mod Hash
pub mod Operators
pub mod Evaluate
pub mod Program
use open_actions.Base.{
  ℕ, String, Bool, true, false, ◌≡◌, refl, sym, ap, ◌⊎◌, inl, inr, arith, ◌&&◌, ◌||◌, Option, none,
  some, List, [], ◌∷◌, Bool-cases, subst,
}
use open_actions.Base.Result.{Result, ok, err, ◌>>=◌}
use open_actions.Expression.Value.{
  Scalar, null, boolean, number, text, Raw, Value, scalar, array, object, ArrayItems, empty, item,
  ObjectFields, last, entry, sensitive, mark, Runtime, truthy, string_value, join_string_value,
  number_value,
}
use open_actions.Expression.Node.{EvalError}

-- The same value, except for the marks and, if the Boolean is true, for a scalar. A scalar inside
-- differs only where both sides mark it.
mutual
  pub data Same : Bool → Value → Value → Type 0 where
    hidden : (x y : Scalar) (s t : Bool) → Same true (scalar x s) (scalar y t)
    scalars : {b : Bool} (x : Scalar) (s t : Bool) → Same b (scalar x s) (scalar x t)
    arrays :
        {b : Bool} (i : Option ℕ) (f : Bool) {xs ys : ArrayItems} (s t : Bool)
        → SameItems xs ys
        → Same b (array i f xs s) (array i f ys t)
    objects :
        {b : Bool} (i : Option ℕ) {fs gs : ObjectFields} (s t : Bool)
        → SameFields fs gs
        → Same b (object i fs s) (object i gs t)

  pub data SameItems : ArrayItems → ArrayItems → Type 0 where
    no_items : SameItems empty empty
    both_items :
        {v w : Value} {vs ws : ArrayItems}
        → Same (sensitive v && sensitive w) v w
        → SameItems vs ws
        → SameItems (item v vs) (item w ws)

  pub data SameFields : ObjectFields → ObjectFields → Type 0 where
    no_fields : SameFields last last
    both_fields :
        (k : String) {v w : Value} {fs gs : ObjectFields}
        → Same (sensitive v && sensitive w) v w
        → SameFields fs gs
        → SameFields (entry k v fs) (entry k w gs)

-- Both values are secret.
abbrev pub BothSecret : Value → Value → Type 0
BothSecret v w = (sensitive v ≡ true) × (sensitive w ≡ true)

-- Two values are both secret, or else the same where no scalar may differ at the top.
abbrev pub Alike : Value → Value → Type 0
Alike v w = BothSecret v w ⊎ Same false v w

-- Values at the same place of two containers.
abbrev pub Inside : Value → Value → Type 0
Inside v w = Same (sensitive v && sensitive w) v w

-- Only results that are both values have to be related.
abbrev pub Agree {ℓ κ} :
    {A : Type ℓ} → (A → A → Type κ) → Result EvalError A → Result EvalError A → Type κ
Agree R (ok v) (ok w) = R v w
Agree R _ _ = Unit

-- An error agrees with everything.
pub Agree-err {ℓ κ} :
    {A : Type ℓ} (R : A → A → Type κ) (c : EvalError) (m : Result EvalError A) → Agree R m (err c)
Agree-err R c (ok v) = tt
Agree-err R c (err d) = tt

-- A result that is secret, if there is one.
abbrev pub IsHidden : Result EvalError Value → Type 0
IsHidden (ok v) = sensitive v ≡ true
IsHidden (err e) = Unit

pub Agree-IsHidden : (m n : Result EvalError Value) → IsHidden m → IsHidden n → Agree Alike m n
Agree-IsHidden (ok v) (ok w) h k = inl (h, k)
Agree-IsHidden (ok v) (err e) h k = tt
Agree-IsHidden (err e) n h k = tt

-- One step that both sides share.
pub Agree-step {ℓ κ μ} :
    {A : Type ℓ} {B : Type μ} (S : B → B → Type κ) (f g : A → Result EvalError B)
    (m : Result EvalError A)
    → ((v : A) → Agree S (f v) (g v))
    → Agree S (m >>= f) (m >>= g)
Agree-step S f g (ok v) next = next v
Agree-step S f g (err e) next = tt

pub IsHidden-bind {ℓ} :
    {A : Type ℓ} (f : A → Result EvalError Value) (m : Result EvalError A)
    → ((v : A) → IsHidden (f v))
    → IsHidden (m >>= f)
IsHidden-bind f (ok v) next = next v
IsHidden-bind f (err e) next = tt

pub Agree-bind {ℓ κ μ ν} :
    {A : Type ℓ} {B : Type μ} {R : A → A → Type κ} (S : B → B → Type ν)
    (f g : A → Result EvalError B) (m n : Result EvalError A)
    → Agree R m n
    → ((v w : A) → R v w → Agree S (f v) (g w))
    → Agree S (m >>= f) (n >>= g)
Agree-bind S f g (ok v) (ok w) h next = next v w h
Agree-bind S f g (ok v) (err d) h next = Agree-err S d (f v)
Agree-bind S f g (err c) n h next = tt

pub Alike-scalar :
    (x y : Scalar) (s t : Bool)
    → ((s ≡ true) × (t ≡ true)) ⊎ (x ≡ y)
    → Alike (scalar x s) (scalar y t)
Alike-scalar x y s t (inl secret) = inl secret
Alike-scalar x y s t (inr same) =
    inr (subst (λ z. Same false (scalar x s) (scalar z t)) same (scalars x s t))

-- A value that another container holds.
pub Alike-Same : (v w : Value) → Same (sensitive v && sensitive w) v w → Alike v w
Alike-Same v w h = elim (Bool-cases (sensitive v && sensitive w)) [
  | inl secret ↦ inl (ground arith, ground arith)
  | inr not_both ↦ inr (subst (λ b. Same b v w) not_both h)
]

-- Marks are no part of the comparison.
pub Same-mark : {b : Bool} {v w : Value} (c d : Bool) → Same b v w → Same b (mark c v) (mark d w)
unfolding mark
Same-mark c d (hidden x y s t) = hidden x y (s || c) (t || d)
Same-mark c d (scalars x s t) = scalars x (s || c) (t || d)
Same-mark c d (arrays i f s t h) = arrays i f (s || c) (t || d) h
Same-mark c d (objects i s t h) = objects i (s || c) (t || d) h

pub sensitive-mark : (c : Bool) (v : Value) → sensitive (mark c v) ≡ (sensitive v || c)
unfolding mark
sensitive-mark c (scalar x s) = refl
sensitive-mark c (array i f xs s) = refl
sensitive-mark c (object i fs s) = refl

-- More may differ where more is secret.
pub Same-mono : {b c : Bool} {v w : Value} → (b ≡ true → c ≡ true) → Same b v w → Same c v w
Same-mono more (hidden x y s t) =
    subst (λ c. Same c (scalar x s) (scalar y t)) (sym (more refl)) (hidden x y s t)
Same-mono more (scalars x s t) = scalars x s t
Same-mono more (arrays i f s t h) = arrays i f s t h
Same-mono more (objects i s t h) = objects i s t h

pub Alike-mark : (c d : Bool) (v w : Value) → Alike v w → Alike (mark c v) (mark d w)
Alike-mark c d v w (inl (p, q)) =
    inl (rw sensitive-mark (ground arith), rw sensitive-mark (ground arith))
Alike-mark c d v w (inr h) = inr (Same-mark c d h)

-- Both marks are new.
pub Alike-marked : (c d : Bool) (v w : Value) → c ≡ true → d ≡ true → Alike (mark c v) (mark d w)
Alike-marked c d v w p q = inl (rw sensitive-mark (ground arith), rw sensitive-mark (ground arith))

module _ (r : Runtime) where
  -- What a conversion makes of values that are the same.
  pub truthy-Same : {v w : Value} → Same false v w → truthy r v ≡ truthy r w
  unfolding truthy
  truthy-Same (scalars x s t) = refl
  truthy-Same (arrays i f s t h) = refl
  truthy-Same (objects i s t h) = refl

  pub string_value-Same : {v w : Value} → Same false v w → string_value r v ≡ string_value r w
  unfolding string_value
  string_value-Same (scalars x s t) = refl
  string_value-Same (arrays i f s t h) = refl
  string_value-Same (objects i s t h) = refl

  pub join_string_value-Same :
      {v w : Value} → Same false v w → join_string_value r v ≡ join_string_value r w
  unfolding join_string_value
  join_string_value-Same (scalars x s t) = refl
  join_string_value-Same (arrays i f s t h) = refl
  join_string_value-Same (objects i s t h) = refl

  pub number_value-Same : {v w : Value} → Same false v w → number_value r v ≡ number_value r w
  unfolding number_value
  number_value-Same (scalars x s t) = refl
  number_value-Same (arrays i f s t h) = refl
  number_value-Same (objects i s t h) = refl
