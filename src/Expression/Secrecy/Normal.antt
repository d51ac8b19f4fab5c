-- ===== src/Expression/Secrecy/Normal.antt =====
-- Secrets in what goes in and out of an evaluation: normalize, interfaceValue, containsSensitive.
use open_actions.Base.{
  ℕ, String, Bool, true, false, ◌≡◌, refl, ap, ◌⊎◌, inl, inr, arith, Option, none,
}
use open_actions.Expression.Value.{
  Scalar, Raw, plain, list, dict, secret, RawItems, nil, cons, RawFields, end, field, Value, scalar,
  array, object, ArrayItems, ObjectFields, sensitive, normalize, normalize_items, normalize_fields,
  interface_value, interface_items, interface_fields, contains_sensitive, any_sensitive,
  any_field_sensitive,
}
use open_actions.Expression.Secrecy.{
  Same, hidden, scalars, arrays, objects, SameItems, no_items, both_items, SameFields, no_fields,
  both_fields, Inside, Same-mono,
}

-- Inputs that differ in secrets only: in scalars that stand in a SensitiveValue or, if the Boolean is
-- true, in any scalar.
mutual
  pub data SameRaw : Bool → Raw → Raw → Type 0 where
    hidden_scalars : (x y : Scalar) → SameRaw true (plain x) (plain y)
    same_scalars : {b : Bool} (x : Scalar) → SameRaw b (plain x) (plain x)
    lists :
        {b : Bool} (i : Option ℕ) {xs ys : RawItems}
        → SameRawItems b xs ys
        → SameRaw b (list i xs) (list i ys)
    dicts :
        {b : Bool} (i : Option ℕ) {fs gs : RawFields}
        → SameRawFields b fs gs
        → SameRaw b (dict i fs) (dict i gs)
    secrets : {b : Bool} {x y : Raw} → SameRaw true x y → SameRaw b (secret x) (secret y)

  pub data SameRawItems : Bool → RawItems → RawItems → Type 0 where
    no_raws : {b : Bool} → SameRawItems b nil nil
    both_raws :
        {b : Bool} {x y : Raw} {xs ys : RawItems}
        → SameRaw b x y
        → SameRawItems b xs ys
        → SameRawItems b (cons x xs) (cons y ys)

  pub data SameRawFields : Bool → RawFields → RawFields → Type 0 where
    no_raw_fields : {b : Bool} → SameRawFields b end end
    both_raw_fields :
        {b : Bool} (k : String) {x y : Raw} {fs gs : RawFields}
        → SameRaw b x y
        → SameRawFields b fs gs
        → SameRawFields b (field k x fs) (field k y gs)

mutual
  unfolding normalize

  pub normalize-SameRaw :
      {b : Bool} {x y : Raw} → SameRaw b x y → Inside (normalize x b) (normalize y b)
  normalize-SameRaw (hidden_scalars x y) = hidden x y true true
  normalize-SameRaw {b} (same_scalars x) = scalars x b b
  normalize-SameRaw {b} (lists i h) = arrays i false b b (normalize_items-SameRawItems h)
  normalize-SameRaw {b} (dicts i h) = objects i b b (normalize_fields-SameRawFields h)
  normalize-SameRaw (secrets h) = normalize-SameRaw h

  normalize_items-SameRawItems :
      {b : Bool} {xs ys : RawItems}
      → SameRawItems b xs ys
      → SameItems (normalize_items xs b) (normalize_items ys b)
  normalize_items-SameRawItems no_raws = no_items
  normalize_items-SameRawItems (both_raws i h) =
      both_items (normalize-SameRaw i) (normalize_items-SameRawItems h)

  normalize_fields-SameRawFields :
      {b : Bool} {fs gs : RawFields}
      → SameRawFields b fs gs
      → SameFields (normalize_fields fs b) (normalize_fields gs b)
  normalize_fields-SameRawFields no_raw_fields = no_fields
  normalize_fields-SameRawFields (both_raw_fields k i h) =
      both_fields k (normalize-SameRaw i) (normalize_fields-SameRawFields h)

-- The same input under other marks.
mutual
  unfolding normalize

  pub normalize-Same : (x : Raw) (s t : Bool) → Same false (normalize x s) (normalize x t)
  normalize-Same (plain x) s t = scalars x s t
  normalize-Same (list i xs) s t = arrays i false s t (normalize_items-SameItems xs s t)
  normalize-Same (dict i fs) s t = objects i s t (normalize_fields-SameFields fs s t)
  normalize-Same (secret x) s t = normalize-Same x true true

  normalize_items-SameItems :
      (xs : RawItems) (s t : Bool) → SameItems (normalize_items xs s) (normalize_items xs t)
  normalize_items-SameItems nil s t = no_items
  normalize_items-SameItems (cons x xs) s t =
      both_items (Same-mono (λ (e : false ≡ true). absurd (cc)) (normalize-Same x s t))
        (normalize_items-SameItems xs s t)

  normalize_fields-SameFields :
      (fs : RawFields) (s t : Bool) → SameFields (normalize_fields fs s) (normalize_fields fs t)
  normalize_fields-SameFields end s t = no_fields
  normalize_fields-SameFields (field k x fs) s t =
      both_fields k (Same-mono (λ (e : false ≡ true). absurd (cc)) (normalize-Same x s t))
        (normalize_fields-SameFields fs s t)

pub normalize-secret : (x : Raw) → sensitive (normalize x true) ≡ true
unfolding normalize
normalize-secret (plain x) = refl
normalize-secret (list i xs) = refl
normalize-secret (dict i fs) = refl
normalize-secret (secret x) = normalize-secret x

-- What leaves the package is the same, or both sides hold a secret.
abbrev pub SameOutside : Value → Value → Type 0
SameOutside v w =
    ((contains_sensitive v ≡ true) × (contains_sensitive w ≡ true))
    ⊎ (interface_value v ≡ interface_value w)

abbrev pub SameItemsOutside : ArrayItems → ArrayItems → Type 0
SameItemsOutside vs ws =
    ((any_sensitive vs ≡ true) × (any_sensitive ws ≡ true))
    ⊎ (interface_items vs ≡ interface_items ws)

abbrev pub SameFieldsOutside : ObjectFields → ObjectFields → Type 0
SameFieldsOutside fs gs =
    ((any_field_sensitive fs ≡ true) × (any_field_sensitive gs ≡ true))
    ⊎ (interface_fields fs ≡ interface_fields gs)

pub contains_sensitive-mark : (v : Value) → sensitive v ≡ true → contains_sensitive v ≡ true
unfolding contains_sensitive
contains_sensitive-mark (scalar x s) h = h
contains_sensitive-mark (array i f xs s) h = ground arith
contains_sensitive-mark (object i fs s) h = ground arith

mutual
  unfolding contains_sensitive interface_value

  pub Same-SameOutside :
      {b : Bool} {v w : Value}
      → (b ≡ true → (sensitive v ≡ true) × (sensitive w ≡ true))
      → Same b v w
      → SameOutside v w
  Same-SameOutside marked (hidden x y s t) = inl (marked refl)
  Same-SameOutside marked (scalars x s t) = inr refl
  Same-SameOutside marked (arrays i f s t h) = elim (SameItems-SameItemsOutside h) [
    | inl (p, q) ↦ inl (ground arith, ground arith)
    | inr e ↦ inr (ap (list none) e)
  ]
  Same-SameOutside marked (objects i s t h) = elim (SameFields-SameFieldsOutside h) [
    | inl (p, q) ↦ inl (ground arith, ground arith)
    | inr e ↦ inr (ap (dict none) e)
  ]

  SameItems-SameItemsOutside : {vs ws : ArrayItems} → SameItems vs ws → SameItemsOutside vs ws
  SameItems-SameItemsOutside no_items = inr refl
  SameItems-SameItemsOutside (both_items i h) =
      elim (Same-SameOutside (λ e. (ground arith, ground arith)) i) [
        | inl (p, q) ↦ inl (ground arith, ground arith)
        | inr here ↦ elim (SameItems-SameItemsOutside h) [
          | inl (p, q) ↦ inl (ground arith, ground arith)
          | inr later ↦ inr (cc)
        ]
      ]

  SameFields-SameFieldsOutside : {fs gs : ObjectFields} → SameFields fs gs → SameFieldsOutside fs gs
  SameFields-SameFieldsOutside no_fields = inr refl
  SameFields-SameFieldsOutside (both_fields k i h) =
      elim (Same-SameOutside (λ e. (ground arith, ground arith)) i) [
        | inl (p, q) ↦ inl (ground arith, ground arith)
        | inr here ↦ elim (SameFields-SameFieldsOutside h) [
          | inl (p, q) ↦ inl (ground arith, ground arith)
          | inr later ↦ inr (cc)
        ]
      ]
