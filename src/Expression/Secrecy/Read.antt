-- ===== src/Expression/Secrecy/Read.antt =====
-- Reading values that cannot be told apart gives values that cannot be told apart.
use Prim.Native.String
use open_actions.Base.{
  ℕ, zero, suc, String, Bool, true, false, ◌≡◌, refl, sym, ap, inl, inr, arith, ◌&&◌, ◌||◌, Option,
  none, some, ◌==◌, Bool-cases,
}
use package.text.Mathlib.Text.{is_le}
use open_actions.Expression.Value.{
  text, Value, scalar, array, object, ArrayItems, ObjectFields, sensitive, mark, Runtime,
  string_value,
}
use open_actions.Expression.Access.{
  append_items, item_count, item_at, find_field, insert_entry, sort_entries, entry_values,
  wildcard_items, wildcard_each, wildcard, lookup_property, found_or_empty, marked_or_empty,
  integer_index, filtered_candidate, filtered_items, filtered_index, or_else, mark_found, add_found,
  position_item, named_item, property, equal, compare_values,
}
use open_actions.Expression.Secrecy.{
  Same, hidden, scalars, arrays, objects, SameItems, no_items, both_items, SameFields, no_fields,
  both_fields, Inside, Alike, Same-mark, Same-mono, sensitive-mark, Alike-Same, Alike-mark,
  string_value-Same,
}

-- Both sides have a value, or neither has.
abbrev pub BothFound : (Value → Value → Type 0) → Option Value → Option Value → Type 0
BothFound R none none = Unit
BothFound R (some v) (some w) = R v w
BothFound R _ _ = ⊥

pub Inside-mark : (c d : Bool) (v w : Value) → Inside v w → Inside (mark c v) (mark d w)
Inside-mark c d v w h =
    Same-mono
      (λ (e : (sensitive v && sensitive w) ≡ true).
        rw (sensitive-mark c v, sensitive-mark d w) (ground arith))
      (Same-mark c d h)

append_items-SameItems :
    {vs ws xs ys : ArrayItems}
    → SameItems vs ws
    → SameItems xs ys
    → SameItems (append_items vs xs) (append_items ws ys)
unfolding append_items
append_items-SameItems no_items k = k
append_items-SameItems (both_items i h) k = both_items i (append_items-SameItems h k)

pub item_count-SameItems : {vs ws : ArrayItems} → SameItems vs ws → item_count vs ≡ item_count ws
unfolding item_count
item_count-SameItems no_items = refl
item_count-SameItems (both_items i h) = ap suc (item_count-SameItems h)

pub item_at-SameItems :
    {vs ws : ArrayItems} (n : ℕ) → SameItems vs ws → BothFound Inside (item_at vs n) (item_at ws n)
unfolding item_at
item_at-SameItems n no_items = tt
item_at-SameItems zero (both_items i h) = i
item_at-SameItems (suc n) (both_items i h) = item_at-SameItems n h

find_field-SameFields :
    (p : String → Bool) {fs gs : ObjectFields}
    → SameFields fs gs
    → BothFound Inside (find_field p fs) (find_field p gs)
unfolding find_field
find_field-SameFields p no_fields = tt
find_field-SameFields p (both_fields k i h) = elim (Bool-cases (p k)) [
  | inl here ↦ rw here i
  | inr later ↦ rw later (find_field-SameFields p h)
]

insert_entry-SameFields :
    (k : String) {v w : Value} {fs gs : ObjectFields}
    → Inside v w
    → SameFields fs gs
    → SameFields (insert_entry k v fs) (insert_entry k w gs)
unfolding insert_entry
insert_entry-SameFields k i no_fields = both_fields k i no_fields
insert_entry-SameFields k i (both_fields l j h) = elim (Bool-cases (is_le (String.compare k l))) [
  | inl here ↦ rw here (both_fields k i (both_fields l j h))
  | inr later ↦ rw later (both_fields l j (insert_entry-SameFields k i h))
]

sort_entries-SameFields :
    {fs gs : ObjectFields} → SameFields fs gs → SameFields (sort_entries fs) (sort_entries gs)
unfolding sort_entries
sort_entries-SameFields no_fields = no_fields
sort_entries-SameFields (both_fields k i h) =
    insert_entry-SameFields k i (sort_entries-SameFields h)

entry_values-SameFields :
    {fs gs : ObjectFields} → SameFields fs gs → SameItems (entry_values fs) (entry_values gs)
unfolding entry_values
entry_values-SameFields no_fields = no_items
entry_values-SameFields (both_fields k i h) = both_items i (entry_values-SameFields h)

mutual
  unfolding wildcard_items

  wildcard_items-Same :
      {b : Bool} {v w : Value} → Same b v w → SameItems (wildcard_items v) (wildcard_items w)
  wildcard_items-Same (hidden x y s t) = no_items
  wildcard_items-Same (scalars x s t) = no_items
  wildcard_items-Same (arrays i true s t h) = wildcard_each-SameItems h
  wildcard_items-Same (arrays i false s t h) = h
  wildcard_items-Same (objects i s t h) = entry_values-SameFields (sort_entries-SameFields h)

  wildcard_each-SameItems :
      {vs ws : ArrayItems} → SameItems vs ws → SameItems (wildcard_each vs) (wildcard_each ws)
  wildcard_each-SameItems no_items = no_items
  wildcard_each-SameItems (both_items i h) =
      append_items-SameItems (wildcard_items-Same i) (wildcard_each-SameItems h)

pub wildcard-Alike : (v w : Value) → Alike v w → Alike (wildcard v) (wildcard w)
unfolding wildcard
wildcard-Alike v w (inl secret) = inl secret
wildcard-Alike v w (inr same) =
    inr (arrays none true (sensitive v) (sensitive w) (wildcard_items-Same same))

or_else-BothFound :
    (a b c d : Option Value)
    → BothFound Inside a b
    → BothFound Inside c d
    → BothFound Inside (or_else a c) (or_else b d)
unfolding or_else
or_else-BothFound none none c d h k = k
or_else-BothFound (some v) (some w) c d h k = h
or_else-BothFound none (some w) c d h k = elim h [ ]
or_else-BothFound (some v) none c d h k = elim h [ ]

mark_found-BothFound :
    (s t : Bool) (a b : Option Value)
    → BothFound Inside a b
    → BothFound Inside (mark_found s a) (mark_found t b)
unfolding mark_found
mark_found-BothFound s t none none h = tt
mark_found-BothFound s t (some v) (some w) h = Inside-mark s t v w h
mark_found-BothFound s t none (some w) h = elim h [ ]
mark_found-BothFound s t (some v) none h = elim h [ ]

add_found-SameItems :
    (a b : Option Value) {vs ws : ArrayItems}
    → BothFound Inside a b
    → SameItems vs ws
    → SameItems (add_found a vs) (add_found b ws)
unfolding add_found
add_found-SameItems none none h k = k
add_found-SameItems (some v) (some w) h k = both_items h k
add_found-SameItems none (some w) h k = elim h [ ]
add_found-SameItems (some v) none h k = elim h [ ]

found_or_empty-Alike :
    (s t : Bool) (a b : Option Value)
    → BothFound Inside a b
    → Alike (found_or_empty s a) (found_or_empty t b)
unfolding found_or_empty
found_or_empty-Alike s t none none h = inr (scalars (text "") s t)
found_or_empty-Alike s t (some v) (some w) h = Alike-Same v w h
found_or_empty-Alike s t none (some w) h = elim h [ ]
found_or_empty-Alike s t (some v) none h = elim h [ ]

pub marked_or_empty-Alike :
    (s t : Bool) (a b : Option Value)
    → BothFound Inside a b
    → Alike (marked_or_empty s a) (marked_or_empty t b)
unfolding marked_or_empty
marked_or_empty-Alike s t none none h = inr (scalars (text "") s t)
marked_or_empty-Alike s t (some v) (some w) h = Alike-mark s t v w (Alike-Same v w h)
marked_or_empty-Alike s t none (some w) h = elim h [ ]
marked_or_empty-Alike s t (some v) none h = elim h [ ]

found-secret :
    (s : Bool) (o : Option Value) → s ≡ true → sensitive (found_or_empty s (mark_found s o)) ≡ true
unfolding found_or_empty mark_found
found-secret s none h = h
found-secret s (some v) h = rw sensitive-mark (ground arith)

module _ (r : Runtime) where
  pub lookup_property-Same :
      {b : Bool} {v w : Value} (name : String)
      → Same b v w
      → BothFound Inside (lookup_property r v name) (lookup_property r w name)
  unfolding lookup_property
  lookup_property-Same name (hidden x y s t) = tt
  lookup_property-Same name (scalars x s t) = tt
  lookup_property-Same name (arrays i f s t h) = tt
  lookup_property-Same name (objects i {fs} {gs} s t h) = mark_found-BothFound s t _ _ (
      or_else-BothFound _ _ _ _ (find_field-SameFields (λ k. k == name) h)
        (find_field-SameFields (λ k. r.equal_fold k name) h))

  pub integer_index-Same : {v w : Value} → Same false v w → integer_index r v ≡ integer_index r w
  unfolding integer_index
  integer_index-Same (scalars x s t) = refl
  integer_index-Same (arrays i f s t h) = refl
  integer_index-Same (objects i s t h) = refl

  pub at_position :
      {xs ys : ArrayItems} (n : Option (Option ℕ))
      → SameItems xs ys
      → BothFound Inside (position_item xs n) (position_item ys n)
  unfolding position_item
  at_position none h = tt
  at_position (some none) h = tt
  at_position (some (some n)) h = item_at-SameItems n h

  at_name :
      {b : Bool} {v w : Value} (name : Option String)
      → Same b v w
      → BothFound Inside (named_item r v name) (named_item r w name)
  unfolding named_item
  at_name none h = tt
  at_name (some name) h = lookup_property-Same name h

  filtered_candidate-Same :
      {i j : Value}
      → Same false i j
      → {b : Bool} {v w : Value} → Same b v w
      → BothFound Inside (filtered_candidate r i v) (filtered_candidate r j w)
  unfolding filtered_candidate
  filtered_candidate-Same {i} k (hidden x y s t) = tt
  filtered_candidate-Same {i} k (scalars x s t) = tt
  filtered_candidate-Same {i} {j} k (arrays p f s t h) =
      rw (sym (integer_index-Same k)) (at_position (integer_index r i) h)
  filtered_candidate-Same {i} {j} k (objects p s t h) =
      rw (sym (string_value-Same r k)) (at_name {b = true} (string_value r i) (objects p s t h))

  pub filtered_items-Same :
      {i j : Value} {vs ws : ArrayItems}
      → Same false i j
      → SameItems vs ws
      → SameItems (filtered_items r i vs) (filtered_items r j ws)
  unfolding filtered_items
  filtered_items-Same k no_items = no_items
  filtered_items-Same k (both_items i h) =
      add_found-SameItems _ _ (filtered_candidate-Same k i) (filtered_items-Same k h)

  filtered_index-Same :
      {i j : Value} {xs ys : ArrayItems} (s t : Bool)
      → Same false i j
      → SameItems xs ys
      → Same false (filtered_index r xs s i) (filtered_index r ys t j)
  unfolding filtered_index
  filtered_index-Same {i} {j} s t k h =
      arrays none true (s || sensitive i) (t || sensitive j) (filtered_items-Same k h)

  pub filtered_index-Alike :
      {i j : Value} {xs ys : ArrayItems} (s t : Bool)
      → Alike i j
      → SameItems xs ys
      → Alike (filtered_index r xs s i) (filtered_index r ys t j)
  unfolding filtered_index
  filtered_index-Alike s t (inl (p, q)) h = inl (ground arith, ground arith)
  filtered_index-Alike s t (inr k) h = inr (filtered_index-Same s t k h)

  -- A property of a secret value is secret.
  pub property-secret :
      (v : Value) (name : String) → sensitive v ≡ true → sensitive (property r v name) ≡ true
  unfolding property lookup_property
  property-secret (scalar x s) name h = h
  property-secret (array i true xs s) name h = ground arith
  property-secret (array i false xs s) name h = h
  property-secret (object i fs s) name h =
      found-secret s
        (or_else (find_field (λ k. k == name) fs) (find_field (λ k. r.equal_fold k name) fs)) h

  pub property-Alike :
      {v w : Value} (name : String) → Alike v w → Alike (property r v name) (property r w name)
  unfolding property lookup_property
  property-Alike {v} {w} name (inl (p, q)) =
      inl (property-secret v name p, property-secret w name q)
  property-Alike name (inr (scalars x s t)) = inr (scalars (text "") s t)
  property-Alike name (inr (arrays i true s t h)) =
      inr (filtered_index-Same s t (scalars (text name) false false) h)
  property-Alike name (inr (arrays i false s t h)) = inr (scalars (text "") s t)
  property-Alike name (inr (objects i s t h)) =
      found_or_empty-Alike s t _ _ (lookup_property-Same name (objects {b = false} i s t h))

  pub equal-Same : {v w a b : Value} → Same false v w → Same false a b → equal r v a ≡ equal r w b
  unfolding equal
  equal-Same (scalars x s t) (scalars y p q) = refl
  equal-Same (scalars x s t) (arrays j g p q k) = refl
  equal-Same (scalars x s t) (objects j p q k) = refl
  equal-Same (arrays i f s t h) (scalars y p q) = refl
  equal-Same (arrays i f s t h) (arrays j g p q k) = refl
  equal-Same (arrays i f s t h) (objects j p q k) = refl
  equal-Same (objects i s t h) (scalars y p q) = refl
  equal-Same (objects i s t h) (arrays j g p q k) = refl
  equal-Same (objects i s t h) (objects j p q k) = refl

  pub compare_values-Same :
      {v w a b : Value}
      → Same false v w
      → Same false a b
      → compare_values r v a ≡ compare_values r w b
  unfolding compare_values
  compare_values-Same (scalars x s t) (scalars y p q) = refl
  compare_values-Same (scalars x s t) (arrays j g p q k) = refl
  compare_values-Same (scalars x s t) (objects j p q k) = refl
  compare_values-Same (arrays i f s t h) (scalars y p q) = refl
  compare_values-Same (arrays i f s t h) (arrays j g p q k) = refl
  compare_values-Same (arrays i f s t h) (objects j p q k) = refl
  compare_values-Same (objects i s t h) (scalars y p q) = refl
  compare_values-Same (objects i s t h) (arrays j g p q k) = refl
  compare_values-Same (objects i s t h) (objects j p q k) = refl
