-- ===== src/Expression/Access.antt =====
-- How expressions read arrays and objects, and compare values: internal/expression/value.go.
use Prim.Native.String
use Prim.Native.Nat.{Ordering}
use open_actions.Base.{
  ℕ, suc, zero, String, Bool, true, false, ◌&&◌, ◌||◌, not, Option, none, some, ◌==◌, eqb,
  if◌then◌else◌,
}
use package.text.Mathlib.Text.{is_le}
use open_actions.Expression.Value.{
  Scalar, null, boolean, number, text, Value, scalar, array, object, ArrayItems, empty, item,
  ObjectFields, last, entry, Runtime, sensitive, mark, string_value, scalar_number, number_value,
}

-- `append(xs, ys...)`.
unfoldable pub append_items : ArrayItems → ArrayItems → ArrayItems
append_items empty ys = ys
append_items (item x xs) ys = item x (append_items xs ys)

unfoldable pub item_count : ArrayItems → ℕ
item_count empty = 0
item_count (item x xs) = suc (item_count xs)

-- `xs[n]`, none out of range.
unfoldable pub item_at : ArrayItems → ℕ → Option Value
item_at empty n = none
item_at (item x xs) zero = some x
item_at (item x xs) (suc n) = item_at xs n

-- `fields[name]`.
unfoldable pub find_field : (String → Bool) → ObjectFields → Option Value
find_field p last = none
find_field p (entry k v fs) = let later = find_field p fs in if p k then some v else later

-- A map's entries by name, as sort.Strings orders the names.
unfoldable pub insert_entry : String → Value → ObjectFields → ObjectFields
insert_entry k v last = entry k v last
insert_entry k v (entry l w fs) =
    let later = insert_entry k v fs in
    if is_le (String.compare k l) then entry k v (entry l w fs) else entry l w later

unfoldable pub sort_entries : ObjectFields → ObjectFields
unfolding insert_entry
sort_entries last = last
sort_entries (entry k v fs) = insert_entry k v (sort_entries fs)

unfoldable pub entry_values : ObjectFields → ArrayItems
entry_values last = empty
entry_values (entry k v fs) = item v (entry_values fs)

unfoldable mutual
  unfolding append_items sort_entries entry_values

  -- wildcard, its items.
  pub wildcard_items : Value → ArrayItems
  wildcard_items (scalar x s) = empty
  wildcard_items (array i true xs s) = wildcard_each xs
  wildcard_items (array i false xs s) = xs
  wildcard_items (object i fs s) = entry_values (sort_entries fs)

  pub wildcard_each : ArrayItems → ArrayItems
  wildcard_each empty = empty
  wildcard_each (item v vs) = append_items (wildcard_items v) (wildcard_each vs)

-- wildcard.
unfoldable pub wildcard : Value → Value
unfolding wildcard_items
wildcard v = array none true (wildcard_items v) (sensitive v)

-- The first value that was found.
unfoldable pub or_else : Option Value → Option Value → Option Value
or_else (some v) later = some v
or_else none later = later

unfoldable pub mark_found : Bool → Option Value → Option Value
unfolding mark
mark_found s none = none
mark_found s (some v) = some (mark s v)

unfoldable pub add_found : Option Value → ArrayItems → ArrayItems
add_found none vs = vs
add_found (some v) vs = item v vs

-- What was found, or an empty text with a mark.
unfoldable pub found_or_empty : Bool → Option Value → Value
found_or_empty s none = scalar (text "") s
found_or_empty s (some v) = v

-- The same, where the mark is for what was found too.
unfoldable pub marked_or_empty : Bool → Option Value → Value
unfolding mark
marked_or_empty s none = scalar (text "") s
marked_or_empty s (some v) = mark s v

-- The item at the position of an index, if the index is an integer.
unfoldable pub position_item : ArrayItems → Option (Option ℕ) → Option Value
unfolding item_at
position_item xs (some (some n)) = item_at xs n
position_item xs _ = none

module _ (r : Runtime) where
  -- lookupProperty: the name itself, or else one that differs in case only.
  unfoldable pub lookup_property : Value → String → Option Value
  unfolding find_field mark_found or_else
  lookup_property (object i fs s) name =
      mark_found s
        (or_else (find_field (λ k. k == name) fs) (find_field (λ k. r.equal_fold k name) fs))
  lookup_property _ name = none

  -- `index.kind == numberKind && index.number == math.Trunc(index.number)`, and then the position,
  -- which is negative or one that may be in range.
  unfoldable pub integer_scalar : Scalar → Option (Option ℕ)
  integer_scalar (number n) = if r.is_integer n then some (r.position n) else none
  integer_scalar _ = none

  unfoldable pub integer_index : Value → Option (Option ℕ)
  unfolding integer_scalar
  integer_index (scalar x s) = integer_scalar x
  integer_index _ = none

  -- A property of a candidate, at the text of the index.
  unfoldable pub named_item : Value → Option String → Option Value
  unfolding lookup_property
  named_item v none = none
  named_item v (some name) = lookup_property v name

  -- What one candidate gives to filteredIndex.
  unfoldable pub filtered_candidate : Value → Value → Option Value
  unfolding string_value named_item integer_index position_item
  filtered_candidate index (scalar x s) = none
  filtered_candidate index (object i fs s) = named_item (object i fs s) (string_value r index)
  filtered_candidate index (array i f xs s) = position_item xs (integer_index index)

  unfoldable pub filtered_items : Value → ArrayItems → ArrayItems
  unfolding filtered_candidate add_found
  filtered_items index empty = empty
  filtered_items index (item v vs) =
      add_found (filtered_candidate index v) (filtered_items index vs)

  -- filteredIndex, at the items and the mark of its array.
  unfoldable pub filtered_index : ArrayItems → Bool → Value → Value
  unfolding filtered_items
  filtered_index xs s index = array none true (filtered_items index xs) (s || sensitive index)

  -- The part of `property` after its first test.
  unfoldable pub plain_property : Value → String → Value
  unfolding lookup_property found_or_empty
  plain_property v name = found_or_empty (sensitive v) (lookup_property v name)

  -- property.
  unfoldable pub property : Value → String → Value
  unfolding filtered_index plain_property
  property (array i true xs s) name = filtered_index xs s (scalar (text name) false)
  property v name = plain_property v name

  -- `left.array == right.array`: two values that carry no pointer are never the same one.
  unfoldable pub same_pointer : Option ℕ → Option ℕ → Bool
  same_pointer (some i) (some j) = eqb i j
  same_pointer _ _ = false

  -- The last lines of `equal`, where the kinds differ.
  unfoldable pub equal_numbers : ℕ → ℕ → Bool
  equal_numbers m n = not (r.is_nan m) && not (r.is_nan n) && r.same_number m n

  -- equal, at scalars.
  unfoldable pub equal_scalars : Scalar → Scalar → Bool
  unfolding equal_numbers scalar_number
  equal_scalars null null = true
  equal_scalars (boolean true) (boolean b) = b
  equal_scalars (boolean false) (boolean b) = not b
  equal_scalars (number m) (number n) = equal_numbers m n
  equal_scalars (text a) (text b) = r.equal_fold a b
  equal_scalars x y = equal_numbers (scalar_number r x) (scalar_number r y)

  -- equal.
  unfoldable pub equal : Value → Value → Bool
  unfolding equal_scalars equal_numbers same_pointer number_value
  equal (scalar x s) (scalar y t) = equal_scalars x y
  equal (array i f xs s) (array j g ys t) = same_pointer i j
  equal (object i fs s) (object j gs t) = same_pointer i j
  equal v w = equal_numbers (number_value r v) (number_value r w)

  -- The last lines of `compare`.
  unfoldable pub compare_numbers : ℕ → ℕ → Option Ordering
  compare_numbers m n =
      if r.is_nan m || r.is_nan n
      then none
      else (if r.less_number m n
          then some Ordering.lt
          else (if r.less_number n m then some Ordering.gt else some Ordering.eq))

  -- compare, at scalars.
  unfoldable pub compare_scalars : Scalar → Scalar → Option Ordering
  unfolding compare_numbers scalar_number
  compare_scalars (text a) (text b) = some (String.compare (r.lower a) (r.lower b))
  compare_scalars x y = compare_numbers (scalar_number r x) (scalar_number r y)

  -- compare; `none` where it is not valid.
  unfoldable pub compare_values : Value → Value → Option Ordering
  unfolding compare_scalars compare_numbers number_value
  compare_values (scalar x s) (scalar y t) = compare_scalars x y
  compare_values v w = compare_numbers (number_value r v) (number_value r w)
