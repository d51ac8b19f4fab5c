-- ===== src/Workflow/Matrix.antt =====
-- The expansion of a matrix into jobs: expandMatrix of internal/workflow/workflow.go.
pub mod Axes
pub mod Includes
pub mod Laws
use open_actions.Base.{
  ℕ, zero, suc, ◌*◌, ◌/◌, String, Bool, true, false, not, ◌&&◌, ◌||◌, Option, none, some, is_some,
  List, [], ◌∷◌, ◌++◌, any, all, eqb, ltb, length, if◌then◌else◌,
}
use open_actions.Base.Dict.{mem, lookup, insert}
use open_actions.Base.Result.{Result, ok, err, ◌>>=◌}
use open_actions.Base.Sorting.{sort_texts}
use open_actions.Workflow.Value.{Value, values_equal}

abbrev pub Entry : Type 0
Entry = List (String × Value)

-- resolvedMatrix.
pub record ResolvedMatrix : Type 0 where
  pub axes : List (String × List Value)
  pub include : List Entry
  pub exclude : List Entry

pub data MatrixError : Type 0 where
  no_axis no_jobs too_many_jobs too_many_values division_by_zero : MatrixError

abbrev pub max_matrix_jobs : ℕ
max_matrix_jobs = 256

abbrev pub max_map_entries : ℕ
max_map_entries = 100

-- `found` and equal.
abbrev pub has_value : Entry → String × Value → Bool
has_value values (name, value) = elim (lookup name values) [
  | none ↦ false
  | some v ↦ values_equal v value
]

-- matrixEntryMatchesAny.
unfoldable pub entry_matches_any : Entry → List Entry → Bool
entry_matches_any values entries = any (λ e. all (has_value values) e) entries

-- A name that is assigned and has the value of the entry.
abbrev pub is_assigned : Entry → List String → String × Value → Bool
is_assigned values assigned (name, value) = mem name assigned && has_value values (name, value)

-- matrixPartialMatchAny.
unfoldable pub partial_match_any : Entry → List String → List Entry → Bool
partial_match_any values assigned entries =
    any (λ e. not (ltb (length assigned) (length e)) && all (is_assigned values assigned) e) entries

-- matrixEntriesCompatible.
unfoldable pub entries_compatible : Entry → Entry → Bool
entries_compatible original include =
    all
      (λ f. elim (lookup f.0 original) [ none ↦ true | some existing ↦ values_equal existing f.1 ])
      include

abbrev pub values_at : List (String × List Value) → String → List Value
values_at axes name = elim (lookup name axes) [ none ↦ [] | some values ↦ values ]

-- The loop that counts the combinations. Go panics where an axis has no value.
unfoldable pub count_combinations :
    List (String × List Value) → List String → ℕ → Result MatrixError ℕ
count_combinations axes [] count = ok count
count_combinations axes (name ∷ names) count =
    let n = length (values_at axes name) in
    let later = count_combinations axes names (count * n) in
    if eqb n 0
    then err division_by_zero
    else if ltb (max_matrix_jobs / n) count
    then err too_many_jobs
    else later

module _ (axes : List (String × List Value)) (exclude : List Entry) where
  -- The last call of `visit`, which adds a combination.
  unfoldable pub add_combination : Entry → List Entry → Result MatrixError (List Entry)
  unfolding entry_matches_any
  add_combination values combinations =
      let more = combinations ++ values ∷ [] in
      if entry_matches_any values exclude
      then ok combinations
      else if ltb max_matrix_jobs (length more)
      then err too_many_jobs
      else ok more

  -- The loop of `visit` over the values of an axis, with the next call as an argument. The map is
  -- passed on instead of being changed and cleared.
  unfoldable pub visit_values :
      (Entry → List Entry → Result MatrixError (List Entry))
      → String
      → List String
      → List Value
      → Entry
      → List Entry
      → Result MatrixError (List Entry)
  unfolding partial_match_any
  visit_values next name assigned [] values combinations = ok combinations
  visit_values next name assigned (v ∷ vs) values combinations = do
    let chosen = insert name v values
    more ←
        (if partial_match_any chosen assigned exclude
          then ok combinations
          else next chosen combinations)
    visit_values next name assigned vs values more

  -- `visit`, from the axes that are left on.
  unfoldable pub visit :
      List String → List String → Entry → List Entry → Result MatrixError (List Entry)
  unfolding add_combination visit_values
  visit [] assigned values combinations = add_combination values combinations
  visit (name ∷ names) assigned values combinations =
      visit_values (visit names (name ∷ assigned)) name (name ∷ assigned) (values_at axes name)
        values combinations

-- `for name, value := range include { combination[name] = value }`.
unfoldable pub put_all : Entry → Entry → Entry
put_all combination [] = combination
put_all combination ((name, value) ∷ include) = put_all (insert name value combination) include

-- The combinations after an include, and whether it applied to one.
unfoldable pub apply_include :
    Entry → List Entry → List Entry → Result MatrixError (List Entry × Bool)
unfolding entries_compatible put_all
apply_include include [] combinations = ok (combinations, false)
apply_include include (o ∷ originals) [] = ok ([], false)
apply_include include (o ∷ originals) (c ∷ combinations) =
    let changed = put_all c include in
    let later = apply_include include originals combinations in
    let skip = later >>= λ (rest, applied). ok (c ∷ rest, applied) in
    let take = later >>= λ (rest, applied). ok (changed ∷ rest, true) in
    if not (entries_compatible o include)
    then skip
    else if ltb max_map_entries (length changed)
    then err too_many_values
    else take

-- The loop over the includes.
unfoldable pub apply_includes :
    List Entry → List Entry → List Entry → Result MatrixError (List Entry)
unfolding apply_include
apply_includes originals [] combinations = ok combinations
apply_includes originals (include ∷ includes) combinations = do
  (changed, applied) ← apply_include include originals combinations
  let more = if applied then changed else changed ++ include ∷ []
  if ltb max_matrix_jobs (length more)
      then err too_many_jobs
      else apply_includes originals includes more

unfoldable pub names_of : List (String × List Value) → List String
names_of [] = []
names_of ((name, values) ∷ axes) = name ∷ names_of axes

-- The last test, for a result without jobs.
unfoldable pub some_jobs : List Entry → Result MatrixError (List Entry)
some_jobs [] = err no_jobs
some_jobs (c ∷ cs) = ok (c ∷ cs)

-- expandMatrix where there is an axis.
unfoldable pub expand_axes : ResolvedMatrix → Result MatrixError (List Entry)
unfolding count_combinations visit apply_includes names_of some_jobs
expand_axes m = do
  let names = sort_texts (names_of m.axes)
  _ ← count_combinations m.axes names 1
  originals ← visit m.axes m.exclude names [] [] []
  combinations ← apply_includes originals m.include originals
  some_jobs combinations

-- expandMatrix where there is none, but includes.
unfoldable pub own_jobs : List Entry → Result MatrixError (List Entry)
own_jobs [] = err no_axis
own_jobs (e ∷ es) = if ltb max_matrix_jobs (length (e ∷ es)) then err too_many_jobs else ok (e ∷ es)

abbrev pub expand_from :
    ResolvedMatrix → List (String × List Value) → Result MatrixError (List Entry)
expand_from m [] = own_jobs m.include
expand_from m (_ ∷ _) = expand_axes m

-- expandMatrix.
unfoldable pub expand_matrix : ResolvedMatrix → Result MatrixError (List Entry)
unfolding own_jobs expand_axes
expand_matrix m = expand_from m m.axes
