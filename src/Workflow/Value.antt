-- ===== src/Workflow/Value.antt =====
-- The values of a workflow file, `any` in the source, and their text: scalarString of
-- internal/workflow/workflow.go. A number is the text by which fmt.Sprint writes it.
use open_actions.Base.{String, Bool, true, false, Option, none, some, List, [], ◌∷◌, ◌==◌}

mutual
  pub data Value : Type 0 where
    text : String → Value
    number : String → Value
    boolean : Bool → Value
    null : Value
    items : Items → Value
    fields : Fields → Value

  pub data Items : Type 0 where
    nil : Items
    cons : Value → Items → Items

  pub data Fields : Type 0 where
    end : Fields
    field : String → Value → Fields → Fields

unfoldable pub list_of : Items → List Value
list_of nil = []
list_of (cons v vs) = v ∷ list_of vs

unfoldable pub pairs_of : Fields → List (String × Value)
pairs_of end = []
pairs_of (field k v fs) = (k, v) ∷ pairs_of fs

-- scalarString.
unfoldable pub scalar_string : Value → Option String
scalar_string (text s) = some s
scalar_string (number s) = some s
scalar_string (boolean true) = some "true"
scalar_string (boolean false) = some "false"
scalar_string null = none
scalar_string (items vs) = none
scalar_string (fields fs) = none

abbrev pub same_text : Option String → Option String → Bool
same_text (some a) (some b) = a == b
same_text _ _ = false

-- matrixValuesEqual.
unfoldable pub values_equal : Value → Value → Bool
unfolding scalar_string
values_equal a b = same_text (scalar_string a) (scalar_string b)
