-- ===== src/Expression/Value.antt =====
-- The values of expressions, internal/expression/value.go: their kinds, the mark of secrets, and
-- their conversions. An object that resolves its properties on demand is not modelled.
use open_actions.Base.{
  ℕ, String, Bool, true, false, ◌&&◌, ◌||◌, not, Option, none, some, List, ◌==◌, if◌then◌else◌,
}

-- The scalars: nullKind, boolKind, numberKind and stringKind. A float64 is its bit pattern.
pub data Scalar : Type 0 where
  null : Scalar
  boolean : Bool → Scalar
  number : ℕ → Scalar
  text : String → Scalar

-- `any`, as the package takes it in and gives it out: `secret` is SensitiveValue. A number of any of
-- Go's types is the float64 that it converts to, and what fmt.Sprint would write is a text. An array
-- or an object may carry a number that stands for the pointer of the value made from it; one that
-- no expression can meet twice carries none.
mutual
  pub data Raw : Type 0 where
    plain : Scalar → Raw
    list : Option ℕ → RawItems → Raw
    dict : Option ℕ → RawFields → Raw
    secret : Raw → Raw

  pub data RawItems : Type 0 where
    nil : RawItems
    cons : Raw → RawItems → RawItems

  pub data RawFields : Type 0 where
    end : RawFields
    field : String → Raw → RawFields → RawFields

-- `value`, with arrayValue and objectValue in place; the last argument is `sensitive`. An array
-- carries its pointer, if it can be met twice, and `filtered`.
mutual
  pub data Value : Type 0 where
    scalar : Scalar → Bool → Value
    array : Option ℕ → Bool → ArrayItems → Bool → Value
    object : Option ℕ → ObjectFields → Bool → Value

  pub data ArrayItems : Type 0 where
    empty : ArrayItems
    item : Value → ArrayItems → ArrayItems

  pub data ObjectFields : Type 0 where
    last : ObjectFields
    entry : String → Value → ObjectFields → ObjectFields

-- hashPattern.
pub record HashPattern : Type 0 where
  pub segments : List String
  pub negate : Bool
  pub absolute : Bool

-- What the values rest on: the operations of float64, strings.ToLower, strings.EqualFold,
-- strings.TrimSpace, the pattern of JSON numbers, strconv.ParseFloat and FormatFloat, the encoding
-- of JSON with two spaces, the decoding of exactly one JSON value (which carries no pointers), and
-- hashWorkspaceFiles, with path.Clean and what path.Match says of the form of a pattern.
pub record Runtime : Type 0 where
  pub is_nan : ℕ → Bool
  pub same_number : ℕ → ℕ → Bool
  pub less_number : ℕ → ℕ → Bool
  pub is_integer : ℕ → Bool  -- n == math.Trunc(n)
  pub position : ℕ → Option ℕ  -- int(n), none where it is negative
  pub zero_number : ℕ
  pub one_number : ℕ
  pub nan : ℕ
  pub format_number : ℕ → String
  pub is_json_number : String → Bool
  pub parse_float : String → Option ℕ
  pub parse_hexadecimal : String → Option ℕ  -- strconv.ParseUint in base 16, as a float64
  pub negate : ℕ → ℕ
  pub lower : String → String
  pub equal_fold : String → String → Bool
  pub trim_space : String → String
  pub encode_json : Raw → Option String
  pub decode_json : String → Option Raw
  pub clean : String → String
  pub is_glob : String → Bool  -- path.Match(s, "") is no error
  pub hash_workspace : String → List HashPattern → Option String

abbrev pub sensitive : Value → Bool
sensitive (scalar x s) = s
sensitive (array i f xs s) = s
sensitive (object i fs s) = s

-- `v.sensitive = v.sensitive || more`.
unfoldable pub mark : Bool → Value → Value
mark more (scalar x s) = scalar x (s || more)
mark more (array i f xs s) = array i f xs (s || more)
mark more (object i fs s) = object i fs (s || more)

unfoldable mutual
  -- normalize.
  pub normalize : Raw → Bool → Value
  normalize (plain x) s = scalar x s
  normalize (list i xs) s = array i false (normalize_items xs s) s
  normalize (dict i fs) s = object i (normalize_fields fs s) s
  normalize (secret r) s = normalize r true

  pub normalize_items : RawItems → Bool → ArrayItems
  normalize_items nil s = empty
  normalize_items (cons x xs) s = item (normalize x s) (normalize_items xs s)

  pub normalize_fields : RawFields → Bool → ObjectFields
  normalize_fields end s = last
  normalize_fields (field k x fs) s = entry k (normalize x s) (normalize_fields fs s)

unfoldable mutual
  -- interfaceValue.
  pub interface_value : Value → Raw
  interface_value (scalar x s) = plain x
  interface_value (array i f xs s) = list none (interface_items xs)
  interface_value (object i fs s) = dict none (interface_fields fs)

  pub interface_items : ArrayItems → RawItems
  interface_items empty = nil
  interface_items (item v vs) = cons (interface_value v) (interface_items vs)

  pub interface_fields : ObjectFields → RawFields
  interface_fields last = end
  interface_fields (entry k v fs) = field k (interface_value v) (interface_fields fs)

unfoldable mutual
  -- containsSensitive.
  pub contains_sensitive : Value → Bool
  contains_sensitive (scalar x s) = s
  contains_sensitive (array i f xs s) = let inner = any_sensitive xs in s || inner
  contains_sensitive (object i fs s) = let inner = any_field_sensitive fs in s || inner

  pub any_sensitive : ArrayItems → Bool
  any_sensitive empty = false
  any_sensitive (item v vs) =
      let here = contains_sensitive v in let later = any_sensitive vs in here || later

  pub any_field_sensitive : ObjectFields → Bool
  any_field_sensitive last = false
  any_field_sensitive (entry k v fs) =
      let here = contains_sensitive v in let later = any_field_sensitive fs in here || later

module _ (r : Runtime) where
  -- truthy, at a scalar.
  unfoldable pub scalar_truthy : Scalar → Bool
  scalar_truthy null = false
  scalar_truthy (boolean b) = b
  scalar_truthy (number n) = not (r.same_number n r.zero_number) && not (r.is_nan n)
  scalar_truthy (text t) = not (t == "")

  -- truthy.
  unfoldable pub truthy : Value → Bool
  unfolding scalar_truthy
  truthy (scalar x s) = scalar_truthy x
  truthy (array i f xs s) = true
  truthy (object i fs s) = true

  -- stringValue, at a scalar.
  unfoldable pub scalar_string : Scalar → String
  scalar_string null = ""
  scalar_string (boolean b) = if b then "true" else "false"
  scalar_string (number n) = r.format_number n
  scalar_string (text t) = t

  -- stringValue; arrays and objects have none.
  unfoldable pub string_value : Value → Option String
  unfolding scalar_string
  string_value (scalar x s) = some (scalar_string x)
  string_value (array i f xs s) = none
  string_value (object i fs s) = none

  -- joinStringValue.
  unfoldable pub join_string_value : Value → String
  unfolding scalar_string
  join_string_value (scalar x s) = scalar_string x
  join_string_value (array i f xs s) = "Array"
  join_string_value (object i fs s) = "Object"

  -- The number of a text without spaces around it.
  unfoldable pub text_number : String → ℕ
  text_number t =
      if t == ""
      then r.zero_number
      else (if not (r.is_json_number t)
          then r.nan
          else elim (r.parse_float t) [ none ↦ r.nan | some n ↦ n ])

  -- numberValue, at a scalar.
  unfoldable pub scalar_number : Scalar → ℕ
  unfolding text_number
  scalar_number null = r.zero_number
  scalar_number (boolean b) = if b then r.one_number else r.zero_number
  scalar_number (number n) = n
  scalar_number (text t) = text_number (r.trim_space t)

  -- numberValue.
  unfoldable pub number_value : Value → ℕ
  unfolding scalar_number
  number_value (scalar x s) = scalar_number x
  number_value (array i f xs s) = r.nan
  number_value (object i fs s) = r.nan
