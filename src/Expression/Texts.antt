-- ===== src/Expression/Texts.antt =====
-- The parts of Go's packages `strings` and `strconv` that internal/expression uses, over native
-- texts. The sources walk over bytes; every byte that they look for is a character of its own.
use Prim.Native.Nat.{ℕ, suc, ◌+◌, ◌-◌, ◌*◌}
use Prim.Native.Char.{Char, code}
use Prim.Native.String.{String, [], ◌∷◌}
use mathlib.Core.Bool.{Bool, ◌&&◌, ◌||◌}
use mathlib.Core.Option.{Option, none, some}
use mathlib.Core.List as List
use text.Mathlib.Text.{◌==◌, starts_with}
use open_actions.Base.{ltb, leb, eqb, if◌then◌else◌}

-- The bytes that a character takes in UTF-8.
abbrev pub width : Char → ℕ
width c =
    if ltb (code c) 128
    then 1
    else (if ltb (code c) 2048 then 2 else (if ltb (code c) 65536 then 3 else 4))

-- `len(s)`.
unfoldable pub byte_length : String → ℕ
byte_length [] = 0
byte_length (c ∷ s) = width c + byte_length s

-- strings.Contains.
unfoldable pub has_text : String → String → Bool
has_text [] part = part == ""
has_text (c ∷ s) part = let later = has_text s part in starts_with (c ∷ s) part || later

-- strings.HasSuffix.
unfoldable pub has_suffix : String → String → Bool
has_suffix [] suffix = suffix == ""
has_suffix (c ∷ s) suffix = let later = has_suffix s suffix in (c ∷ s) == suffix || later

-- The characters of a text, counted.
unfoldable pub char_count : String → ℕ
char_count [] = 0
char_count (c ∷ s) = suc (char_count s)

-- asciiDigit.
unfoldable pub ascii_digit : Char → Bool
ascii_digit c = leb 48 (code c) && leb (code c) 57

-- The digits of a decimal number, after those that were read.
unfoldable pub digits_value : ℕ → String → Option ℕ
unfolding ascii_digit
digits_value read [] = some read
digits_value read (c ∷ s) =
    let rest = digits_value (read * 10 + (code c - 48)) s in if ascii_digit c then rest else none

-- The digits after a minus sign: a number that is not negative is zero.
unfoldable pub minus_zero : String → Option ℕ
unfolding digits_value
minus_zero s =
    if s == ""
    then none
    else elim (digits_value 0 s) [ none ↦ none | some n ↦ if eqb n 0 then some 0 else none ]

-- A number with or without a sign.
unfoldable pub signed_value : Char → String → Option ℕ
unfolding digits_value minus_zero
signed_value c s =
    if eqb (code c) 43
    then (if s == "" then none else digits_value 0 s)
    else (if eqb (code c) 45 then minus_zero s else digits_value 0 (c ∷ s))

-- An int of 64 bits.
unfoldable pub bounded_int : Option ℕ → Option ℕ
bounded_int none = none
bounded_int (some n) = if ltb n 9223372036854775808 then some n else none

-- strconv.Atoi, at the numbers that are not negative: `none` is an error or a negative number.
unfoldable pub atoi : String → Option ℕ
unfolding signed_value bounded_int
atoi [] = none
atoi (c ∷ s) = bounded_int (signed_value c s)

-- `line[1:]`.
unfoldable pub drop_first : String → String
drop_first [] = []
drop_first (c ∷ s) = s

-- `strings.ReplaceAll(s, "\r\n", "\n")`.
unfoldable pub join_returns : String → String
join_returns [] = []
join_returns (c ∷ []) = c ∷ []
join_returns (c ∷ d ∷ s) =
    let rest = join_returns (d ∷ s) in if eqb (code c) 13 && eqb (code d) 10 then rest else c ∷ rest

-- A character comes before the first of the texts.
unfoldable pub onto_first : Char → List.List String → List.List String
onto_first c List.[] = List.◌∷◌ (c ∷ []) List.[]
onto_first c (List.◌∷◌ word words) = List.◌∷◌ (c ∷ word) words

-- strings.Split at a separator of one character.
unfoldable pub split : ℕ → String → List.List String
unfolding onto_first
split sep [] = List.◌∷◌ [] List.[]
split sep (c ∷ s) =
    let rest = split sep s in if eqb (code c) sep then List.◌∷◌ [] rest else onto_first c rest
