-- ===== src/Runner/KeyValues.antt =====
-- readKeyValueFile of internal/runner/file_commands.go, over the lines of the file, which bufio.Scanner
-- splits. Its two loops read from one scanner, so that the inner one is a state of the outer one.
pub mod Laws
mod Tests
use open_actions.Base.{
  ℕ, String, Bool, true, false, not, ◌&&◌, ◌||◌, ◌≡◌, ◌≢◌, ◌↔◌, inl, inr, refl, ap, sym, ◌∙◌, arith,
  Option, none, some, is_none, List, [], ◌∷◌, ◌++◌, ◌==◌, eq_iff, eq_refl, onto, reversed,
  Bool-cases, if◌then◌else◌,
}
use open_actions.Base.Dict.{insert}
use open_actions.Base.Result.{Result, ok, err, ◌>>=◌}
use open_actions.Base.Text.{Lacks, ◌⧺◌, cut}
use open_actions.Runner.Lines.{trim_return, cut_twice, cut_twice-append, cut-Lacks}

pub data FileError : Type 0 where
  invalid_multiline invalid_command not_terminated : FileError

-- A multiline value that is being read; its last line comes first.
pub record Heredoc : Type 0 where
  pub name : String
  pub delimiter : String
  pub values : List String

abbrev pub Values : Type 0
Values = List (String × String)

abbrev pub Reader : Type 0
Reader = Option Heredoc × Values

-- strings.Join(values, "\n").
unfoldable pub join : List String → String
join [] = ""
join (v ∷ []) = v
join (v ∷ w ∷ vs) = v ⧺ ("\n" ⧺ join (w ∷ vs))

-- A line that opens a multiline value: `<<` stands before any `=`.
unfoldable pub open_heredoc : Option (String × String) → Option (String × String)
unfolding cut
open_heredoc none = none
open_heredoc (some (name, delimiter)) =
    if is_none (cut 61 name) then some (name, delimiter) else none

-- A line outside of a multiline value.
unfoldable pub read_command : String → Values → Result FileError Reader
unfolding cut_twice open_heredoc cut
read_command line r = if line == "" then ok (none, r) else elim (open_heredoc (cut_twice 60 line)) [
  | some (name, delimiter) ↦
      if name == "" || delimiter == ""
      then err invalid_multiline
      else ok (some (record { name = name; delimiter = delimiter; values = [] }), r)
  | none ↦ elim (cut 61 line) [
    | none ↦ err invalid_command
    | some (name, value) ↦
        if name == "" then err invalid_command else ok (none, insert name value r)
  ]
]

-- A line of a multiline value.
unfoldable pub read_value : String → Heredoc → Values → Reader
unfolding join
read_value value h r =
    if value == h.delimiter
    then (none, insert h.name (join (reversed h.values)) r)
    else (some (record h { values = value ∷ h.values }), r)

unfoldable pub read_line : String → Reader → Result FileError Reader
unfolding read_command read_value trim_return
read_line line (none, r) = read_command (trim_return line) r
read_line line (some h, r) = ok (read_value (trim_return line) h r)

unfoldable pub read_lines : List String → Reader → Result FileError Values
unfolding read_line
read_lines [] (none, r) = ok r
read_lines [] (some h, r) = err not_terminated
read_lines (line ∷ lines) s = do t ← read_line line s; read_lines lines t

-- readKeyValueFile.
unfoldable pub read_key_values : List String → Result FileError Values
unfolding read_lines
read_key_values lines = read_lines lines (none, [])

-- A multiline value as a step writes it.
pub record Written : Type 0 where
  pub name : String
  pub delimiter : String
  pub values : List String

abbrev pub lines_of : Written → List String
lines_of w = (w.name ⧺ ("<<" ⧺ w.delimiter)) ∷ (w.values ++ w.delimiter ∷ [])

abbrev pub write_all : List Written → List String
write_all [] = []
write_all (w ∷ ws) = lines_of w ++ write_all ws

-- A line that no carriage return ends.
abbrev pub IsLine : String → Type 0
IsLine s = trim_return s ≡ s

-- None of the lines is the delimiter.
abbrev pub AreValues : String → List String → Type 0
AreValues delimiter [] = Unit
AreValues delimiter (v ∷ vs) = IsLine v × (v == delimiter ≡ false) × AreValues delimiter vs

abbrev pub IsWritable : Written → Type 0
IsWritable w =
    (w.name == "" ≡ false)
    × (w.delimiter == "" ≡ false)
    × Lacks 60 w.name
    × Lacks 61 w.name
    × IsLine (w.name ⧺ ("<<" ⧺ w.delimiter))
    × IsLine w.delimiter
    × AreValues w.delimiter w.values

abbrev pub AreWritable : List Written → Type 0
AreWritable [] = Unit
AreWritable (w ∷ ws) = IsWritable w × AreWritable ws

-- The values that were written, a later one in place of an earlier one.
abbrev pub values_of : List Written → Values → Values
values_of [] r = r
values_of (w ∷ ws) r = values_of ws (insert w.name (join w.values) r)
