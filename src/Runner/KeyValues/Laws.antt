-- ===== src/Runner/KeyValues/Laws.antt =====
-- What is written is read back.
use open_actions.Base.{
  String, false, ◌≡◌, inl, inr, refl, ap, sym, ◌∙◌, arith, none, some, List, [], ◌∷◌, ◌++◌, ◌==◌,
  eq_iff, eq_refl, onto, Bool-cases,
}
use open_actions.Base.Dict.{insert}
use open_actions.Base.Result.{Result, ok, ◌>>=◌}
use open_actions.Base.Text.{Lacks, ◌⧺◌}
use open_actions.Runner.KeyValues.{
  FileError, Values, Reader, join, open_heredoc, read_command, read_value, read_line, read_lines,
  read_key_values, Written, lines_of, write_all, IsLine, AreValues, IsWritable, AreWritable,
  values_of,
}
use open_actions.Runner.Lines.{cut_twice, cut_twice-heredoc, cut_twice-nil, cut-Lacks}
use mathlib.Core.List.{append_assoc}

-- The lines of a multiline value, to its delimiter.
read_lines-AreValues :
    (name delimiter : String) (vs acc rest : List String) (r : Values)
    → IsLine delimiter
    → AreValues delimiter vs
    → read_lines
        (vs ++ delimiter ∷ rest)
        (some (record { name = name; delimiter = delimiter; values = acc }), r)
      ≡ read_lines rest (none, insert name (join (onto acc vs)) r)
unfolding read_lines read_line read_value
read_lines-AreValues name delimiter [] acc rest r ends _ = rw (ends, eq_refl delimiter) refl
read_lines-AreValues name delimiter (v ∷ vs) acc rest r ends (line, other, more) =
    rw (line, other) (read_lines-AreValues name delimiter vs (v ∷ acc) rest r ends more)

named-nonempty : (name t : String) → Lacks 60 name → (name ⧺ ("<<" ⧺ t)) == "" ≡ false
named-nonempty name t h = elim (Bool-cases ((name ⧺ ("<<" ⧺ t)) == "")) [
  | inr other ↦ other
  | inl empty ↦ absurd (
      cut_twice-nil name t
        (ap (cut_twice 60) (sym ((eq_iff _ "").0 empty)) ∙ cut_twice-heredoc name t h))
]

read_command-Written :
    (w : Written) (r : Values)
    → IsWritable w
    → read_command (w.name ⧺ ("<<" ⧺ w.delimiter)) r
      ≡ ok (some (record { name = w.name; delimiter = w.delimiter; values = [] }), r)
unfolding read_command open_heredoc
read_command-Written w r (named, delimited, lacks, unassigned, _, _, _) =
    let cuts = cut_twice-heredoc w.name w.delimiter lacks in
    let full = named-nonempty w.name w.delimiter lacks in
    let plain = cut-Lacks 61 w.name unassigned in
    ground (arith, cuts, full, plain, named, delimited)

read_lines-Written :
    (w : Written) (rest : List String) (r : Values)
    → IsWritable w
    → read_lines (lines_of w ++ rest) (none, r)
      ≡ read_lines rest (none, insert w.name (join w.values) r)
unfolding read_lines read_line
read_lines-Written w rest r ok_w =
    let (named, delimited, lacks, unassigned, opening, ends, values) = ok_w in
    let first = read_command-Written w r ok_w in
    let next : Reader → Result FileError Values =
      read_lines ((w.values ++ w.delimiter ∷ []) ++ rest) in
    ap (λ x. read_command x r >>= next) opening
    ∙ ap (λ x. x >>= next) first
    ∙ ap
        (λ ls.
          read_lines ls (some (record { name = w.name; delimiter = w.delimiter; values = [] }), r))
        (append_assoc w.values (w.delimiter ∷ []) rest)
    ∙ read_lines-AreValues w.name w.delimiter w.values [] rest r ends values

read_lines-write_all :
    (ws : List Written) (r : Values)
    → AreWritable ws
    → read_lines (write_all ws) (none, r) ≡ ok (values_of ws r)
unfolding read_lines
read_lines-write_all [] r _ = refl
read_lines-write_all (w ∷ ws) r (good, rest) =
    read_lines-Written w (write_all ws) r good
    ∙ read_lines-write_all ws (insert w.name (join w.values) r) rest

-- readKeyValueFile reads back what a step writes as multiline values, a later one under a name in
-- place of an earlier one. The names and the delimiters are not empty, a name has no `<` and no `=`,
-- no line of a value is the delimiter, and no line ends in a carriage return.
pub read_key_values-write_all :
    (ws : List Written) → AreWritable ws → read_key_values (write_all ws) ≡ ok (values_of ws [])
unfolding read_key_values
read_key_values-write_all ws good = read_lines-write_all ws [] good
