-- ===== src/Runner/KeyValues/Tests.antt =====
-- A file of two values, and what is no such file.
use open_actions.Base.{◌≡◌, refl, arith, List, [], ◌∷◌}
use open_actions.Base.Dict.{insert}
use open_actions.Base.Result.{ok, err}
use open_actions.Base.Text.{cut}
use open_actions.Runner.KeyValues.{
  not_terminated, invalid_command, join, open_heredoc, read_command, read_value, read_line,
  read_lines, read_key_values, Written, write_all, AreWritable, values_of,
}
use open_actions.Runner.KeyValues.Laws.{read_key_values-write_all}
use open_actions.Runner.Lines.{trim_return, cut_twice}

runs :
    (read_key_values ("a=1<<2" ∷ "" ∷ "b<<E\r" ∷ "x=" ∷ "y" ∷ "E" ∷ [])
      ≡ ok (("a", "1<<2") ∷ ("b", "x=\ny") ∷ []))
    × (read_key_values ("b<<E" ∷ "x" ∷ []) ≡ err not_terminated)
    × (read_key_values ("=x" ∷ []) ≡ err invalid_command)
unfolding read_key_values read_lines read_line read_command read_value open_heredoc join trim_return
    cut_twice cut insert
runs = (refl, refl, refl)

abbrev written : List Written
written =
    record { name = "s"; delimiter = "EOF"; values = "1" ∷ "2" ∷ [] }
    ∷ record { name = "l"; delimiter = "END"; values = [] }
    ∷ []

written-AreWritable : AreWritable written
unfolding trim_return
written-AreWritable = (
  (
    refl,
    refl,
    (λ e. omega (arith, e), tt),
    (λ e. omega (arith, e), tt),
    refl,
    refl,
    (refl, refl, (refl, refl, tt)),
  ),
  ((refl, refl, (λ e. omega (arith, e), tt), (λ e. omega (arith, e), tt), refl, refl, tt), tt),
)

read_key_values-write_all_example : read_key_values (write_all written) ≡ ok (values_of written [])
read_key_values-write_all_example = read_key_values-write_all written written-AreWritable
