-- ===== src/Workflow/Glob.antt =====
-- The patterns of branches, tags and paths: compileGitHubPattern of internal/workflow/workflow.go.
-- The regular expression that it writes is kept as the list of its atoms.
use Prim.Native.Char.{Char, code}
use open_actions.Base.{
  ℕ, zero, suc, Bool, true, false, ◌&&◌, ◌||◌, Option, none, some, List, [], ◌∷◌, eqb, leb,
  reversed, if◌then◌else◌,
}

-- globAtom; the constructor tells whether it is quantifiable.
pub data GlobAtom : Type 0 where
  literal : Char → GlobAtom
  class : List Char → GlobAtom  -- [...]
  star : GlobAtom  -- [^/]*
  double_star : GlobAtom  -- .*
  directories : GlobAtom  -- (?:.*/)?
  optional repeated : GlobAtom → GlobAtom  -- (...)? and (...)+

unfoldable pub quantifiable : GlobAtom → Bool
quantifiable (literal c) = true
quantifiable (class s) = true
quantifiable _ = false

abbrev pub in_range : ℕ → ℕ → Char → Bool
in_range low high c = leb low (code c) && leb (code c) high

-- isASCIIAlphanumeric.
unfoldable pub is_ascii_alphanumeric : Char → Bool
is_ascii_alphanumeric c = in_range 97 122 c || in_range 65 90 c || in_range 48 57 c

-- sameCharacterClassRange.
unfoldable pub same_character_class_range : Char → Char → Bool
same_character_class_range left right =
    leb (code left) (code right)
    && ((leb 97 (code left) && leb (code right) 122)
        || (leb 65 (code left) && leb (code right) 90)
        || (leb 48 (code left) && leb (code right) 57))

-- A character of a class that is not alphanumeric, after `previous`.
unfoldable pub joins_range : Option Char → Char → List Char → Bool
unfolding same_character_class_range
joins_range (some left) c (right ∷ _) = eqb (code c) 45 && same_character_class_range left right
joins_range _ c _ = false

unfoldable pub valid_characters : Option Char → List Char → Bool
unfolding is_ascii_alphanumeric joins_range
valid_characters previous [] = true
valid_characters previous (c ∷ s) =
    (is_ascii_alphanumeric c || joins_range previous c s) && valid_characters (some c) s

-- githubCharacterClass.
unfoldable pub github_character_class : List Char → Option GlobAtom
unfolding valid_characters
github_character_class [] = none
github_character_class (c ∷ s) =
    if valid_characters none (c ∷ s) then some (class (c ∷ s)) else none

-- The characters before `]`, and how many they are.
unfoldable pub before_bracket : List Char → Option (List Char × ℕ)
before_bracket [] = none
before_bracket (c ∷ s) =
    let rest = before_bracket s in
    if eqb (code c) 93
    then some ([], 0)
    else elim rest [ none ↦ none | some (t, n) ↦ some (c ∷ t, suc n) ]

-- Where a directory may begin: at the first character, and after a slash.
abbrev pub starts_directory : Option Char → Bool
starts_directory none = true
starts_directory (some c) = eqb (code c) 47

-- The characters that follow begin with one, and with two.
abbrev pub follows : ℕ → List Char → Bool
follows n [] = false
follows n (c ∷ s) = eqb (code c) n

abbrev pub follows_second : ℕ → List Char → Bool
follows_second n [] = false
follows_second n (c ∷ s) = follows n s

-- The case of `*`: how many further characters are read, and the atom.
unfoldable pub star_atom : Option Char → List Char → ℕ × GlobAtom
star_atom previous s =
    if follows 42 s
    then (if starts_directory previous && follows_second 47 s
        then (2, directories)
        else (1, double_star))
    else (0, star)

-- The cases of `?` and `+`, on the atoms that were read, the latest first.
unfoldable pub quantify : (GlobAtom → GlobAtom) → List GlobAtom → Option (List GlobAtom)
unfolding quantifiable
quantify quantifier [] = none
quantify quantifier (a ∷ atoms) = if quantifiable a then some (quantifier a ∷ atoms) else none

unfoldable pub escape : List Char → List GlobAtom → Option (ℕ × List GlobAtom)
escape [] atoms = none
escape (d ∷ s) atoms = some (1, literal d ∷ atoms)

unfoldable pub read_class : List Char → List GlobAtom → Option (ℕ × List GlobAtom)
unfolding before_bracket github_character_class
read_class s atoms = elim (before_bracket s) [
  | none ↦ none
  | some (characters, n) ↦ elim (github_character_class characters) [
    | none ↦ none
    | some a ↦ some (suc n, a ∷ atoms)
  ]
]

abbrev pub none_skipped : Option (List GlobAtom) → Option (ℕ × List GlobAtom)
none_skipped none = none
none_skipped (some atoms) = some (0, atoms)

-- The switch at a character, with what follows it: how many further characters it reads, and the
-- atoms.
unfoldable pub step : Option Char → Char → List Char → List GlobAtom → Option (ℕ × List GlobAtom)
unfolding star_atom quantify escape read_class
step previous c s atoms =
    if eqb (code c) 92
    then escape s atoms
    else if eqb (code c) 42
    then some ((star_atom previous s).0, (star_atom previous s).1 ∷ atoms)
    else if eqb (code c) 63
    then none_skipped (quantify optional atoms)
    else if eqb (code c) 43
    then none_skipped (quantify repeated atoms)
    else if eqb (code c) 91
    then read_class s atoms
    else some (0, literal c ∷ atoms)

-- The loop over the runes; the number says how many of them the switch has read already.
unfoldable pub compile_from : List Char → ℕ → Option Char → List GlobAtom → Option (List GlobAtom)
unfolding step
compile_from [] n previous atoms = some (reversed atoms)
compile_from (c ∷ s) (suc n) previous atoms = compile_from s n (some c) atoms
compile_from (c ∷ s) zero previous atoms = elim (step previous c s atoms) [
  | none ↦ none
  | some (n, more) ↦ compile_from s n (some c) more
]

-- compileGitHubPattern.
unfoldable pub compile_github_pattern : List Char → Option (List GlobAtom)
unfolding compile_from
compile_github_pattern pattern = compile_from pattern 0 none []
