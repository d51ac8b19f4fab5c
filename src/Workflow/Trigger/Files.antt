-- ===== src/Workflow/Trigger/Files.antt =====
-- The test of the changed files.
use open_actions.Base.{
  String, Bool, true, false, not, ◌||◌, ◌≡◌, ◌⊎◌, ◌↔◌, inl, inr, refl, ap, sym, ◌∙◌, arith, some,
  List, [], ◌∷◌, any, eq_iff, eq_refl, Bool-cases, Option-cases, if◌then◌else◌,
}
use open_actions.Base.Dict.{mem}
use open_actions.Base.Result.{ok}
use open_actions.Workflow.Event.{
  EventFilter, ChangedFiles, Event, is_nonempty, take, max_changed_files, needs_changed_files,
  matches_paths, differ,
}
use open_actions.Workflow.Matcher.{matches_patterns}
use open_actions.Workflow.Matcher.Last.{IsSelected, matches_patterns_iff}
use open_actions.Workflow.Trigger.{files_allow}

any-found :
    (p : String → Bool) (xs : List String)
    → any p xs ≡ true
    → (x : String) × (mem x xs ≡ true) × (p x ≡ true)
any-found p [] h = absurd (cc)
any-found p (x ∷ xs) h = elim (Bool-cases (p x)) [
  | inl here ↦ (x, ground (arith, eq_refl x), here)
  | inr miss ↦
      let (y, at, there) = any-found p xs (ground (arith, miss)) in (y, ground (arith), there)
]

found-any :
    (p : String → Bool) (xs : List String) (x : String)
    → mem x xs ≡ true
    → p x ≡ true
    → any p xs ≡ true
found-any p [] x at h = absurd (cc)
found-any p (y ∷ xs) x at h = ground (arith, eq_iff x y, found-any p xs x)

-- A path that counts: the paths select it, or the paths to ignore are given and do not.
abbrev pub Counts : EventFilter → String → Type 0
Counts f path =
    ((is_nonempty f.paths_ignore ≡ false) × IsSelected f.paths path)
    ⊎ ((is_nonempty f.paths_ignore ≡ true) × (IsSelected f.paths_ignore path → ⊥))

-- The paths of the change are looked at and one counts, or they are passed over.
abbrev pub FilesPass : EventFilter → Event → Type 0
FilesPass f event =
    (needs_changed_files f event ≡ false)
    ⊎ ((files : ChangedFiles) × (event.changed_files ≡ some files)
        × ((files.always_run ≡ true)
            ⊎ ((path : String) × (mem path (take max_changed_files files.paths) ≡ true)
                × Counts f path)))

-- The test of one path.
abbrev path_counts : EventFilter → String → Bool
path_counts f path =
    if is_nonempty f.paths_ignore
    then not (matches_patterns f.paths_ignore path)
    else matches_patterns f.paths path

path_counts_iff : (f : EventFilter) (path : String) → (path_counts f path ≡ true) ↔ Counts f path
path_counts_iff f path = elim (Bool-cases (is_nonempty f.paths_ignore)) [
  | inl ignore ↦
      let (there, back) = matches_patterns_iff f.paths_ignore path in
      (
        λ h. inr (ignore, λ s. let b = back s in ground (arith, ignore, h, b)),
        λ c. elim c [
          | inl (other, _) ↦ ground (arith, ignore, other)
          | inr (_, miss) ↦ elim (Bool-cases (matches_patterns f.paths_ignore path)) [
            | inl hit ↦ absurd (miss (there hit))
            | inr out ↦ ground (arith, ignore, out)
          ]
        ],
      )
  | inr plain ↦
      let (there, back) = matches_patterns_iff f.paths path in
      (
        λ h. inl (plain, there (ground (arith, plain, h))),
        λ c. elim c [
          | inl (_, s) ↦ let b = back s in ground (arith, plain, b)
          | inr (other, _) ↦ ground (arith, plain, other)
        ],
      )
]

any-equal :
    (p q : String → Bool) (xs : List String) → ((x : String) → p x ≡ q x) → any p xs ≡ any q xs
any-equal p q [] h = refl
any-equal p q (x ∷ xs) h = ground (arith, h x, any-equal p q xs h)

differ-true : (b : Bool) → differ b true ≡ not b
differ-true true = refl
differ-true false = refl

differ-false : (b : Bool) → differ b false ≡ b
differ-false true = refl
differ-false false = refl

or-right : {a b : Bool} → a ≡ false → (a || b) ≡ true → b ≡ true
or-right {a} {b} e h = ground (arith, e, h)

or-true : (a : Bool) {b : Bool} → b ≡ true → (a || b) ≡ true
or-true true h = refl
or-true false h = h

-- One turn of the loop of matchesPaths.
turn :
    (f : EventFilter) (path : String)
    → differ
        (matches_patterns (if is_nonempty f.paths_ignore then f.paths_ignore else f.paths) path)
        (is_nonempty f.paths_ignore)
      ≡ path_counts f path
turn f path = elim (Bool-cases (is_nonempty f.paths_ignore)) [
  | inl ignore ↦ rw ignore (differ-true (matches_patterns f.paths_ignore path))
  | inr plain ↦ rw plain (differ-false (matches_patterns f.paths path))
]

matches_paths-any :
    (f : EventFilter) (files : ChangedFiles)
    → matches_paths f files
      ≡ (files.always_run || any (path_counts f) (take max_changed_files files.paths))
unfolding matches_paths matches_patterns
matches_paths-any f files =
    ap (λ b. files.always_run || b)
      (any-equal _ (path_counts f) (take max_changed_files files.paths) (turn f))

-- A path among those that are looked at counts, or all do.
abbrev SomeCounts : EventFilter → ChangedFiles → Type 0
SomeCounts f files =
    (files.always_run ≡ true)
    ⊎ ((path : String) × (mem path (take max_changed_files files.paths) ≡ true) × Counts f path)

counted :
    (f : EventFilter) (files : ChangedFiles) → matches_paths f files ≡ true → SomeCounts f files
counted f files h = elim (Bool-cases files.always_run) [
  | inl always ↦ inl always
  | inr asked ↦
      let (path, at, there) =
        any-found (path_counts f) (take max_changed_files files.paths)
          (or-right asked (sym (matches_paths-any f files) ∙ h)) in
      inr (path, at, (path_counts_iff f path).0 there)
]

counts :
    (f : EventFilter) (files : ChangedFiles) → SomeCounts f files → matches_paths f files ≡ true
counts f files (inl always) = matches_paths-any f files ∙ rw always refl
counts f files (inr (path, at, c)) =
    matches_paths-any f files
    ∙ or-true files.always_run (
        found-any (path_counts f) (take max_changed_files files.paths) path at
          ((path_counts_iff f path).1 c))

-- The files pass exactly if the test of the changed files says so.
pub files_allow_iff :
    (f : EventFilter) (event : Event) → (files_allow f event ≡ ok true) ↔ FilesPass f event
unfolding files_allow
files_allow_iff f event = elim (Bool-cases (needs_changed_files f event)) [
  | inr free ↦ (λ h. inl free, λ p. ground (arith, free))
  | inl needed ↦ elim (Option-cases event.changed_files) [
    | inl missing ↦ (
      λ h. absurd (ground (arith, needed, missing, h)),
      λ p. elim p [
        | inl free ↦ absurd (ground (arith, needed, free))
        | inr (files, there, _) ↦ absurd (ground (arith, missing, there))
      ],
    )
    | inr (files, there) ↦
        let verdict : files_allow f event ≡ ok (matches_paths f files) =
          ground (arith, needed, there) in
        (
          λ h. inr (files, there, counted f files (ground (arith, verdict, h))),
          λ p. elim p [
            | inl free ↦ absurd (ground (arith, needed, free))
            | inr (others, here, c) ↦
                let same : others ≡ files = ground (arith, here, there) in
                verdict ∙ ap ok (ap (matches_paths f) (sym same) ∙ counts f others c)
          ],
        )
  ]
]
