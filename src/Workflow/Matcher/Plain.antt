-- ===== src/Workflow/Matcher/Plain.antt =====
-- The patterns of a directory: a path without special characters, and `/*` or `/**`.
use Prim.Native.Char.{Char, code}
use text.Mathlib.TextEquality.{Char-path}
use open_actions.Base.{
  String, Bool, true, false, not, ◌||◌, ◌≡◌, ◌↔◌, refl, ap, sym, ◌∙◌, arith, Option, none, some,
  List, [], ◌∷◌, ◌++◌, map, all, eqb, onto, eqb_refl,
}
use open_actions.Base.Text.{runes, ◌⧺◌, runes-append}
use open_actions.Workflow.Glob.{
  GlobAtom, literal, star, double_star, step, star_atom, compile_from, compile_github_pattern,
}
use open_actions.Workflow.Matcher.{
  is_char, is_empty, after_one, after_run, accepts_atom, accepts, is_negated, trim_negation,
  compile_patterns, matches_from, matches, matches_patterns,
}

-- A character that stands for itself wherever it is: none of ! * + ? [ and the backslash.
abbrev pub is_plain : Char → Bool
is_plain c = not (
    eqb (code c) 33
    || eqb (code c) 42
    || eqb (code c) 43
    || eqb (code c) 63
    || eqb (code c) 91
    || eqb (code c) 92)

abbrev pub slash : Char
slash = "/"

-- The atoms of plain characters, put before those that were read.
abbrev literals : List Char → List GlobAtom → List GlobAtom
literals [] atoms = atoms
literals (c ∷ s) atoms = literals s (literal c ∷ atoms)

abbrev last_of : Option Char → List Char → Option Char
last_of previous [] = previous
last_of previous (c ∷ s) = last_of (some c) s

compile_from-plain :
    (s t : List Char) (previous : Option Char) (atoms : List GlobAtom)
    → all is_plain s ≡ true
    → compile_from (s ++ t) 0 previous atoms
      ≡ compile_from t 0 (last_of previous s) (literals s atoms)
unfolding compile_from step
compile_from-plain [] t previous atoms h = refl
compile_from-plain (c ∷ s) t previous atoms h =
    let now : step previous c (s ++ t) atoms ≡ some (0, literal c ∷ atoms) = ground arith in
    rw (now, compile_from) (compile_from-plain s t (some c) (literal c ∷ atoms) (ground arith))

onto-literals :
    (s : List Char) (atoms more : List GlobAtom)
    → onto (literals s atoms) more ≡ onto atoms (map literal s ++ more)
onto-literals [] atoms more = refl
onto-literals (c ∷ s) atoms more = onto-literals s (literal c ∷ atoms) more

-- What is left after the characters of `s` is of `atoms`.
abbrev Continues : List Char → List GlobAtom → List Char → Type 0
Continues s atoms v = (w : List Char) × (v ≡ s ++ w) × (accepts atoms w ≡ true)

accepts-Continues :
    (s : List Char) (atoms : List GlobAtom) (v : List Char)
    → accepts (map literal s ++ atoms) v ≡ true
    → Continues s atoms v
unfolding accepts accepts_atom after_one is_char
accepts-Continues [] atoms v h = (v, refl, h)
accepts-Continues (c ∷ s) atoms [] h = absurd (cc)
accepts-Continues (c ∷ s) atoms (x ∷ v) h =
    let same : c ≡ x = Char-path c x (ground arith) in
    let (w, e, rest) = accepts-Continues s atoms v (ground arith) in (w, rw (same, e) refl, rest)

Continues-accepts :
    (s : List Char) (atoms : List GlobAtom) (w : List Char)
    → accepts atoms w ≡ true
    → accepts (map literal s ++ atoms) (s ++ w) ≡ true
unfolding accepts accepts_atom after_one is_char
Continues-accepts [] atoms w h = h
Continues-accepts (c ∷ s) atoms w h =
    ground (arith, eqb_refl (code c), Continues-accepts s atoms w h)

-- A character of a name.
abbrev pub is_name : Char → Bool
is_name c = not (eqb (code c) 47)

run_all : (v : List Char) → after_run (λ x. true) is_empty v ≡ true
unfolding after_run
run_all [] = refl
run_all (x ∷ v) = ground (arith, run_all v)

run_names : (v : List Char) → after_run is_name is_empty v ≡ all is_name v
unfolding after_run
run_names [] = refl
run_names (x ∷ v) = ground (arith, run_names v)

-- After a slash, anything.
accepts-under :
    (w : List Char)
    → (accepts (literal slash ∷ double_star ∷ []) w ≡ true) ↔ ((u : List Char) × (w ≡ slash ∷ u))
unfolding accepts accepts_atom after_one is_char
accepts-under [] = (λ h. absurd (cc), λ (u, e). absurd (cc))
accepts-under (x ∷ u) = (
  λ h. (u, ap (λ y. y ∷ u) (sym (Char-path slash x (ground arith)))),
  λ (t, e). let same : x ≡ slash = ground arith in rw same (run_all u),
)

-- After a slash, anything without another.
accepts-inside :
    (w : List Char)
    → (accepts (literal slash ∷ star ∷ []) w ≡ true)
      ↔ ((u : List Char) × (w ≡ slash ∷ u) × (all is_name u ≡ true))
unfolding accepts accepts_atom after_one is_char
accepts-inside [] = (λ h. absurd (cc), λ (u, e, _). absurd (cc))
accepts-inside (x ∷ u) = (
  λ h. (
    u,
    ap (λ y. y ∷ u) (sym (Char-path slash x (ground arith))),
    sym (run_names u) ∙ ground arith,
  ),
  λ (t, e, named).
      let same : x ≡ slash = ground arith in
      let rest : u ≡ t = ground arith in rw same (run_names u ∙ rw rest named),
)

-- The end of the pattern is compiled to a slash and an atom.
abbrev IsEnd : List Char → GlobAtom → Type 0
IsEnd t a =
    (previous : Option Char) (atoms : List GlobAtom)
    → compile_from (slash ∷ t) 0 previous atoms ≡ some (onto atoms (literal slash ∷ a ∷ []))

under-IsEnd : IsEnd (runes "**") double_star
unfolding compile_from step star_atom runes
under-IsEnd previous atoms = refl

inside-IsEnd : IsEnd (runes "*") star
unfolding compile_from step star_atom runes
inside-IsEnd previous atoms = refl

plain-unmarked :
    (s t : List Char)
    → all is_plain s ≡ true
    → (trim_negation (s ++ slash ∷ t) ≡ s ++ slash ∷ t) × (is_negated (s ++ slash ∷ t) ≡ false)
unfolding trim_negation is_negated
plain-unmarked [] t h = (refl, refl)
plain-unmarked (c ∷ s) t h = (ground arith, ground arith)

-- A single pattern that is not negated selects what its atoms accept.
single :
    (p value : String) (atoms : List GlobAtom)
    → is_negated (runes p) ≡ false
    → compile_github_pattern (trim_negation (runes p)) ≡ some atoms
    → matches_patterns (p ∷ []) value ≡ accepts atoms (runes value)
unfolding matches_patterns matches matches_from compile_patterns
single p value atoms on e = ground (arith, on, e)

directory :
    (d ending value : String) (t : List Char) (a : GlobAtom)
    → all is_plain (runes d) ≡ true
    → runes ending ≡ slash ∷ t
    → IsEnd t a
    → matches_patterns ((d ⧺ ending) ∷ []) value
      ≡ accepts (map literal (runes d) ++ (literal slash ∷ a ∷ [])) (runes value)
unfolding compile_github_pattern
directory d ending value t a plain shape end =
    let s = runes d in
    let same : runes (d ⧺ ending) ≡ s ++ slash ∷ t =
      runes-append d ending ∙ ap (λ x. s ++ x) shape in
    let (trimmed, unmarked) = plain-unmarked s t plain in
    single (d ⧺ ending) value _ (ap is_negated same ∙ unmarked) (
      ap (λ x. compile_github_pattern (trim_negation x)) same
      ∙ ap compile_github_pattern trimmed
      ∙ compile_from-plain s (slash ∷ t) none [] plain
      ∙ end (last_of none s) (literals s [])
      ∙ ap some (onto-literals s [] (literal slash ∷ a ∷ [])))

-- For a path `d` without special characters, the pattern `d/**` selects exactly what is somewhere
-- under `d`, and `d/*` exactly what is directly in it. Special are ! * + ? [ and the backslash.
pub matches_patterns-directory :
    (d value : String)
    → all is_plain (runes d) ≡ true
    → ((matches_patterns ((d ⧺ "/**") ∷ []) value ≡ true)
        ↔ ((u : List Char) × (runes value ≡ runes d ++ slash ∷ u)))
      × ((matches_patterns ((d ⧺ "/*") ∷ []) value ≡ true)
          ↔ ((u : List Char) × (runes value ≡ runes d ++ slash ∷ u) × (all is_name u ≡ true)))
unfolding runes
matches_patterns-directory d value plain =
    let s = runes d in
    let v = runes value in
    let below = directory d "/**" value (runes "**") double_star plain refl under-IsEnd in
    let within = directory d "/*" value (runes "*") star plain refl inside-IsEnd in
    (
      (
        λ h.
            let (w, e, rest) = accepts-Continues s _ v (sym below ∙ h) in
            let (u, f) = (accepts-under w).0 rest in (u, e ∙ ap (λ x. s ++ x) f),
        λ (u, e).
            below
            ∙ ap (accepts _) e
            ∙ Continues-accepts s _ (slash ∷ u) ((accepts-under (slash ∷ u)).1 (u, refl)),
      ),
      (
        λ h.
            let (w, e, rest) = accepts-Continues s _ v (sym within ∙ h) in
            let (u, f, named) = (accepts-inside w).0 rest in (u, e ∙ ap (λ x. s ++ x) f, named),
        λ (u, e, named).
            within
            ∙ ap (accepts _) e
            ∙ Continues-accepts s _ (slash ∷ u) ((accepts-inside (slash ∷ u)).1 (u, refl, named)),
      ),
    )
