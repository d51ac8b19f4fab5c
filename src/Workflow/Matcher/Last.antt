-- ===== src/Workflow/Matcher/Last.antt =====
-- Of the patterns that a value fits, the last one decides.
use open_actions.Base.{
  String, Bool, true, false, not, ◌≡◌, ◌≢◌, ◌⊎◌, ◌↔◌, inl, inr, refl, ap, sym, ◌∙◌, arith, Option,
  none, some, List, [], ◌∷◌, ◌++◌, any, Bool-cases, Option-cases, if◌then◌else◌,
}
use open_actions.Base.Text.{runes}
use open_actions.Workflow.Glob.{GlobAtom, compile_github_pattern}
use open_actions.Workflow.Matcher.{
  accepts, is_negated, trim_negation, compile_patterns, matches_from, matches, matches_patterns,
}

abbrev accepts_some : Option (List GlobAtom) → String → Bool
accepts_some none value = false
accepts_some (some atoms) value = accepts atoms (runes value)

-- A value fits a pattern without its mark of negation; a pattern that does not compile fits nothing.
unfoldable pub fits : String → String → Bool
unfolding compile_github_pattern trim_negation accepts
fits value pattern = accepts_some (compile_github_pattern (trim_negation (runes pattern))) value

-- The last pattern that the value fits, and it is not negated.
abbrev pub IsSelected : List String → String → Type 0
IsSelected patterns value =
    (before : List String) × (p : String) × (after : List String) × (patterns ≡ before ++ p ∷ after)
    × (fits value p ≡ true)
    × (is_negated (runes p) ≡ false)
    × (any (fits value) after ≡ false)

-- The flag is on at the end: it stayed on, or a pattern turned it on for good.
abbrev Stays : Bool → List String → String → Type 0
Stays matched patterns value =
    ((matched ≡ true) × (any (fits value) patterns ≡ false)) ⊎ IsSelected patterns value

-- What a pattern does to the flag.
abbrev next_flag : Bool → String → String → Bool
next_flag matched pattern value =
    if fits value pattern then not (is_negated (runes pattern)) else matched

compile_step :
    (matched : Bool) (pattern : String) (patterns : List String) (value : String)
    → matches_from matched (compile_patterns (pattern ∷ patterns)) (runes value)
      ≡ matches_from (next_flag matched pattern value) (compile_patterns patterns) (runes value)
unfolding compile_patterns fits matches_from
compile_step matched pattern patterns value =
    elim (Option-cases (compile_github_pattern (trim_negation (runes pattern)))) [
      | inl bad ↦ ground (arith, bad)
      | inr (atoms, good) ↦ ground (arith, good)
    ]

later-IsSelected :
    (p : String) (patterns : List String) (value : String)
    → IsSelected patterns value
    → IsSelected (p ∷ patterns) value
later-IsSelected p patterns value (before, q, after, e, fit, on, clear) =
    (p ∷ before, q, after, ap (λ ps. p ∷ ps) e, fit, on, clear)

ne_split : (before : List String) (q : String) (after : List String) → [] ≢ before ++ q ∷ after
ne_split [] q after e = absurd (cc)
ne_split (x ∷ before) q after e = absurd (cc)

Stays-cons :
    (matched : Bool) (p : String) (patterns : List String) (value : String)
    → Stays (next_flag matched p value) patterns value
    → Stays matched (p ∷ patterns) value
Stays-cons matched p patterns value (inl (on, clear)) = elim (Bool-cases (fits value p)) [
  | inl fit ↦ inr ([], p, patterns, refl, fit, ground (arith, fit), clear)
  | inr miss ↦ inl (ground (arith, miss), ground (arith, miss))
]
Stays-cons matched p patterns value (inr found) = inr (later-IsSelected p patterns value found)

selected_tail :
    (matched : Bool) (p : String) (patterns before : List String) (q : String) (after : List String)
    (value : String)
    → p ∷ patterns ≡ before ++ q ∷ after
    → fits value q ≡ true
    → is_negated (runes q) ≡ false
    → any (fits value) after ≡ false
    → Stays (next_flag matched p value) patterns value
selected_tail matched p patterns [] q after value e fit on clear =
    let here : p ≡ q = ground arith in
    let rest : patterns ≡ after = ground arith in inl (rw (here, fit, on) refl, rw rest clear)
selected_tail matched p patterns (x ∷ before) q after value e fit on clear =
    inr (before, q, after, ground arith, fit, on, clear)

Stays-tail :
    (matched : Bool) (p : String) (patterns : List String) (value : String)
    → Stays matched (p ∷ patterns) value
    → Stays (next_flag matched p value) patterns value
Stays-tail matched p patterns value (inl (on, clear)) = inl (ground arith, ground arith)
Stays-tail matched p patterns value (inr (before, q, after, e, fit, on, clear)) =
    selected_tail matched p patterns before q after value e fit on clear

matches_from-Stays :
    (patterns : List String) (matched : Bool) (value : String)
    → (matches_from matched (compile_patterns patterns) (runes value) ≡ true)
      ↔ Stays matched patterns value
unfolding matches_from compile_patterns
matches_from-Stays [] matched value = (
  λ on. inl (on, refl),
  λ s. elim s [
    | inl (on, _) ↦ on
    | inr (before, q, after, e, _, _, _) ↦ absurd (ne_split before q after e)
  ],
)
matches_from-Stays (p ∷ patterns) matched value =
    let (there, back) = matches_from-Stays patterns (next_flag matched p value) value in
    let same = compile_step matched p patterns value in
    (
      λ on. Stays-cons matched p patterns value (there (sym same ∙ on)),
      λ s. same ∙ back (Stays-tail matched p patterns value s),
    )

-- matchesPatterns selects a value exactly if, of the patterns that compile and that the value fits,
-- there is a last one and it is not negated.
pub matches_patterns_iff :
    (patterns : List String) (value : String)
    → (matches_patterns patterns value ≡ true) ↔ IsSelected patterns value
unfolding matches_patterns matches
matches_patterns_iff patterns value =
    let (there, back) = matches_from-Stays patterns false value in
    (
      λ e. elim (there e) [ inl (bad, _) ↦ absurd (cc) | inr found ↦ found ],
      λ found. back (inr found),
    )
