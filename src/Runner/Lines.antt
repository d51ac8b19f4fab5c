-- ===== src/Runner/Lines.antt =====
-- The texts of one line: strings.TrimSuffix of a carriage return, and strings.Index of `<<`.
use Prim.Native.Char.{Char, code}
use Prim.Native.String.{String, [], ◌∷◌}
use open_actions.Base.{
  ℕ, Bool, false, ◌&&◌, ◌≡◌, ◌≢◌, refl, ap, ◌∙◌, arith, Option, none, some, eqb, eqb_refl,
  if◌then◌else◌,
}
use open_actions.Base.Text.{Lacks, ◌⧺◌, cut}
use text.Mathlib.TextLemmas.{nil-append, cons-append}

-- `strings.TrimSuffix(s, "\r")`.
unfoldable pub trim_return : String → String
trim_return [] = []
trim_return (c ∷ []) = if eqb (code c) 13 then [] else c ∷ []
trim_return (c ∷ d ∷ s) = c ∷ trim_return (d ∷ s)

abbrev pub begins_with : ℕ → String → Bool
begins_with sep [] = false
begins_with sep (c ∷ s) = eqb (code c) sep

abbrev pub without_first : String → String
without_first [] = []
without_first (c ∷ s) = s

-- strings.Cut at a character that stands twice in a row.
unfoldable pub cut_twice : ℕ → String → Option (String × String)
cut_twice sep [] = none
cut_twice sep (c ∷ s) =
    let rest = cut_twice sep s in
    if eqb (code c) sep && begins_with sep s
    then some ([], without_first s)
    else elim rest [ none ↦ none | some (before, after) ↦ some (c ∷ before, after) ]

pub cut_twice-append :
    (sep : Char) (s t : String)
    → Lacks (code sep) s
    → cut_twice (code sep) (s ⧺ (sep ∷ sep ∷ t)) ≡ some (s, t)
unfolding cut_twice
cut_twice-append sep [] t h = rw nil-append (ground (arith, eqb_refl (code sep)))
cut_twice-append sep (c ∷ s) t (n, h) = rw cons-append (ground (arith, cut_twice-append sep s t h))

-- A character that a text lacks cuts nothing.
pub cut-Lacks : (sep : ℕ) (s : String) → Lacks sep s → cut sep s ≡ none
unfolding cut
cut-Lacks sep [] h = refl
cut-Lacks sep (c ∷ s) (n, h) = ground (arith, cut-Lacks sep s h)

twice-append : (a b : Char) (t : String) → (a ∷ b ∷ []) ⧺ t ≡ a ∷ b ∷ t
twice-append a b t =
    cons-append a (b ∷ []) t ∙ ap (λ x. a ∷ x) (cons-append b [] t ∙ ap (λ x. b ∷ x) (nil-append t))

-- The first line of a multiline value is cut into its name and its delimiter.
pub cut_twice-heredoc : (s t : String) → Lacks 60 s → cut_twice 60 (s ⧺ ("<<" ⧺ t)) ≡ some (s, t)
cut_twice-heredoc s t h =
    ap (λ x. cut_twice 60 (s ⧺ x)) (twice-append "<" "<" t) ∙ cut_twice-append "<" s t h

pub cut_twice-nil : (s t : String) → cut_twice 60 "" ≢ some (s, t)
unfolding cut_twice
cut_twice-nil s t h = absurd (cc)
