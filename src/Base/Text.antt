-- ===== src/Base/Text.antt =====
-- The parts of Go's package `strings` that the sources use, over native texts.
use Prim.Native.Nat.{ℕ}
use Prim.Native.Char.{Char, code}
use Prim.Native.String
use Prim.Native.String.{String, [], ◌∷◌}
use mathlib.Core.Path.{◌≡◌, refl}
use mathlib.Core.Logic.{◌≢◌, inl, inr}
use mathlib.Core.Bool.{true, false}
use mathlib.Core.Option.{Option, none, some}
use mathlib.Core.List as List
use native.Mathlib.Omega.{arith}
use text.Mathlib.TextEquality.{Char-path}
use text.Mathlib.TextLemmas.{nil-append, cons-append}
use open_actions.Base.Tests.{eqb, eqb_refl, eqb-eq, Bool-cases, Option-cases}

-- `+` on texts.
infixr 65 ◌⧺◌
abbrev pub ◌⧺◌ : String → String → String
s ⧺ t = String.◌++◌ s t

-- strings.Cut at a character: what stands before its first occurrence, and what stands after it.
unfoldable pub cut : ℕ → String → Option (String × String)
cut sep [] = none
cut sep (c ∷ s) =
    let rest = cut sep s in
    elim (eqb (code c) sep) [
      | true ↦ some ([], s)
      | false ↦ elim rest [ none ↦ none | some (before, after) ↦ some (c ∷ before, after) ]
    ]

-- `[]rune(s)`.
unfoldable pub runes : String → List.List Char
runes [] = List.[]
runes (c ∷ s) = List.◌∷◌ c (runes s)

pub runes-append : (s t : String) → runes (s ⧺ t) ≡ List.◌++◌ (runes s) (runes t)
unfolding runes
runes-append [] t = rw nil-append refl
runes-append (c ∷ s) t = ground (arith, cons-append c s t, runes-append s t)

-- A text has no character `sep`.
abbrev pub Lacks : ℕ → String → Type 0
Lacks sep [] = Unit
Lacks sep (c ∷ s) = (code c ≢ sep) × Lacks sep s

pub cut-append :
    (sep : Char) (s t : String)
    → Lacks (code sep) s
    → cut (code sep) (String.◌++◌ s (sep ∷ t)) ≡ some (s, t)
unfolding cut
cut-append sep [] t h = rw nil-append (ground (arith, eqb_refl (code sep)))
cut-append sep (c ∷ s) t (n, h) =
    rw cons-append (ground (arith, cut-append sep s t h, eqb-eq (code c) (code sep)))

-- What is cut can be put together again.
pub append-cut :
    (sep : Char) (v s t : String) → cut (code sep) v ≡ some (s, t) → String.◌++◌ s (sep ∷ t) ≡ v
unfolding cut
append-cut sep [] s t e = cc
append-cut sep (c ∷ v) s t e = elim (Bool-cases (eqb (code c) (code sep))) [
  | inl same ↦
      let here = eqb-eq (code c) (code sep) same in
      ground (arith, nil-append (sep ∷ v), Char-path c sep here)
  | inr other ↦ elim (Option-cases (cut (code sep) v)) [
    | inl missing ↦ ground arith
    | inr ((b, a), found) ↦ ground (arith, append-cut sep v b a found, cons-append c b (sep ∷ a))
  ]
]
