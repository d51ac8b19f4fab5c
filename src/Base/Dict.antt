-- ===== src/Base/Dict.antt =====
-- Go maps with text keys, as association lists, and sets of texts, as lists.
use Prim.Native.String.{String}
use mathlib.Core.Path.{◌≡◌}
use mathlib.Core.Bool.{Bool, true, false, ◌||◌}
use mathlib.Core.Logic.{inl, inr}
use mathlib.Core.Option.{Option, none, some}
use mathlib.Core.List.{List, [], ◌∷◌}
use native.Mathlib.Omega.{arith}
use text.Mathlib.Text.{◌==◌}
use text.Mathlib.TextEquality.{eq_iff}
use text.Mathlib.TextPositions.{eq_refl}
use open_actions.Base.Tests.{if◌then◌else◌, Bool-cases}
use open_actions.Base.Lists.{any}

-- A set of texts, `map[string]struct{}`.
abbrev pub mem : String → List String → Bool
mem k [] = false
mem k (x ∷ xs) = k == x || mem k xs

-- A set of texts takes in one more.
abbrev pub add : String → List String → List String
add k xs = if mem k xs then xs else k ∷ xs

pub mem-add : (k x : String) (xs : List String) → mem k (add x xs) ≡ (k == x || mem k xs)
mem-add k x xs = ground (arith, eq_iff k x)

-- A list of texts meets a set.
pub any-mem :
    (xs ys : List String)
    → any (λ d. mem d ys) xs ≡ true
    → (d : String) × (mem d xs ≡ true) × (mem d ys ≡ true)
any-mem [] ys e = absurd (cc)
any-mem (x ∷ xs) ys e = elim (Bool-cases (mem x ys)) [
  | inl here ↦ (x, rw (eq_refl x), here)
  | inr later ↦ let (d, hx, hy) = any-mem xs ys (ground arith) in (d, ground arith, hy)
]

pub mem-any :
    (d : String) (xs ys : List String)
    → mem d xs ≡ true
    → mem d ys ≡ true
    → any (λ d. mem d ys) xs ≡ true
mem-any d [] ys hx hy = absurd (cc)
mem-any d (x ∷ xs) ys hx hy = ground (arith, eq_iff d x, mem-any d xs ys)

module _ {ℓ} {V : Type ℓ} where
  -- `v, found := dict[key]`.
  unfoldable pub lookup : (key : String) (dict : List (String × V)) → Option V
  lookup key [] = none
  lookup key ((here, v) ∷ dict) =
      let later = lookup key dict in elim (here == key) [ true ↦ some v | false ↦ later ]

  -- `dict[key] = new`.
  unfoldable pub insert : (key : String) (new : V) (dict : List (String × V)) → List (String × V)
  insert key new [] = (key, new) ∷ []
  insert key new ((here, old) ∷ dict) =
      let later = insert key new dict in
      elim (here == key) [ true ↦ (here, new) ∷ dict | false ↦ (here, old) ∷ later ]

  -- `delete(dict, key)`.
  unfoldable pub delete : (key : String) (dict : List (String × V)) → List (String × V)
  delete key [] = []
  delete key ((here, v) ∷ dict) =
      let later = delete key dict in elim (here == key) [ true ↦ later | false ↦ (here, v) ∷ later ]

  pub lookup-insert :
      (dict : List (String × V)) (key other : String) (new : V)
      → lookup other (insert key new dict) ≡ (if key == other then some new else lookup other dict)
  unfolding insert lookup
  lookup-insert [] key other new = ground arith
  lookup-insert ((here, v) ∷ dict) key other new =
      let later = lookup-insert dict key other new in
      ground (arith, later, eq_iff here key, eq_iff here other, eq_iff key other)

  pub lookup-delete :
      (dict : List (String × V)) (key other : String)
      → lookup other (delete key dict) ≡ (if key == other then none else lookup other dict)
  unfolding delete lookup
  lookup-delete [] key other = ground arith
  lookup-delete ((here, v) ∷ dict) key other =
      let later = lookup-delete dict key other in
      ground (arith, later, eq_iff here key, eq_iff here other, eq_iff key other)

-- `m[k]` at a map of texts: a missing key reads as the empty text.
unfoldable pub get : String → List (String × String) → String
unfolding lookup
get k m = elim (lookup k m) [ none ↦ "" | some v ↦ v ]

pub get-insert :
    (k j v : String) (m : List (String × String))
    → get j (insert k v m) ≡ (if k == j then v else get j m)
unfolding get
get-insert k j v m = ground (arith, lookup-insert m k j v)

pub get-delete :
    (k j : String) (m : List (String × String))
    → get j (delete k m) ≡ (if k == j then "" else get j m)
unfolding get
get-delete k j m = ground (arith, lookup-delete m k j)
