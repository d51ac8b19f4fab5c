-- ===== src/Base/Sorting.antt =====
-- sort.Strings.
use Prim.Native.String.{String, compare}
use mathlib.Core.Path.{◌≡◌, refl}
use mathlib.Core.Bool.{◌||◌}
use mathlib.Core.List.{List, [], ◌∷◌}
use native.Mathlib.Omega.{arith}
use text.Mathlib.Text.{◌==◌, is_le}
use open_actions.Base.Tests.{if◌then◌else◌}
use open_actions.Base.Dict.{mem}

unfoldable pub insert_text : String → List String → List String
insert_text k [] = k ∷ []
insert_text k (x ∷ xs) = if is_le (compare k x) then k ∷ x ∷ xs else x ∷ insert_text k xs

unfoldable pub sort_texts : List String → List String
unfolding insert_text
sort_texts [] = []
sort_texts (x ∷ xs) = insert_text x (sort_texts xs)

pub mem-insert_text :
    (k x : String) (xs : List String) → mem k (insert_text x xs) ≡ (k == x || mem k xs)
unfolding insert_text
mem-insert_text k x [] = refl
mem-insert_text k x (y ∷ ys) = ground (arith, mem-insert_text k x ys)

pub mem-sort_texts : (k : String) (xs : List String) → mem k (sort_texts xs) ≡ mem k xs
unfolding sort_texts
mem-sort_texts k [] = refl
mem-sort_texts k (x ∷ xs) = ground (arith, mem-insert_text k x (sort_texts xs), mem-sort_texts k xs)
