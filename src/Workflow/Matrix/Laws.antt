-- ===== src/Workflow/Matrix/Laws.antt =====
-- expandMatrix as a whole.
use open_actions.Base.{
  ◌≤◌, String, ◌≡◌, ◌⊎◌, subst, inl, inr, refl, sym, ap, ◌∙◌, arith, List, [], ◌∷◌, length, ltb,
  Bool-cases,
}
use open_actions.Base.Result.{ok, >>=-eq-ok}
use open_actions.Base.Sorting.{sort_texts}
use open_actions.Workflow.Matrix.{
  Entry, ResolvedMatrix, max_matrix_jobs, count_combinations, visit, apply_includes, names_of,
  some_jobs, own_jobs, expand_axes, expand_from, expand_matrix,
}
use open_actions.Workflow.Matrix.Axes.{bounded, AreDistinct, product, wanted, visit-wanted}
use open_actions.Workflow.Matrix.Includes.{ExtendAll, ExtendAll-refl, apply_includes-ExtendAll}
use open_actions.Workflow.Value.{Value}

-- The choices of a value for each axis that no exclude matches.
unfoldable pub base_combinations : ResolvedMatrix → List Entry
base_combinations m =
    wanted m.axes m.exclude (product m.axes m.exclude (sort_texts (names_of m.axes)) [])

bounded-eq-ok :
    {xs : List Entry} {ys : List Entry} → bounded xs ≡ ok ys → (xs ≡ ys) × (length ys ≤ 256)
bounded-eq-ok {xs} {ys} e = elim (Bool-cases (ltb max_matrix_jobs (length xs))) [
  | inl big ↦ absurd (ground (arith, big, e))
  | inr small ↦
      let same : xs ≡ ys = ground (arith, small, e) in (same, rw (← same) (ground (arith, small)))
]

some_jobs-eq-ok :
    (xs : List Entry) {ys : List Entry} → some_jobs xs ≡ ok ys → (xs ≡ ys) × (1 ≤ length ys)
unfolding some_jobs
some_jobs-eq-ok [] e = absurd (cc)
some_jobs-eq-ok (c ∷ cs) {ys} e =
    let same : c ∷ cs ≡ ys = ground arith in (same, rw (← same) (ground arith))

List-cases {ℓ} : {A : Type ℓ} (xs : List A) → (xs ≡ []) ⊎ ((x : A) × (ys : List A) × (xs ≡ x ∷ ys))
List-cases [] = inl refl
List-cases (x ∷ ys) = inr (x, ys, refl)

expand_axes-stages :
    (m : ResolvedMatrix) {cs : List Entry}
    → expand_axes m ≡ ok cs
    → (os : List Entry) × (xs : List Entry) × (visit m.axes m.exclude
          (sort_texts (names_of m.axes))
          []
          []
          []
        ≡ ok os)
      × (apply_includes os m.include os ≡ ok xs)
      × (some_jobs xs ≡ ok cs)
unfolding expand_axes
expand_axes-stages m e =
    let names = sort_texts (names_of m.axes) in
    let (_, _, e1) = >>=-eq-ok (count_combinations m.axes names 1) _ e in
    let (os, visited, e2) = >>=-eq-ok (visit m.axes m.exclude names [] [] []) _ e1 in
    let (xs, applied, e3) = >>=-eq-ok (apply_includes os m.include os) _ e2 in
    (os, xs, visited, applied, e3)

expand_axes-ExtendAll :
    (m : ResolvedMatrix) {cs : List Entry}
    → AreDistinct (names_of m.axes)
    → expand_axes m ≡ ok cs
    → ExtendAll cs (base_combinations m) × (1 ≤ length cs) × (length cs ≤ 256)
unfolding base_combinations
expand_axes-ExtendAll m {cs} d e =
    let (os, xs, visited, applied, last) = expand_axes-stages m e in
    let (base, fits) = bounded-eq-ok (sym (visit-wanted m.axes m.exclude d) ∙ visited) in
    let (extended, small) =
      apply_includes-ExtendAll os m.include os (ExtendAll-refl os) fits applied in
    let (same, nonempty) = some_jobs-eq-ok xs last in
    (
      subst (λ x. ExtendAll cs x) (sym base) (subst (λ x. ExtendAll x os) same extended),
      nonempty,
      subst (λ x. length x ≤ 256) same small,
    )

own_jobs-eq-ok :
    (xs : List Entry) {cs : List Entry}
    → own_jobs xs ≡ ok cs
    → (xs ≡ cs) × (1 ≤ length cs) × (length cs ≤ 256)
unfolding own_jobs
own_jobs-eq-ok [] e = absurd (cc)
own_jobs-eq-ok (x ∷ xs) {cs} e = elim (Bool-cases (ltb max_matrix_jobs (length (x ∷ xs)))) [
  | inl big ↦ absurd (ground (arith, big, e))
  | inr small ↦
      let same : x ∷ xs ≡ cs = ground (arith, small, e) in
      (
        same,
        subst (λ x. 1 ≤ length x) same (omega arith),
        subst (λ x. length x ≤ 256) same (ground (arith, small)),
      )
]

-- The jobs of a matrix: those of the axes and its includes, or the includes alone.
abbrev base_from : ResolvedMatrix → List (String × List Value) → List Entry
base_from m [] = m.include
base_from m (_ ∷ _) = base_combinations m

unfoldable pub base_of : ResolvedMatrix → List Entry
unfolding base_combinations
base_of m = base_from m m.axes

-- What expandMatrix gives begins with one job for each choice of a value for each axis that no
-- exclude matches, in order (without an axis, one for each include), and includes add to these jobs
-- but leave what they have, by its text. There is a job, and there are no more than 256. The names of
-- the axes are distinct, as the keys of a map are.
pub expand_matrix-ExtendAll :
    (m : ResolvedMatrix) (cs : List Entry)
    → AreDistinct (names_of m.axes)
    → expand_matrix m ≡ ok cs
    → ExtendAll cs (base_of m) × (1 ≤ length cs) × (length cs ≤ 256)
unfolding expand_matrix base_of
expand_matrix-ExtendAll m cs d e = elim (List-cases m.axes) [
  | inl bare ↦
      let alone : base_of m ≡ m.include = ap (base_from m) bare in
      let result : own_jobs m.include ≡ ok cs = sym (ap (expand_from m) bare) ∙ e in
      let (same, nonempty, fits) = own_jobs-eq-ok m.include result in
      (subst (λ x. ExtendAll cs x) (sym same ∙ sym alone) (ExtendAll-refl cs), nonempty, fits)
  | inr (axis, more, there) ↦
      let product : base_of m ≡ base_combinations m = ap (base_from m) there in
      let (extended, nonempty, fits) =
        expand_axes-ExtendAll m d (sym (ap (expand_from m) there) ∙ e) in
      (subst (λ x. ExtendAll cs x) (sym product) extended, nonempty, fits)
]
