-- ===== src/Workflow/Graph/Cycle.antt =====
-- The cycle that `visit` cuts out of its stack: the IDs from a job on the stack down to this job again.
use open_actions.Base.{
  String, true, ◌≡◌, refl, arith, List, [], ◌∷◌, ◌++◌, ◌==◌, eq_iff, Bool-cases, reversed, onto,
  inl, inr,
}
use open_actions.Base.Dict.{mem}
use open_actions.Workflow.Graph.{Jobs, needs_of, down_to, cycle_at}
use open_actions.Workflow.Graph.Path.{Route, step, further}

onto-append : (xs ys zs : List String) → onto xs (ys ++ zs) ≡ onto xs ys ++ zs
onto-append [] ys zs = refl
onto-append (x ∷ xs) ys zs = onto-append xs (x ∷ ys) zs

reversed-cons : (x : String) (xs : List String) → reversed (x ∷ xs) ≡ reversed xs ++ (x ∷ [])
reversed-cons x xs = onto-append xs [] (x ∷ [])

module _ (jobs : Jobs) where
  -- The job that is visited is a need of the top of the stack, and each job on it of the one below.
  abbrev pub IsTrail : String → List String → Type 0
  IsTrail d [] = Unit {0}
  IsTrail d (top ∷ below) = (mem d (needs_of jobs top) ≡ true) × IsTrail top below

  -- What cycle_at cuts out of the stack is a chain from a job on it to the one that is visited.
  cut_route :
      (k d : String) (stack : List String)
      → IsTrail d stack
      → mem k stack ≡ true
      → Route jobs k (reversed (d ∷ down_to k stack)) d
  unfolding down_to
  cut_route k d [] trail on = absurd (cc)
  cut_route k d (top ∷ below) (m, trail) on = elim (Bool-cases (top == k)) [
    | inl e ↦ rw (e, down_to) (rw (← (eq_iff top k).0 e) (step m))
    | inr e ↦
        let deeper =
          cut_route k top below trail (ground (arith, on, e, eq_iff top k, eq_iff k top)) in
        rw (e, down_to, reversed-cons d (top ∷ down_to k below)) (further deeper m)
  ]

  pub cycle_route :
      (id : String) (stack : List String)
      → IsTrail id stack
      → mem id stack ≡ true
      → Route jobs id (cycle_at id stack) id
  unfolding cycle_at
  cycle_route id stack trail on = cut_route id id stack trail on
