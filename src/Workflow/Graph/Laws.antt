-- ===== src/Workflow/Graph/Laws.antt =====
-- validateJobGraph accepts the jobs whose needs exist and end.
use open_actions.Base.{
  suc, String, true, false, ◌≡◌, ◌⊎◌, ◌↔◌, inl, inr, refl, sym, ap, ◌∙◌, arith, is_some, List, [],
  ◌∷◌, ◌==◌, eq_iff, eq_refl, Bool-cases, Option-cases, length,
}
use open_actions.Base.Dict.{mem, lookup}
use open_actions.Base.Result.{Result, ok, err, ◌>>=◌, Result-cases, >>=-eq-ok}
use open_actions.Base.Sorting.{sort_texts, mem-sort_texts}
use open_actions.Workflow.Graph.{
  Jobs, GraphError, missing_job, dependency_cycle, out_of_fuel, needs_of, keys, check_needs,
  check_all, Search, visit_each, visit, validate_job_graph,
}
use open_actions.Workflow.Graph.Path.{Route, route_leads, Ends, ends, no_loop}
use open_actions.Workflow.Graph.Visit.{
  IsSound, Visits, unmarked-le-length, visit_each-VisitsAll, visit-VisitsAll,
}

lookup-keys : (jobs : Jobs) (k : String) → is_some (lookup k jobs) ≡ mem k (keys jobs)
unfolding lookup keys
lookup-keys [] k = refl
lookup-keys ((id, job) ∷ jobs) k = ground (arith, lookup-keys jobs k, eq_iff id k, eq_iff k id)

module _ (jobs : Jobs) where
  -- Every need names a job.
  abbrev pub IsClosed : Type 0
  IsClosed = (a d : String) → mem d (needs_of jobs a) ≡ true → mem d (keys jobs) ≡ true

  -- The job to which the search of a need leads, or that there is none.
  check_needs-found :
      (id d : String) (needs : List String)
      → check_needs jobs id (d ∷ needs) ≡ ok tt
      → (is_some (lookup d jobs) ≡ true) × (check_needs jobs id needs ≡ ok tt)
  unfolding check_needs
  check_needs-found id d needs e = (ground arith, ground arith)

  check_needs-eq-ok :
      (id : String) (needs : List String)
      → check_needs jobs id needs ≡ ok tt
      → (d : String) → mem d needs ≡ true
      → is_some (lookup d jobs) ≡ true
  check_needs-eq-ok id [] e d m = absurd (cc)
  check_needs-eq-ok id (x ∷ needs) e d m =
      let (found, rest) = check_needs-found id x needs e in
      ground (arith, eq_iff d x, found, check_needs-eq-ok id needs rest d)

  check_needs-all :
      (id : String) (needs : List String)
      → ((d : String) → mem d needs ≡ true → is_some (lookup d jobs) ≡ true)
      → check_needs jobs id needs ≡ ok tt
  unfolding check_needs
  check_needs-all id [] all = refl
  check_needs-all id (x ∷ needs) all =
      let here : is_some (lookup x jobs) ≡ true = all x (ground (arith, eq_refl x)) in
      let rest = check_needs-all id needs (λ d m. all d (ground arith)) in
      ground (arith, here, rest)

  check_all-eq-ok :
      (ids : List String)
      → check_all jobs ids ≡ ok tt
      → (a d : String) → mem a ids ≡ true
      → mem d (needs_of jobs a) ≡ true
      → is_some (lookup d jobs) ≡ true
  unfolding check_all
  check_all-eq-ok [] e a d at m = absurd (cc)
  check_all-eq-ok (id ∷ ids) e a d at m =
      let (_, first, rest) = >>=-eq-ok (check_needs jobs id (needs_of jobs id)) _ e in
      elim (Bool-cases (a == id)) [
        | inl same ↦
            check_needs-eq-ok id (needs_of jobs id) first d
              (ap (λ x. mem d (needs_of jobs x)) (sym ((eq_iff a id).0 same)) ∙ m)
        | inr other ↦ check_all-eq-ok ids rest a d (ground arith) m
      ]

  check_all-closed : (ids : List String) → IsClosed → check_all jobs ids ≡ ok tt
  unfolding check_all
  check_all-closed [] closed = refl
  check_all-closed (id ∷ ids) closed =
      let first =
        check_needs-all id (needs_of jobs id) (λ d m. lookup-keys jobs d ∙ closed id d m) in
      rw first (check_all-closed ids closed)

  -- A job that is not there has no needs.
  needs_of-keys : (a d : String) → mem d (needs_of jobs a) ≡ true → mem a (keys jobs) ≡ true
  unfolding needs_of
  needs_of-keys a d m = ground (arith, lookup-keys jobs a)

  check_all-IsClosed : check_all jobs (sort_texts (keys jobs)) ≡ ok tt → IsClosed
  check_all-IsClosed e a d m =
      sym (lookup-keys jobs d)
      ∙ check_all-eq-ok (sort_texts (keys jobs)) e a d
          (mem-sort_texts a (keys jobs) ∙ needs_of-keys a d m) m

  abbrev start : Search
  start = record { marks = []; stack = [] }

  start-IsSound : IsSound jobs start
  unfolding lookup
  start-IsSound = record { finished = λ k m. absurd (cc); pending = λ k m. absurd (cc) }

  abbrev visit_all : Result GraphError Search
  visit_all = visit_each (visit (suc (length (keys jobs))) jobs) (sort_texts (keys jobs)) start

  visit_all-Visits : IsClosed → Visits jobs start (sort_texts (keys jobs)) visit_all
  visit_all-Visits closed =
      let n = suc (length (keys jobs)) in
      visit_each-VisitsAll jobs n (visit n jobs) (visit-VisitsAll jobs closed n)
        (sort_texts (keys jobs)) start start-IsSound
        (λ d m. (tt, sym (mem-sort_texts d (keys jobs)) ∙ m))
        (omega (arith, unmarked-le-length (keys jobs)))

  abbrev visited_all : Result GraphError Search → Result GraphError (Unit {0})
  visited_all r = do _ ← r; ok tt

  -- The search accepts, and every job ends, or it reports a cycle, which it is.
  abbrev Accepts : Result GraphError (Unit {0}) → Type 0
  Accepts r = (r ≡ ok tt) × ((a : String) → mem a (keys jobs) ≡ true → Ends jobs a)

  abbrev Rejects : Result GraphError (Unit {0}) → Type 0
  Rejects r = (c : List String) × (k : String) × (r ≡ err (dependency_cycle c)) × Route jobs k c k

  verdict :
      (r : Result GraphError Search)
      → Visits jobs start (sort_texts (keys jobs)) r
      → Accepts (visited_all r) ⊎ Rejects (visited_all r)
  verdict (ok t) (after, done) =
      inl (refl, λ a at. after.sound.finished a (done a (mem-sort_texts a (keys jobs) ∙ at)))
  verdict (err (dependency_cycle c)) (k, l) = inr (c, k, refl, l)
  verdict (err (missing_job a b)) h = absurd h
  verdict (err out_of_fuel) h = absurd h

  validate_search : IsClosed → Accepts (validate_job_graph jobs) ⊎ Rejects (validate_job_graph jobs)
  unfolding validate_job_graph
  validate_search closed =
      rw (check_all-closed (sort_texts (keys jobs)) closed)
        (verdict visit_all (visit_all-Visits closed))

  -- A job without needs, and so one that is not there, ends.
  all-Ends : ((a : String) → mem a (keys jobs) ≡ true → Ends jobs a) → (a : String) → Ends jobs a
  all-Ends known a = elim (Bool-cases (mem a (keys jobs))) [
    | inl at ↦ known a at
    | inr absent ↦ ends (λ d m. absurd (ground (arith, absent, needs_of-keys a d m)))
  ]

  validate-IsClosed : validate_job_graph jobs ≡ ok tt → IsClosed
  unfolding validate_job_graph
  validate-IsClosed e =
      let (_, first, _) = >>=-eq-ok (check_all jobs (sort_texts (keys jobs))) _ e in
      check_all-IsClosed first

  -- validateJobGraph accepts exactly the jobs whose needs all name jobs and from each of which every
  -- chain of needs comes to an end.
  pub validate_job_graph_iff :
      (validate_job_graph jobs ≡ ok tt) ↔ (IsClosed × ((a : String) → Ends jobs a))
  validate_job_graph_iff = (
    λ e.
        let closed = validate-IsClosed e in
        elim (validate_search closed) [
          | inl (_, known) ↦ (closed, all-Ends known)
          | inr (c, k, bad, _) ↦ absurd (ground (arith, e, bad))
        ],
    λ (closed, known). elim (validate_search closed) [
      | inl (good, _) ↦ good
      | inr (c, k, _, loop) ↦ absurd (no_loop jobs (known k) (route_leads jobs loop))
    ],
  )

  -- An error names a job and a need of it that names none.
  abbrev pub IsMissing : String → String → Type 0
  IsMissing a d =
      (mem a (keys jobs) ≡ true) × ((mem d (needs_of jobs a) ≡ true) × (mem d (keys jobs) ≡ false))

  check_needs-error :
      (id : String) (needs : List String) (e : GraphError)
      → check_needs jobs id needs ≡ err e
      → (d : String) × (e ≡ missing_job id d) × (mem d needs ≡ true) × (mem d (keys jobs) ≡ false)
  unfolding check_needs
  check_needs-error id [] e h = absurd (cc)
  check_needs-error id (x ∷ needs) e h = elim (Option-cases (lookup x jobs)) [
    | inl absent ↦
        (x, ground arith, ground (arith, eq_refl x), ground (arith, absent, lookup-keys jobs x))
    | inr (job, found) ↦
        let (d, same, listed, none_there) = check_needs-error id needs e (ground arith) in
        (d, same, ground (arith, listed), none_there)
  ]

  check_all-error :
      (ids : List String) (e : GraphError)
      → check_all jobs ids ≡ err e
      → (a : String) × (d : String) × (e ≡ missing_job a d) × IsMissing a d
  unfolding check_all
  check_all-error [] e h = absurd (cc)
  check_all-error (id ∷ ids) e h = elim (Result-cases (check_needs jobs id (needs_of jobs id))) [
    | inl (q, bad) ↦
        let (d, same, listed, none_there) =
          check_needs-error id (needs_of jobs id) e (ground (arith, bad, h)) in
        (id, d, same, (needs_of-keys id d listed, (listed, none_there)))
    | inr (_, good) ↦ check_all-error ids e (ground (arith, good, h))
  ]

  -- validateJobGraph always ends with an answer of its own: it accepts, or it names a job and a need of
  -- this job that names none, or it reports a cycle, and what it reports are the IDs, in order, of a
  -- chain of needs that leads from a job back to it.
  pub validate_job_graph-cases :
      (validate_job_graph jobs ≡ ok tt)
      ⊎ (((a : String) × (d : String) × (validate_job_graph jobs ≡ err (missing_job a d))
            × IsMissing a d)
          ⊎ ((c : List String) × (k : String) × (validate_job_graph jobs ≡ err (dependency_cycle c))
              × Route jobs k c k))
  unfolding validate_job_graph
  validate_job_graph-cases = elim (Result-cases (check_all jobs (sort_texts (keys jobs)))) [
    | inl (e, bad) ↦
        let (a, d, same, missing) = check_all-error (sort_texts (keys jobs)) e bad in
        inr (inl (a, d, ground (arith, bad, same), missing))
    | inr (_, good) ↦ elim (validate_search (check_all-IsClosed (ground (arith, good)))) [
      | inl (accepted, _) ↦ inl accepted
      | inr cycle ↦ inr (inr cycle)
    ]
  ]
