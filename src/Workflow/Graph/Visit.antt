-- ===== src/Workflow/Graph/Visit.antt =====
-- What one call of `visit` does: it ends, marks only jobs that wait for nothing for ever, and what it
-- reports is a cycle.
use open_actions.Base.{
  ℕ, zero, suc, ◌≤◌, ◌<◌, String, true, ◌≡◌, ◌⊎◌, inl, inr, refl, ap, ◌∙◌, arith, Option, none,
  some, is_some, List, [], ◌∷◌, ◌==◌, eq_iff, eq_refl, Bool-cases, length, if◌then◌else◌,
}
use open_actions.Base.Dict.{mem, lookup, insert, lookup-insert}
use open_actions.Base.Result.{Result, ok, err, ◌>>=◌}
use open_actions.Workflow.Graph.{
  Jobs, GraphError, missing_job, dependency_cycle, out_of_fuel, needs_of, keys, Mark, visiting,
  visited, Search, visit_each, visit, pop,
}
use open_actions.Workflow.Graph.Cycle.{IsTrail, cycle_route}
use open_actions.Workflow.Graph.Path.{Route, Ends, ends}

Mark-cases : (m : Option Mark) → (m ≡ none) ⊎ ((m ≡ some visiting) ⊎ (m ≡ some visited))
Mark-cases none = inl refl
Mark-cases (some visiting) = inr (inl refl)
Mark-cases (some visited) = inr (inr refl)

abbrev Marks : Type 0
Marks = List (String × Mark)

-- How many of the IDs have no mark.
pub unmarked : Marks → List String → ℕ
unmarked marks [] = 0
unmarked marks (k ∷ ks) =
    let rest = unmarked marks ks in if is_some (lookup k marks) then rest else suc rest

pub unmarked-le-length : (ks : List String) → unmarked [] ks ≤ length ks
unfolding unmarked
unmarked-le-length [] = omega arith
unmarked-le-length (k ∷ ks) = ground (arith, unmarked-le-length ks)

module _ (marks : Marks) (id : String) (m : Mark) where
  unmarked-insert-le : (ks : List String) → unmarked (insert id m marks) ks ≤ unmarked marks ks
  unfolding unmarked
  unmarked-insert-le [] = omega arith
  unmarked-insert-le (k ∷ ks) = ground (arith, unmarked-insert-le ks, lookup-insert marks id k m)

  unmarked-insert-lt :
      (ks : List String)
      → mem id ks ≡ true
      → lookup id marks ≡ none
      → unmarked (insert id m marks) ks < unmarked marks ks
  unfolding unmarked
  unmarked-insert-lt [] at new = absurd (cc)
  unmarked-insert-lt (k ∷ ks) at new =
      ground (
        arith,
        eq_iff id k,
        lookup-insert marks id k m,
        unmarked-insert-le ks,
        unmarked-insert-lt ks,
      )

module _ (jobs : Jobs) where
  -- A job that is done waits for nothing for ever; a job that is being visited is on the stack.
  pub record IsSound (s : Search) : Type 0 where
    pub finished : (k : String) → lookup k s.marks ≡ some visited → Ends jobs k
    pub pending : (k : String) → lookup k s.marks ≡ some visiting → mem k s.stack ≡ true

  -- What a visit leaves.
  pub record IsAfter (s t : Search) : Type 0 where
    pub sound : IsSound t
    pub stack : t.stack ≡ s.stack
    pub kept : (k : String) → lookup k s.marks ≡ some visited → lookup k t.marks ≡ some visited
    pub fewer : unmarked t.marks (keys jobs) ≤ unmarked s.marks (keys jobs)

  -- Every visit of these IDs succeeds, or what is reported is a cycle.
  abbrev pub Visits : Search → List String → Result GraphError Search → Type 0
  Visits s ds (ok t) =
      IsAfter s t × ((d : String) → mem d ds ≡ true → lookup d t.marks ≡ some visited)
  Visits s ds (err (dependency_cycle c)) = (k : String) × Route jobs k c k
  Visits s ds (err (missing_job a b)) = ⊥
  Visits s ds (err out_of_fuel) = ⊥

  -- The stack leads to the job that is visited.
  abbrev pub Waits : Search → String → Type 0
  Waits s d = IsTrail jobs d s.stack

  -- What is known of a visit with `n` calls left.
  abbrev pub VisitsAll : ℕ → (String → Search → Result GraphError Search) → Type 0
  VisitsAll n v =
      (d : String) (s : Search)
      → IsSound s
      → Waits s d
      → mem d (keys jobs) ≡ true
      → unmarked s.marks (keys jobs) < n
      → Visits s (d ∷ []) (v d s)

  IsAfter-trans : {s t u : Search} → IsAfter s t → IsAfter t u → IsAfter s u
  IsAfter-trans a b = record {
    sound = b.sound;
    stack = b.stack ∙ a.stack;
    kept = λ k m. b.kept k (a.kept k m);
    fewer = omega (arith, a.fewer, b.fewer);
  }

  IsAfter-refl : {s : Search} → IsSound s → IsAfter s s
  IsAfter-refl sound = record { sound = sound; stack = refl; kept = λ k m. m; fewer = omega arith }

  Visits-lift :
      (d : String) (ds : List String) (s t : Search) (q : Result GraphError Search)
      → IsAfter s t
      → lookup d t.marks ≡ some visited
      → Visits t ds q
      → Visits s (d ∷ ds) q
  Visits-lift d ds s t (ok u) a m (b, done) =
      (IsAfter-trans a b, λ k at. ground (arith, eq_iff k d, done k, b.kept d m))
  Visits-lift d ds s t (err (dependency_cycle c)) a m h = h
  Visits-lift d ds s t (err (missing_job x y)) a m h = h
  Visits-lift d ds s t (err out_of_fuel) a m h = h

  visit_each_next :
      (v : String → Search → Result GraphError Search) (d : String) (ds : List String) (s : Search)
      (r : Result GraphError Search)
      → Visits s (d ∷ []) r
      → ((t : Search) → IsAfter s t → Visits t ds (visit_each v ds t))
      → Visits s (d ∷ ds) (r >>= visit_each v ds)
  visit_each_next v d ds s (ok t) (a, done) later =
      Visits-lift d ds s t (visit_each v ds t) a (done d (ground (arith, eq_refl d))) (later t a)
  visit_each_next v d ds s (err (dependency_cycle c)) h later = h
  visit_each_next v d ds s (err (missing_job x y)) h later = h
  visit_each_next v d ds s (err out_of_fuel) h later = h

  stays_known :
      (d : String) (ds : List String) (s t : Search)
      → IsAfter s t
      → ((x : String) → mem x (d ∷ ds) ≡ true → Waits s x × (mem x (keys jobs) ≡ true))
      → (x : String) → mem x ds ≡ true
      → Waits t x × (mem x (keys jobs) ≡ true)
  stays_known d ds s t a known x m =
      let (waits, at) = known x (ground arith) in (rw a.stack waits, at)

  pub visit_each-VisitsAll :
      (n : ℕ) (v : String → Search → Result GraphError Search)
      → VisitsAll n v
      → (ds : List String) (s : Search) → IsSound s
      → ((d : String) → mem d ds ≡ true → Waits s d × (mem d (keys jobs) ≡ true))
      → unmarked s.marks (keys jobs) < n
      → Visits s ds (visit_each v ds s)
  unfolding visit_each
  visit_each-VisitsAll n v all [] s sound known less = (IsAfter-refl sound, λ d m. absurd (cc))
  visit_each-VisitsAll n v all (d ∷ ds) s sound known less =
      let here : mem d (d ∷ ds) ≡ true = ground (arith, eq_refl d) in
      let (waits, at) = known d here in
      let first = all d s sound waits at less in
      visit_each_next v d ds s (v d s) first (λ t a.
        visit_each-VisitsAll n v all ds t a.sound (λ x m. stays_known d ds s t a known x m)
          (omega (arith, a.fewer, less)))

  -- `visit` on an ID without a mark, before and after the loop over its needs.
  abbrev entered : String → Search → Search
  entered id s = record { marks = insert id visiting s.marks; stack = id ∷ s.stack }

  abbrev left : String → Search → Search
  left id t = record { marks = insert id visited t.marks; stack = pop t.stack }

  entered-IsSound :
      (id : String) (s : Search) → lookup id s.marks ≡ none → IsSound s → IsSound (entered id s)
  entered-IsSound id s new sound = record {
    finished = λ k m. sound.finished k (ground (arith, lookup-insert s.marks id k visiting));
    pending = λ k m.
        ground
          (arith, lookup-insert s.marks id k visiting, sound.pending k, eq_iff id k, eq_iff k id);
  }

  left-IsAfter :
      (id : String) (s t : Search)
      → lookup id s.marks ≡ none
      → IsSound s
      → IsAfter (entered id s) t
      → ((d : String) → mem d (needs_of jobs id) ≡ true → lookup d t.marks ≡ some visited)
      → IsAfter s (left id t)
  left-IsAfter id s t new sound a done = record {
    sound = record {
      finished = λ k m. elim (Bool-cases (id == k)) [
        | inl e ↦ rw (← (eq_iff id k).0 e) (ends (λ d at. a.sound.finished d (done d at)))
        | inr e ↦ a.sound.finished k (ground (arith, lookup-insert t.marks id k visited))
      ];
      pending = λ k m. ground (
        arith,
        lookup-insert t.marks id k visited,
        a.sound.pending k,
        ap pop a.stack,
        ap (mem k) a.stack,
        eq_iff k id,
        eq_iff id k,
      );
    };
    stack = ap pop a.stack;
    kept = λ k m. ground (
      arith,
      lookup-insert t.marks id k visited,
      a.kept k,
      lookup-insert s.marks id k visiting,
      eq_iff id k,
    );
    fewer = omega (
      arith,
      a.fewer,
      unmarked-insert-le t.marks id visited (keys jobs),
      unmarked-insert-le s.marks id visiting (keys jobs),
    );
  }

  leave_next :
      (id : String) (s : Search) (q : Result GraphError Search)
      → lookup id s.marks ≡ none
      → IsSound s
      → Visits (entered id s) (needs_of jobs id) q
      → Visits s (id ∷ []) (q >>= λ t. ok (left id t))
  leave_next id s (ok t) new sound (a, done) = (
    left-IsAfter id s t new sound a done,
    λ k m. ground (arith, lookup-insert t.marks id k visited, eq_iff k id, eq_iff id k),
  )
  leave_next id s (err (dependency_cycle c)) new sound h = h
  leave_next id s (err (missing_job x y)) new sound h = h
  leave_next id s (err out_of_fuel) new sound h = h

  entered-Waits :
      (id d : String) (s : Search)
      → Waits s id
      → mem d (needs_of jobs id) ≡ true
      → Waits (entered id s) d
  entered-Waits id d s waits m = (m, waits)

  only :
      (id k : String) (s : Search)
      → lookup id s.marks ≡ some visited
      → mem k (id ∷ []) ≡ true
      → lookup k s.marks ≡ some visited
  only id k s done m = rw ((eq_iff k id).0 (ground arith)) done

  pub visit-VisitsAll :
      ((a d : String) → mem d (needs_of jobs a) ≡ true → mem d (keys jobs) ≡ true)
      → (n : ℕ) → VisitsAll n (visit n jobs)
  unfolding visit
  visit-VisitsAll closed zero id s sound waits at less = absurd (omega (arith, less))
  visit-VisitsAll closed (suc n) id s sound waits at less = elim (Mark-cases (lookup id s.marks)) [
    | inl new ↦
        rw (new, visit)
          (leave_next id s (visit_each (visit n jobs) (needs_of jobs id) (entered id s)) new sound (
            visit_each-VisitsAll n (visit n jobs) (visit-VisitsAll closed n) (needs_of jobs id)
              (entered id s) (entered-IsSound id s new sound)
              (λ d m. (entered-Waits id d s waits m, closed id d m))
              (omega (arith, less, unmarked-insert-lt s.marks id visiting (keys jobs) at new))))
    | inr (inl busy) ↦
        rw (busy, visit) (id, cycle_route jobs id s.stack waits (sound.pending id busy))
    | inr (inr done) ↦ rw (done, visit) (IsAfter-refl sound, λ k m. only id k s done m)
  ]
