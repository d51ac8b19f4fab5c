-- ===== src/Lineage/Attempts/Laws.antt =====
-- LatestAttempt returns the attempt with the highest number.
use open_actions.Api.{WorkflowRun}
use open_actions.Base.{
  ℕ, ◌≤◌, Bool, true, false, not, ◌&&◌, ◌≡◌, ◌⊎◌, inl, inr, refl, ◌∙◌, arith, none, some, List, [],
  ◌∷◌, ltb, if◌then◌else◌, Bool-cases, Option-cases, eq_refl, String,
}
use open_actions.Base.Result.{Result, ok, err}
use open_actions.Lineage.Attempts.{
  Environment, lineage_attempt, is_newer, scan, latest_attempt, seen_before, new_rerun,
}
use mathlib.Core.List.{Memᴰ}

abbrev pub is_ok {ℓ} : {E : Type 0} {A : Type ℓ} → Result E A → Bool
is_ok (ok a) = true
is_ok (err e) = false

module _ (env : Environment) (root : WorkflowRun) where
  -- The numbers of the root's attempts, in the order of the list.
  unfoldable pub numbers : List WorkflowRun → List ℕ
  numbers [] = []
  numbers (run ∷ runs) =
      let rest = numbers runs in
      elim (lineage_attempt env root run) [ none ↦ rest | some n ↦ n ∷ rest ]

  -- No number stands twice, nor is one of `seen`.
  unfoldable pub all_new : List ℕ → List ℕ → Bool
  all_new seen [] = true
  all_new seen (n ∷ ns) = not (seen_before n seen) && all_new (n ∷ seen) ns

  scan-all_new :
      (runs : List WorkflowRun) (latest : WorkflowRun) (seen : List ℕ)
      → is_ok (scan env root latest seen runs) ≡ all_new seen (numbers runs)
  unfolding scan numbers all_new
  scan-all_new [] latest seen = refl
  scan-all_new (run ∷ runs) latest seen = elim (Option-cases (lineage_attempt env root run)) [
    | inl other ↦ ground (arith, scan-all_new runs latest seen)
    | inr (n, one) ↦
        let newest = if is_newer env root n latest then run else latest in
        ground (arith, scan-all_new runs newest (n ∷ seen))
  ]

  -- LatestAttempt returns a run exactly if the attempts have distinct numbers, none of them that of
  -- the root, 1; otherwise it returns an error.
  pub latest_attempt-all_new :
      (runs : List WorkflowRun)
      → is_ok (latest_attempt env root runs) ≡ all_new (1 ∷ []) (numbers runs)
  unfolding latest_attempt
  latest_attempt-all_new runs = scan-all_new runs root (1 ∷ [])

  -- `run` is at least as new as attempt `n`.
  abbrev pub IsNotBefore : WorkflowRun → ℕ → Type 0
  IsNotBefore run n = (r : ℕ) × (lineage_attempt env root run ≡ some r) × (n ≤ r)

  lineage_attempt-rerun :
      (run : WorkflowRun) (n m : ℕ)
      → lineage_attempt env root run ≡ some n
      → is_newer env root m run ≡ ltb n m
  unfolding lineage_attempt
  lineage_attempt-rerun run n m e = ground arith

  unnumbered : (run : WorkflowRun) → run.spec.rerun ≡ none → lineage_attempt env root run ≡ none
  unfolding lineage_attempt
  unnumbered run e = rw e refl

  -- The root, or one of its attempts.
  abbrev IsStart : WorkflowRun → Type 0
  IsStart run = (run.spec.rerun ≡ none) ⊎ ((k : ℕ) × (lineage_attempt env root run ≡ some k))

  -- The loop's variable after an attempt.
  abbrev newest : ℕ → WorkflowRun → WorkflowRun → WorkflowRun
  newest n latest run = if is_newer env root n latest then run else latest

  newest_lem :
      (latest run : WorkflowRun) (n : ℕ)
      → IsStart latest
      → lineage_attempt env root run ≡ some n
      → IsNotBefore (newest n latest run) n
        × ((k : ℕ) → lineage_attempt env root latest ≡ some k → IsNotBefore (newest n latest run) k)
  newest_lem latest run n (inl fresh) one =
      let newer : is_newer env root n latest ≡ true = rw fresh refl in
      rw newer ((n, one, omega arith), λ k e. absurd (ground (arith, unnumbered latest fresh, e)))
  newest_lem latest run n (inr (k, known)) one =
      let test = lineage_attempt-rerun latest k n known in
      elim (Bool-cases (ltb k n)) [
        | inl more ↦
            rw (test, more) ((n, one, omega arith), λ j e. (n, one, ground (arith, known, e, more)))
        | inr less ↦
            rw (test, less)
              ((k, known, ground (arith, less)), λ j e. (k, known, ground (arith, known, e)))
      ]

  newest-same :
      (latest run : WorkflowRun) (n : ℕ)
      → (newest n latest run ≡ latest) ⊎ (newest n latest run ≡ run)
  newest-same latest run n = elim (Bool-cases (is_newer env root n latest)) [
    | inl more ↦ inr (rw more refl)
    | inr less ↦ inl (rw less refl)
  ]

  -- What the loop ends with, from `latest` on.
  record IsLatest (latest : WorkflowRun) (runs : List WorkflowRun) (l : WorkflowRun) : Type 0 where
    origin : (l ≡ latest) ⊎ Memᴰ l runs
    start : (k : ℕ) → lineage_attempt env root latest ≡ some k → IsNotBefore l k
    others :
        (run : WorkflowRun)
        → Memᴰ run runs
        → (n : ℕ) → lineage_attempt env root run ≡ some n
        → IsNotBefore l n

  IsNotBefore-le : (l : WorkflowRun) {m n : ℕ} → IsNotBefore l n → m ≤ n → IsNotBefore l m
  IsNotBefore-le l (r, same, le) h = (r, same, omega (arith, le, h))

  known_at :
      {x run : WorkflowRun} {n : ℕ}
      → x ≡ run
      → lineage_attempt env root x ≡ some n
      → lineage_attempt env root run ≡ some n
  known_at h known = rw h at known

  scan-IsLatest :
      (runs : List WorkflowRun) (latest : WorkflowRun) (seen : List ℕ) {l : WorkflowRun}
      → IsStart latest
      → scan env root latest seen runs ≡ ok l
      → IsLatest latest runs l
  unfolding scan
  scan-IsLatest [] latest seen {l} begins e =
      let same : l ≡ latest = ground arith in
      record {
        origin = inl same;
        start = λ k known. (k, rw same known, omega arith);
        others = λ run m. elim m [ ];
      }
  scan-IsLatest (run ∷ runs) latest seen {l} begins e =
      elim (Option-cases (lineage_attempt env root run)) [
        | inl other ↦
            let again : scan env root latest seen runs ≡ ok l = ground arith in
            let later = scan-IsLatest runs latest seen begins again in
            record {
              origin = elim later.origin [ inl q ↦ inl q | inr m ↦ inr (Memᴰ.tail m) ];
              start = later.start;
              others = λ x m n known. elim m [
                | Memᴰ.head h ↦ absurd (ground (arith, other, known_at h known))
                | Memᴰ.tail t ↦ later.others x t n known
              ];
            }
        | inr (n, one) ↦
            let next = newest n latest run in
            let ((first, named, above), keeps) = newest_lem latest run n begins one in
            let again : scan env root next (n ∷ seen) runs ≡ ok l = ground arith in
            let later = scan-IsLatest runs next (n ∷ seen) (inr (first, named)) again in
            record {
              origin = elim later.origin [
                | inr m ↦ inr (Memᴰ.tail m)
                | inl q ↦ elim (newest-same latest run n) [
                  | inl same ↦ inl (q ∙ same)
                  | inr same ↦ inr (Memᴰ.head (q ∙ same))
                ]
              ];
              start = λ k known.
                  let (r, kept, le) = keeps k known in IsNotBefore-le l (later.start r kept) le;
              others = λ x m j known. elim m [
                | Memᴰ.head h ↦
                    IsNotBefore-le l (later.start first named)
                      (ground (arith, above, one, known_at h known))
                | Memᴰ.tail t ↦ later.others x t j known
              ];
            }
      ]

  -- Where LatestAttempt returns a run, for a root that is no rerun, it is the root or one of the
  -- runs, and no attempt of the root among the runs has a higher number.
  pub latest_attempt_highest :
      (runs : List WorkflowRun) {l : WorkflowRun}
      → root.spec.rerun ≡ none
      → latest_attempt env root runs ≡ ok l
      → ((l ≡ root) ⊎ Memᴰ l runs)
        × ((run : WorkflowRun)
            → Memᴰ run runs
            → (n : ℕ) → lineage_attempt env root run ≡ some n
            → IsNotBefore l n)
  unfolding latest_attempt
  latest_attempt_highest runs first e =
      let g = scan-IsLatest runs root (1 ∷ []) (inl first) e in (g.origin, g.others)

  -- The next attempt that NewRerun makes is one of the root's, under its number, if the attempt that
  -- it copies has the root's project, workflow and source, and no condition is found on a run
  -- without conditions.
  pub new_rerun-lineage_attempt :
      (previous : WorkflowRun) (n : ℕ) (job_ids : List String)
      → previous.spec.project_ref ≡ root.spec.project_ref
      → previous.spec.workflow_path ≡ root.spec.workflow_path
      → env.same_source previous.spec.source root.spec.source ≡ true
      → env.find [] "Planned" ≡ none
      → lineage_attempt env root (new_rerun env root previous n job_ids) ≡ some n
  unfolding lineage_attempt new_rerun
  new_rerun-lineage_attempt previous n job_ids project path source unfound =
      rw (project, path, source, unfound)
        (ground (
          arith,
          eq_refl root.meta.name,
          eq_refl root.meta.uid,
          eq_refl root.spec.project_ref,
          eq_refl root.spec.workflow_path,
        ))
