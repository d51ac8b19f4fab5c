-- ===== src/Lineage/Dependents/Closed.antt =====
-- The loop ends, and then no job is left that needs a selected one.
use open_actions.Api.{WorkflowJob}
use open_actions.Base.{
  ℕ, zero, suc, ◌≤◌, ◌<◌, String, true, false, not, ◌||◌, ◌≡◌, ◌⊎◌, inl, inr, refl, sym, ap, ◌∙◌,
  arith, List, [], ◌∷◌, eq_iff, length, if◌then◌else◌, Bool-cases,
}
use open_actions.Base.Dict.{mem, add}
use open_actions.Lineage.Dependents.{logical_id, needs_selected, Selection, visit, sweep, close}
use mathlib.Core.Bool.{false≢true}
use mathlib.Core.List.{Memᴰ}

-- How many of the jobs are not selected.
pub left : List WorkflowJob → List String → ℕ
left [] sel = 0
left (job ∷ jobs) sel =
    let rest = left jobs sel in if mem job.spec.job_id sel then rest else suc rest

pub left-le-length : (jobs : List WorkflowJob) (sel : List String) → left jobs sel ≤ length jobs
unfolding left
left-le-length [] sel = omega arith
left-le-length (job ∷ jobs) sel = ground (arith, left-le-length jobs sel)

left-cons-le :
    (jobs : List WorkflowJob) (k : String) (sel : List String) → left jobs (k ∷ sel) ≤ left jobs sel
unfolding left
left-cons-le [] k sel = omega arith
left-cons-le (job ∷ jobs) k sel = ground (arith, left-cons-le jobs k sel)

left-cons-lt :
    (jobs : List WorkflowJob) (job : WorkflowJob) (sel : List String)
    → Memᴰ job jobs
    → mem job.spec.job_id sel ≡ false
    → left jobs (job.spec.job_id ∷ sel) < left jobs sel
unfolding left
left-cons-lt [] job sel m absent = elim m [ ]
left-cons-lt (j ∷ jobs) job sel (Memᴰ.head e) absent =
    let same : job.spec.job_id ≡ j.spec.job_id = cc in
    ground (arith, left-cons-le jobs job.spec.job_id sel, eq_iff j.spec.job_id job.spec.job_id)
left-cons-lt (j ∷ jobs) job sel (Memᴰ.tail m) absent =
    ground (arith, left-cons-lt jobs job sel m absent, left-cons-le jobs job.spec.job_id sel)

visit-changed :
    (job : WorkflowJob) (s : Selection) → s.changed ≡ true → (visit job s).changed ≡ true
unfolding visit
visit-changed job s h = ground arith

sweep-changed :
    (js : List WorkflowJob) (s : Selection) → s.changed ≡ true → (sweep js s).changed ≡ true
unfolding sweep
sweep-changed [] s h = h
sweep-changed (job ∷ js) s h = sweep-changed js (visit job s) (visit-changed job s h)

-- A job that a sweep has no reason to select.
abbrev pub IsSettled : Selection → WorkflowJob → Type 0
IsSettled s job =
    (mem job.spec.job_id s.selected || not (needs_selected job.spec.needs s.logical)) ≡ true

pub visit-cases :
    (job : WorkflowJob) (s : Selection)
    → ((visit job s ≡ s) × IsSettled s job)
      ⊎ ((mem job.spec.job_id s.selected ≡ false)
          × ((visit job s).changed ≡ true)
          × ((visit job s).selected ≡ job.spec.job_id ∷ s.selected)
          × ((visit job s).logical ≡ add (logical_id job) s.logical))
unfolding visit
visit-cases job s =
    elim (Bool-cases
      (mem job.spec.job_id s.selected || not (needs_selected job.spec.needs s.logical))) [
        | inl skip ↦ inl (ground arith, skip)
        | inr take ↦ inr (ground arith, ground arith, ground arith, ground arith)
      ]

IsSettled-cons :
    (j : WorkflowJob) (js : List WorkflowJob) (s : Selection)
    → IsSettled s j
    → ((job : WorkflowJob) → Memᴰ job js → IsSettled s job)
    → (job : WorkflowJob) → Memᴰ job (j ∷ js)
    → IsSettled s job
IsSettled-cons j js s h hs job (Memᴰ.head e) = rw e h
IsSettled-cons j js s h hs job (Memᴰ.tail m) = hs job m

sweep_unchanged :
    (js : List WorkflowJob) (s : Selection)
    → (sweep js s).changed ≡ false
    → (sweep js s ≡ s) × ((job : WorkflowJob) → Memᴰ job js → IsSettled s job)
unfolding sweep
sweep_unchanged [] s h = (refl, λ job m. elim m [ ])
sweep_unchanged (j ∷ js) s h = elim (visit-cases j s) [
  | inl (same, settled) ↦
      let again : sweep (j ∷ js) s ≡ sweep js s = ap (sweep js) same in
      let (kept, rest) = sweep_unchanged js s (rw again at h) in
      (again ∙ kept, IsSettled-cons j js s settled rest)
  | inr (_, changed, _, _) ↦ absurd (false≢true (sym h ∙ sweep-changed js (visit j s) changed))
]

module _ (jobs : List WorkflowJob) where
  visit-left :
      (job : WorkflowJob) (s : Selection)
      → Memᴰ job jobs
      → (visit job s ≡ s) ⊎ (left jobs (visit job s).selected < left jobs s.selected)
  visit-left job s m = elim (visit-cases job s) [
    | inl (same, _) ↦ inl same
    | inr (absent, _, more, _) ↦ inr (rw more (left-cons-lt jobs job s.selected m absent))
  ]

  -- A sweep selects no fewer jobs, and more of them if it changes anything.
  sweep-left :
      (js : List WorkflowJob) (s : Selection)
      → ((j : WorkflowJob) → Memᴰ j js → Memᴰ j jobs)
      → (sweep js s ≡ s) ⊎ (left jobs (sweep js s).selected < left jobs s.selected)
  unfolding sweep
  sweep-left [] s sub = inl refl
  sweep-left (j ∷ js) s sub =
      let rest = sweep-left js (visit j s) (λ k m. sub k (Memᴰ.tail m)) in
      elim (visit-left j s (sub j (Memᴰ.head refl))) [
        | inl same ↦
            let again : sweep (j ∷ js) s ≡ sweep js s = ap (sweep js) same in
            rw again (sweep-left js s (λ k m. sub k (Memᴰ.tail m)))
        | inr less ↦ elim rest [ inl kept ↦ inr (rw kept less) | inr lesser ↦ inr (omega arith) ]
      ]

  -- With more fuel than jobs that are left, the loop ends by its test.
  pub close_ends :
      (n : ℕ) (s : Selection)
      → left jobs s.selected < n
      → (job : WorkflowJob) → Memᴰ job jobs
      → IsSettled (close n jobs s) job
  unfolding close
  close_ends zero s h = elim h [ ]
  close_ends (suc n) s h =
      let reset : Selection = record s { changed = false } in
      let next = sweep jobs reset in
      elim (Bool-cases next.changed) [
        | inr done ↦
            let (kept, settled) = sweep_unchanged jobs reset done in
            rw (done, close) (rw kept settled)
        | inl more ↦ elim (sweep-left jobs reset (λ k m. m)) [
          | inl kept ↦ absurd (false≢true (ap (λ (t : Selection). t.changed) (sym kept) ∙ more))
          | inr less ↦ rw (more, close) (close_ends n next (omega arith))
        ]
      ]
