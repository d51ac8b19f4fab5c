-- ===== src/Lineage/Dependents/Laws.antt =====
-- The jobs that run again are the least set that holds the selected ones and every job that needs
-- the logical job of one of the set.
use open_actions.Api.{WorkflowJob}
use open_actions.Base.{
  ℕ, zero, suc, String, true, false, ◌≡◌, ◌↔◌, inl, inr, refl, sym, ◌∙◌, arith, List, [], ◌∷◌, ◌==◌,
  eq_iff, eq_refl, length, Bool-cases,
}
use open_actions.Base.Dict.{mem, add, mem-add, mem-any}
use open_actions.Lineage.Dependents.{
  logical_id, needs_selected, Selection, visit, sweep, close, start_logical,
  job_ids_with_dependents,
}
use open_actions.Lineage.Dependents.Closed.{visit-cases, close_ends, left-le-length}
use open_actions.Lineage.Dependents.Sound.{
  IsSelected, seed, dependent, IsSound, IsTied, close-IsSound,
}
use open_actions.Base.Sorting.{mem-sort_texts}
use mathlib.Core.List.{Memᴰ}

-- Jobs with one ID belong to one logical job.
abbrev pub IdsAgree : List WorkflowJob → Type 0
IdsAgree jobs =
    (a b : WorkflowJob)
    → Memᴰ a jobs
    → Memᴰ b jobs
    → a.spec.job_id ≡ b.spec.job_id
    → logical_id a ≡ logical_id b

module _ (jobs : List WorkflowJob) (seeds : List String) (agree : IdsAgree jobs) where
  visit-IsTied :
      (job : WorkflowJob) (s : Selection)
      → Memᴰ job jobs
      → IsTied jobs seeds s
      → IsTied jobs seeds (visit job s)
  visit-IsTied job s listed h other at m = elim (visit-cases job s) [
    | inl (same, _) ↦ rw same (h other at (rw same at m))
    | inr (_, _, ids, logicals) ↦ elim (Bool-cases (other.spec.job_id == job.spec.job_id)) [
      | inl e ↦
          let same = agree other job at listed ((eq_iff _ _).0 e) in
          rw (logicals, mem-add, same) (ground (arith, eq_refl (logical_id job)))
      | inr e ↦
          let before : mem other.spec.job_id s.selected ≡ true = ground arith in
          rw (logicals, mem-add) (ground (arith, h other at before))
    ]
  ]

  sweep-IsTied :
      (js : List WorkflowJob) (s : Selection)
      → ((j : WorkflowJob) → Memᴰ j js → Memᴰ j jobs)
      → IsTied jobs seeds s
      → IsTied jobs seeds (sweep js s)
  unfolding sweep
  sweep-IsTied [] s sub h = h
  sweep-IsTied (job ∷ js) s sub h =
      sweep-IsTied js (visit job s) (λ j m. sub j (Memᴰ.tail m))
        (visit-IsTied job s (sub job (Memᴰ.head refl)) h)

  close-IsTied : (n : ℕ) (s : Selection) → IsTied jobs seeds s → IsTied jobs seeds (close n jobs s)
  unfolding close
  close-IsTied zero s h = h
  close-IsTied (suc n) s h =
      let reset : Selection = record s { changed = false } in
      let g = sweep-IsTied jobs reset (λ j m. m) h in
      elim (Bool-cases (sweep jobs reset).changed) [
        | inl more ↦ rw (more, close) (close-IsTied n (sweep jobs reset) g)
        | inr done ↦ rw (done, close) g
      ]

-- What is selected stays so.
module _ (k : String) where
  visit-mem :
      (job : WorkflowJob) (s : Selection)
      → mem k s.selected ≡ true
      → mem k (visit job s).selected ≡ true
  unfolding visit
  visit-mem job s h = ground arith

  sweep-mem :
      (js : List WorkflowJob) (s : Selection)
      → mem k s.selected ≡ true
      → mem k (sweep js s).selected ≡ true
  unfolding sweep
  sweep-mem [] s h = h
  sweep-mem (job ∷ js) s h = sweep-mem js (visit job s) (visit-mem job s h)

  close-mem :
      (n : ℕ) (jobs : List WorkflowJob) (s : Selection)
      → mem k s.selected ≡ true
      → mem k (close n jobs s).selected ≡ true
  unfolding close
  close-mem zero jobs s h = h
  close-mem (suc n) jobs s h =
      let reset : Selection = record s { changed = false } in
      let g = sweep-mem jobs reset h in
      elim (Bool-cases (sweep jobs reset).changed) [
        | inl more ↦ rw (more, close) (close-mem n jobs (sweep jobs reset) g)
        | inr done ↦ rw (done, close) g
      ]

start_logical-mem :
    (js : List WorkflowJob) (sel : List String) (other : WorkflowJob)
    → Memᴰ other js
    → mem other.spec.job_id sel ≡ true
    → mem (logical_id other) (start_logical js sel) ≡ true
unfolding start_logical
start_logical-mem [] sel other m h = elim m [ ]
start_logical-mem (j ∷ js) sel other (Memᴰ.head e) h =
    let chosen : mem j.spec.job_id sel ≡ true = rw e at h in
    let found : mem (logical_id j) (add (logical_id j) (start_logical js sel)) ≡ true =
      rw mem-add (ground (arith, eq_refl (logical_id j))) in
    rw (e, chosen) found
start_logical-mem (j ∷ js) sel other (Memᴰ.tail m) h = ground (
  arith,
  start_logical-mem js sel other m h,
  mem-add (logical_id other) (logical_id j) (start_logical js sel),
)

start_logical-reason :
    (js : List WorkflowJob) (sel : List String) (d : String)
    → mem d (start_logical js sel) ≡ true
    → (other : WorkflowJob) × Memᴰ other js
      × (logical_id other ≡ d)
      × (mem other.spec.job_id sel ≡ true)
unfolding start_logical
start_logical-reason [] sel d h = absurd (cc)
start_logical-reason (j ∷ js) sel d h = elim (Bool-cases (mem j.spec.job_id sel)) [
  | inr absent ↦
      let (other, m, same, chosen) = start_logical-reason js sel d (rw absent at h) in
      (other, Memᴰ.tail m, same, chosen)
  | inl chosen ↦ elim (Bool-cases (d == logical_id j)) [
    | inl e ↦ (j, Memᴰ.head refl, sym ((eq_iff d _).0 e), chosen)
    | inr e ↦
        let earlier : mem d (start_logical js sel) ≡ true =
          ground (arith, mem-add d (logical_id j) (start_logical js sel)) in
        let (other, m, same, there) = start_logical-reason js sel d earlier in
        (other, Memᴰ.tail m, same, there)
  ]
]

module _ (jobs : List WorkflowJob) (seeds : List String) where
  abbrev start : Selection
  start = record { selected = seeds; logical = start_logical jobs seeds; changed = true }

  abbrev final : Selection
  final = close (suc (length jobs)) jobs start

  start-IsSound : IsSound jobs seeds start
  start-IsSound = record {
    ids = λ k m. seed m;
    logicals = λ d m.
        let (other, at, same, chosen) = start_logical-reason jobs seeds d m in
        (other, at, same, seed chosen);
  }

  final-mem : IdsAgree jobs → {k : String} → IsSelected jobs seeds k → mem k final.selected ≡ true
  unfolding needs_selected
  final-mem agree (seed {k} h) = close-mem k (suc (length jobs)) jobs start h
  final-mem agree (dependent {k} job other same at there needed why) =
      let ih = final-mem agree why in
      let tied =
        close-IsTied jobs seeds agree (suc (length jobs)) start
          (λ o m h. start_logical-mem jobs seeds o m h) in
      let settled =
        close_ends jobs (suc (length jobs)) start (omega (arith, left-le-length jobs seeds)) job
          at in
      let hit =
        mem-any (logical_id other) job.spec.needs final.logical needed (tied other there ih) in
      let chosen : mem job.spec.job_id final.selected ≡ true = ground (arith, settled, hit) in
      rw (← same) chosen

  -- The jobs that run again are the given ones, the jobs that need one of them, and so on: an ID is
  -- in the result exactly if a chain of needs leads from it to a given one. Jobs with one ID are
  -- taken to belong to one logical job.
  pub job_ids_with_dependents_iff :
      IdsAgree jobs
      → (k : String) → (mem k (job_ids_with_dependents jobs seeds) ≡ true) ↔ IsSelected jobs seeds k
  unfolding job_ids_with_dependents
  job_ids_with_dependents_iff agree k = (
    λ m.
        (close-IsSound jobs seeds (suc (length jobs)) start start-IsSound).ids k
          (sym (mem-sort_texts k final.selected) ∙ m),
    λ why. mem-sort_texts k final.selected ∙ final-mem agree why,
  )
