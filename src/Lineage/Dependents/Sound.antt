-- ===== src/Lineage/Dependents/Sound.antt =====
-- No job runs again without a reason.
use open_actions.Api.{WorkflowJob}
use open_actions.Base.{
  ℕ, zero, suc, String, true, false, not, ◌||◌, ◌≡◌, inl, inr, refl, sym, arith, List, [], ◌∷◌,
  ◌==◌, eq_iff, Bool-cases,
}
use open_actions.Base.Dict.{mem, mem-add, any-mem}
use open_actions.Lineage.Dependents.{logical_id, needs_selected, Selection, visit, sweep, close}
use mathlib.Core.List.{Memᴰ}

module _ (jobs : List WorkflowJob) (seeds : List String) where
  -- A job is selected if it is a seed, or needs the logical job of one that is selected.
  pub data IsSelected : String → Type 0 where
    seed : {k : String} → mem k seeds ≡ true → IsSelected k
    dependent :
        {k : String} (job other : WorkflowJob)
        → job.spec.job_id ≡ k
        → Memᴰ job jobs
        → Memᴰ other jobs
        → mem (logical_id other) job.spec.needs ≡ true
        → IsSelected other.spec.job_id
        → IsSelected k

  -- Nothing is selected without a reason.
  pub record IsSound (s : Selection) : Type 0 where
    pub ids : (k : String) → mem k s.selected ≡ true → IsSelected k
    pub logicals :
        (d : String)
        → mem d s.logical ≡ true
        → (other : WorkflowJob) × Memᴰ other jobs
          × (logical_id other ≡ d)
          × IsSelected other.spec.job_id

  -- The logical ID of each selected job is there.
  abbrev pub IsTied : Selection → Type 0
  IsTied s =
      (other : WorkflowJob)
      → Memᴰ other jobs
      → mem other.spec.job_id s.selected ≡ true
      → mem (logical_id other) s.logical ≡ true

  visit-IsSound :
      (job : WorkflowJob) (s : Selection) → Memᴰ job jobs → IsSound s → IsSound (visit job s)
  unfolding visit needs_selected
  visit-IsSound job s listed h =
      elim (Bool-cases
        (mem job.spec.job_id s.selected || not (needs_selected job.spec.needs s.logical))) [
          | inl skip ↦ rw skip h
          | inr take ↦
              let (d, needed, there) = any-mem job.spec.needs s.logical (ground arith) in
              let (other, at, same, why) = h.logicals d there in
              let own : IsSelected job.spec.job_id =
                dependent job other refl listed at (rw same needed) why in
              rw take (record {
                ids = λ k m. elim (Bool-cases (k == job.spec.job_id)) [
                  | inl e ↦ rw ((eq_iff k _).0 e) own
                  | inr e ↦ h.ids k (ground arith)
                ];
                logicals = λ k m. elim (Bool-cases (k == logical_id job)) [
                  | inl e ↦ (job, listed, sym ((eq_iff k _).0 e), own)
                  | inr e ↦ h.logicals k (ground (arith, mem-add k (logical_id job) s.logical))
                ];
              })
        ]

  sweep-IsSound :
      (js : List WorkflowJob) (s : Selection)
      → ((j : WorkflowJob) → Memᴰ j js → Memᴰ j jobs)
      → IsSound s
      → IsSound (sweep js s)
  unfolding sweep
  sweep-IsSound [] s sub h = h
  sweep-IsSound (job ∷ js) s sub h =
      sweep-IsSound js (visit job s) (λ j m. sub j (Memᴰ.tail m))
        (visit-IsSound job s (sub job (Memᴰ.head refl)) h)

  reset-IsSound : (s : Selection) → IsSound s → IsSound (record s { changed = false })
  reset-IsSound s h = record { ids = h.ids; logicals = h.logicals }

  pub close-IsSound : (n : ℕ) (s : Selection) → IsSound s → IsSound (close n jobs s)
  unfolding close
  close-IsSound zero s h = h
  close-IsSound (suc n) s h =
      let next = sweep jobs (record s { changed = false }) in
      let g = sweep-IsSound jobs (record s { changed = false }) (λ j m. m) (reset-IsSound s h) in
      elim (Bool-cases next.changed) [
        | inl more ↦ rw (more, close) (close-IsSound n next g)
        | inr done ↦ rw (done, close) g
      ]
