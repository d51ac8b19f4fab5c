-- ===== src/Lineage/History/Listed.antt =====
-- What is in the lists of a history: where it comes from, and what is in them.
use open_actions.Api.{WorkflowJob}
use open_actions.Base.{
  String, Bool, true, ◌||◌, ◌≡◌, inl, inr, refl, sym, ap, ◌∙◌, arith, ◌==◌, eq_iff, eq_refl, List,
  [], ◌∷◌, ◌++◌, keep, Bool-cases,
}
use open_actions.Base.Dict.{mem}
use open_actions.Lineage.Dependents.{logical_id}
use open_actions.Lineage.History.{group, is_complete, complete_ids, ids_of}
use mathlib.Core.List.{Memᴰ}

pub mem-append : (k : String) (xs ys : List String) → mem k (xs ++ ys) ≡ (mem k xs || mem k ys)
mem-append k [] ys = refl
mem-append k (x ∷ xs) ys = ground (arith, mem-append k xs ys)

pub mem-ids_of :
    (jobs : List WorkflowJob) (job : WorkflowJob)
    → Memᴰ job jobs
    → mem job.spec.job_id (ids_of jobs) ≡ true
unfolding ids_of
mem-ids_of [] job m = elim m [ ]
mem-ids_of (j ∷ jobs) job (Memᴰ.head h) = rw h (ground (arith, eq_refl j.spec.job_id))
mem-ids_of (j ∷ jobs) job (Memᴰ.tail m) = ground (arith, mem-ids_of jobs job m)

pub mem-complete_ids :
    (all jobs : List WorkflowJob) (job : WorkflowJob)
    → Memᴰ job jobs
    → is_complete (group (logical_id job) all) ≡ true
    → mem (logical_id job) (complete_ids all jobs) ≡ true
unfolding complete_ids
mem-complete_ids all [] job m h = elim m [ ]
mem-complete_ids all (j ∷ jobs) job (Memᴰ.head q) h =
    let whole : is_complete (group (logical_id j) all) ≡ true = rw q at h in
    rw (q, whole) (ground (arith, eq_refl (logical_id j)))
mem-complete_ids all (j ∷ jobs) job (Memᴰ.tail m) h =
    ground (arith, mem-complete_ids all jobs job m h)

pub mem-keep :
    (p : WorkflowJob → Bool) (jobs : List WorkflowJob) (job : WorkflowJob)
    → Memᴰ job (keep p jobs)
    → Memᴰ job jobs × (p job ≡ true)
mem-keep p [] job m = elim m [ ]
mem-keep p (j ∷ jobs) job m = elim (Bool-cases (p j)) [
  | inl kept ↦ elim (rw (kept, keep) at m) [
    | Memᴰ.head h ↦ (Memᴰ.head h, rw h kept)
    | Memᴰ.tail t ↦ let (at, e) = mem-keep p jobs job t in (Memᴰ.tail at, e)
  ]
  | inr dropped ↦ let (at, e) = mem-keep p jobs job (rw (dropped, keep) at m) in (Memᴰ.tail at, e)
]

-- The converses: what is listed comes from a job.
pub ids_of-reason :
    (jobs : List WorkflowJob) (id : String)
    → mem id (ids_of jobs) ≡ true
    → (job : WorkflowJob) × Memᴰ job jobs × (id ≡ job.spec.job_id)
unfolding ids_of
ids_of-reason [] id e = absurd (cc)
ids_of-reason (j ∷ jobs) id e = elim (Bool-cases (id == j.spec.job_id)) [
  | inl here ↦ (j, Memᴰ.head refl, (eq_iff id j.spec.job_id).0 here)
  | inr other ↦
      let (job, at, same) = ids_of-reason jobs id (ground arith) in (job, Memᴰ.tail at, same)
]

pub complete_ids-reason :
    (all jobs : List WorkflowJob) (id : String)
    → mem id (complete_ids all jobs) ≡ true
    → (job : WorkflowJob) × Memᴰ job jobs
      × (id ≡ logical_id job)
      × (is_complete (group (logical_id job) all) ≡ true)
unfolding complete_ids
complete_ids-reason all [] id e = absurd (cc)
complete_ids-reason all (j ∷ jobs) id e = elim (Bool-cases (mem id (complete_ids all jobs))) [
  | inl later ↦
      let (job, at, same, whole) = complete_ids-reason all jobs id later in
      (job, Memᴰ.tail at, same, whole)
  | inr not_later ↦ elim (Bool-cases (is_complete (group (logical_id j) all))) [
    | inr partial ↦ absurd (ground (arith, partial, e, not_later))
    | inl whole ↦
        let here : (id == logical_id j) ≡ true = ground (arith, whole, e, not_later) in
        (j, Memᴰ.head refl, (eq_iff id (logical_id j)).0 here, whole)
  ]
]

pub keep-mem :
    (p : WorkflowJob → Bool) (jobs : List WorkflowJob) (job : WorkflowJob)
    → Memᴰ job jobs
    → p job ≡ true
    → Memᴰ job (keep p jobs)
keep-mem p [] job m e = elim m [ ]
keep-mem p (j ∷ jobs) job (Memᴰ.head h) e =
    let kept : p j ≡ true = ap p (sym h) ∙ e in rw (kept, keep) (Memᴰ.head h)
keep-mem p (j ∷ jobs) job (Memᴰ.tail m) e = elim (Bool-cases (p j)) [
  | inl kept ↦ rw (kept, keep) (Memᴰ.tail (keep-mem p jobs job m e))
  | inr dropped ↦ rw (dropped, keep) (keep-mem p jobs job m e)
]
