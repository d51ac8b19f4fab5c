-- ===== src/Lineage/History/Laws.antt =====
-- Which jobs of an attempt still count after newer ones.
use open_actions.Api.{WorkflowRun, WorkflowJob}
use open_actions.Base.{
  String, Bool, true, false, not, ◌&&◌, ◌≡◌, ◌≢◌, ◌↔◌, inl, inr, refl, ap, arith, List, [], ◌∷◌,
  ◌++◌, Bool-cases,
}
use open_actions.Base.Dict.{mem}
use open_actions.Lineage.Dependents.{logical_id}
use open_actions.Lineage.History.{
  JobHistory, no_history, is_retained, group, is_complete, complete_ids, ids_of, selected_ids,
  add_attempt, add_attempts,
}
use open_actions.Lineage.History.Listed.{
  mem-append, mem-ids_of, mem-complete_ids, mem-keep, ids_of-reason, complete_ids-reason, keep-mem,
}
use mathlib.Core.List.{Memᴰ}

-- An attempt replaces a job if it has a job with its ID, or selected this ID, or has its logical job
-- completely, or selected the name of its logical job, or has a job whose ID is this name.
abbrev pub IsUnreplaced : WorkflowRun → List WorkflowJob → WorkflowJob → Type 0
IsUnreplaced run jobs older =
    ((job : WorkflowJob) → Memᴰ job jobs → older.spec.job_id ≢ job.spec.job_id)
    × ((mem older.spec.job_id (selected_ids run) ≡ false)
        × (((job : WorkflowJob)
              → Memᴰ job jobs
              → is_complete (group (logical_id job) jobs) ≡ true
              → logical_id older ≢ logical_id job)
            × ((mem (logical_id older) (selected_ids run) ≡ false)
                × ((job : WorkflowJob) → Memᴰ job jobs → logical_id older ≢ job.spec.job_id))))

unlisted : WorkflowRun → List WorkflowJob → WorkflowJob → Bool
unlisted run jobs older =
    not (mem older.spec.job_id (selected_ids run))
    && not (mem older.spec.job_id (ids_of jobs))
    && not (mem (logical_id older) (complete_ids jobs jobs))
    && not (mem (logical_id older) (selected_ids run))
    && not (mem (logical_id older) (ids_of jobs))

-- What counts after an attempt counted before it, and the attempt does not list it.
is_retained_next :
    (h : JobHistory) (run : WorkflowRun) (jobs : List WorkflowJob) (older : WorkflowJob)
    → is_retained (add_attempt h run jobs).0 older
      ≡ (is_retained h older && unlisted run jobs older)
unfolding is_retained add_attempt unlisted
is_retained_next h run jobs older =
    let id = older.spec.job_id in
    let d = logical_id older in
    ground (
      arith,
      mem-append id (selected_ids run) (ids_of jobs ++ h.job_ids),
      mem-append id (ids_of jobs) h.job_ids,
      mem-append d (selected_ids run) (ids_of jobs ++ h.job_ids),
      mem-append d (ids_of jobs) h.job_ids,
      mem-append d (complete_ids jobs jobs) h.logical_ids,
    )

not_ids_of :
    (jobs : List WorkflowJob) (id : String)
    → (mem id (ids_of jobs) ≡ false) ↔ ((job : WorkflowJob) → Memᴰ job jobs → id ≢ job.spec.job_id)
not_ids_of jobs id = (
  λ e job at same. ground (arith, e, mem-ids_of jobs job at, ap (λ k. mem k (ids_of jobs)) same),
  λ none_of. elim (Bool-cases (mem id (ids_of jobs))) [
    | inl listed ↦
        let (job, at, same) = ids_of-reason jobs id listed in absurd (none_of job at same)
    | inr e ↦ e
  ],
)

not_complete_ids :
    (jobs : List WorkflowJob) (id : String)
    → (mem id (complete_ids jobs jobs) ≡ false) ↔ (
        (job : WorkflowJob)
        → Memᴰ job jobs
        → is_complete (group (logical_id job) jobs) ≡ true
        → id ≢ logical_id job)
not_complete_ids jobs id = (
  λ e job at whole same. ground (
    arith,
    e,
    mem-complete_ids jobs jobs job at whole,
    ap (λ d. mem d (complete_ids jobs jobs)) same,
  ),
  λ none_of. elim (Bool-cases (mem id (complete_ids jobs jobs))) [
    | inl listed ↦
        let (job, at, same, whole) = complete_ids-reason jobs jobs id listed in
        absurd (none_of job at whole same)
    | inr e ↦ e
  ],
)

unlisted-IsUnreplaced :
    (run : WorkflowRun) (jobs : List WorkflowJob) (older : WorkflowJob)
    → (unlisted run jobs older ≡ true) ↔ IsUnreplaced run jobs older
unfolding unlisted
unlisted-IsUnreplaced run jobs older =
    let by_id = not_ids_of jobs older.spec.job_id in
    let by_name = not_ids_of jobs (logical_id older) in
    let by_group = not_complete_ids jobs (logical_id older) in
    (
      λ e. (
        by_id.0 (ground (arith, e)),
        (
          ground (arith, e),
          (by_group.0 (ground (arith, e)), (ground (arith, e), by_name.0 (ground (arith, e)))),
        ),
      ),
      λ (other, (unselected, (incomplete, (not_chosen, not_named)))). ground (
        arith,
        by_id.1 other,
        unselected,
        by_group.1 incomplete,
        not_chosen,
        by_name.1 not_named,
      ),
    )

-- What counts after a row of attempts counted before it, and none of them replaces it.
add_attempts-is_retained :
    (h : JobHistory) (newer : List (WorkflowRun × List WorkflowJob)) (older : WorkflowJob)
    → (is_retained (add_attempts h newer) older ≡ true) ↔ (
        (is_retained h older ≡ true)
        × ((run : WorkflowRun) (jobs : List WorkflowJob)
            → Memᴰ (run, jobs) newer
            → IsUnreplaced run jobs older))
unfolding add_attempts
add_attempts-is_retained h [] older = (λ e. (e, λ run jobs m. elim m [ ]), λ (e, _). e)
add_attempts-is_retained h ((r, js) ∷ newer) older =
    let next = is_retained_next h r js older in
    let rest = add_attempts-is_retained (add_attempt h r js).0 newer older in
    let here = unlisted-IsUnreplaced r js older in
    (
      λ e.
          let (kept, later) = rest.0 e in
          (
            ground (arith, kept, next),
            λ run jobs m. elim m [
              | Memᴰ.head q ↦
                  rw
                    (
                      ap (λ (x : WorkflowRun × List WorkflowJob). x.0) q,
                      ap (λ (x : WorkflowRun × List WorkflowJob). x.1) q,
                    )
                    (here.0 (ground (arith, kept, next)))
              | Memᴰ.tail t ↦ later run jobs t
            ],
          ),
      λ (kept, all).
          let first = here.1 (all r js (Memᴰ.head refl)) in
          rest.1 (ground (arith, kept, first, next), λ run jobs m. all run jobs (Memᴰ.tail m)),
    )

no_history-is_retained : (older : WorkflowJob) → is_retained no_history older ≡ true
unfolding is_retained
no_history-is_retained older = refl

-- After it was called on the newer attempts, Add returns exactly those jobs of an attempt that none of
-- the newer ones replaces: none has a job with the ID, nor selected this ID, none has the logical job
-- completely, nor selected its name, and none has a job whose ID is this name.
pub add_attempt_iff :
    (newer : List (WorkflowRun × List WorkflowJob)) (run : WorkflowRun) (jobs : List WorkflowJob)
    (older : WorkflowJob)
    → Memᴰ older (add_attempt (add_attempts no_history newer) run jobs).1 ↔ (
        Memᴰ older jobs
        × ((r : WorkflowRun) (js : List WorkflowJob)
            → Memᴰ (r, js) newer
            → IsUnreplaced r js older))
unfolding add_attempt
add_attempt_iff newer run jobs older =
    let h = add_attempts no_history newer in
    let known = add_attempts-is_retained no_history newer older in
    (
      λ m. let (at, kept) = mem-keep (is_retained h) jobs older m in (at, (known.0 kept).1),
      λ (at, all).
          keep-mem (is_retained h) jobs older at (known.1 (no_history-is_retained older, all)),
    )
