-- ===== src/Concurrency/Bootstrap.antt =====
-- bootstrapWorkflowRunConcurrency: the holder and the pending member of a group that has no Lease,
-- from the WorkflowRuns of the namespace.
pub mod Laws
use Prim.Native.String.{compare}
use text.Mathlib.Text.{is_lt}
use open_actions.Api.{WorkflowRun}
use open_actions.Base.{
  String, Bool, false, not, ◌&&◌, Option, none, some, List, [], ◌∷◌, ◌==◌, eqb, ltb, if◌then◌else◌,
}
use open_actions.Concurrency.Lease.{Platform}
use open_actions.Concurrency.Member.{Member, Scope, run_decision, run_member, waits_for_concurrency}
use open_actions.Status.{terminal, holds}

-- workflowRunConcurrencyCandidate.
pub record Candidate : Type 0 where
  pub member : Member
  pub run : WorkflowRun

-- workflowRunMatchesConcurrencyScope.
unfoldable pub matches_scope : WorkflowRun → Scope → Bool
matches_scope run scope =
    run.spec.project_ref == scope.project
    && run.spec.source.kind == "GitHub"
    && (elim run.spec.source.github [
      | none ↦ false
      | some source ↦ eqb source.repository.id scope.repository_id
    ])

-- The order of sortConcurrencyCandidates.
unfoldable pub before : Candidate → Candidate → Bool
before a b =
    if eqb a.run.meta.creation_timestamp b.run.meta.creation_timestamp
    then is_lt (compare a.run.meta.name b.run.meta.name)
    else ltb a.run.meta.creation_timestamp b.run.meta.creation_timestamp

-- sortConcurrencyCandidates; names are unique, so that the order leaves no choice.
unfoldable pub insert_candidate : Candidate → List Candidate → List Candidate
unfolding before
insert_candidate c [] = c ∷ []
insert_candidate c (d ∷ ds) = if before d c then d ∷ insert_candidate c ds else c ∷ d ∷ ds

unfoldable pub sort_candidates : List Candidate → List Candidate
unfolding insert_candidate
sort_candidates [] = []
sort_candidates (c ∷ cs) = insert_candidate c (sort_candidates cs)

abbrev pub first_member : List Candidate → Option Member
first_member [] = none
first_member (c ∷ cs) = some c.member

abbrev pub last_member : List Candidate → Option Member
last_member [] = none
last_member (c ∷ []) = some c.member
last_member (c ∷ d ∷ ds) = last_member (d ∷ ds)

module _ (p : Platform) (scope : Scope) (group : String) where
  abbrev pub is_in_group : WorkflowRun → Bool
  is_in_group run = elim (run_decision p.find run) [
    | none ↦ false
    | some decision ↦
        not (terminal p.find run) && matches_scope run scope && p.equal_fold decision.group group
  ]

  abbrev candidate : WorkflowRun → Candidate
  candidate run = record { member = run_member p.find run; run = run }

  -- The runs of the group whose plan is made, and those that wait; each list in the order given.
  unfoldable pub holders_of : List WorkflowRun → List Candidate
  holders_of [] = []
  holders_of (run ∷ runs) =
      let rest = holders_of runs in
      if is_in_group run && holds (p.find run.status.conditions "Planned")
      then candidate run ∷ rest
      else rest

  unfoldable pub waiters_of : List WorkflowRun → List Candidate
  waiters_of [] = []
  waiters_of (run ∷ runs) =
      let rest = waiters_of runs in
      let planned = p.find run.status.conditions "Planned" in
      if is_in_group run && not (holds planned) && waits_for_concurrency planned
      then candidate run ∷ rest
      else rest

  unfoldable pub bootstrap : List WorkflowRun → Option Member × Option Member
  unfolding holders_of waiters_of sort_candidates
  bootstrap runs =
      let holder = first_member (sort_candidates (holders_of runs)) in
      let waiting = last_member (sort_candidates (waiters_of runs)) in
      elim holder [ none ↦ (waiting, none) | some h ↦ (some h, waiting) ]
