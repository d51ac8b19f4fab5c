-- ===== src/Workflow/Trigger/Push.antt =====
-- When a push to a branch triggers a workflow.
use open_actions.Base.{
  String, Bool, true, false, ◌≡◌, ◌⊎◌, ◌↔◌, inl, inr, refl, sym, ◌∙◌, arith, some, List, [], ◌==◌,
  starts_with, Bool-cases, if◌then◌else◌,
}
use open_actions.Base.Dict.{lookup}
use open_actions.Base.Result.{Result, ok, ◌>>=◌, Result-cases}
use open_actions.Workflow.Cron.{CronLibrary}
use open_actions.Workflow.Event.{EventFilter, Event}
use open_actions.Workflow.Inputs.{Numbers}
use open_actions.Workflow.Matcher.Last.{IsSelected, matches_patterns_iff}
use open_actions.Workflow.Trigger.{
  MatchError, is_pull_request, types_of, types_allow, workflow_allows, push_allows, branch_allows,
  files_allow, with_inputs, match_files, match_filter, match_trigger,
}
use open_actions.Workflow.Trigger.Files.{FilesPass, files_allow_iff}

-- The branch is selected by the branches, where they are given; tags alone keep a branch out.
abbrev pub BranchPasses : EventFilter → Event → Type 0
BranchPasses f event =
    ((f.branches_set ≡ true) × IsSelected f.branches event.ref_name)
    ⊎ ((f.branches_set ≡ false) × (f.tags_set ≡ false))

push_allows_iff :
    (f : EventFilter) (event : Event)
    → starts_with event.ref "refs/heads/" ≡ true
    → (push_allows f event ≡ true) ↔ BranchPasses f event
unfolding push_allows
push_allows_iff f event heads =
    let (there, back) = matches_patterns_iff f.branches event.ref_name in
    elim (Bool-cases f.branches_set) [
      | inl given ↦ (
        λ h. inl (given, there (ground (arith, heads, given, h))),
        λ p. elim p [
          | inl (_, s) ↦ let hit = back s in ground (arith, heads, given, hit)
          | inr (absent, _) ↦ absurd (ground (arith, given, absent))
        ],
      )
      | inr absent ↦ (
        λ h. inr (absent, ground (arith, heads, absent, h)),
        λ p. elim p [
          | inl (given, _) ↦ absurd (ground (arith, given, absent))
          | inr (_, untagged) ↦ ground (arith, heads, absent, untagged)
        ],
      )
    ]

-- A push is none of the other events that Match treats on their own.
push_name :
    (n : String)
    → n ≡ "push"
    → (n == "push" ≡ true)
      × (n == "schedule" ≡ false)
      × (is_pull_request n ≡ false)
      × (n == "merge_group" ≡ false)
      × (n == "workflow_run" ≡ false)
      × (n == "workflow_dispatch" ≡ false)
      × (n == "workflow_call" ≡ false)
push_name n e = rw e (refl, refl, refl, refl, refl, refl, refl)

module _ (cron : CronLibrary) (numbers : Numbers) (f : EventFilter) (event : Event)
    (push : event.name ≡ "push") (untyped : f.types ≡ []) where
  -- Without types, what is left of Match for a push.
  abbrev push_path : Result MatchError (Event × Bool)
  push_path =
      if push_allows f event
      then (do allowed ← files_allow f event; ok (event, allowed))
      else ok (event, false)

  types_pass : types_allow f event ≡ true
  unfolding types_allow types_of
  types_pass =
      let (_, _, no_pull, no_group, _, _, _) = push_name event.name push in
      ground (arith, no_pull, no_group, untyped)

  workflow_passes : workflow_allows f event ≡ true
  unfolding workflow_allows
  workflow_passes =
      let (_, _, _, _, no_run, _, _) = push_name event.name push in ground (arith, no_run)

  branch_passes : branch_allows f event ≡ true
  unfolding branch_allows
  branch_passes =
      let (is_push, _, _, _, _, _, _) = push_name event.name push in ground (arith, is_push)

  files_end :
      match_files cron numbers f event ≡ (files_allow f event >>= λ allowed. ok (event, allowed))
  unfolding match_files with_inputs
  files_end =
      let (_, _, _, _, _, no_dispatch, no_call) = push_name event.name push in
      elim (Result-cases (files_allow f event)) [
        | inl (e, bad) ↦ rw bad refl
        | inr (allowed, good) ↦ ground (arith, good, no_dispatch, no_call)
      ]

  match_filter-push : match_filter cron numbers f event ≡ push_path
  unfolding match_filter
  match_filter-push =
      let (is_push, unscheduled, _, _, _, _, _) = push_name event.name push in
      elim (Bool-cases (push_allows f event)) [
        | inl passes ↦ rw (passes) (
            ground (arith, types_pass, workflow_passes, unscheduled, is_push, passes, branch_passes)
            ∙ files_end)
        | inr kept_out ↦ ground (arith, types_pass, workflow_passes, unscheduled, is_push, kept_out)
      ]

  push_path_iff :
      (push_path ≡ ok (event, true))
      ↔ ((push_allows f event ≡ true) × (files_allow f event ≡ ok true))
  push_path_iff = (
    λ h. elim (Bool-cases (push_allows f event)) [
      | inl passes ↦ (
        passes,
        elim (Result-cases (files_allow f event)) [
          | inl (e, bad) ↦ absurd (ground (arith, passes, bad, h))
          | inr (allowed, good) ↦ ground (arith, passes, good, h)
        ],
      )
      | inr kept_out ↦ absurd (ground (arith, kept_out, h))
    ],
    λ (passes, good). ground (arith, passes, good),
  )

-- A push to a branch triggers a workflow, the event left as it is, exactly if the branch passes (the
-- last pattern of the branches that it fits is not negated, or neither branches nor tags are given)
-- and the changed files do (no path filter asks for them, or the diff is there, and it is to run
-- always or one of the first 3000 paths is selected or, with paths to ignore, not ignored). The
-- trigger names push, and no activity types, which push has not.
pub match_trigger-push :
    (cron : CronLibrary) (numbers : Numbers) (events : List (String × EventFilter))
    (f : EventFilter) (event : Event)
    → lookup event.name events ≡ some f
    → event.name ≡ "push"
    → f.types ≡ []
    → starts_with event.ref "refs/heads/" ≡ true
    → (match_trigger cron numbers events event ≡ ok (event, true))
      ↔ (BranchPasses f event × FilesPass f event)
unfolding match_trigger
match_trigger-push cron numbers events f event found push untyped heads =
    let chosen : match_trigger cron numbers events event ≡ match_filter cron numbers f event =
      ground (arith, found) in
    let shape = chosen ∙ match_filter-push cron numbers f event push untyped in
    let (split, join) = push_path_iff cron numbers f event push untyped in
    let (branch, branch') = push_allows_iff f event heads in
    let (files, files') = files_allow_iff f event in
    (
      λ h. let (a, b) = split (sym shape ∙ h) in (branch a, files b),
      λ (a, b). shape ∙ join (branch' a, files' b),
    )
