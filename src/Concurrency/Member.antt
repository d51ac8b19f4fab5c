-- ===== src/Concurrency/Member.antt =====
-- Members of a concurrency group and their identities: internal/controller/concurrency.go.
pub mod Laws
use Prim.Native.String
use open_actions.Api.{
  FindCondition, WorkflowRun, WorkflowJob, ConcurrencyStatus, Condition, is_unknown,
}
use open_actions.Base.{
  ℕ, String, Bool, false, not, ◌&&◌, ◌||◌, Option, none, some, ◌==◌, is_some, if◌then◌else◌,
}
use open_actions.Base.Result.{Result, ok, err}
use open_actions.Base.Text.{◌⧺◌, cut}

-- The errors of the component, without their texts.
pub data GateError : Type 0 where
  invalid_identity invalid_kind invalid_pending unsupported_kind : GateError
  lease_mismatch not_controlled api_failure changed_too_frequently no_repository : GateError

-- concurrencyMember.
pub record Member : Type 0 where
  pub kind : String
  pub name : String
  pub uid : String
  pub cancel_in_progress : Bool

-- concurrencyScope.
pub record Scope : Type 0 where
  pub project : String
  pub repository_id : ℕ

-- concurrencyMember.identity.
unfoldable pub identity : Member → String
identity m = m.kind ⧺ ":" ⧺ m.name ⧺ ":" ⧺ m.uid

-- strings.SplitN(value, ":", 3), when it gives three parts.
unfoldable pub split_three : String → Option (String × String × String)
unfolding cut
split_three value = elim (cut b':' value) [
  | none ↦ none
  | some (a, rest) ↦ elim (cut b':' rest) [ none ↦ none | some (b, c) ↦ some (a, b, c) ]
]

abbrev pub is_member_kind : String → Bool
is_member_kind kind = kind == "WorkflowRun" || kind == "WorkflowJob"

-- The checks of parseConcurrencyIdentity on the parts.
unfoldable pub check_parts : Option (String × String × String) → Result GateError Member
check_parts none = err invalid_identity
check_parts (some (kind, name, uid)) =
    if kind == "" || name == "" || uid == ""
    then err invalid_identity
    else if not (is_member_kind kind)
    then err invalid_kind
    else ok (record { kind = kind; name = name; uid = uid; cancel_in_progress = false })

-- parseConcurrencyIdentity.
unfoldable pub parse_identity : String → Result GateError Member
unfolding check_parts
parse_identity value = check_parts (split_three value)

-- workflowRunConcurrencyScope.
unfoldable pub run_scope : WorkflowRun → Result GateError Scope
run_scope run =
    if run.spec.source.kind == "GitHub"
    then elim run.spec.source.github [
      | none ↦ err no_repository
      | some source ↦
          ok (record { project = run.spec.project_ref; repository_id = source.repository.id })
    ]
    else err no_repository

-- waitingForConcurrencyCondition.
abbrev pub waits_for_concurrency : Option Condition → Bool
waits_for_concurrency none = false
waits_for_concurrency (some c) =
    is_unknown c.status
    && (c.reason == "WaitingForConcurrency" || c.reason == "WaitingForConcurrencyCancellation")

module _ (find : FindCondition) where
  -- workflowRunConcurrencyDecision; the older field counts only where the newer one is unset.
  unfoldable pub run_decision : WorkflowRun → Option ConcurrencyStatus
  run_decision run = elim run.status.concurrency [
    | some decision ↦ some decision
    | none ↦
        if run.status.concurrency_group == ""
        then none
        else some (record {
          group = run.status.concurrency_group;
          cancel_in_progress = elim (find run.status.conditions "Planned") [
            | none ↦ false
            | some planned ↦ planned.reason == "WaitingForConcurrencyCancellation"
          ];
        })
  ]

  -- workflowRunConcurrencyMember.
  unfoldable pub run_member : WorkflowRun → Member
  unfolding run_decision
  run_member run = record {
    kind = "WorkflowRun";
    name = run.meta.name;
    uid = run.meta.uid;
    cancel_in_progress = elim (run_decision run) [
      | none ↦ false
      | some decision ↦ decision.cancel_in_progress && not run.spec.cancel_requested
    ];
  }

-- workflowJobConcurrencyMember.
unfoldable pub job_member : WorkflowJob → Member
job_member job = record {
  kind = "WorkflowJob";
  name = job.meta.name;
  uid = job.meta.uid;
  cancel_in_progress = elim job.status.concurrency [
    | none ↦ false
    | some decision ↦ decision.cancel_in_progress
  ];
}

-- workflowJobConcurrencyRegistered.
unfoldable pub job_is_registered : FindCondition → WorkflowJob → Bool
job_is_registered find job = is_some (find job.status.conditions "ConcurrencyAcquired")
