-- ===== src/Concurrency/Attempts.antt =====
-- The loops of acquireConcurrency and releaseConcurrency: at most five attempts, each over what
-- the API server answers in it.
pub mod Created
mod Tests
pub mod Laws
use open_actions.Api.{WorkflowRun}
use open_actions.Base.{
  ℕ, zero, suc, ◌+◌, String, Bool, true, false, not, Option, none, some, List, [], ◌∷◌,
  if◌then◌else◌,
}
use open_actions.Base.Result.{Result, ok, err}
use open_actions.Concurrency.Activity.{Read, found, missing, failed}
use open_actions.Concurrency.Bootstrap.{bootstrap}
use open_actions.Concurrency.Gate.{Activity, Round, GateResult, gate}
use open_actions.Concurrency.Lease.{Platform, Lease, set_pending}
use open_actions.Concurrency.Member.{
  Member, Scope, GateError, api_failure, changed_too_frequently, identity,
}
use open_actions.Concurrency.Release.{Release, nothing, put, remove, release}

-- The API server's answer to a write.
pub data Written : Type 0 where
  written conflict gone already_exists write_failed : Written

-- What one attempt meets: the Lease, the runs of the namespace, the members' activity, the time,
-- and the answer to the write that it makes.
pub record Turn : Type 0 where
  pub lease : Read Lease
  pub runs : Result GateError (List WorkflowRun)
  pub active : Activity
  pub now : ℕ
  pub write : Written

-- What an attempt sends to the API server.
pub data Request : Type 0 where
  no_request delete_request : Request
  create_request update_request : Lease → Request

-- An attempt ends the loop or asks for another.
pub data Outcome {ℓ} (A : Type ℓ) : Type ℓ where
  stop : Result GateError A → Outcome A
  again : Outcome A

-- The annotations and the holder of a Lease that is made.
unfoldable pub new_lease : Platform → Scope → String → ℕ → Member → Option Member → Lease
unfolding set_pending identity
new_lease p scope group now holder pending = set_pending p pending (record {
  annotations =
      ("actions.kelos.dev/concurrency-group", group)
      ∷ ("actions.kelos.dev/concurrency-project", scope.project)
      ∷ ("actions.kelos.dev/concurrency-repository-id", p.format_int scope.repository_id)
      ∷ [];
  holder_identity = some (identity holder);
  acquire_time = some now;
  lease_transitions = none;
})

abbrev pub or_else {ℓ} : {A : Type ℓ} → Option A → A → A
or_else none a = a
or_else (some b) a = b

-- What the loop makes of the answer to Create, to Update and to Delete.
abbrev pub after_create {ℓ} : {A : Type ℓ} → Written → Outcome A
after_create written = again
after_create already_exists = again
after_create _ = stop (err api_failure)

abbrev pub after_update {ℓ} : {A : Type ℓ} → A → Written → Outcome A
after_update a written = stop (ok a)
after_update a conflict = again
after_update a gone = again
after_update a _ = stop (err api_failure)

abbrev pub after_delete : Written → Outcome (Unit {0})
after_delete conflict = again
after_delete written = stop (ok tt)
after_delete gone = stop (ok tt)
after_delete _ = stop (err api_failure)

-- An attempt that changed nothing ends without a write.
abbrev pub after_gate :
    Written → Result GateError (GateResult × Round) → Request × Outcome GateResult
after_gate w (err e) = (no_request, stop (err e))
after_gate w (ok (res, r)) =
    if not r.changed
    then (no_request, stop (ok res))
    else (update_request r.lease, after_update res w)

abbrev pub after_release : Written → Result GateError Release → Request × Outcome (Unit {0})
after_release w (err e) = (no_request, stop (err e))
after_release w (ok nothing) = (no_request, stop (ok tt))
after_release w (ok (put l)) = (update_request l, after_update tt w)
after_release w (ok remove) = (delete_request, after_delete w)

module _ (p : Platform) (scope : Scope) (group : String) (m : Member) where
  -- The Lease that an attempt asks to create, where there is none.
  unfoldable pub lease_to_create : ℕ → List WorkflowRun → Lease
  unfolding new_lease bootstrap
  lease_to_create now runs =
      let (holder, pending) = bootstrap p scope group runs in
      new_lease p scope group now (or_else holder m) pending

  -- The body of the loop of acquireConcurrency, with what it sends.
  unfoldable pub acquire_attempt : Bool → Turn → Request × Outcome GateResult
  unfolding lease_to_create
  acquire_attempt registered t = elim t.lease [
    | failed ↦ (no_request, stop (err api_failure))
    | missing ↦ elim t.runs [
      | err e ↦ (no_request, stop (err e))
      | ok runs ↦ (create_request (lease_to_create t.now runs), after_create t.write)
    ]
    | found l ↦ after_gate t.write (gate p t.active scope group m registered t.now l)
  ]

  -- The body of the loop of releaseConcurrency, with what it sends.
  unfoldable pub release_attempt : Turn → Request × Outcome (Unit {0})
  release_attempt t = elim t.lease [
    | failed ↦ (no_request, stop (err api_failure))
    | missing ↦ (no_request, stop (ok tt))
    | found l ↦ after_release t.write (release p t.active scope group m t.now l)
  ]

-- `for attempt := 0; attempt < 5; attempt++`, from the attempt `i` on with `n` left.
unfoldable pub attempts {ℓ} :
    {A : Type ℓ} → (Turn → Request × Outcome A) → (ℕ → Turn) → ℕ → ℕ → Result GateError A
attempts body turns zero i = err changed_too_frequently
attempts body turns (suc n) i = elim (body (turns i)).1 [
  | stop r ↦ r
  | again ↦ attempts body turns n (suc i)
]

-- acquireConcurrency.
unfoldable pub acquire_concurrency :
    Platform → Scope → String → Member → Bool → (ℕ → Turn) → Result GateError GateResult
unfolding attempts
acquire_concurrency p scope group m registered turns =
    attempts (acquire_attempt p scope group m registered) turns 5 0

-- releaseConcurrency.
unfoldable pub release_concurrency :
    Platform → Scope → String → Member → (ℕ → Turn) → Result GateError (Unit {0})
unfolding attempts
release_concurrency p scope group m turns = attempts (release_attempt p scope group m) turns 5 0
