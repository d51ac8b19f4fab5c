-- ===== src/Concurrency/Lease.antt =====
-- The Lease that stands for a concurrency group: its holder and its one pending member.
pub mod Laws
use open_actions.Api.{FindCondition}
use open_actions.Base.{
  ℕ, String, Bool, not, ◌||◌, Option, none, some, List, ◌==◌, ◌+◌, ◌%◌, ◌≡◌, ◌≢◌, if◌then◌else◌,
}
use open_actions.Base.Dict.{get, insert, delete}
use open_actions.Base.Result.{Result, ok, err, ◌>>=◌, fail_if}
use open_actions.Concurrency.Member.{
  Member, Scope, GateError, invalid_pending, lease_mismatch, identity, parse_identity,
  is_member_kind,
}

-- The library code that the component calls: meta.FindStatusCondition, strings.EqualFold,
-- strconv.FormatInt in base 10, and encoding/json at a concurrencyMember.
pub record Platform : Type 0 where
  pub find : FindCondition
  pub equal_fold : String → String → Bool
  pub format_int : ℕ → String
  pub encode : Member → String
  pub decode : String → Option Member

-- A member that was encoded decodes to itself, and no encoding is the empty text.
pub record IsFaithful (p : Platform) : Type 0 where
  pub decode-encode : (m : Member) → p.decode (p.encode m) ≡ some m
  pub encode-ne : (m : Member) → p.encode m ≢ ""

pub record Lease : Type 0 where
  pub annotations : List (String × String)
  pub holder_identity : Option String
  pub acquire_time : Option ℕ
  pub lease_transitions : Option ℕ  -- int32, by its bit pattern

abbrev pub pending_annotation : String
pending_annotation = "actions.kelos.dev/concurrency-pending"

-- concurrencyHolder.
unfoldable pub lease_holder : Lease → Result GateError (Option Member)
lease_holder lease = elim lease.holder_identity [
  | none ↦ ok none
  | some value ↦ if value == "" then ok none else do holder ← parse_identity value; ok (some holder)
]

-- incrementLeaseTransitions.
unfoldable pub next_transition : Option ℕ → Option ℕ
next_transition none = some 1
next_transition (some n) = some ((n + 1) % 4294967296)

module _ (p : Platform) where
  -- concurrencyPending.
  unfoldable pub lease_pending : Lease → Result GateError (Option Member)
  lease_pending lease =
      let value = get pending_annotation lease.annotations in
      if value == "" then ok none else elim (p.decode value) [
        | none ↦ err invalid_pending
        | some m ↦
            if not (is_member_kind m.kind) || m.name == "" || m.uid == ""
            then err invalid_pending
            else ok (some m)
      ]

  -- setConcurrencyPending; encoding a member does not fail.
  unfoldable pub set_pending : Option Member → Lease → Lease
  set_pending none lease = record lease {
    annotations = delete pending_annotation lease.annotations;
  }
  set_pending (some m) lease = record lease {
    annotations = insert pending_annotation (p.encode m) lease.annotations;
  }

  -- validateConcurrencyLease.
  unfoldable pub validate : Lease → Scope → String → Result GateError (Unit {0})
  validate lease scope group =
      fail_if
        (not (get "actions.kelos.dev/concurrency-project" lease.annotations == scope.project)
          || not (
              get "actions.kelos.dev/concurrency-repository-id" lease.annotations
              == p.format_int scope.repository_id)
          || not (p.equal_fold (get "actions.kelos.dev/concurrency-group" lease.annotations) group))
        lease_mismatch

-- The new holder's part of a Lease: its identity, the time, and one more transition.
unfoldable pub give_to : Member → ℕ → Lease → Lease
unfolding next_transition
give_to m now lease = record lease {
  holder_identity = some (identity m);
  acquire_time = some now;
  lease_transitions = next_transition lease.lease_transitions;
}
