-- ===== src/Concurrency/Gate.antt =====
-- acquireConcurrency: one reading of a group's Lease, and what becomes of it.
mod Settle
pub mod Laws
use open_actions.Base.{
  ℕ, String, Bool, true, false, ◌&&◌, Option, none, some, ◌==◌, is_some, if◌then◌else◌,
}
use open_actions.Base.Result.{Result, ok, err, ◌>>=◌, ◌>>◌}
use open_actions.Concurrency.Lease.{
  Platform, Lease, lease_holder, lease_pending, set_pending, validate, give_to,
}
use open_actions.Concurrency.Member.{Member, Scope, GateError, identity}

-- concurrencyGateState and concurrencyGateResult.
pub data GateState : Type 0 where
  acquired waiting superseded : GateState

pub record GateResult : Type 0 where
  pub state : GateState
  pub displaced : Option Member
  pub cancel_owner : Option Member

-- concurrencyMemberActive, as one attempt sees it.
abbrev pub Activity : Type 0
Activity = Member → Result GateError Bool

-- The variables of one attempt.
pub record Round : Type 0 where
  pub holder : Option Member
  pub pending : Option Member
  pub lease : Lease
  pub changed : Bool

-- `p != nil && p.identity() == member.identity()`.
abbrev pub is_member : Option Member → Member → Bool
is_member none m = false
is_member (some h) m = identity h == identity m

abbrev pub drop_holder : Round → Round
drop_holder r = record r {
  holder = none;
  lease = record (r.lease) { holder_identity = none };
  changed = true;
}

-- An inactive holder is dropped.
unfoldable pub check_holder : Activity → Round → Result GateError Round
check_holder active r = elim r.holder [
  | none ↦ ok r
  | some h ↦ do is_active ← active h; ok (if is_active then r else drop_holder r)
]

module _ (p : Platform) where
  abbrev pub drop_pending : Round → Round
  drop_pending r = record r { pending = none; lease = set_pending p none r.lease; changed = true }

  -- An inactive pending member is dropped.
  unfoldable pub check_pending : Activity → Round → Result GateError Round
  check_pending active r = elim r.pending [
    | none ↦ ok r
    | some w ↦ do is_active ← active w; ok (if is_active then r else drop_pending r)
  ]

  -- The pending member takes a place that is free.
  unfoldable pub promote : ℕ → Round → Round
  promote now r = elim r.holder [
    | some h ↦ r
    | none ↦ elim r.pending [
      | none ↦ r
      | some w ↦ record {
        holder = some w;
        pending = none;
        lease = set_pending p none (give_to w now r.lease);
        changed = true;
      }
    ]
  ]

  -- The attempt up to its `switch`.
  unfoldable pub settle : Activity → Scope → String → ℕ → Lease → Result GateError Round
  unfolding check_holder check_pending promote
  settle active scope group now lease = do
    validate p lease scope group
    holder ← lease_holder lease
    pending ← lease_pending p lease
    held ←
        check_holder active
          (record { holder = holder; pending = pending; lease = lease; changed = false })
    live ← check_pending active held
    ok (promote now live)

  -- The `default` case of the `switch`.
  unfoldable pub enter : Member → ℕ → Round → GateResult × Round
  enter m now r = elim r.holder [
    | none ↦ (
      record { state = acquired; displaced = none; cancel_owner = none },
      record r { holder = some m; lease = give_to m now r.lease; changed = true },
    )
    | some h ↦ (
      record {
        state = waiting;
        displaced = r.pending;
        cancel_owner = if m.cancel_in_progress then some h else none;
      },
      record r { pending = some m; lease = set_pending p (some m) r.lease; changed = true },
    )
  ]

  -- The `switch`.
  unfoldable pub decide : Member → Bool → ℕ → Round → GateResult × Round
  unfolding enter
  decide m registered now r =
      if is_member r.holder m
      then (record { state = acquired; displaced = none; cancel_owner = none }, r)
      else if is_member r.pending m
      then (
        record {
          state = waiting;
          displaced = none;
          cancel_owner = if m.cancel_in_progress then r.holder else none;
        },
        r,
      )
      else if registered && is_some r.holder && is_some r.pending
      then (record { state = superseded; displaced = none; cancel_owner = none }, r)
      else enter m now r

  -- One attempt, from the Lease that was read to the one to be written.
  unfoldable pub gate :
      Activity → Scope → String → Member → Bool → ℕ → Lease → Result GateError (GateResult × Round)
  unfolding settle decide
  gate active scope group m registered now lease = do
    r ← settle active scope group now lease
    ok (decide m registered now r)
