-- ===== src/Concurrency/Gate/Laws.antt =====
-- What the answer of an attempt says of the Lease that it leaves.
use open_actions.Base.{
  ℕ, String, Bool, true, false, ◌≡◌, ◌≢◌, inl, inr, some, none, arith, eq_iff, Option-cases,
  Bool-cases, Option, refl, is_some, ◌&&◌, ap, ◌∙◌,
}
use open_actions.Base.Result.{ok, >>=-eq-ok}
use open_actions.Concurrency.Gate.{
  Activity, Round, GateState, acquired, waiting, superseded, GateResult, settle, enter, decide,
  gate, is_member,
}
use open_actions.Concurrency.Gate.Settle.{IsSettled, settle-IsSettled}
use open_actions.Concurrency.Lease.{Platform, IsFaithful, Lease, lease_holder, lease_pending}
use open_actions.Concurrency.Lease.Laws.{
  holder_text, name_of, holder_text-give_to, holder_text-set_pending, lease_pending-set_some,
}
use open_actions.Concurrency.Member.{Member, Scope, identity}
use open_actions.Concurrency.Member.Laws.{IsNamed}

module _ (p : Platform) where
  -- The Lease has somebody other than `m` as its holder.
  abbrev pub IsHeldByOther : Member → Lease → Type 0
  IsHeldByOther m lease = (i : String) × (holder_text lease ≡ some i) × (i ≢ identity m)

  -- What each answer to the member `m` means for the Lease.
  abbrev pub Means : GateState → Member → Bool → Lease → Type 0
  Means acquired m registered lease = holder_text lease ≡ some (identity m)
  Means waiting m registered lease =
      IsHeldByOther m lease
      × ((w : Member) × (lease_pending p lease ≡ ok (some w)) × (identity w ≡ identity m))
  Means superseded m registered lease =
      (registered ≡ true)
      × IsHeldByOther m lease
      × ((w : Member) × (lease_pending p lease ≡ ok (some w)) × (identity w ≢ identity m))

  is_member-some :
      (o : Option Member) (m : Member)
      → is_member o m ≡ true
      → (h : Member) × (o ≡ some h) × (identity h ≡ identity m)
  is_member-some none m e = cc
  is_member-some (some h) m e = (h, refl, (eq_iff (identity h) (identity m)).0 e)

  -- A member that is found is another one, unless the test says so.
  other_of_test :
      {o : Option Member} {h : Member} (m : Member)
      → o ≡ some h
      → is_member o m ≡ false
      → identity h ≢ identity m
  other_of_test {h} m taken e same = ground (arith, eq_iff (identity h) (identity m))

  module _ (active : Activity) (l : Lease) (m : Member) (registered : Bool) (now : ℕ) where
    enter-Means :
        (r : Round)
        → IsFaithful p
        → IsNamed m
        → IsSettled p active l r
        → is_member r.holder m ≡ false
        → Means (enter p m now r).0.state m registered (enter p m now r).1.lease
    unfolding enter
    enter-Means r f n s other = elim (Option-cases r.holder) [
      | inl free ↦ rw (free, enter) (holder_text-give_to m now r.lease)
      | inr (h, taken) ↦
          rw (taken, enter)
            (
              (
                identity h,
                holder_text-set_pending p (some m) r.lease ∙ (rw taken at s.held),
                other_of_test m taken other,
              ),
              (m, lease_pending-set_some p f m r.lease n, refl),
            )
    ]

    held_by_other :
        {r : Round} {h : Member}
        → IsSettled p active l r
        → r.holder ≡ some h
        → is_member r.holder m ≡ false
        → IsHeldByOther m r.lease
    held_by_other {r} {h} s taken other =
        (identity h, s.held ∙ ap name_of taken, other_of_test m taken other)

    decide-Means :
        (r : Round)
        → IsFaithful p
        → IsNamed m
        → IsSettled p active l r
        → Means
            (decide p m registered now r).0.state
            m
            registered
            (decide p m registered now r).1.lease
    unfolding decide
    decide-Means r f n s = elim (Bool-cases (is_member r.holder m)) [
      | inl own ↦
          let (h, taken, same) = is_member-some r.holder m own in
          rw own (s.held ∙ ap name_of taken ∙ ap some same)
      | inr other ↦ elim (Bool-cases (is_member r.pending m)) [
        | inl queued ↦
            let (w, q, same) = is_member-some r.pending m queued in
            elim (Option-cases r.holder) [
              | inl free ↦ absurd (ground (arith, s.behind free))
              | inr (h, taken) ↦
                  rw (other, queued) (held_by_other s taken other, (w, s.queued ∙ ap ok q, same))
            ]
        | inr absent ↦ elim (Bool-cases (registered && is_some r.holder && is_some r.pending)) [
          | inl full ↦ elim (Option-cases r.holder) [
            | inl free ↦ absurd (ground arith)
            | inr (h, taken) ↦ elim (Option-cases r.pending) [
              | inl empty ↦ absurd (ground arith)
              | inr (w, q) ↦
                  rw (other, absent, full)
                    (
                      ground arith,
                      held_by_other s taken other,
                      (w, s.queued ∙ ap ok q, other_of_test m q absent),
                    )
            ]
          ]
          | inr room ↦ rw (other, absent, room) (enter-Means r f n s other)
        ]
      ]
    ]

    -- The answer of an attempt that ends without an error is true of the Lease that it leaves.
    -- `acquired`: the Lease names the member as its holder. `waiting`: another holds it, and the
    -- member is the one that is pending. `superseded`: the member had registered, and others
    -- hold both places. The encoding of members reads back what it writes, and the member is one
    -- that the API server could name.
    pub gate-Means :
        (scope : Scope) (group : String) {res : GateResult} {r : Round}
        → IsFaithful p
        → IsNamed m
        → gate p active scope group m registered now l ≡ ok (res, r)
        → Means res.state m registered r.lease
    unfolding gate
    gate-Means scope group {res} {r} f n e =
        let (t, settled, last) = >>=-eq-ok (settle p active scope group now l) _ e in
        let same : decide p m registered now t ≡ (res, r) = cc in
        rw same at (decide-Means t f n (settle-IsSettled p active scope group now l settled).0)

    -- What an attempt does not change is what it read.
    pub gate_unchanged :
        (scope : Scope) (group : String) {res : GateResult} {r : Round}
        → gate p active scope group m registered now l ≡ ok (res, r)
        → r.changed ≡ false
        → r.lease ≡ l
    unfolding gate decide enter
    gate_unchanged scope group {res} {r} e same =
        let (t, settled, last) = >>=-eq-ok (settle p active scope group now l) _ e in
        let s = (settle-IsSettled p active scope group now l settled).0 in
        ground (arith, s.untouched)

    -- An attempt that ends without an error leaves the Lease to its holder if that is active,
    -- whoever asks.
    pub gate-holder :
        (scope : Scope) (group : String) {res : GateResult} {r : Round} {h : Member}
        → gate p active scope group m registered now l ≡ ok (res, r)
        → lease_holder l ≡ ok (some h)
        → active h ≡ ok true
        → holder_text r.lease ≡ some (identity h)
    unfolding gate decide enter
    gate-holder scope group {res} {r} {h} e holds alive =
        let (t, settled, last) = >>=-eq-ok (settle p active scope group now l) _ e in
        let s = (settle-IsSettled p active scope group now l settled).0 in
        let taken = s.kept h holds alive in
        ground (arith, s.held, taken, holder_text-set_pending p (some m) t.lease)

    decide-displaced :
        (r : Round) {w : Member}
        → (decide p m registered now r).0.displaced ≡ some w
        → ((decide p m registered now r).0.state ≡ waiting)
          × (registered ≡ false)
          × (r.pending ≡ some w)
          × (is_member r.pending m ≡ false)
    unfolding decide enter
    decide-displaced r {w} d = ground arith

    -- Where an attempt that ends without an error displaces a member, the answer is `waiting`,
    -- the member that asks had not registered, and the displaced one is another and still
    -- active.
    pub gate-displaced :
        (scope : Scope) (group : String) {res : GateResult} {r : Round} {w : Member}
        → gate p active scope group m registered now l ≡ ok (res, r)
        → res.displaced ≡ some w
        → (res.state ≡ waiting)
          × (registered ≡ false)
          × (active w ≡ ok true)
          × (identity w ≢ identity m)
    unfolding gate
    gate-displaced scope group {res} {r} {w} e d =
        let (t, settled, last) = >>=-eq-ok (settle p active scope group now l) _ e in
        let s = (settle-IsSettled p active scope group now l settled).0 in
        let same : decide p m registered now t ≡ (res, r) = cc in
        let (wait, new, queued, absent) =
          decide-displaced t (ap (λ (o : GateResult × Round). o.0.displaced) same ∙ d) in
        (rw same at wait, new, rw queued at s.pending_live, other_of_test m queued absent)
