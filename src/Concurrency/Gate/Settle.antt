-- ===== src/Concurrency/Gate/Settle.antt =====
-- What an attempt knows once the inactive members are gone.
use open_actions.Base.{
  ℕ, String, true, false, ◌≡◌, ◌⊎◌, inl, inr, some, none, arith, Option-cases, Option, refl, ◌∙◌,
}
use open_actions.Base.Result.{ok, Result-cases, >>=-eq-ok}
use open_actions.Concurrency.Gate.{
  Activity, Round, check_holder, check_pending, promote, settle, drop_holder, drop_pending,
}
use open_actions.Concurrency.Lease.{Platform, Lease, lease_holder, lease_pending, validate, give_to}
use open_actions.Concurrency.Lease.Laws.{
  holder_text, name_of, holder_text_of_lease_holder, holder_text-give_to, holder_text-set_pending,
  lease_pending-set_none,
}
use open_actions.Concurrency.Member.{Member, Scope}

module _ (p : Platform) (active : Activity) where
  -- The variables of an attempt agree with the Lease in hand, and who is in them is active.
  pub record IsSettling (lease : Lease) (r : Round) : Type 0 where
    pub held : holder_text r.lease ≡ name_of r.holder
    pub queued : lease_pending p r.lease ≡ ok r.pending
    pub untouched : r.changed ≡ false → r.lease ≡ lease
    pub kept :
        (h : Member) → lease_holder lease ≡ ok (some h) → active h ≡ ok true → r.holder ≡ some h

  abbrev pub IsLive : Option Member → Type 0
  IsLive none = Unit
  IsLive (some m) = active m ≡ ok true

  lease_pending-drop :
      (l : Lease) → lease_pending p (record l { holder_identity = none }) ≡ lease_pending p l
  unfolding lease_pending
  lease_pending-drop l = refl

  check_holder-cases :
      (r r' : Round)
      → check_holder active r ≡ ok r'
      → ((r' ≡ r) × IsLive r.holder)
        ⊎ ((h : Member) × (r.holder ≡ some h) × (active h ≡ ok false) × (r' ≡ drop_holder r))
  unfolding check_holder
  check_holder-cases r r' e = elim (Option-cases r.holder) [
    | inl free ↦ inl (ground arith, rw free tt)
    | inr (h, taken) ↦ elim (Result-cases (active h)) [
      | inl (x, refused) ↦ absurd (ground arith)
      | inr (true, alive) ↦ inl (ground arith, rw taken alive)
      | inr (false, gone) ↦ inr (h, taken, gone, ground arith)
    ]
  ]

  check_pending-cases :
      (r r' : Round)
      → check_pending p active r ≡ ok r'
      → ((r' ≡ r) × IsLive r.pending)
        ⊎ ((w : Member) × (r.pending ≡ some w) × (active w ≡ ok false) × (r' ≡ drop_pending p r))
  unfolding check_pending
  check_pending-cases r r' e = elim (Option-cases r.pending) [
    | inl free ↦ inl (ground arith, rw free tt)
    | inr (w, taken) ↦ elim (Result-cases (active w)) [
      | inl (x, refused) ↦ absurd (ground arith)
      | inr (true, alive) ↦ inl (ground arith, rw taken alive)
      | inr (false, gone) ↦ inr (w, taken, gone, ground arith)
    ]
  ]

  check_holder-IsSettling :
      (l : Lease) (r r' : Round)
      → IsSettling l r
      → check_holder active r ≡ ok r'
      → IsSettling l r' × IsLive r'.holder × (r'.pending ≡ r.pending)
  check_holder-IsSettling l r r' s e = elim (check_holder-cases r r' e) [
    | inl (same, live) ↦ rw same (s, live, refl)
    | inr (h, taken, gone, dropped) ↦ rw dropped (
      record {
        held = refl;
        queued = lease_pending-drop r.lease ∙ s.queued;
        untouched = λ q. cc;
        kept = λ h' q a. ground (arith, s.kept h' q a);
      },
      tt,
      refl,
    )
  ]

  check_pending-IsSettling :
      (l : Lease) (r r' : Round)
      → IsSettling l r
      → check_pending p active r ≡ ok r'
      → IsSettling l r' × IsLive r'.pending × (r'.holder ≡ r.holder)
  check_pending-IsSettling l r r' s e = elim (check_pending-cases r r' e) [
    | inl (same, live) ↦ rw same (s, live, refl)
    | inr (w, taken, gone, dropped) ↦ rw dropped (
      record {
        held = holder_text-set_pending p none r.lease ∙ s.held;
        queued = lease_pending-set_none p r.lease;
        untouched = λ q. cc;
        kept = s.kept;
      },
      tt,
      refl,
    )
  ]

  -- A member waits only behind another.
  pub record IsSettled (lease : Lease) (r : Round) : Type 0 where
    pub settling : IsSettling lease r
    pub open settling use *
    pub holder_live : IsLive r.holder
    pub pending_live : IsLive r.pending
    pub behind : r.holder ≡ none → r.pending ≡ none

  promote-IsSettled :
      (l : Lease) (r : Round) (now : ℕ)
      → IsSettling l r
      → IsLive r.holder
      → IsLive r.pending
      → IsSettled l (promote p now r)
  unfolding promote
  promote-IsSettled l r now s hl pl = elim (Option-cases r.holder) [
    | inr (h, taken) ↦
        rw (taken, promote)
          (record { settling = s; holder_live = hl; pending_live = pl; behind = λ e. ground arith })
    | inl free ↦ elim (Option-cases r.pending) [
      | inl empty ↦
          rw (free, empty, promote)
            (record { settling = s; holder_live = hl; pending_live = pl; behind = λ e. empty })
      | inr (w, queued) ↦
          rw (free, queued, promote)
            (record {
              settling = record {
                held =
                    holder_text-set_pending p none (give_to w now r.lease)
                    ∙ holder_text-give_to w now r.lease;
                queued = lease_pending-set_none p (give_to w now r.lease);
                untouched = λ q. cc;
                kept = λ h q a. ground (arith, s.kept h q a);
              };
              holder_live = rw queued at pl;
              pending_live = tt;
              behind = λ e. cc;
            })
    ]
  ]

  pub settle-IsSettled :
      (scope : Scope) (group : String) (now : ℕ) (l : Lease) {r : Round}
      → settle p active scope group now l ≡ ok r
      → IsSettled l r × (validate p l scope group ≡ ok tt)
  unfolding settle
  settle-IsSettled scope group now l {r} e =
      let (_, valid, e₁) = >>=-eq-ok (validate p l scope group) _ e in
      let (holder, h, e₂) = >>=-eq-ok (lease_holder l) _ e₁ in
      let (pending, w, e₃) = >>=-eq-ok (lease_pending p l) _ e₂ in
      let start : Round = record {
        holder = holder;
        pending = pending;
        lease = l;
        changed = false;
      } in
      let (held, c, e₄) = >>=-eq-ok (check_holder active start) _ e₃ in
      let (live, d, e₅) = >>=-eq-ok (check_pending p active held) _ e₄ in
      let begun : IsSettling l start = record {
        held = holder_text_of_lease_holder l holder h;
        queued = w;
        untouched = λ q. refl;
        kept = λ h' q a. cc;
      } in
      let (s, sl, _) = check_holder-IsSettling l start held begun c in
      let (t, tl, same) = check_pending-IsSettling l held live s d in
      let last : promote p now live ≡ r = cc in
      (rw last at (promote-IsSettled l live now t (rw (← same) at sl) tl), valid)
