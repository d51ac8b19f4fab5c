-- ===== src/Concurrency/Release/Laws.antt =====
-- What is left of a Lease once a member has released it.
use open_actions.Base.{
  ℕ, String, true, false, ◌≡◌, ◌≢◌, inl, inr, some, none, arith, eq_iff, Bool-cases, Option, refl,
  sym, ◌∙◌,
}
use open_actions.Base.Result.{Result, ok, Result-cases, >>=-eq-ok}
use open_actions.Concurrency.Gate.{Activity, is_member}
use open_actions.Concurrency.Lease.{
  Platform, Lease, lease_holder, lease_pending, set_pending, validate, give_to,
}
use open_actions.Concurrency.Lease.Laws.{
  holder_text, name_of, holder_text_of_lease_holder, holder_text-give_to, holder_text-set_pending,
  lease_pending-set_none,
}
use open_actions.Concurrency.Member.{Member, Scope, GateError, identity}
use open_actions.Concurrency.Release.{Release, nothing, put, remove, hand_over, leave, release}

-- The Lease that the API server has afterwards, if any.
abbrev pub outcome : Release → Lease → Option Lease
outcome nothing lease = some lease
outcome (put lease') lease = some lease'
outcome remove lease = none

module _ (p : Platform) (m : Member) where
  -- The Lease names `m` neither as its holder nor as its pending member.
  abbrev pub IsFreeOf : Option Lease → Type 0
  IsFreeOf none = Unit
  IsFreeOf (some lease) =
      (holder_text lease ≢ some (identity m))
      × ((w : Member) → lease_pending p lease ≡ ok (some w) → identity w ≢ identity m)

  not_held : (o : Option Member) → is_member o m ≡ false → name_of o ≢ some (identity m)
  not_held none e same = cc
  not_held (some h) e same = ground (arith, eq_iff (identity h) (identity m))

  not_queued :
      (o : Option Member)
      → is_member o m ≡ false
      → (w : Member) → ◌≡◌ {A = Result GateError (Option Member)} (ok o) (ok (some w))
      → identity w ≢ identity m
  not_queued none e w q same = cc
  not_queued (some h) e w q same = ground (arith, eq_iff (identity h) (identity m))

  other_of_name :
      (o : Option Member) {i : String} → name_of o ≡ some i → i ≢ identity m → is_member o m ≡ false
  other_of_name none named other = cc
  other_of_name (some h) named other = ground (arith, eq_iff (identity h) (identity m))

  module _ (active : Activity) (now : ℕ) where
    hand_over-IsFreeOf :
        (w : Option Member) (lease lease₀ : Lease) {step : Release}
        → is_member w m ≡ false
        → hand_over p active now w lease ≡ ok step
        → IsFreeOf (outcome step lease₀)
    unfolding hand_over
    hand_over-IsFreeOf none lease lease₀ {step} other e =
        let last : step ≡ remove = cc in rw last tt
    hand_over-IsFreeOf (some w) lease lease₀ {step} other e = elim (Result-cases (active w)) [
      | inl (x, refused) ↦ absurd (ground arith)
      | inr (false, gone) ↦ let last : step ≡ remove = ground arith in rw last tt
      | inr (true, alive) ↦
          let last : step ≡ put (set_pending p none (give_to w now lease)) = ground arith in
          rw last (
            λ q. not_held (some w) other (
                sym (
                  holder_text-set_pending p none (give_to w now lease)
                  ∙ holder_text-give_to w now lease)
                ∙ q),
            λ v q. absurd (ground (arith, lease_pending-set_none p (give_to w now lease))),
          )
    ]

    leave-IsFreeOf :
        (holder pending : Option Member) (lease : Lease) {step : Release}
        → holder_text lease ≡ name_of holder
        → lease_pending p lease ≡ ok pending
        → leave p active m now holder pending lease ≡ ok step
        → IsFreeOf (outcome step lease)
    unfolding leave
    leave-IsFreeOf holder pending lease {step} held queued e =
        elim (Bool-cases (is_member pending m)) [
          | inl waits ↦ elim (Bool-cases (is_member holder m)) [
            | inl holds ↦
                hand_over-IsFreeOf none (set_pending p none lease) lease {step = step} refl
                  (rw (waits, holds, leave) at e)
            | inr other ↦
                let last : step ≡ put (set_pending p none lease) = ground arith in
                rw last (
                  λ q.
                      not_held holder other (sym (holder_text-set_pending p none lease ∙ held) ∙ q),
                  λ v q. absurd (ground (arith, lease_pending-set_none p lease)),
                )
          ]
          | inr absent ↦ elim (Bool-cases (is_member holder m)) [
            | inl holds ↦
                hand_over-IsFreeOf pending lease lease {step = step} absent
                  (rw (absent, holds, leave) at e)
            | inr other ↦
                let last : step ≡ nothing = ground arith in
                rw last (
                  λ q. not_held holder other (sym held ∙ q),
                  λ v q. not_queued pending absent v (sym queued ∙ q),
                )
          ]
        ]

    -- After a release that ends without an error the Lease is gone, or it names the member
    -- neither as its holder nor as its pending member.
    pub release-IsFreeOf :
        (scope : Scope) (group : String) (lease : Lease) {step : Release}
        → release p active scope group m now lease ≡ ok step
        → IsFreeOf (outcome step lease)
    unfolding release
    release-IsFreeOf scope group lease {step} e =
        let (_, valid, e₁) = >>=-eq-ok (validate p lease scope group) _ e in
        let (holder, h, e₂) = >>=-eq-ok (lease_holder lease) _ e₁ in
        let (pending, w, e₃) = >>=-eq-ok (lease_pending p lease) _ e₂ in
        leave-IsFreeOf holder pending lease (holder_text_of_lease_holder lease holder h) w e₃

    leave-holder :
        (holder pending : Option Member) (lease : Lease) {step : Release} {i : String}
        → leave p active m now holder pending lease ≡ ok step
        → holder_text lease ≡ some i
        → is_member holder m ≡ false
        → (lease' : Lease) × (outcome step lease ≡ some lease') × (holder_text lease' ≡ some i)
    unfolding leave
    leave-holder holder pending lease {step} e held other =
        elim (Bool-cases (is_member pending m)) [
          | inl waits ↦
              let last : step ≡ put (set_pending p none lease) = ground arith in
              rw last (set_pending p none lease, refl, holder_text-set_pending p none lease ∙ held)
          | inr absent ↦ let last : step ≡ nothing = ground arith in rw last (lease, refl, held)
        ]

    -- A release that ends without an error, by a member that is not the holder, leaves the Lease
    -- to its holder.
    pub release-holder :
        (scope : Scope) (group : String) (lease : Lease) {step : Release} (i : String)
        → release p active scope group m now lease ≡ ok step
        → holder_text lease ≡ some i
        → i ≢ identity m
        → (lease' : Lease) × (outcome step lease ≡ some lease') × (holder_text lease' ≡ some i)
    unfolding release
    release-holder scope group lease {step} i e held other =
        let (_, valid, e₁) = >>=-eq-ok (validate p lease scope group) _ e in
        let (holder, h, e₂) = >>=-eq-ok (lease_holder lease) _ e₁ in
        let (pending, w, e₃) = >>=-eq-ok (lease_pending p lease) _ e₂ in
        let named : name_of holder ≡ some i =
          sym (holder_text_of_lease_holder lease holder h) ∙ held in
        leave-holder holder pending lease e₃ held (other_of_name holder named other)
