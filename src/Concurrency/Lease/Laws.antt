-- ===== src/Concurrency/Lease/Laws.antt =====
-- A Lease and what it says: reading back what was written.
use open_actions.Base.{
  ℕ, String, ◌≡◌, inl, inr, some, none, arith, eq_iff, ◌==◌, Option-cases, Bool-cases, Option, refl,
  if◌then◌else◌,
}
use open_actions.Base.Dict.{get-insert, get-delete}
use open_actions.Base.Result.{ok, Result-cases}
use open_actions.Concurrency.Lease.{
  Platform, IsFaithful, Lease, pending_annotation, lease_holder, lease_pending, set_pending,
  validate, give_to,
}
use open_actions.Concurrency.Member.{Member, Scope, identity, parse_identity}
use open_actions.Concurrency.Member.Laws.{IsNamed, identity-parse_identity, identity-ne}

-- Whom a Lease names as its holder; an empty name is none.
abbrev pub holder_text : Lease → Option String
holder_text lease = elim lease.holder_identity [
  | none ↦ none
  | some value ↦ if value == "" then none else some value
]

abbrev pub name_of : Option Member → Option String
name_of none = none
name_of (some m) = some (identity m)

pub holder_text_of_lease_holder :
    (lease : Lease) (holder : Option Member)
    → lease_holder lease ≡ ok holder
    → holder_text lease ≡ name_of holder
unfolding lease_holder
holder_text_of_lease_holder lease holder e = elim (Option-cases lease.holder_identity) [
  | inl empty ↦ ground arith
  | inr (value, named) ↦ elim (Bool-cases (value == "")) [
    | inl blank ↦ ground arith
    | inr full ↦ elim (Result-cases (parse_identity value)) [
      | inl (x, refused) ↦ ground arith
      | inr (m, parsed) ↦ ground (arith, identity-parse_identity value m parsed)
    ]
  ]
]

pub holder_text-give_to :
    (m : Member) (now : ℕ) (lease : Lease) → holder_text (give_to m now lease) ≡ some (identity m)
unfolding give_to
holder_text-give_to m now lease = ground (arith, eq_iff (identity m) "", identity-ne m)

module _ (p : Platform) where
  pub lease_pending-give_to :
      (m : Member) (now : ℕ) (lease : Lease)
      → lease_pending p (give_to m now lease) ≡ lease_pending p lease
  unfolding give_to lease_pending
  lease_pending-give_to m now lease = refl

  pub holder_text-set_pending :
      (w : Option Member) (lease : Lease) → holder_text (set_pending p w lease) ≡ holder_text lease
  unfolding set_pending
  holder_text-set_pending none lease = refl
  holder_text-set_pending (some w) lease = refl

  pub lease_pending-set_none :
      (lease : Lease) → lease_pending p (set_pending p none lease) ≡ ok none
  unfolding lease_pending set_pending
  lease_pending-set_none lease =
      rw (get-delete pending_annotation pending_annotation lease.annotations)

  pub lease_pending-set_some :
      IsFaithful p
      → (m : Member) (lease : Lease) → IsNamed m
      → lease_pending p (set_pending p (some m) lease) ≡ ok (some m)
  unfolding lease_pending set_pending
  lease_pending-set_some f m lease h = ground (
    arith,
    get-insert pending_annotation pending_annotation (p.encode m) lease.annotations,
    f.encode-ne m,
    f.decode-encode m,
    eq_iff (p.encode m) "",
    eq_iff m.name "",
    eq_iff m.uid "",
    h.name_some,
    h.uid_some,
    eq_iff m.kind "WorkflowRun",
    eq_iff m.kind "WorkflowJob",
  )

  -- The pending annotation is none of those that a Lease is checked by.
  pub validate-set_pending :
      (w : Option Member) (lease : Lease) (scope : Scope) (group : String)
      → validate p (set_pending p w lease) scope group ≡ validate p lease scope group
  unfolding validate set_pending
  validate-set_pending none lease scope group = simp (get-delete)
  validate-set_pending (some w) lease scope group = simp (get-insert)
