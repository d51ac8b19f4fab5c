-- ===== src/Concurrency/Member/Laws.antt =====
-- Identities: what is printed is parsed again.
use Prim.Native.Char.{Char}
use text.Mathlib.TextLemmas.{nil-append, cons-append, append-ne-nil_of_right_ne-nil, cons-ne-nil}
use open_actions.Base.{
  String, false, ◌≡◌, ◌≢◌, ◌⊎◌, inl, inr, some, arith, eq_iff, Option-cases, ap, ◌∙◌,
}
use open_actions.Base.Text.{◌⧺◌, cut, cut-append, append-cut, Lacks}
use open_actions.Base.Result.{ok}
use open_actions.Concurrency.Member.{Member, identity, split_three, parse_identity}

-- A member as the API server names one: its name holds no colon.
pub record IsNamed (m : Member) : Type 0 where
  pub kind : (m.kind ≡ "WorkflowRun") ⊎ (m.kind ≡ "WorkflowJob")
  pub name_some : m.name ≢ ""
  pub name_plain : Lacks b':' m.name
  pub uid_some : m.uid ≢ ""

abbrev colon : Char
colon = ":"

-- An identity, with its colons as characters.
abbrev joined : String → String → String → String
joined kind name uid = kind ⧺ (String.◌∷◌ colon (name ⧺ (String.◌∷◌ colon uid)))

colon-append : (s : String) → ":" ⧺ s ≡ String.◌∷◌ colon s
colon-append s = cons-append colon "" s ∙ ap (String.◌∷◌ colon) (nil-append s)

identity-joined : (m : Member) → identity m ≡ joined m.kind m.name m.uid
unfolding identity
identity-joined m = simp colon-append

kind_plain : {kind : String} → (kind ≡ "WorkflowRun") ⊎ (kind ≡ "WorkflowJob") → Lacks b':' kind
kind_plain (inl e) = rw e (omega arith)
kind_plain (inr e) = rw e (omega arith)

pub kind_some : {kind : String} → (kind ≡ "WorkflowRun") ⊎ (kind ≡ "WorkflowJob") → kind ≢ ""
kind_some (inl e) = rw e (cons-ne-nil _ _)
kind_some (inr e) = rw e (cons-ne-nil _ _)

split_three-joined :
    (kind name uid : String)
    → Lacks b':' kind
    → Lacks b':' name
    → split_three (joined kind name uid) ≡ some (kind, name, uid)
unfolding split_three
split_three-joined kind name uid hk hn =
    ground (
      arith,
      cut-append colon kind (name ⧺ (String.◌∷◌ colon uid)) hk,
      cut-append colon name uid hn,
    )

-- What is split can be joined again.
joined-split_three :
    (value kind name uid : String)
    → split_three value ≡ some (kind, name, uid)
    → joined kind name uid ≡ value
unfolding split_three
joined-split_three value kind name uid e = elim (Option-cases (cut b':' value)) [
  | inl missing ↦ ground arith
  | inr ((a, rest), first) ↦ elim (Option-cases (cut b':' rest)) [
    | inl missing ↦ ground arith
    | inr ((b, c), second) ↦
        ground (arith, append-cut colon value a rest first, append-cut colon rest b c second)
  ]
]

-- The identity of a member reads back as the member, without its choice on cancellation: for a
-- member that the API server could name, whose name holds no colon.
pub parse_identity-identity :
    (m : Member)
    → IsNamed m
    → parse_identity (identity m) ≡ ok (record m { cancel_in_progress = false })
unfolding parse_identity
parse_identity-identity m h =
    rw (identity-joined m, split_three-joined m.kind m.name m.uid (kind_plain h.kind) h.name_plain)
      (ground (
        arith,
        kind_some h.kind,
        eq_iff m.kind "",
        eq_iff m.name "",
        eq_iff m.uid "",
        eq_iff m.kind "WorkflowRun",
        eq_iff m.kind "WorkflowJob",
      ))

-- What reads as a member is the identity of that member.
pub identity-parse_identity :
    (value : String) (m : Member) → parse_identity value ≡ ok m → identity m ≡ value
unfolding parse_identity
identity-parse_identity value m e = elim (Option-cases (split_three value)) [
  | inl missing ↦ ground arith
  | inr ((kind, name, uid), parts) ↦
      ground (arith, joined-split_three value kind name uid parts, identity-joined m)
]

pub identity-ne : (m : Member) → identity m ≢ ""
identity-ne m = rw (identity-joined m) (append-ne-nil_of_right_ne-nil m.kind (cons-ne-nil colon _))
