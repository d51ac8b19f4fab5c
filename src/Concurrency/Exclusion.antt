-- ===== src/Concurrency/Exclusion.antt =====
-- Mutual exclusion: however attempts, releases, creations and ends interleave, the members that
-- were let in and still run are one. The API server refuses a write whose base has changed since
-- it was read, so that an attempt that writes is one step.
use open_actions.Base.{
  ℕ, String, Bool, true, false, not, ◌≡◌, ◌⊎◌, inl, inr, some, none, arith, ◌==◌, eq_iff,
  Option-cases, Bool-cases, Option, refl, ap, sym, ◌∙◌, ◌||◌, ◌&&◌, some,
}
use open_actions.Base.Result.{ok, Result-cases, >>=-eq-ok}
use open_actions.Concurrency.Gate.{
  Activity, Round, GateState, acquired, GateResult, settle, check_holder, gate,
}
use open_actions.Concurrency.Gate.Laws.{gate-Means, gate-holder}
use open_actions.Concurrency.Lease.{
  Platform, IsFaithful, Lease, lease_holder, lease_pending, validate,
}
use open_actions.Concurrency.Lease.Laws.{holder_text, name_of, holder_text_of_lease_holder}
use open_actions.Concurrency.Member.{Member, Scope, identity}
use open_actions.Concurrency.Member.Laws.{IsNamed}
use open_actions.Concurrency.Release.{Release, release}
use open_actions.Concurrency.Release.Laws.{outcome, release-holder}

-- The Lease of a group, which identities still run, and which have been let in.
pub record System : Type 0 where
  pub lease : Option Lease
  pub alive : String → Bool
  pub granted : String → Bool

abbrev is_acquired : GateState → Bool
is_acquired acquired = true
is_acquired _ = false

acquired_of_test : (g : GateState) → is_acquired g ≡ true → g ≡ acquired
acquired_of_test acquired e = refl
acquired_of_test _ e = cc

-- A member that was seen to be inactive is not alive.
abbrev pub IsSound : Activity → (String → Bool) → Type 0
IsSound active alive = (h : Member) → active h ≡ ok false → alive (identity h) ≡ false

module _ (p : Platform) (scope : Scope) (group : String) where
  pub data Step (s : System) : System → Type 0 where
    attempt :
        (active : Activity) (m : Member) (registered : Bool) (now : ℕ) (l : Lease)
        (res : GateResult) (r : Round)
        → IsNamed m
        → IsSound active s.alive
        → s.lease ≡ some l
        → gate p active scope group m registered now l ≡ ok (res, r)
        → Step s (record s {
          lease = some r.lease;
          granted = λ i. s.granted i || is_acquired res.state && i == identity m;
        })
    create : (l : Lease) → s.lease ≡ none → Step s (record s { lease = some l })
    leave :
        (active : Activity) (m : Member) (now : ℕ) (l : Lease) (step : Release)
        → s.lease ≡ some l
        → release p active scope group m now l ≡ ok step
        → Step s (record s {
          lease = outcome step l;
          granted = λ i. s.granted i && not (i == identity m);
        })
    stop : (j : String) → Step s (record s { alive = λ i. s.alive i && not (i == j) })

  pub data Reach (s : System) : System → Type 0 where
    here : Reach s s
    next : {t u : System} → Reach s t → Step t u → Reach s u

-- Who was let in and still runs is the holder of the Lease.
abbrev pub IsSafe : System → Type 0
IsSafe s =
    (i : String)
    → s.granted i ≡ true
    → s.alive i ≡ true
    → (l : Lease) × (s.lease ≡ some l) × (holder_text l ≡ some i)

module _ (p : Platform) (active : Activity) where
  holder_reads :
      (r : Round) {r' : Round} {i : String}
      → check_holder active r ≡ ok r'
      → name_of r.holder ≡ some i
      → (h : Member) × (r.holder ≡ some h)
        × (identity h ≡ i)
        × ((active h ≡ ok true) ⊎ (active h ≡ ok false))
  unfolding check_holder
  holder_reads r e named = elim (Option-cases r.holder) [
    | inl free ↦ absurd (ground arith)
    | inr (h, taken) ↦ elim (Result-cases (active h)) [
      | inl (x, refused) ↦ absurd (ground arith)
      | inr (true, yes_alive) ↦ (h, taken, ground arith, inl yes_alive)
      | inr (false, not_alive) ↦ (h, taken, ground arith, inr not_alive)
    ]
  ]

  -- An attempt that succeeds has read a holder that is there, and knows whether it is active.
  gate_reads :
      (scope : Scope) (group : String) (m : Member) (registered : Bool) (now : ℕ) (l : Lease)
      {out : GateResult × Round} {i : String}
      → gate p active scope group m registered now l ≡ ok out
      → holder_text l ≡ some i
      → (h : Member) × (lease_holder l ≡ ok (some h))
        × (identity h ≡ i)
        × ((active h ≡ ok true) ⊎ (active h ≡ ok false))
  unfolding gate settle check_holder
  gate_reads scope group m registered now l {i} e held =
      let (t, settled, _) = >>=-eq-ok (settle p active scope group now l) _ e in
      let (_, valid, e₁) = >>=-eq-ok (validate p l scope group) _ settled in
      let (holder, h, e₂) = >>=-eq-ok (lease_holder l) _ e₁ in
      let (pending, w, e₃) = >>=-eq-ok (lease_pending p l) _ e₂ in
      let start : Round = record {
        holder = holder;
        pending = pending;
        lease = l;
        changed = false;
      } in
      let (first, c, _) = >>=-eq-ok (check_holder active start) _ e₃ in
      let named : name_of holder ≡ some i = sym (holder_text_of_lease_holder l holder h) ∙ held in
      let (m', taken, same, known) = holder_reads start c named in
      (m', h ∙ ap ok taken, same, known)

  -- A holder that is alive keeps the Lease through an attempt.
  gate-alive :
      (scope : Scope) (group : String) (m : Member) (registered : Bool) (now : ℕ) (l : Lease)
      (alive : String → Bool) {res : GateResult} {r : Round} {i : String}
      → IsSound active alive
      → gate p active scope group m registered now l ≡ ok (res, r)
      → holder_text l ≡ some i
      → alive i ≡ true
      → holder_text r.lease ≡ some i
  gate-alive scope group m registered now l alive {res} {r} {i} sound e held lives =
      let (h, reads, same, known) = gate_reads scope group m registered now l e held in
      elim known [
        | inl running ↦
            gate-holder p active l m registered now scope group e reads running ∙ ap some same
        | inr gone ↦ let dead : alive i ≡ false = ap alive (sym same) ∙ sound h gone in absurd (cc)
      ]

module _ (p : Platform) (scope : Scope) (group : String) where
  Step-IsSafe : {s t : System} → IsFaithful p → Step p scope group s t → IsSafe s → IsSafe t
  Step-IsSafe {s} f (attempt active m registered now l res r n sound has e) safe = λ i given lives.
      elim (Bool-cases (s.granted i)) [
        | inl before ↦
            let (l', at, held) = safe i before lives in
            let same : l' ≡ l = cc in
            (
              r.lease,
              refl,
              gate-alive p active scope group m registered now l s.alive sound e (rw same at held)
                  lives,
            )
        | inr fresh ↦
            let entered : res.state ≡ acquired = acquired_of_test res.state (ground arith) in
            let own : i ≡ identity m = (eq_iff i (identity m)).0 (ground arith) in
            let means = gate-Means p active l m registered now scope group f n e in
            (r.lease, refl, (rw entered at means) ∙ ap some (sym own))
      ]
  Step-IsSafe {s} f (create l gone) safe =
      λ i given lives. let (l', at, held) = safe i given lives in absurd (cc)
  Step-IsSafe {s} f (leave active m now l step has e) safe = λ i given lives.
      let (l', at, held) = safe i (ground arith) lives in
      let same : l' ≡ l = cc in
      release-holder p m active now scope group l i e (rw same at held)
        (λ q. ground (arith, eq_iff i (identity m)))
  Step-IsSafe {s} f (stop j) safe = λ i given lives. safe i given (ground arith)

  pub Reach-IsSafe : {s t : System} → IsFaithful p → IsSafe s → Reach p scope group s t → IsSafe t
  Reach-IsSafe f safe here = safe
  Reach-IsSafe f safe (next r st) = Step-IsSafe f st (Reach-IsSafe f safe r)

  -- Two identities that were let into the group and still run are the same one, after any
  -- sequence of attempts, releases, creations of the Lease and ends, from a system in which none
  -- was let in. The encoding of members reads back what it writes; each attempt is by a member
  -- that the API server could name, and its test of activity calls no member inactive that still
  -- runs.
  pub exclusion :
      {s t : System} (i j : String)
      → IsFaithful p
      → ((k : String) → s.granted k ≡ false)
      → Reach p scope group s t
      → t.granted i ≡ true
      → t.alive i ≡ true
      → t.granted j ≡ true
      → t.alive j ≡ true
      → i ≡ j
  exclusion {s} i j f fresh r gi ai gj aj =
      let safe = Reach-IsSafe f (λ k g a. absurd (ground (arith, fresh k))) r in
      let (l, at, held) = safe i gi ai in let (l', at', held') = safe j gj aj in ground arith
