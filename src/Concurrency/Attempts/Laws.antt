-- ===== src/Concurrency/Attempts/Laws.antt =====
-- What a loop of attempts returns, and when it gives up.
use open_actions.Api.{WorkflowRun}
use open_actions.Base.{
  ℕ, zero, suc, ◌+◌, ◌<◌, String, Bool, true, false, List, ◌≡◌, ◌⊎◌, inl, inr, arith, refl,
  Bool-cases,
}
use open_actions.Base.Result.{Result, ok, err}
use open_actions.Concurrency.Activity.{Read, found, missing, failed}
use open_actions.Concurrency.Attempts.{
  Turn, Request, no_request, update_request, Outcome, stop, again, Written, written, conflict, gone,
  already_exists, after_update, after_gate, acquire_attempt, attempts, acquire_concurrency,
}
use open_actions.Concurrency.Gate.{Round, GateResult, gate}
use open_actions.Concurrency.Gate.Laws.{Means, gate-Means, gate_unchanged}
use open_actions.Concurrency.Lease.{Platform, IsFaithful, Lease}
use open_actions.Concurrency.Member.{Member, Scope, GateError, changed_too_frequently}
use open_actions.Concurrency.Member.Laws.{IsNamed}

Outcome-cases {ℓ} :
    {A : Type ℓ} (o : Outcome A) → (o ≡ again) ⊎ ((r : Result GateError A) × (o ≡ stop r))
Outcome-cases again = inl refl
Outcome-cases (stop r) = inr (r, refl)

module _ {A : Type 0} (body : Turn → Request × Outcome A) (turns : ℕ → Turn) where
  -- A result comes from the first attempt that does not ask for another.
  attempts-eq-ok :
      (n i : ℕ) {a : A}
      → attempts body turns n i ≡ ok a
      → (k : ℕ) × (k < i + n) × ((body (turns k)).1 ≡ stop (ok a))
  unfolding attempts
  attempts-eq-ok zero i e = absurd (cc)
  attempts-eq-ok (suc n) i {a} e = elim (Outcome-cases (body (turns i)).1) [
    | inr (r, done) ↦ let same : r ≡ ok a = ground arith in (i, omega arith, ground arith)
    | inl retry ↦
        let (k, lt, last) = attempts-eq-ok n (suc i) (rw (retry, attempts) at e) in
        (k, omega arith, last)
  ]

  -- Attempts that all ask for another end in an error.
  attempts-again :
      (n i : ℕ)
      → ((k : ℕ) → k < i + n → (body (turns k)).1 ≡ again)
      → attempts body turns n i ≡ err changed_too_frequently
  unfolding attempts
  attempts-again zero i h = refl
  attempts-again (suc n) i h =
      rw (h i (omega arith), attempts) (attempts-again n (suc i) (λ k lt. h k (omega arith)))

update_written :
    {A : Type 0} {a b : A} (w : Written) → after_update a w ≡ stop (ok b) → (a ≡ b) × (w ≡ written)
update_written w e = ground arith

-- What the end of an attempt sends and meets: nothing, if the Lease needs no change, or the Lease of
-- the round as an update, which the API server takes.
abbrev pub Sends : Request → Written → Lease → Round → Type 0
Sends q w l r =
    ((q ≡ no_request) × ((r.lease ≡ l) × (r.changed ≡ false)))
    ⊎ ((q ≡ update_request r.lease) × ((w ≡ written) × (r.changed ≡ true)))

after_gate-eq-ok :
    (w : Written) (l : Lease) (o : Result GateError (GateResult × Round)) {res : GateResult}
    → ((r : Round) → o ≡ ok (res, r) → r.changed ≡ false → r.lease ≡ l)
    → (after_gate w o).1 ≡ stop (ok res)
    → (r : Round) × (o ≡ ok (res, r)) × Sends (after_gate w o).0 w l r
after_gate-eq-ok w l (err x) kept e = absurd (cc)
after_gate-eq-ok w l (ok (given, r)) {res} kept e = elim (Bool-cases r.changed) [
  | inl changed ↦
      let (same, done) = update_written w (rw changed at e) in
      (r, rw same refl, inr (rw changed refl, (done, changed)))
  | inr still ↦
      let same : given ≡ res = ground (arith, still, e) in
      (r, rw same refl, inl (rw still refl, (kept r (rw same refl) still, still)))
]

Read-cases {ℓ} :
    {A : Type ℓ} (o : Read A) → ((a : A) × (o ≡ found a)) ⊎ ((o ≡ missing) ⊎ (o ≡ failed))
Read-cases (found a) = inl (a, refl)
Read-cases missing = inr (inl refl)
Read-cases failed = inr (inr refl)

module _ (p : Platform) (scope : Scope) (group : String) (m : Member) (registered : Bool) where
  -- What the attempt sends.
  abbrev pub sent : Turn → Request
  sent t = (acquire_attempt p scope group m registered t).0

  abbrev pub gate_at : Turn → Lease → Result GateError (GateResult × Round)
  gate_at t l = gate p t.active scope group m registered t.now l

  acquire_attempt-eq-ok :
      (t : Turn) {res : GateResult}
      → (acquire_attempt p scope group m registered t).1 ≡ stop (ok res)
      → (l : Lease) × (r : Round) × (t.lease ≡ found l)
        × (gate_at t l ≡ ok (res, r))
        × Sends (sent t) t.write l r
  unfolding acquire_attempt
  acquire_attempt-eq-ok t {res} e = elim (Read-cases t.lease) [
    | inl (l, read) ↦
        let (r, done, ends) =
          after_gate-eq-ok t.write l (gate_at t l)
            (λ r done same. gate_unchanged p t.active l m registered t.now scope group done same)
            (rw read at e) in
        (l, r, read, done, rw read ends)
    | inr (inl absent) ↦ absurd (ground arith)
    | inr (inr broken) ↦ absurd (ground arith)
  ]

  -- If acquireConcurrency answers, one of its five attempts read a Lease, on which the gate gives this
  -- answer, and the answer is true of the Lease that the gate leaves. That one is the Lease as it was
  -- read, and the attempt sent nothing, or the gate changed it and the attempt sent it as an update that
  -- the API server took. The encoding of members reads back what it writes, and the member is one that the API
  -- server could name.
  pub acquire_concurrency-Means :
      (turns : ℕ → Turn) {res : GateResult}
      → IsFaithful p
      → IsNamed m
      → acquire_concurrency p scope group m registered turns ≡ ok res
      → (k : ℕ) × (k < 5)
        × ((l : Lease) × (r : Round) × ((turns k).lease ≡ found l)
            × (gate_at (turns k) l ≡ ok (res, r))
            × (Means p res.state m registered r.lease × Sends (sent (turns k)) (turns k).write l r))
  unfolding acquire_concurrency
  acquire_concurrency-Means turns {res} f n e =
      let (k, lt, last) = attempts-eq-ok (acquire_attempt p scope group m registered) turns 5 0 e in
      let (l, r, read, done, ends) = acquire_attempt-eq-ok (turns k) last in
      let active = (turns k).active in
      let means = gate-Means p active l m registered (turns k).now scope group f n done in
      (k, lt, (l, r, read, done, (means, ends)))

  -- Another writer came first: a Lease was missing and was made meanwhile, or had been made by the
  -- attempt itself, or the Lease that was read needed a change and was changed or removed meanwhile.
  abbrev pub IsForestalled : Turn → Type 0
  IsForestalled t =
      ((runs : List WorkflowRun) × (t.lease ≡ missing)
        × (t.runs ≡ ok runs)
        × ((t.write ≡ already_exists) ⊎ (t.write ≡ written)))
      ⊎ ((l : Lease) × (res : GateResult) × (r : Round) × (t.lease ≡ found l)
          × (gate_at t l ≡ ok (res, r))
          × (r.changed ≡ true)
          × ((t.write ≡ conflict) ⊎ (t.write ≡ gone)))

  forestalled-again :
      (t : Turn) → IsForestalled t → (acquire_attempt p scope group m registered t).1 ≡ again
  unfolding acquire_attempt
  forestalled-again t (inl (runs, absent, listed, inl other)) = rw (absent, listed, other) refl
  forestalled-again t (inl (runs, absent, listed, inr made)) = rw (absent, listed, made) refl
  forestalled-again t (inr (l, res, r, read, done, changed, inl other)) =
      rw (read, done, changed, other) refl
  forestalled-again t (inr (l, res, r, read, done, changed, inr removed)) =
      rw (read, done, changed, removed) refl

  -- If in each of the five attempts the API server says that the Lease has to be read again, that is
  -- the Lease was missing and it was created or exists already, or the Lease needed a change and the
  -- update met a conflict or found it gone, acquireConcurrency ends in an error, without an answer.
  pub acquire_concurrency-conflict :
      (turns : ℕ → Turn)
      → ((k : ℕ) → k < 5 → IsForestalled (turns k))
      → acquire_concurrency p scope group m registered turns ≡ err changed_too_frequently
  unfolding acquire_concurrency
  acquire_concurrency-conflict turns h =
      attempts-again (acquire_attempt p scope group m registered) turns 5 0
        (λ k lt. forestalled-again (turns k) (h k lt))
